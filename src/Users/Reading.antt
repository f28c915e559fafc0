-- ===== src/Users/Reading.antt =====
-- The operations that only read the state: lookups, validation and checks.
use cli_server_node.Common.{
  ℕ, Bool, true, false, Option, none, some, List, [], ◌∷◌, Text, String, refl, arith,
}
use cli_server_node.Users.{User, Group, UsersError}
use cli_server_node.Users.Json.{Json, null, boolean, number, string, array, object, Fields}
use cli_server_node.Users.Actions.{refuse, Action, ◌>>=◌}
use cli_server_node.Users.Stores.{get_user, get_group}
use cli_server_node.Users.Validation
use cli_server_node.Users.Access.{
  validate_password, group_permissions, get_effective_permissions, permissions_with,
}
use cli_server_node.Users.Directory
use cli_server_node.Users.Laws.{Reads, bind-Reads, when-Reads, for_some-Reads, or_raise-Reads}

pub validate_name-Reads : (v n : Text) → Reads (Validation.validate_name v n)
unfolding Validation.validate_name ◌>>=◌
validate_name-Reads v n env s = ground arith

pub validate_email-Reads : (v : Text) → Reads (Validation.validate_email v)
unfolding Validation.validate_email ◌>>=◌
validate_email-Reads v env s = ground arith

pub validate_free_text-Reads :
    (v n : Text) (max : ℕ) (t : String) → Reads (Validation.validate_free_text v n max t)
unfolding Validation.validate_free_text ◌>>=◌
validate_free_text-Reads v n max t env s = ground arith

pub validate_data-Reads : (v : Fields) → Reads (Validation.validate_data v)
unfolding Validation.validate_data ◌>>=◌
validate_data-Reads v env s = ground arith

pub checked-Reads :
    {A : Type 0} (check : A → Action A)
    → ((a : A) → Reads (check a))
    → (o : Option A) → Reads (Validation.checked check o)
checked-Reads check r none env s = refl
checked-Reads check r (some a) env s = bind-Reads _ _ (r a) (λ b env s. refl) env s

required_text-Reads : (n : Text) (o : Option Json) → Reads (Validation.required_text n o)
required_text-Reads n none env s = refl
required_text-Reads n (some null) env s = refl
required_text-Reads n (some (boolean b)) env s = refl
required_text-Reads n (some (number t)) env s = refl
required_text-Reads n (some (string t)) env s =
    bind-Reads _ _ (λ env s. refl) (λ b env s. refl) env s
required_text-Reads n (some (array t)) env s = refl
required_text-Reads n (some (object t)) env s = refl

pub required_string-Reads : (b : Fields) (n : Text) → Reads (Validation.required_string b n)
unfolding Validation.required_string
required_string-Reads b n = required_text-Reads n _

optional_text-Reads : (n : Text) (o : Option Json) → Reads (Validation.optional_text n o)
optional_text-Reads n none env s = refl
optional_text-Reads n (some null) env s = refl
optional_text-Reads n (some (boolean b)) env s = refl
optional_text-Reads n (some (number t)) env s = refl
optional_text-Reads n (some (string t)) env s = refl
optional_text-Reads n (some (array t)) env s = refl
optional_text-Reads n (some (object t)) env s = refl

pub optional_string-Reads : (b : Fields) (n : Text) → Reads (Validation.optional_string b n)
unfolding Validation.optional_string
optional_string-Reads b n = optional_text-Reads n _

texts_of-Reads : (n : Text) (o : Option Json) → Reads (Validation.texts_of n o)
texts_of-Reads n none env s = refl
texts_of-Reads n (some null) env s = refl
texts_of-Reads n (some (boolean b)) env s = refl
texts_of-Reads n (some (number t)) env s = refl
texts_of-Reads n (some (string t)) env s = refl
texts_of-Reads n (some (array t)) env s = ground arith
texts_of-Reads n (some (object t)) env s = refl

pub optional_string_array-Reads :
    (b : Fields) (n : Text) → Reads (Validation.optional_string_array b n)
unfolding Validation.optional_string_array
optional_string_array-Reads b n = texts_of-Reads n _

flag_of-Reads : (n : Text) (o : Option Json) → Reads (Validation.flag_of n o)
flag_of-Reads n none env s = refl
flag_of-Reads n (some null) env s = refl
flag_of-Reads n (some (boolean b)) env s = refl
flag_of-Reads n (some (number t)) env s = refl
flag_of-Reads n (some (string t)) env s = refl
flag_of-Reads n (some (array t)) env s = refl
flag_of-Reads n (some (object t)) env s = refl

pub optional_boolean-Reads : (b : Fields) (n : Text) → Reads (Validation.optional_boolean b n)
unfolding Validation.optional_boolean
optional_boolean-Reads b n = flag_of-Reads n _

fields_of-Reads : (n : Text) (o : Option Json) → Reads (Validation.fields_of n o)
fields_of-Reads n none env s = refl
fields_of-Reads n (some null) env s = refl
fields_of-Reads n (some (boolean b)) env s = refl
fields_of-Reads n (some (number t)) env s = refl
fields_of-Reads n (some (string t)) env s = refl
fields_of-Reads n (some (array t)) env s = refl
fields_of-Reads n (some (object t)) env s = refl

pub optional_object-Reads : (b : Fields) (n : Text) → Reads (Validation.optional_object b n)
unfolding Validation.optional_object
optional_object-Reads b n = fields_of-Reads n _

pub body_of-Reads : (o : Option Json) → Reads (Validation.body_of o)
unfolding Validation.body_of
body_of-Reads none env s = refl
body_of-Reads (some null) env s = refl
body_of-Reads (some (boolean b)) env s = refl
body_of-Reads (some (number t)) env s = refl
body_of-Reads (some (string [])) env s = refl
body_of-Reads (some (string (c ∷ t))) env s = refl
body_of-Reads (some (array t)) env s = refl
body_of-Reads (some (object t)) env s = refl

check_permissions-Reads : (ps : List Text) → Reads (Validation.check_permissions ps)
unfolding Validation.check_permissions ◌>>=◌
check_permissions-Reads [] env s = refl
check_permissions-Reads (p ∷ ps) env s = ground (arith, check_permissions-Reads ps env s)

pub validate_permissions-Reads : (ps : List Text) → Reads (Validation.validate_permissions ps)
unfolding Validation.validate_permissions
validate_permissions-Reads ps =
    bind-Reads _ _ (λ env s. refl)
      (λ a. bind-Reads _ _ (check_permissions-Reads ps) (λ b env s. refl))

pub validate_password-Reads : (o : Option Json) → Reads (validate_password o)
unfolding validate_password ◌>>=◌
validate_password-Reads none env s = refl
validate_password-Reads (some null) env s = refl
validate_password-Reads (some (boolean b)) env s = refl
validate_password-Reads (some (number t)) env s = refl
validate_password-Reads (some (string [])) env s = refl
validate_password-Reads (some (string (c ∷ t))) env s = ground arith
validate_password-Reads (some (array t)) env s = refl
validate_password-Reads (some (object t)) env s = refl

pub group_permissions-Reads : (names : List Text) → Reads (group_permissions names)
unfolding group_permissions get_group
group_permissions-Reads [] env s = refl
group_permissions-Reads (n ∷ names) env s =
    bind-Reads _ _ (λ env s. refl)
      (λ a. bind-Reads _ _ (group_permissions-Reads names) (λ b env s. refl)) env s

permissions_with-Reads : (b : Bool) (u : User) → Reads (permissions_with b u)
permissions_with-Reads true u env s =
    bind-Reads _ _ (group_permissions-Reads u.groups) (λ b env s. refl) env s
permissions_with-Reads false u env s = refl

pub get_effective_permissions-Reads : (u : User) → Reads (get_effective_permissions u)
unfolding get_effective_permissions
get_effective_permissions-Reads u = bind-Reads _ _ (λ env s. refl) (λ b. permissions_with-Reads b u)

pub get_user_or_404-Reads : (name : Text) → Reads (Directory.get_user_or_404 name)
unfolding Directory.get_user_or_404 get_user
get_user_or_404-Reads name = bind-Reads _ _ (λ env s. refl) (λ o. or_raise-Reads o _)

pub get_group_or_404-Reads : (name : Text) → Reads (Directory.get_group_or_404 name)
unfolding Directory.get_group_or_404 get_group
get_group_or_404-Reads name = bind-Reads _ _ (λ env s. refl) (λ o. or_raise-Reads o _)

resolve_groups_from-Reads :
    (out : List Group) (names : List Text) → Reads (Directory.resolve_groups_from out names)
unfolding Directory.resolve_groups_from get_group
resolve_groups_from-Reads out [] env s = refl
resolve_groups_from-Reads out (name ∷ names) env s =
    bind-Reads _ _ (λ env s. refl)
      (λ o.
        bind-Reads _ _ (or_raise-Reads o _)
          (λ g. resolve_groups_from-Reads (Directory.add_group g out) names))
      env s

pub resolve_groups-Reads : (names : List Text) → Reads (Directory.resolve_groups names)
unfolding Directory.resolve_groups
resolve_groups-Reads names = resolve_groups_from-Reads [] names

pub refuse-Reads : (o : Option UsersError) → Reads (refuse o)
refuse-Reads none env s = refl
refuse-Reads (some e) env s = refl

pub assert_unique_user-Reads :
    (name email except : Option Text) → Reads (Directory.assert_unique_user name email except)
unfolding Directory.assert_unique_user
assert_unique_user-Reads name email except =
    bind-Reads _ _ (λ env s. refl) (λ users. refuse-Reads _)

pub is_last_enabled_admin-Reads : (u : User) → Reads (Directory.is_last_enabled_admin u)
unfolding Directory.is_last_enabled_admin
is_last_enabled_admin-Reads u = bind-Reads _ _ (λ env s. refl) (λ users env s. refl)

pub assert_can_grant-Reads :
    (caller : Directory.Caller) (ps : List Text) → Reads (Directory.assert_can_grant caller ps)
unfolding Directory.assert_can_grant
assert_can_grant-Reads caller ps env s = refl

pub assert_can_add_groups-Reads :
    (caller : Directory.Caller) (gs : List Group)
    → Reads (Directory.assert_can_add_groups caller gs)
unfolding Directory.assert_can_add_groups
assert_can_add_groups-Reads caller gs =
    assert_can_grant-Reads caller (Directory.permissions_of_groups gs)

pub assert_can_act_on-Reads :
    (caller : Directory.Caller) (u : User) → Reads (Directory.assert_can_act_on caller u)
unfolding Directory.assert_can_act_on
assert_can_act_on-Reads caller u =
    when-Reads _ _ (bind-Reads _ _ (get_effective_permissions-Reads u) (λ ps env s. refl))

pub read_details-Reads : (body : Fields) → Reads (Directory.read_details body)
unfolding Directory.read_details
read_details-Reads body = bind-Reads _ _ (optional_string_array-Reads body _) (λ g.
    bind-Reads _ _ (optional_boolean-Reads body _) (λ d.
      bind-Reads _ _ (optional_string-Reads body _) (λ h.
        bind-Reads _ _ (checked-Reads _ (λ a. validate_free_text-Reads a _ _ _) h) (λ k.
          bind-Reads _ _ (optional_object-Reads body _)
            (λ x. bind-Reads _ _ (checked-Reads _ validate_data-Reads x) (λ y env s. refl))))))

pub resolved-Reads : (o : Option (List Text)) → Reads (Directory.resolved o)
resolved-Reads none env s = refl
resolved-Reads (some names) env s =
    bind-Reads _ _ (resolve_groups-Reads names) (λ gs env s. refl) env s

pub password_given-Reads :
    (x : Bool) (o : Option Json) (b : Bool) → Reads (Directory.password_given x o b)
password_given-Reads x o true env s = refl
password_given-Reads x o false env s =
    bind-Reads _ _ (λ env s. refl)
      (λ a. bind-Reads _ _ (validate_password-Reads o) (λ t env s. refl)) env s

pub assert_can_update-Reads :
    (target : User) (name email : Option Text) (d : Directory.Details) (gs : Option (List Group))
    (caller : Directory.Caller)
    → Reads (Directory.assert_can_update target name email d gs caller)
unfolding Directory.assert_can_update
assert_can_update-Reads target name email d gs caller =
    bind-Reads _ _ (when-Reads _ _ (assert_can_act_on-Reads caller target)) (λ a.
      bind-Reads _ _ (for_some-Reads gs _ (λ g. assert_can_add_groups-Reads caller _)) (λ b.
        bind-Reads _ _ (assert_unique_user-Reads _ _ _) (λ c.
          bind-Reads _ _ (is_last_enabled_admin-Reads target)
            (λ l. bind-Reads _ _ (λ env s. refl) (λ x env s. refl)))))
