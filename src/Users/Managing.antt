-- ===== src/Users/Managing.antt =====
-- The management of users makes only changes that the directory allows: createUser, updateUser and
-- deleteUser from the request's body to the store.
use cli_server_node.Common.{
  ℕ, Bool, true, false, not, ◌&&◌, Option, none, some, List, Text, Map, map_get, map_values, ◌≡◌,
  refl, sym, subst, ◌∙◌, arith,
}
use mathlib.Core.Option
use cli_server_node.Permissions.{in_group, admin_group}
use cli_server_node.Users.{User, Group, CreateUserDto, UpdateUserDto, UsersState, Env, UsersError}
use cli_server_node.Users.Json.{Fields}
use cli_server_node.Users.Actions.{refuse, Result, ok, Action, ◌>>=◌}
use cli_server_node.Users.Stores.{updated_user, given_or}
use cli_server_node.Users.Directory
use cli_server_node.Users.Directory.{
  Caller, Details, user_clash, is_enabled_admin, is_last_of, names_of, leaves_admin, is_true,
  nothing_new,
}
use cli_server_node.Users.Laws.{
  bind_elim, reads_bind, Reads-returned, bind-Keeps, when-Keeps, for_some-Keeps, for_some-Reads,
  when-Reads, raise_if_returned,
}
use cli_server_node.Users.Reading
use cli_server_node.Users.Outside.{
  OfUsers, audit-users, publish_user_event-users, revoke_user_sessions-users, set_password-users,
  delete_credentials-users, delete_user_tokens-users,
}
use cli_server_node.Users.Changes.{Changes, unchanged}
use cli_server_node.Users.Stored.{
  store_create_user-Changes, store_update_user-Changes, store_delete_user-Changes,
}

-- The users after an outcome have been changed as the directory allows.
abbrev pub Allowed : {A : Type 0} → Map User → Result A × UsersState → Type 0
Allowed users q = Changes users q.1.users

refuse_returned :
    (o : Option UsersError) (env : Env) (s : UsersState) → (refuse o env s).0 ≡ ok tt → o ≡ none
refuse_returned none env s h = refl
refuse_returned (some e) env s h = cc

pub assert_unique_user_returned :
    (name email except : Option Text) (env : Env) (s : UsersState)
    → (Directory.assert_unique_user name email except env s).0 ≡ ok tt
    → user_clash name email except (map_values s.users) ≡ none
unfolding Directory.assert_unique_user ◌>>=◌
assert_unique_user_returned name email except env s h = refuse_returned _ env s h

pub add_user-Changes :
    (dto : CreateUserDto) (password : Option Text) (caller : Caller) (env : Env) (s : UsersState)
    → map_get env.new_id s.users ≡ none
    → user_clash (some dto.name) (some dto.email) none (map_values s.users) ≡ none
    → Allowed s.users (Directory.add_user dto password caller env s)
unfolding Directory.add_user
add_user-Changes dto password caller env s fresh clash =
    let I : Map User → Type 0 = Changes s.users in
    let base = store_create_user-Changes dto env s fresh clash in
    bind_elim _ _ env s (Allowed s.users) (λ e q. base)
      (λ u q.
        bind-Keeps (OfUsers I) _ _
          (for_some-Keeps (OfUsers I) password _ (λ text. set_password-users I u.id text))
          (λ _. bind-Keeps (OfUsers I) _ _ (audit-users I _) (λ _.
            bind-Keeps (OfUsers I) _ _ (publish_user_event-users I _ u caller) (λ _ env s p. p)))
          env _ base)

-- The rest of a chain whose first part only reads, from where that part returned.
pub Allowed-bind :
    {A B : Type 0} (m : Action A) (f : A → Action B) (env : Env) (s : UsersState)
    → ((env : Env) (s : UsersState) → (m env s).1 ≡ s)
    → ((a : A) → (m env s).0 ≡ ok a → Allowed s.users (f a env s))
    → Allowed s.users ((m >>= f) env s)
Allowed-bind m f env s r h = reads_bind m f env s (Allowed s.users) r (λ e q. unchanged refl) h

pub create_user-Changes :
    (body : Fields) (caller : Caller) (external : Bool) (env : Env) (s : UsersState)
    → map_get env.new_id s.users ≡ none
    → Allowed s.users (Directory.create_user body caller external env s)
unfolding Directory.create_user
create_user-Changes body caller external env s fresh =
    Allowed-bind _ _ env s (Reading.required_string-Reads body _) λ name_in q.
      Allowed-bind _ _ env s (Reading.validate_name-Reads name_in _) λ name q.
        Allowed-bind _ _ env s (Reading.required_string-Reads body _) λ email_in q.
          Allowed-bind _ _ env s (Reading.validate_email-Reads email_in) λ email q.
            Allowed-bind _ _ env s (Reading.read_details-Reads body) λ details q.
              Allowed-bind _ _ env s (Reading.password_given-Reads external _ _) λ password q.
                Allowed-bind _ _ env s (Reading.resolve_groups-Reads _) λ groups q.
                  Allowed-bind _ _ env s
                    (when-Reads _ _ (Reading.assert_can_add_groups-Reads caller groups))
                    λ _ q. Allowed-bind _ _ env s (Reading.assert_unique_user-Reads _ _ _) λ _ q.
                      add_user-Changes _ password caller env s fresh
                        (assert_unique_user_returned _ _ _ env s q)

pub last_returned :
    (t : User) (env : Env) (s : UsersState) (l : Bool)
    → (Directory.is_last_enabled_admin t env s).0 ≡ ok l
    → is_last_of t (map_values s.users) ≡ l
unfolding Directory.is_last_enabled_admin ◌>>=◌
last_returned t env s l h = cc

-- What the checks of an update establish.
assert_can_update_returned :
    (t : User) (name email : Option Text) (d : Details) (gs : Option (List Group)) (caller : Caller)
    (env : Env) (s : UsersState)
    → (Directory.assert_can_update t name email d gs caller env s).0 ≡ ok tt
    → (user_clash name email (some t.id) (map_values s.users) ≡ none)
      × ((is_last_of t (map_values s.users) && is_true d.disabled) ≡ false)
      × ((is_last_of t (map_values s.users) && leaves_admin gs) ≡ false)
unfolding Directory.assert_can_update
assert_can_update_returned t name email d gs caller env s h =
    let (_, _, h) =
      Reads-returned _ _ env s tt (when-Reads _ _ (Reading.assert_can_act_on-Reads caller t)) h in
    let (_, _, h) =
      Reads-returned _ _ env s tt
        (for_some-Reads gs _ (λ g. Reading.assert_can_add_groups-Reads caller _)) h in
    let (_, unique, h) =
      Reads-returned _ _ env s tt (Reading.assert_unique_user-Reads name email (some t.id)) h in
    let (l, last, h) = Reads-returned _ _ env s tt (Reading.is_last_enabled_admin-Reads t) h in
    let (_, stays, h) = Reads-returned _ _ env s tt (λ env s. refl) h in
    let is_l : is_last_of t (map_values s.users) ≡ l = last_returned t env s l last in
    (
      assert_unique_user_returned name email (some t.id) env s unique,
      subst (λ x. (x && is_true d.disabled) ≡ false) (sym is_l) (raise_if_returned _ _ env s stays),
      subst (λ x. (x && leaves_admin gs) ≡ false) (sym is_l) (raise_if_returned _ _ env s h),
    )

stays_enabled :
    (o : Option Bool) (b : Bool) → is_true o ≡ false → not b ≡ true → not (given_or o b) ≡ true
stays_enabled none b h k = k
stays_enabled (some c) b h k = ground arith

stays_inside :
    (gs : Option (List Group)) (old : List Text)
    → leaves_admin gs ≡ false
    → in_group (some old) admin_group ≡ true
    → in_group (some (given_or (Option.map names_of gs) old)) admin_group ≡ true
stays_inside none old h k = k
stays_inside (some g) old h k = ground arith

-- An update that neither disables an enabled admin nor takes it out of `admin` keeps it one.
kept_admin :
    (t : User) (dto : UpdateUserDto) (gs : Option (List Group)) (now : ℕ)
    → dto.groups ≡ Option.map names_of gs
    → is_true dto.disabled ≡ false
    → leaves_admin gs ≡ false
    → is_enabled_admin t ≡ true
    → is_enabled_admin (updated_user now dto t) ≡ true
kept_admin t dto gs now e stays inside admin =
    subst
      (λ o.
        (not (given_or dto.disabled t.disabled)
          && in_group (some (given_or o t.groups)) admin_group)
        ≡ true)
      (sym e)
      (ground (
        arith,
        stays_enabled dto.disabled t.disabled stays (ground arith),
        stays_inside gs t.groups inside (ground arith),
      ))

-- The change of a stored user, and all that follows it.
pub change_user-Changes :
    (t : User) (dto : UpdateUserDto) (caller : Caller) (env : Env) (s : UsersState)
    → map_get t.id s.users ≡ some t
    → user_clash dto.name dto.email (some t.id) (map_values s.users) ≡ none
    → (is_last_of t (map_values s.users) ≡ true
        → is_enabled_admin (updated_user env.now dto t) ≡ true)
    → Allowed s.users (Directory.change_user t dto caller env s)
unfolding Directory.change_user
change_user-Changes t dto caller env s at clash last =
    let I : Map User → Type 0 = Changes s.users in
    let base = store_update_user-Changes t dto env s at clash last in
    bind_elim _ _ env s (Allowed s.users) (λ e q. base)
      (λ u q.
        bind-Keeps (OfUsers I) _ _
          (when-Keeps (OfUsers I) _ _
            (bind-Keeps (OfUsers I) _ _ (revoke_user_sessions-users I t.id _ _) (λ _ env s p. p)))
          (λ _. bind-Keeps (OfUsers I) _ _ (when-Keeps (OfUsers I) _ _ (audit-users I _)) (λ _.
            bind-Keeps (OfUsers I) _ _ (when-Keeps (OfUsers I) _ _ (audit-users I _)) (λ _.
              bind-Keeps (OfUsers I) _ _
                (when-Keeps (OfUsers I) _ _ (publish_user_event-users I _ u caller))
                (λ _ env s p. p))))
          env _ base)

pub update_user-Changes :
    (t : User) (body : Fields) (caller : Caller) (env : Env) (s : UsersState)
    → map_get t.id s.users ≡ some t
    → Allowed s.users (Directory.update_user t body caller env s)
unfolding Directory.update_user
update_user-Changes t body caller env s at =
    Allowed-bind _ _ env s (Reading.optional_string-Reads body _) λ name_in q.
      Allowed-bind _ _ env s
        (Reading.checked-Reads _ (λ a. Reading.validate_name-Reads a _) name_in)
        λ name q. Allowed-bind _ _ env s (Reading.optional_string-Reads body _) λ email_in q.
          Allowed-bind _ _ env s (Reading.checked-Reads _ Reading.validate_email-Reads email_in)
            λ email q. Allowed-bind _ _ env s (Reading.read_details-Reads body) λ d q.
              Allowed-bind _ _ env s (Reading.resolved-Reads d.groups_in) λ gs q.
                Allowed-bind _ _ env s (Reading.assert_can_update-Reads t name email d gs caller)
                  λ _ q.
                    let (unique, enabled, inside) =
                      assert_can_update_returned t name email d gs caller env s q in
                    change_user-Changes t (Directory.update_of name email d gs) caller env s at
                      unique
                      (λ last.
                        kept_admin t (Directory.update_of name email d gs) gs env.now refl
                          (ground (arith, enabled, last)) (ground (arith, inside, last))
                          (ground (arith, last)))

pub drop_user-Changes :
    (t : User) (caller : Caller) (env : Env) (s : UsersState)
    → map_get t.id s.users ≡ some t
    → is_last_of t (map_values s.users) ≡ false
    → Allowed s.users (Directory.drop_user t caller env s)
unfolding Directory.drop_user Directory.drop_tokens
drop_user-Changes t caller env s at last =
    let I : Map User → Type 0 = Changes s.users in
    let base = store_delete_user-Changes t env s at last in
    bind_elim _ _ env s (Allowed s.users) (λ e q. base)
      (λ _ q.
        bind-Keeps (OfUsers I) _ _ (delete_credentials-users I t.id)
          (λ _. bind-Keeps (OfUsers I) _ _ (revoke_user_sessions-users I t.id _ _) (λ _.
            bind-Keeps (OfUsers I) _ _ (delete_user_tokens-users I t.id _) (λ _.
              bind-Keeps (OfUsers I) _ _ (audit-users I _)
                (λ _. publish_user_event-users I _ t caller))))
          env _ base)

pub delete_user-Changes :
    (t : User) (caller : Caller) (env : Env) (s : UsersState)
    → map_get t.id s.users ≡ some t
    → Allowed s.users (Directory.delete_user t caller env s)
unfolding Directory.delete_user
delete_user-Changes t caller env s at =
    Allowed-bind _ _ env s (λ env s. refl)
      λ _ q. Allowed-bind _ _ env s (Reading.assert_can_act_on-Reads caller t) λ _ q.
        Allowed-bind _ _ env s (Reading.is_last_enabled_admin-Reads t) λ l is_l.
          Allowed-bind _ _ env s (λ env s. refl)
            λ _ q.
              drop_user-Changes t caller env s at
                (last_returned t env s l is_l ∙ raise_if_returned l _ env s q)
