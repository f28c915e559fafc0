-- ===== src/Users/Refusing.antt =====
-- What an operation on users leaves where it throws: the state as it was, since every check comes before
-- the first write, and nothing after it throws.
use cli_server_node.Common.{Bool, Option, Text, ◌≡◌, refl}
use cli_server_node.Users.{User, CreateUserDto, UpdateUserDto, UsersState, Env, UsersError}
use cli_server_node.Users.Json.{Fields}
use cli_server_node.Users.Actions.{Result, ok, err, Action, ◌>>=◌}
use cli_server_node.Users.Stores
use cli_server_node.Users.Stores.{store_clash}
use cli_server_node.Users.Directory
use cli_server_node.Users.Directory.{Caller}
use cli_server_node.Users.Laws.{Reads, bind_elim, reads_bind, when-Reads, or_raise-Reads}
use cli_server_node.Users.Reading
use cli_server_node.Users.Returning.{
  Returns, Returns-bind, Returns-when, Returns-for_some, Returns-pure, audit-Returns,
  publish_user_event-Returns, set_password-Returns, revoke_user_sessions-Returns,
  delete_credentials-Returns, delete_user_tokens-Returns,
}

-- An outcome that is an error has the state that there was.
abbrev pub Clean : {A : Type 0} → UsersState → Result A × UsersState → Type 0
Clean s q = (e : UsersError) → q.0 ≡ err e → q.1 ≡ s

-- The outcome is a value.
abbrev pub Given : {A : Type 0} → Result A × UsersState → Type 0
Given {A} q = (a : A) × (q.0 ≡ ok a)

pub Given-Clean : {A : Type 0} (s : UsersState) (q : Result A × UsersState) → Given q → Clean s q
Given-Clean s q (a, h) e k = absurd (cc (h, k))

-- A chain whose first part only reads, from where that part returned.
pub Clean-bind :
    {A B : Type 0} (m : Action A) (f : A → Action B) (env : Env) (s : UsersState)
    → Reads m
    → ((a : A) → (m env s).0 ≡ ok a → Clean s (f a env s))
    → Clean s ((m >>= f) env s)
Clean-bind m f env s r h = reads_bind m f env s (Clean s) r (λ e q e' k. refl) h

-- A chain whose second part always returns.
pub Clean-then :
    {A B : Type 0} (m : Action A) (f : A → Action B) (env : Env) (s : UsersState)
    → Clean s (m env s)
    → ((a : A) → Returns (f a))
    → Clean s ((m >>= f) env s)
Clean-then m f env s c r =
    bind_elim m f env s (Clean s) (λ e q e' k. c e q)
      (λ a q. Given-Clean s (f a env (m env s).1) (r a env (m env s).1))

-- A chain whose parts always return.
pub Returns-bind-Clean :
    {A B : Type 0} (m : Action A) (f : A → Action B) (env : Env) (s : UsersState)
    → Returns m
    → ((a : A) → Returns (f a))
    → Clean s ((m >>= f) env s)
Returns-bind-Clean m f env s r h = Given-Clean s ((m >>= f) env s) (Returns-bind m f r h env s)

store_create_user-Clean :
    (dto : CreateUserDto) (env : Env) (s : UsersState)
    → Clean s (Stores.store_create_user dto env s)
unfolding Stores.store_create_user
store_create_user-Clean dto env s =
    Clean-bind _ _ env s (λ env s. refl)
      λ users q. Clean-bind _ _ env s (Reading.refuse-Reads _) λ _ q.
        Returns-bind-Clean _ _ env s (λ env s. (_, refl))
          λ u. Returns-bind _ _ (λ env s. (tt, refl)) λ _. Returns-pure u

pub store_update_user-Clean :
    (id : Text) (dto : UpdateUserDto) (env : Env) (s : UsersState)
    → Clean s (Stores.store_update_user id dto env s)
unfolding Stores.store_update_user
store_update_user-Clean id dto env s =
    Clean-bind _ _ env s (λ env s. refl)
      λ stored q. Clean-bind _ _ env s (or_raise-Reads stored _) λ user q.
        Clean-bind _ _ env s (λ env s. refl)
          λ users q. Clean-bind _ _ env s (Reading.refuse-Reads _) λ _ q.
            Returns-bind-Clean _ _ env s (λ env s. (_, refl))
              λ u. Returns-bind _ _ (λ env s. (tt, refl)) λ _. Returns-pure u

add_user-Clean :
    (dto : CreateUserDto) (password : Option Text) (caller : Caller) (env : Env) (s : UsersState)
    → Clean s (Directory.add_user dto password caller env s)
unfolding Directory.add_user
add_user-Clean dto password caller env s =
    Clean-then _ _ env s (store_create_user-Clean dto env s) λ u.
      Returns-bind _ _ (Returns-for_some password _ (λ text. set_password-Returns u.id text)) λ _.
        Returns-bind _ _ (audit-Returns _)
          λ _. Returns-bind _ _ (publish_user_event-Returns _ u caller) λ _. Returns-pure u

pub create_user-Clean :
    (body : Fields) (caller : Caller) (external : Bool) (env : Env) (s : UsersState)
    → Clean s (Directory.create_user body caller external env s)
unfolding Directory.create_user
create_user-Clean body caller external env s =
    Clean-bind _ _ env s (Reading.required_string-Reads body _) λ name_in q.
      Clean-bind _ _ env s (Reading.validate_name-Reads name_in _) λ name q.
        Clean-bind _ _ env s (Reading.required_string-Reads body _) λ email_in q.
          Clean-bind _ _ env s (Reading.validate_email-Reads email_in) λ email q.
            Clean-bind _ _ env s (Reading.read_details-Reads body) λ details q.
              Clean-bind _ _ env s (Reading.password_given-Reads external _ _) λ password q.
                Clean-bind _ _ env s (Reading.resolve_groups-Reads _) λ groups q.
                  Clean-bind _ _ env s
                    (when-Reads _ _ (Reading.assert_can_add_groups-Reads caller groups))
                    λ _ q.
                      Clean-bind _ _ env s (Reading.assert_unique_user-Reads _ _ _)
                        λ _ q. add_user-Clean _ password caller env s

change_user-Clean :
    (t : User) (dto : UpdateUserDto) (caller : Caller) (env : Env) (s : UsersState)
    → Clean s (Directory.change_user t dto caller env s)
unfolding Directory.change_user
change_user-Clean t dto caller env s =
    Clean-then _ _ env s (store_update_user-Clean t.id dto env s) λ u.
      Returns-bind _ _
        (Returns-when _ _
          (Returns-bind _ _ (revoke_user_sessions-Returns t.id _ _) (λ _. Returns-pure tt)))
        λ _. Returns-bind _ _ (Returns-when _ _ (audit-Returns _)) λ _.
          Returns-bind _ _ (Returns-when _ _ (audit-Returns _)) λ _.
            Returns-bind _ _ (Returns-when _ _ (publish_user_event-Returns _ u caller))
              λ _. Returns-pure u

pub update_user-Clean :
    (t : User) (body : Fields) (caller : Caller) (env : Env) (s : UsersState)
    → Clean s (Directory.update_user t body caller env s)
unfolding Directory.update_user
update_user-Clean t body caller env s =
    Clean-bind _ _ env s (Reading.optional_string-Reads body _) λ name_in q.
      Clean-bind _ _ env s (Reading.checked-Reads _ (λ a. Reading.validate_name-Reads a _) name_in)
        λ name q. Clean-bind _ _ env s (Reading.optional_string-Reads body _) λ email_in q.
          Clean-bind _ _ env s (Reading.checked-Reads _ Reading.validate_email-Reads email_in)
            λ email q. Clean-bind _ _ env s (Reading.read_details-Reads body) λ d q.
              Clean-bind _ _ env s (Reading.resolved-Reads d.groups_in) λ gs q.
                Clean-bind _ _ env s (Reading.assert_can_update-Reads t name email d gs caller)
                  λ _ q. change_user-Clean t _ caller env s

drop_user-Returns : (t : User) (caller : Caller) → Returns (Directory.drop_user t caller)
unfolding Directory.drop_user Directory.drop_tokens Stores.store_delete_user
drop_user-Returns t caller =
    Returns-bind _ _ (λ env s. (tt, refl))
      λ _. Returns-bind _ _ (delete_credentials-Returns t.id) λ _.
        Returns-bind _ _ (revoke_user_sessions-Returns t.id _ _) λ _.
          Returns-bind _ _ (delete_user_tokens-Returns t.id _)
            λ _. Returns-bind _ _ (audit-Returns _) λ _. publish_user_event-Returns _ t caller

pub delete_user-Clean :
    (t : User) (caller : Caller) (env : Env) (s : UsersState)
    → Clean s (Directory.delete_user t caller env s)
unfolding Directory.delete_user
delete_user-Clean t caller env s =
    Clean-bind _ _ env s (λ env s. refl)
      λ _ q. Clean-bind _ _ env s (Reading.assert_can_act_on-Reads caller t) λ _ q.
        Clean-bind _ _ env s (Reading.is_last_enabled_admin-Reads t) λ l q.
          Clean-bind _ _ env s (λ env s. refl)
            λ _ q.
              Given-Clean s (Directory.drop_user t caller env s) (drop_user-Returns t caller env s)
