-- ===== src/Users/Access.antt =====
-- plugins/users/services/auth-service.ts: passwords, their check under the lockout, and the permissions
-- of a user.
use cli_server_node.Common.{
  ℕ, Bool, true, false, not, Option, none, some, List, [], ◌∷◌, ◌++◌, Text, codes, Map, ltb, length,
  find?, String,
}
use mathlib.Core.Option
use cli_server_node.Permissions.{merge_permissions}
use cli_server_node.Lockout.{
  Lockouts, reserve_attempt, attempt_failed, attempt_succeeded, clear_lockout, user_key, name_key,
}
use cli_server_node.Audit.{AuditEntry}
use cli_server_node.Users.{User, Credentials, Group, Env, http}
use cli_server_node.Users.Json.{Json, string}
use cli_server_node.Users.Passwords.{hash_password, verify_password_hash}
use cli_server_node.Users.Actions.{
  ok, Action, Done, pure, raise, raise_if, asks, when, ◌>>=◌, ◌>>◌, bad_request, audit, entry_of,
  sanitize,
}
use cli_server_node.Users.Stores.{
  same_text, get_user, get_users, get_group, get_credentials, store_set_password,
  store_delete_credentials,
}
use cli_server_node.Users.Decimal.{decimal}

abbrev pub max_password_length : ℕ
max_password_length = 1024

-- `validatePassword`, which returns the password as a string.
abbrev pub password_text : Option Json → Action Text
password_text (some (string (c ∷ t))) = do
  min ← asks (λ env. env.min_password_length)
  raise_if (ltb (length (c ∷ t)) min)
      (bad_request (codes "password must be at least " ++ (decimal min ++ codes " characters")))
  raise_if (ltb max_password_length (length (c ∷ t)))
      (bad_request (codes "password must be at most 1024 characters"))
  pure (c ∷ t)
password_text _ = raise (bad_request (codes "password is required"))

unfoldable pub validate_password : Option Json → Action Text
validate_password password = password_text password

unfoldable pub set_password : Text → Text → Action Done
set_password user_id password = do
  encoded ← asks (λ env. hash_password env.crypto env.random password)
  store_set_password user_id encoded.hash encoded.salt

abbrev pub verified : Env → Text → Option Credentials → Bool
verified env password none = false
verified env password (some creds) =
    verify_password_hash env.crypto password creds.password_hash (some creds.salt)

unfoldable pub verify_password : Text → Text → Action Bool
verify_password user_id password = do
  creds ← get_credentials user_id
  asks (λ env. verified env password creds)

-- An operation of the lockout, on the state of the service.
abbrev pub on_lockouts : {A : Type 0} → (Lockouts → ℕ → A × Lockouts) → Action A
on_lockouts f env s =
    let (a, l) =
      f
        (record {
          max_login_attempts = env.max_login_attempts;
          lockout_ms = env.lockout_ms;
          lockouts = s.lockouts;
        })
        env.now in
    (ok a, record s { lockouts = l.lockouts })

abbrev pub on_lockouts_only : (Lockouts → ℕ → Lockouts) → Action Done
on_lockouts_only f = on_lockouts (λ l now. (tt, f l now))

unfoldable pub clear_user_lockout : Text → Action Done
clear_user_lockout user_id = on_lockouts_only (λ l now. clear_lockout l user_id)

unfoldable pub delete_credentials : Text → Action Done
unfolding clear_user_lockout
delete_credentials user_id = store_delete_credentials user_id >> clear_user_lockout user_id

-- The context of a check of a password.
pub record PasswordAttempt : Type 0 where
  pub attempted_name : Option Text
  pub actor : Option Text
  pub actor_id : Option Text
  pub remote_address : Option Text
  pub details : Option Text

-- A property of a metadata object, where it is defined.
abbrev pub property : String → Option Text → Map Text
property key none = []
property key (some v) = (codes key, v) ∷ []

abbrev pub key_of_attempt : Option User → Text → Text
key_of_attempt none attempted = name_key attempted
key_of_attempt (some u) attempted = user_key u.id

abbrev pub login_failed : Option User → Text → PasswordAttempt → Text → AuditEntry
login_failed user attempted context details =
    record (entry_of (codes "login_failed")
      (Option.get_or (Option.map (λ (u : User). u.name) user) attempted)) {
        user_id = Option.map (λ (u : User). u.id) user;
        actor = context.actor;
        actor_id = context.actor_id;
        details = some details;
        metadata = property "remoteAddress" context.remote_address;
      }

abbrev pub failure_details : Option User → PasswordAttempt → Text
failure_details none context = codes "User not found"
failure_details (some u) context = Option.get_or context.details (codes "Wrong password")

abbrev pub locked_message : Text
locked_message = codes "account locked, try again later"

-- The check of the password: `dummyVerify` is false.
abbrev pub check_of : Option User → Text → Action Bool
check_of none password = pure false
check_of (some u) password = verify_password u.id password

unfoldable pub verify_password_with_lockout : Option User → Text → PasswordAttempt → Action Bool
verify_password_with_lockout user password context = do
  let attempted =
      sanitize
        (Option.get_or context.attempted_name
          (Option.get_or (Option.map (λ (u : User). u.name) user) []))
        (some 64)
  let key = key_of_attempt user attempted
  reserved ← on_lockouts (λ l now. reserve_attempt l key now)
  when (not reserved) (
      audit (login_failed user attempted context (codes "Account locked"))
      >> raise (http 429 locked_message))
  valid ← check_of user password
  when valid (on_lockouts_only (λ l now. attempt_succeeded l key))
  when (not valid) (
      on_lockouts_only (λ l now. attempt_failed l key now)
      >> audit (login_failed user attempted context (failure_details user context)))
  pure valid

abbrev pub found_or_email : Text → List User → Option User → Option User
found_or_email name users (some u) = some u
found_or_email name users none = find? (λ u. same_text u.email name) users

-- `findUser`
unfoldable pub find_user : Text → Action (Option User)
find_user id_name_or_email = do
  found ← get_user id_name_or_email
  users ← get_users
  pure (found_or_email id_name_or_email users found)

abbrev pub given : Option Group → List (Option (List Text)) → List (Option (List Text))
given none lists = lists
given (some g) lists = some g.permissions ∷ lists

-- The permissions of the groups that are found.
unfoldable pub group_permissions : List Text → Action (List (Option (List Text)))
group_permissions [] = pure []
group_permissions (name ∷ names) = do
  group ← get_group name
  rest ← group_permissions names
  pure (given group rest)

abbrev pub permissions_with : Bool → User → Action (List Text)
permissions_with false user = pure []
permissions_with true user =
    group_permissions user.groups >>= λ lists. pure (merge_permissions lists)

unfoldable pub get_effective_permissions : User → Action (List Text)
unfolding group_permissions
get_effective_permissions user =
    asks (λ env. env.has_group_store) >>= λ has_groups. permissions_with has_groups user
