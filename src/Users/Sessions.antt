-- ===== src/Users/Sessions.antt =====
-- plugins/users/services/auth-service.ts: sign-in, sign-out and the sessions of users.
use cli_server_node.Common.{
  ℕ, ◌+◌, Bool, true, false, not, ◌||◌, ◌&&◌, Option, none, some, List, [], ◌∷◌, ◌++◌, Text, codes,
  text_eq, Map, map_update, ltb, if◌then◌else◌, filter, length, min,
}
use mathlib.Core.Option
use cli_server_node.Users.{
  User, UpdateUserDto, Session, SessionMetadata, TicketEntry, Env, UsersError, http, session_ended,
  access_changed, Audience, kicked,
}
use cli_server_node.Users.Actions.{
  Action, Done, done, pure, raise, asks, modify, when, for_some, for_each, ◌>>=◌, ◌>>◌,
  unauthorized, audit, entry_of, publish_event, emit_session_event, tell, hash_token,
}
use cli_server_node.Users.Stores.{
  is_id, get_user, store_update_user, create_session, get_session, get_session_by_id,
  get_active_sessions, delete_session, delete_session_by_id, update_last_activity, cleanup,
}
use cli_server_node.Users.Access.{
  find_user, verify_password_with_lockout, get_effective_permissions, property, PasswordAttempt,
}

abbrev pub no_changes : UpdateUserDto
no_changes = record {
  name = none;
  email = none;
  groups = none;
  disabled = none;
  must_change_password = none;
  home_dir = none;
  user_data = none;
  last_login_at = none;
}

abbrev pub for_holders : Text → Audience
for_holders permission = record { permission = some permission; user_id = none }

abbrev pub sessions_read : Text
sessions_read = codes "sessions:read"

abbrev pub name_or : Option User → Text → Text
name_or none name = name
name_or (some u) name = u.name

-- `publishSessionClosed`, which looks the user's name up where it is not given.
unfoldable pub publish_session_closed : Session → Option Text → Action Done
publish_session_closed x username = do
  user ← get_user x.user_id
  publish_event (codes "session:closed")
      ((codes "userId", x.user_id)
        ∷ (codes "username", Option.get_or username (name_or user x.user_id))
        ∷ (codes "sessionId", x.id)
        ∷ [])
      (for_holders sessions_read)

-- `session-ended`
abbrev pub end_session : Session → Text → Bool → Action Done
end_session x reason revoked = emit_session_event (
    session_ended
      (record { session_id = x.id; user_id = x.user_id; reason = reason; revoked = revoked }))

-- The payload that a sign-in returns, without the serialization of the user.
pub record LoginResult : Type 0 where
  pub token : Text
  pub session : Session
  pub user : User
  pub permissions : List Text
  pub expires_at : ℕ

unfoldable pub expires_at : Env → Session → ℕ
expires_at env x =
    min (x.last_activity + env.session_timeout_ms) (x.created_at + env.max_session_lifetime_ms)

abbrev pub is_expired : Env → Session → Bool
is_expired env x = ltb (expires_at env x) env.now

abbrev pub invalid_credentials : UsersError
invalid_credentials = unauthorized (codes "invalid credentials")

abbrev pub user_if_valid : Option User → Bool → Action User
user_if_valid none valid = raise invalid_credentials
user_if_valid (some u) false = raise invalid_credentials
user_if_valid (some u) true = pure u

-- The part of `login` after the checks: the session is opened.
unfoldable pub open_session : User → SessionMetadata → Action LoginResult
open_session user metadata = do
  now ← asks (λ env. env.now)
  live ← store_update_user user.id (record no_changes { last_login_at = some now })
  token ← asks (λ env. env.crypto.hex env.random)
  token_hash ← asks (λ env. hash_token env.crypto token)
  x ← create_session user.id token_hash metadata
  audit (record (entry_of (codes "login") user.name) {
    user_id = some user.id;
    details = some (codes "Login successful");
    metadata = property "remoteAddress" metadata.remote_address ++ property "sessionId" (some x.id);
  })
  publish_event (codes "session:opened")
      ((codes "userId", user.id) ∷ (codes "username", user.name) ∷ (codes "sessionId", x.id) ∷ [])
      (for_holders sessions_read)
  permissions ← get_effective_permissions live
  expires ← asks (λ env. expires_at env x)
  pure (record {
    token = token;
    session = x;
    user = live;
    permissions = permissions;
    expires_at = expires;
  })

abbrev pub refuse_disabled : User → SessionMetadata → Action Done
refuse_disabled user metadata = do
  audit (record (entry_of (codes "login_failed") user.name) {
    user_id = some user.id;
    details = some (codes "Account disabled");
    metadata = property "remoteAddress" metadata.remote_address;
  })
  raise (http 403 (codes "account disabled"))

-- The part of `login` after the password was right.
unfoldable pub open_unless_disabled : User → SessionMetadata → Action LoginResult
open_unless_disabled user metadata = do
  when user.disabled (refuse_disabled user metadata)
  open_session user metadata

-- The attempt of a sign-in.
abbrev pub sign_in_attempt : Text → SessionMetadata → PasswordAttempt
sign_in_attempt username metadata = record {
  attempted_name = some username;
  actor = none;
  actor_id = none;
  remote_address = metadata.remote_address;
  details = none;
}

unfoldable pub login : Text → Text → SessionMetadata → Action LoginResult
unfolding open_session open_unless_disabled
login username password metadata = do
  found ← find_user username
  valid ← verify_password_with_lockout found password (sign_in_attempt username metadata)
  user ← user_if_valid found valid
  open_unless_disabled user metadata

abbrev pub signed_out : Session → Action Done
signed_out x = do
  end_session x (codes "logout") false
  user ← get_user x.user_id
  audit (record (entry_of (codes "logout") (name_or user x.user_id)) {
    user_id = some x.user_id;
    details = some (codes "User logged out");
    metadata = property "sessionId" (some x.id);
  })
  publish_session_closed x (Option.map (λ (u : User). u.name) user)

unfoldable pub logout : Text → Action Done
logout token_hash = do
  found ← get_session token_hash
  delete_session token_hash
  for_some found signed_out

-- A session that is dropped while it is checked, with the error that is thrown.
abbrev pub drop_session : {A : Type 0} → Session → Text → Option Text → Text → Action A
drop_session x reason username message = do
  delete_session x.token_hash
  end_session x reason false
  publish_session_closed x username
  raise (unauthorized message)

-- The user that was found by an id, unless missing, found by a name, or disabled.
abbrev pub available : Text → Option User → Option User
available id none = none
available id (some u) = if not (text_eq u.id id) || u.disabled then none else some u

abbrev pub with_permissions : User → Action (User × List Text)
with_permissions user = get_effective_permissions user >>= λ ps. pure (user, ps)

abbrev pub valid_for : Session → Option User → Option User → Action (User × List Text)
valid_for x found none =
    drop_session x (codes "user unavailable") (Option.map (λ (u : User). u.name) found)
      (codes "invalid or expired token")
valid_for x found (some user) = with_permissions user

abbrev pub unless_expired : Session → Bool → Action (User × List Text)
unless_expired x true = drop_session x (codes "session expired") none (codes "session expired")
unless_expired x false = do
  found ← get_user x.user_id
  valid_for x found (available x.user_id found)

unfoldable pub validate_session : Session → Action (User × List Text)
unfolding expires_at
validate_session x = asks (λ env. is_expired env x) >>= λ expired. unless_expired x expired

abbrev pub drop_if : Session → Bool → List Session → Action (List Session)
drop_if x false live = pure (x ∷ live)
drop_if x true live = pure live

-- The loop of `listSessions`.
unfoldable pub drop_expired : List Session → Action (List Session)
unfolding expires_at
drop_expired [] = pure []
drop_expired (x ∷ xs) = do
  expired ← asks (λ env. is_expired env x)
  when expired (
      delete_session x.token_hash
      >> end_session x (codes "session expired") false
      >> publish_session_closed x none)
  live ← drop_expired xs
  drop_if x expired live

unfoldable pub list_sessions : Action (List Session)
unfolding drop_expired
list_sessions = get_active_sessions >>= drop_expired

abbrev pub kicked_message : Session → Text → Map Text
kicked_message x reason =
    (codes "sessionId", x.id) ∷ (codes "userId", x.user_id) ∷ (codes "reason", reason) ∷ []

-- Who revokes sessions, and of whom.
pub record Revocation : Type 0 where
  pub actor : Option Text
  pub actor_id : Option Text
  pub except_session_id : Option Text
  pub user_name : Option Text

-- What the revocation of a session tells, once it is deleted.
unfoldable pub tell_revoked : Session → Text → Revocation → Action Done
tell_revoked x reason by = do
  end_session x reason true
  user ← get_user x.user_id
  let name = Option.get_or by.user_name (name_or user x.user_id)
  audit (record (entry_of (codes "session_revoked") name) {
    user_id = some x.user_id;
    actor = by.actor;
    actor_id = by.actor_id;
    details = some reason;
    metadata = property "sessionId" (some x.id);
  })
  broadcast ← asks (λ env. env.has_broadcast)
  when broadcast (tell (kicked (kicked_message x reason)))
  when (not broadcast) (
      publish_event (codes "session-kicked") (kicked_message x reason)
        (record { permission = none; user_id = some x.user_id }))
  publish_session_closed x (some name)

unfoldable pub revoke_session : Session → Text → Revocation → Action Done
unfolding tell_revoked
revoke_session x reason by = delete_session_by_id x.id >> tell_revoked x reason by

abbrev pub is_revoked_of : Text → Option Text → Session → Bool
is_revoked_of user_id except x = text_eq x.user_id user_id && not (is_id except x.id)

unfoldable pub revoke_user_sessions : Text → Text → Revocation → Action ℕ
unfolding revoke_session
revoke_user_sessions user_id reason by = do
  all_sessions ← get_active_sessions
  let revoked = filter (is_revoked_of user_id by.except_session_id) all_sessions
  for_each (λ x. revoke_session x reason by) revoked
  pure (length revoked)

-- `sweepTickets`
unfoldable pub sweep_tickets : Action Done
sweep_tickets = do
  now ← asks (λ env. env.now)
  modify (λ s. record s {
    tickets =
        map_update (λ (t : TicketEntry). if ltb t.expires_at now then none else some t) s.tickets;
  })

unfoldable pub cleanup_expired_sessions : Action Done
unfolding list_sessions sweep_tickets
cleanup_expired_sessions = do
  list_sessions
  timeout ← asks (λ env. env.session_timeout_ms)
  cleanup timeout
  sweep_tickets
  emit_session_event (access_changed none)

abbrev pub slide : Option Session → Bool → Action Done
slide none expired = done
slide (some x) true = done
slide (some x) false = update_last_activity x.token_hash

abbrev pub expired_if_found : Env → Option Session → Bool
expired_if_found env none = false
expired_if_found env (some x) = is_expired env x

unfoldable pub touch_session : Text → Action Done
unfolding expires_at
touch_session session_id = do
  found ← get_session_by_id session_id
  expired ← asks (λ env. expired_if_found env found)
  slide found expired
