-- ===== src/Users/Tests.antt =====
-- The users plugin run on a small directory, and the theorems at it.
mod Escalation
mod Accepted
use cli_server_node.Common.{
  ℕ, zero, suc, ◌+◌, ◌-◌, true, false, not, none, some, List, [], ◌∷◌, ◌++◌, map, Text, codes, Map,
  map_get, map_set, map_delete, map_update, text_eq, length, all, ◌==◌, ◌≡◌, refl, ap, ap₂, subst,
  inl, inr, Bool-cases, if◌then◌else◌, some_injective, arith, trim, trim_start, trim_end, is_space,
  lower_code, split_on, split_on_from, starts_with, join,
}
use cli_server_node.Permissions.{
  in_group, same_name, has_permission, permission_matches, segments, segments_match,
  merge_permissions, merge_lists, merge_list, merge_one, uncovered_permissions,
}
use cli_server_node.Lockout.{clear_lockout}
use cli_server_node.Users.{User, Group, Session, AuthContext, UsersState, Env, http}
use cli_server_node.Users.Json.{
  boolean, object, no_fields, field, field_of, strings_of, json_bytes, units_bytes, string_bytes,
  natural_of, digits_from,
}
use cli_server_node.Users.Passwords.{Crypto, Bytes}
use cli_server_node.Users.Actions.{
  ok, err, ◌>>=◌, for_each, sanitize, emit_session_event, publish_event, clean_entry, audit,
  has_control_chars,
}
use cli_server_node.Users.Stores
use cli_server_node.Users.Validation
use cli_server_node.Users.Access
use cli_server_node.Users.Sessions
use cli_server_node.Users.Tokens
use cli_server_node.Users.Tickets
use cli_server_node.Users.Directory
use cli_server_node.Users.Requests
use cli_server_node.Users.Requests.{answer, put_user, delete_user_of, DirectoryRequest}
use cli_server_node.Users.Changes.{Changes, IsKeyed, map_set-IsKeyed}
use cli_server_node.Users.Admins.{HasEnabledAdmin}
use cli_server_node.Users.Apart.{AreApart, collide, put-AreApart}
use cli_server_node.Users.History.{admin_remains, names_stay_apart, ends, requests}
use cli_server_node.Users.Steps.{Steps, answer-Steps}
use cli_server_node.Users.Authenticated.{Credential, authenticate_token_returned}
use cli_server_node.Users.Refusals.{answer_refused}
use cli_server_node.Users.Erased.{IsErased, delete_user-IsErased}
use cli_server_node.Users.Secrets.{IsReliable, verify_password-set_password}
use cli_server_node.Users.SingleUse.{consume_ticket_once}

-- The first characters of a text, filled up with zeros.
abbrev fill : ℕ → Text → Bytes
fill zero t = []
fill (suc n) [] = 0 ∷ fill n []
fill (suc n) (c ∷ t) = c ∷ fill n t

abbrev plain_crypto : Crypto
plain_crypto = record {
  pbkdf2 = λ p salt i n. fill n (p ++ salt);
  sha256 = λ t. t;
  base64 = λ b. map (λ x. x + 37) b;
  base64url = λ b. b;
  from_base64 = λ t. map (λ x. x - 37) t;
  hex = λ b. b;
  from_hex = λ t. t;
}

length-fill : (n : ℕ) (t : Text) → length (fill n t) ≡ n
length-fill zero t = refl
length-fill (suc n) [] = ap suc (length-fill n [])
length-fill (suc n) (c ∷ t) = ap suc (length-fill n t)

back : (b : Bytes) → map (λ x. x - 37) (map (λ x. x + 37) b) ≡ b
back [] = refl
back (x ∷ b) = ap₂ (λ y c. y ∷ c) (omega arith) (back b)

clean : (b : Bytes) → all (λ x. not (x == b'$')) (map (λ x. x + 37) b) ≡ true
clean [] = refl
clean (x ∷ b) = ground (arith, clean b)

plain_IsReliable : IsReliable plain_crypto
plain_IsReliable = record {
  reads_back = back;
  no_dollar = clean;
  key_length = λ p salt i n. length-fill n (p ++ salt);
}

abbrev env_at : ℕ → Env
env_at now = record {
  crypto = plain_crypto;
  has_group_store = true;
  has_broadcast = true;
  has_event_bus = true;
  session_timeout_ms = 1800000;
  max_login_attempts = 5;
  lockout_ms = 300000;
  min_password_length = 8;
  max_session_lifetime_ms = 43200000;
  allow_non_expiring_tokens = false;
  users_read_only = false;
  now = now;
  new_id = codes "new";
  random = codes "random";
}

abbrev user_of : Text → Text → List Text → User
user_of id name groups = record {
  id = id;
  name = name;
  email = name ++ codes "@example.com";
  groups = groups;
  disabled = false;
  must_change_password = false;
  home_dir = none;
  user_data = none;
  last_login_at = none;
  created_at = 1;
  updated_at = 1;
}

abbrev root : User
root = user_of (codes "r") (codes "root") (codes "admin" ∷ [])

abbrev bob : User
bob = user_of (codes "b") (codes "bob") (codes "users" ∷ [])

abbrev group_of : Text → List Text → Group
group_of name permissions = record {
  id = name;
  name = name;
  description = none;
  permissions = permissions;
  built_in = true;
  created_at = 1;
  updated_at = 1;
}

abbrev session_of : Text → Text → Session
session_of user_id token = record {
  id = token;
  token_hash = token;
  user_id = user_id;
  created_at = 100;
  last_activity = 100;
  metadata = record { remote_address = none; user_agent = none };
}

abbrev all_users : Map User
all_users = map_set (codes "b") bob (map_set (codes "r") root [])

abbrev directory : UsersState
directory = record {
  users = all_users;
  groups =
      (codes "admin", group_of (codes "admin") (codes "*" ∷ []))
      ∷ (codes "users", group_of (codes "users") (codes "commands:execute" ∷ []))
      ∷ [];
  credentials = [];
  sessions =
      (codes "token-r", session_of (codes "r") (codes "token-r"))
      ∷ (codes "token-b", session_of (codes "b") (codes "token-b"))
      ∷ [];
  tokens = [];
  tickets = [];
  lockouts = [];
  effects = [];
}

no_user_IsKeyed : IsKeyed []
unfolding map_get
no_user_IsKeyed = record { keys = tt; ids = λ k u e. cc }

directory_IsKeyed : IsKeyed directory.users
directory_IsKeyed = map_set-IsKeyed bob _ (map_set-IsKeyed root _ no_user_IsKeyed)

abbrev context_of : User → List Text → AuthContext
context_of u permissions = record {
  user = u;
  permissions = permissions;
  session = none;
  token_hash = none;
  api_token = none;
}

abbrev as_root : AuthContext
as_root = context_of root (codes "*" ∷ [])

-- Root disables itself, which is refused.
abbrev disable_root : DirectoryRequest
disable_root =
    put_user (codes "root") (some (object (field (codes "disabled") (boolean true) no_fields)))

-- Maps, texts and permissions compute.
maps : Unit {0}
unfolding map_get map_set map_delete map_update text_eq trim trim_start trim_end is_space lower_code
    split_on split_on_from starts_with join in_group same_name has_permission permission_matches
    segments segments_match merge_permissions merge_lists merge_list merge_one uncovered_permissions
maps = tt

has_root : HasEnabledAdmin directory.users
unfolding maps
has_root = (codes "r", root, refl, refl)

abbrev delete_bob : DirectoryRequest
delete_bob = delete_user_of (codes "bob")

answer-Steps_example :
    Steps directory.users (answer as_root delete_bob (env_at 200) directory).1.users
unfolding maps
answer-Steps_example = answer-Steps as_root delete_bob (env_at 200) directory directory_IsKeyed refl

admin_remains_example : HasEnabledAdmin (answer as_root disable_root (env_at 200) directory).1.users
unfolding maps
admin_remains_example =
    admin_remains (requests as_root disable_root (env_at 200) refl (ends refl)) directory_IsKeyed
      has_root

no_user_AreApart : AreApart []
unfolding map_get
no_user_AreApart i j u v a b n = cc

root_alone : AreApart (map_set root.id root [])
unfolding map_get
root_alone = put-AreApart root [] no_user_AreApart (λ k v a n. cc)

directory_AreApart : AreApart directory.users
unfolding maps
directory_AreApart = put-AreApart bob (map_set root.id root []) root_alone apart_from_root
  where
    apart_from_root :
        (k : Text) (v : User)
        → map_get k (map_set root.id root []) ≡ some v
        → text_eq bob.id k ≡ false
        → collide bob v ≡ false
    apart_from_root k v a n = elim (Bool-cases (text_eq (codes "r") k)) [
      | inl e ↦
          let one : some root ≡ some v =
            subst (λ b. (if b then some root else none) ≡ some v) e a in
          subst (λ u. collide bob u ≡ false) (some_injective one) refl
      | inr e ↦
          let nobody : none ≡ some v = subst (λ b. (if b then some root else none) ≡ some v) e a in
          absurd (cc (nobody))
    ]

names_stay_apart_example : AreApart (answer as_root disable_root (env_at 200) directory).1.users
unfolding maps
names_stay_apart_example =
    names_stay_apart (requests as_root disable_root (env_at 200) refl (ends refl)) directory_IsKeyed
      directory_AreApart

verify_password-set_password_example :
    (Access.verify_password
      (codes "b")
      (codes "secret12")
      (env_at 300)
      (Access.set_password (codes "b") (codes "secret12") (env_at 200) directory).1).0
    ≡ ok (text_eq (fill 32 (codes "secret12random")) (fill 32 (codes "secret12random")))
verify_password-set_password_example =
    verify_password-set_password (codes "b") (codes "secret12") (codes "secret12") (env_at 200)
      (env_at 300) directory refl plain_IsReliable

-- The operations compute.
operations : Unit {0}
unfolding maps ◌>>=◌ for_each sanitize emit_session_event publish_event clean_entry audit
    has_control_chars field_of strings_of json_bytes units_bytes string_bytes natural_of digits_from
    Stores.look_up Stores.get_user Stores.store_clash Stores.store_create_user
    Stores.store_update_user Stores.store_delete_user Stores.get_group Stores.get_session
    Stores.delete_session Stores.without_session Stores.delete_session_by_id
    Stores.update_last_activity Stores.get_token_by_hash Stores.get_token Stores.get_tokens
    Stores.store_delete_user_tokens Stores.store_delete_credentials Stores.get_session_by_id
    Validation.optional_string Validation.optional_string_array Validation.optional_boolean
    Validation.optional_object Validation.body_of Access.group_permissions
    Access.get_effective_permissions Access.delete_credentials Access.clear_user_lockout
    clear_lockout Sessions.expires_at Sessions.validate_session Sessions.publish_session_closed
    Sessions.tell_revoked Sessions.revoke_session Sessions.revoke_user_sessions
    Sessions.sweep_tickets Tokens.authenticate_token Tokens.authenticate_session
    Tokens.slide_session Tokens.delete_user_tokens Tokens.publish_token_event Tickets.issue_ticket
    Tickets.consume_ticket Tickets.take_ticket Tickets.context_of_session Directory.get_user_or_404
    Directory.resolve_groups Directory.resolve_groups_from Directory.user_clash
    Directory.assert_unique_user Directory.is_last_enabled_admin Directory.assert_can_act_on
    Directory.read_details Directory.assert_can_update Directory.change_user Directory.update_user
    Directory.drop_tokens Directory.drop_user Directory.delete_user Directory.publish_user_event
    Requests.resolve_self_or Requests.restricted_keys Requests.put_user_request Requests.answer
operations = tt

refused_test :
    answer as_root disable_root (env_at 200) directory
    ≡ (err (http 409 (codes "cannot disable the last enabled member of admin")), directory)
unfolding operations
refused_test = refl

answer_refused_example : (answer as_root disable_root (env_at 200) directory).1 ≡ directory
answer_refused_example =
    answer_refused as_root disable_root (env_at 200) directory
      (http 409 (codes "cannot disable the last enabled member of admin")) directory_IsKeyed
      (ap (λ q. q.0) refused_test)

token_test :
    (Tokens.authenticate_token (codes "token-b") (env_at 200) directory).0
    ≡ ok (
        Tokens.session_context
          (session_of (codes "b") (codes "token-b"))
          (codes "token-b")
          bob
          (codes "commands:execute" ∷ [])
          200)
unfolding operations
token_test = refl

late_test :
    (Tokens.authenticate_token (codes "token-b") (env_at 1800101) directory).0
    ≡ err (http 401 (codes "session expired"))
unfolding operations
late_test = refl

authenticate_token_returned_example : Credential (env_at 200) directory (codes "token-b") (
    Tokens.session_context
      (session_of (codes "b") (codes "token-b"))
      (codes "token-b")
      bob
      (codes "commands:execute" ∷ [])
      200)
authenticate_token_returned_example =
    authenticate_token_returned (codes "token-b") (env_at 200) directory
      (Tokens.session_context (session_of (codes "b") (codes "token-b")) (codes "token-b") bob
        (codes "commands:execute" ∷ []) 200)
      directory_IsKeyed token_test

deleted_test :
    (Directory.delete_user bob (Directory.caller_of as_root) (env_at 200) directory).0 ≡ ok tt
unfolding operations
deleted_test = refl

delete_user-IsErased_example :
    IsErased
      (codes "b")
      (Directory.delete_user bob (Directory.caller_of as_root) (env_at 200) directory).1
unfolding text_eq
delete_user-IsErased_example =
    delete_user-IsErased bob (Directory.caller_of as_root) (env_at 200) directory (refl, (refl, tt))
      deleted_test

-- A ticket for bob's session, of the random bytes drawn.
abbrev bob_session : AuthContext
bob_session = record (context_of bob []) {
  session = some (session_of (codes "b") (codes "token-b"));
}

abbrev ticketed : UsersState
ticketed = (Tickets.issue_ticket bob_session (env_at 200) directory).1

ticket_test :
    (Tickets.consume_ticket (codes "random") (env_at 300) ticketed).0
    ≡ ok (
        some (record (context_of bob (codes "commands:execute" ∷ [])) {
          session = some (session_of (codes "b") (codes "token-b"));
          token_hash = some (codes "token-b");
        }))
unfolding operations
ticket_test = refl

consume_ticket_once_example :
    (Tickets.consume_ticket
      (codes "random")
      (env_at 400)
      (Tickets.consume_ticket (codes "random") (env_at 300) ticketed).1).0
    ≡ ok none
consume_ticket_once_example =
    consume_ticket_once (codes "random") (env_at 300) (env_at 400) ticketed
      (Tickets.consume_ticket (codes "random") (env_at 300) ticketed).1 refl refl
