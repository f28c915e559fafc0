-- ===== src/Users/Tokens.antt =====
-- plugins/users/services/auth-service.ts: API tokens, and the resolution of a bearer token.
use cli_server_node.Common.{
  ℕ, ◌+◌, ◌*◌, Bool, true, false, not, ◌||◌, ◌&&◌, Option, none, some, List, [], ◌∷◌, ◌++◌, Text,
  codes, text_eq, starts_with, Map, ltb, leb, ◌==◌, if◌then◌else◌, filter, any, all, length,
}
use mathlib.Core.Option
use cli_server_node.Permissions.{has_permission, merge_permissions}
use cli_server_node.Users.{User, Session, ApiToken, AuthContext, UsersError, http, access_changed}
use cli_server_node.Users.Json.{Json, null, string, number, Fields, field_of, natural_of}
use cli_server_node.Users.Actions.{
  Action, Done, done, pure, raise, raise_if, asks, or_raise, attempt, when, for_each, ◌>>=◌, ◌>>◌,
  bad_request, unauthorized, forbidden, not_found, conflict, audit, entry_of, publish_event,
  emit_session_event, hash_token,
}
use cli_server_node.Users.Stores.{
  same_text, get_user, get_session, update_last_activity, create_token, get_token_by_hash,
  get_token, get_tokens, delete_token, store_delete_user_tokens, update_last_used,
}
use cli_server_node.Users.Validation.{is_alnum, validate_permissions, texts_of}
use cli_server_node.Users.Access.{get_effective_permissions, property}
use cli_server_node.Users.Sessions.{available, name_or, validate_session}

abbrev pub api_token_prefix : Text
api_token_prefix = codes "qcli_pat_"

abbrev pub max_api_tokens_per_user : ℕ
max_api_tokens_per_user = 20

abbrev pub default_api_token_expiry_days : ℕ
default_api_token_expiry_days = 90

abbrev pub max_api_token_expiry_days : ℕ
max_api_token_expiry_days = 365

abbrev pub api_token_last_used_interval_ms : ℕ
api_token_last_used_interval_ms = 60000

abbrev pub day_ms : ℕ
day_ms = 86400000

abbrev pub is_api_token : Text → Bool
is_api_token token = starts_with token api_token_prefix

abbrev pub invalid_token : UsersError
invalid_token = unauthorized (codes "invalid or expired token")

unfoldable pub scope_permissions : List Text → Option (List Text) → List Text
scope_permissions user_permissions none = user_permissions
scope_permissions user_permissions (some scope) =
    filter (has_permission (some user_permissions)) scope

unfoldable pub is_token_expired : ApiToken → ℕ → Bool
is_token_expired t now = elim t.expires_at [ none ↦ false | some at ↦ leb at now ]

unfoldable pub validate_api_token : ApiToken → Action AuthContext
unfolding is_token_expired
validate_api_token t = do
  expired ← asks (λ env. is_token_expired t env.now)
  raise_if expired invalid_token
  found ← get_user t.user_id
  user ← or_raise (available t.user_id found) invalid_token
  permissions ← get_effective_permissions user
  pure (record {
    user = user;
    permissions = scope_permissions permissions t.permissions;
    session = none;
    token_hash = none;
    api_token = some t;
  })

-- Whether the use of a token is recorded.
unfoldable pub is_use_due : ℕ → ApiToken → Bool
is_use_due now t = elim t.last_used_at [
  | none ↦ true
  | some at ↦ leb (at + api_token_last_used_interval_ms) now
]

-- The context, whose token is the object that the last use was written to.
abbrev pub used_at : ℕ → Bool → AuthContext → AuthContext
used_at now false ctx = ctx
used_at now true ctx = record ctx {
  api_token = Option.map (λ (t : ApiToken). record t { last_used_at = some now }) ctx.api_token;
}

unfoldable pub authenticate_api_token : Text → Action AuthContext
unfolding validate_api_token is_use_due
authenticate_api_token token = do
  hash ← asks (λ env. hash_token env.crypto token)
  found ← get_token_by_hash hash
  stored ← or_raise found invalid_token
  ctx ← validate_api_token stored
  now ← asks (λ env. env.now)
  let due = is_use_due now stored
  when due (update_last_used stored.id now)
  pure (used_at now due ctx)

-- The context of a session, whose object the activity was written to.
abbrev pub session_context : Session → Text → User → List Text → ℕ → AuthContext
session_context x hash user permissions now = record {
  user = user;
  permissions = permissions;
  session = some (record x { last_activity = now });
  token_hash = some hash;
  api_token = none;
}

unfoldable pub slide_session : Session → Text → User × List Text → Action AuthContext
slide_session x hash validated = do
  now ← asks (λ env. env.now)
  update_last_activity hash
  pure (session_context x hash validated.0 validated.1 now)

-- The part of `authenticateToken` for session tokens.
unfoldable pub authenticate_session : Text → Action AuthContext
unfolding slide_session
authenticate_session token = do
  hash ← asks (λ env. hash_token env.crypto token)
  found ← get_session hash
  x ← or_raise found invalid_token
  validated ← validate_session x
  slide_session x hash validated

unfoldable pub authenticate_token : Text → Action AuthContext
unfolding authenticate_api_token authenticate_session
authenticate_token token =
    if is_api_token token then authenticate_api_token token else authenticate_session token

abbrev pub owned_by : Text → Option ApiToken → Option ApiToken
owned_by user_id none = none
owned_by user_id (some t) = if text_eq t.user_id user_id then some t else none

abbrev pub revalidated : Option ApiToken → Action (Option AuthContext)
revalidated none = pure none
revalidated (some t) = attempt (validate_api_token t)

unfoldable pub revalidate_api_token : Text → Text → Action (Option AuthContext)
revalidate_api_token user_id api_token_id = do
  found ← get_token api_token_id
  revalidated (owned_by user_id found)

abbrev is_token_name_code : ℕ → Bool
is_token_name_code c = is_alnum c || c == b'.' || c == b'_' || c == b' ' || c == b'-'

-- `API_TOKEN_NAME_RE`
unfoldable pub is_token_name : Text → Bool
is_token_name name = leb 1 (length name) && leb (length name) 64 && all is_token_name_code name

abbrev bad_token_name : UsersError
bad_token_name = bad_request (codes "name must be 1-64 characters of [A-Za-z0-9._ -]")

abbrev pub token_name : Option Json → Action Text
token_name (some (string name)) = raise_if (not (is_token_name name)) bad_token_name >> pure name
token_name _ = raise bad_token_name

abbrev bad_expiry : UsersError
bad_expiry = bad_request (codes "expiresInDays must be an integer between 1 and 365")

abbrev in_days : Option ℕ → Action (Option ℕ)
in_days none = raise bad_expiry
in_days (some days) = do
  raise_if (ltb days 1 || ltb max_api_token_expiry_days days) bad_expiry
  asks (λ env. some (env.now + days * day_ms))

-- `expiresAt` of the new token, from `body.expiresInDays`.
abbrev pub token_expiry : Option Json → Action (Option ℕ)
token_expiry none = asks (λ env. some (env.now + default_api_token_expiry_days * day_ms))
token_expiry (some null) = do
  allowed ← asks (λ env. env.allow_non_expiring_tokens)
  raise_if (not allowed) (bad_request (codes "non-expiring tokens are not allowed"))
  pure none
token_expiry (some (number t)) = in_days (natural_of t)
token_expiry (some _) = raise bad_expiry

-- The loop over the permissions asked for.
unfoldable pub check_held : List Text → List Text → Action Done
check_held held [] = done
check_held held (p ∷ ps) =
    raise_if (not (has_permission (some held) p))
      (forbidden (codes "forbidden: cannot grant " ++ p))
    >> check_held held ps

abbrev scope_if_given : List Text → Option (List Text) → Action (Option (List Text))
scope_if_given held none = pure none
scope_if_given held (some values) = do
  valid ← validate_permissions values
  let permissions = merge_permissions (some valid ∷ [])
  check_held held permissions
  pure (some permissions)

unfoldable pub token_scope : List Text → Option Json → Action (Option (List Text))
unfolding check_held
token_scope held value = texts_of (codes "permissions") value >>= scope_if_given held

abbrev pub tokens_read : Text
tokens_read = codes "tokens:read"

unfoldable pub publish_token_event : Text → ApiToken → Option Text → Action Done
publish_token_event type t actor =
    publish_event type
      ((codes "tokenId", t.id)
        ∷ (codes "name", t.name)
        ∷ (codes "userId", t.user_id)
        ∷ property "actor" actor)
      (record { permission = some tokens_read; user_id = some t.user_id })

-- `${token.name} (${token.id})`
abbrev token_details : ApiToken → Text
token_details t = t.name ++ (codes " (" ++ (t.id ++ codes ")"))

abbrev token_properties : ApiToken → Map Text
token_properties t = (codes "tokenId", t.id) ∷ (codes "tokenName", t.name) ∷ []

abbrev has_session : Option Session → Bool
has_session none = false
has_session (some x) = true

abbrev has_api_token : Option ApiToken → Bool
has_api_token none = false
has_api_token (some t) = true

unfoldable pub create_api_token : AuthContext → Fields → Action (Text × ApiToken)
unfolding token_scope
create_api_token ctx body = do
  raise_if (has_api_token ctx.api_token)
      (forbidden (codes "forbidden: API tokens cannot create tokens"))
  raise_if (not (has_session ctx.session))
      (http 501 (codes "Authentication is managed by the host application"))
  name ← token_name (field_of (codes "name") body)
  now ← asks (λ env. env.now)
  expiry ← token_expiry (field_of (codes "expiresInDays") body)
  scope ← token_scope ctx.permissions (field_of (codes "permissions") body)
  existing ← get_tokens (some ctx.user.id)
  raise_if (any (λ t. same_text t.name name) existing)
      (conflict (codes "token '" ++ (name ++ codes "' already exists")))
  raise_if
      (leb max_api_tokens_per_user (length (filter (λ t. not (is_token_expired t now)) existing)))
      (bad_request (codes "a user may have at most 20 tokens"))
  token ← asks (λ env. api_token_prefix ++ env.crypto.base64url env.random)
  made ← asks (λ env. record {
    id = env.new_id;
    user_id = ctx.user.id;
    name = name;
    token_hash = hash_token env.crypto token;
    created_at = now;
    expires_at = expiry;
    last_used_at = none;
    permissions = scope;
  })
  t ← create_token made
  audit (record (entry_of (codes "token_created") ctx.user.name) {
    user_id = some ctx.user.id;
    actor = some ctx.user.name;
    actor_id = some ctx.user.id;
    details = some (token_details t);
    metadata = token_properties t;
  })
  publish_token_event (codes "token:created") t (some ctx.user.name)
  pure (token, t)

-- The token, unless it is another user's and the caller may not revoke it.
abbrev revocable : Text → Bool → Option ApiToken → Option ApiToken
revocable user_id can_revoke_any none = none
revocable user_id can_revoke_any (some t) =
    if not (text_eq t.user_id user_id) && not can_revoke_any then none else some t

unfoldable pub revoke_api_token : AuthContext → Text → Bool → Action Done
revoke_api_token ctx id can_revoke_any = do
  found ← get_token id
  t ← or_raise (revocable ctx.user.id can_revoke_any found) (not_found (codes "token not found"))
  delete_token t.id
  owner ← get_user t.user_id
  let owner_name = if text_eq t.user_id ctx.user.id then ctx.user.name else name_or owner t.user_id
  audit (record (entry_of (codes "token_revoked") owner_name) {
    user_id = some t.user_id;
    actor = some ctx.user.name;
    actor_id = some ctx.user.id;
    details = some (token_details t);
    metadata = token_properties t;
  })
  publish_token_event (codes "token:revoked") t (some ctx.user.name)
  emit_session_event (access_changed (some t.user_id))

unfoldable pub delete_user_tokens : Text → Option Text → Action Done
delete_user_tokens user_id actor = do
  tokens ← get_tokens (some user_id)
  store_delete_user_tokens user_id
  emit_session_event (access_changed (some user_id))
  for_each (λ t. publish_token_event (codes "token:revoked") t actor) tokens
