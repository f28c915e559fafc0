-- ===== src/Users/Tickets.antt =====
-- plugins/users/services/auth-service.ts: the tickets of WebSockets, and the checks of open sockets.
use cli_server_node.Common.{
  ℕ, ◌+◌, ◌*◌, Bool, not, ◌||◌, Option, none, some, List, [], ◌∷◌, Text, codes, text_eq, map_get,
  map_set, map_delete, is_nil, ltb, if◌then◌else◌, is_some,
}
use mathlib.Core.Option
use cli_server_node.Users.{User, Session, ApiToken, AuthContext, TicketEntry, Env}
use cli_server_node.Users.Actions.{
  Action, Done, pure, raise_if, asks, gets, modify, attempt, ◌>>=◌, ◌>>◌, forbidden, hash_token,
}
use cli_server_node.Users.Stores.{get_user, get_session_by_id}
use cli_server_node.Users.Access.{get_effective_permissions}
use cli_server_node.Users.Sessions.{available, validate_session, sweep_tickets}
use cli_server_node.Users.Tokens.{revalidate_api_token}

abbrev pub ws_ticket_ttl_seconds : ℕ
ws_ticket_ttl_seconds = 30

-- A context that neither a session nor an API token stands for.
abbrev pub adapter_context_of : AuthContext → Option AuthContext
adapter_context_of ctx = if is_some ctx.session || is_some ctx.api_token then none else some ctx

abbrev pub ticket_of : Env → AuthContext → TicketEntry
ticket_of env ctx = record {
  expires_at = env.now + ws_ticket_ttl_seconds * 1000;
  user_id = ctx.user.id;
  session_id = Option.map (λ (x : Session). x.id) ctx.session;
  api_token_id = Option.map (λ (t : ApiToken). t.id) ctx.api_token;
  adapter_context = adapter_context_of ctx;
}

unfoldable pub issue_ticket : AuthContext → Action (Text × ℕ)
issue_ticket ctx = do
  sweep_tickets
  ticket ← asks (λ env. env.crypto.hex env.random)
  hash ← asks (λ env. hash_token env.crypto ticket)
  entry ← asks (λ env. ticket_of env ctx)
  modify (λ s. record s { tickets = map_set hash entry s.tickets })
  pure (ticket, ws_ticket_ttl_seconds)

-- An id that is given and not empty.
abbrev pub given_id : Option Text → Option Text
given_id none = none
given_id (some []) = none
given_id (some (c ∷ t)) = some (c ∷ t)

abbrev pub refuse_pending : Bool → Action Done
refuse_pending pending = raise_if pending (forbidden (codes "password change required"))

abbrev pub fresh_or_none : Option AuthContext → Action (Option AuthContext)
fresh_or_none none = pure none
fresh_or_none (some ctx) = refuse_pending ctx.user.must_change_password >> pure (some ctx)

abbrev pub validated_context : Session → Option (User × List Text) → Option AuthContext
validated_context x none = none
validated_context x (some (user, permissions)) = some (record {
  user = user;
  permissions = permissions;
  session = some x;
  token_hash = some x.token_hash;
  api_token = none;
})

-- The session of an id that belongs to a user, if it is still valid.
abbrev pub session_of_user : Text → Option Session → Action (Option AuthContext)
session_of_user user_id none = pure none
session_of_user user_id (some x) =
    if not (text_eq x.user_id user_id)
    then pure none
    else attempt (validate_session x) >>= λ validated. pure (validated_context x validated)

unfoldable pub context_of_session : Text → Text → Action (Option AuthContext)
context_of_session user_id session_id = get_session_by_id session_id >>= session_of_user user_id

-- The identity that a ticket stands for.
abbrev pub context_of_ticket : TicketEntry → Option Text → Option Text → Action (Option AuthContext)
context_of_ticket t (some api_token_id) session_id =
    revalidate_api_token t.user_id api_token_id >>= fresh_or_none
context_of_ticket t none (some session_id) =
    context_of_session t.user_id session_id >>= fresh_or_none
context_of_ticket t none none = pure t.adapter_context

abbrev pub live_ticket : ℕ → Option TicketEntry → Option TicketEntry
live_ticket now none = none
live_ticket now (some t) = if ltb t.expires_at now then none else some t

abbrev pub resolve_ticket : Option TicketEntry → Action (Option AuthContext)
resolve_ticket none = pure none
resolve_ticket (some t) = context_of_ticket t (given_id t.api_token_id) (given_id t.session_id)

unfoldable pub take_ticket : Text → Action (Option AuthContext)
unfolding context_of_session
take_ticket ticket = do
  key ← asks (λ env. hash_token env.crypto ticket)
  entry ← gets (λ s. map_get key s.tickets)
  modify (λ s. record s { tickets = map_delete key s.tickets })
  now ← asks (λ env. env.now)
  resolve_ticket (live_ticket now entry)

unfoldable pub consume_ticket : Text → Action (Option AuthContext)
unfolding take_ticket
consume_ticket ticket = if is_nil ticket then pure none else take_ticket ticket

abbrev unless_pending : Option AuthContext → Option AuthContext
unless_pending none = none
unless_pending (some ctx) = if ctx.user.must_change_password then none else some ctx

abbrev user_context : Option User → Action (Option AuthContext)
user_context none = pure none
user_context (some user) =
    if user.must_change_password
    then pure none
    else get_effective_permissions user >>= λ permissions. pure (
        some (record {
          user = user;
          permissions = permissions;
          session = none;
          token_hash = none;
          api_token = none;
        }))

abbrev revalidate_with : Text → Option Text → Option Text → Action (Option AuthContext)
revalidate_with user_id session_id (some api_token_id) =
    revalidate_api_token user_id api_token_id >>= λ fresh. pure (unless_pending fresh)
revalidate_with user_id (some session_id) none =
    context_of_session user_id session_id >>= λ fresh. pure (unless_pending fresh)
revalidate_with user_id none none =
    get_user user_id >>= λ found. user_context (available user_id found)

unfoldable pub revalidate : Text → Option Text → Option Text → Action (Option AuthContext)
unfolding context_of_session
revalidate user_id session_id api_token_id =
    revalidate_with user_id (given_id session_id) (given_id api_token_id)
