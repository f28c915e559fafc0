-- ===== src/Users/SingleUse.antt =====
-- A ticket opens one socket: it is gone once it was tried, whatever came of it.
use cli_server_node.Common.{
  Bool, true, false, not, Option, none, some, List, [], ◌∷◌, Text, Map, map_get, map_delete,
  map_get-map_delete_at, text_eq, text_eq_refl, if_intro, ◌≡◌, refl, ap, ◌∙◌,
}
use cli_server_node.Users.{User, Session, ApiToken, AuthContext, TicketEntry, UsersState, Env}
use cli_server_node.Users.Actions.{ok, Action, attempt, ◌>>=◌, hash_token}
use cli_server_node.Users.Stores.{get_user, get_session_by_id, get_token, delete_session}
use cli_server_node.Users.Sessions.{
  available, validate_session, unless_expired, valid_for, drop_session, with_permissions,
}
use cli_server_node.Users.Tokens.{validate_api_token, revalidate_api_token, revalidated, owned_by}
use cli_server_node.Users.Tickets.{
  consume_ticket, take_ticket, resolve_ticket, live_ticket, context_of_ticket, context_of_session,
  session_of_user, fresh_or_none, given_id,
}
use cli_server_node.Users.Laws.{Keeps, bind-Keeps, Reads-bind-Keeps, or_raise-Reads}
use cli_server_node.Users.Reading.{get_effective_permissions-Reads}
use cli_server_node.Users.Outside.{emit-Keeps, publish_session_closed-Keeps}

-- Whatever is said of the tickets alone.
module _ (I : Map TicketEntry → Type 0) where
  abbrev OfTickets : UsersState → Type 0
  OfTickets s = I s.tickets

  drop_session-tickets :
      (x : Session) (reason : Text) (name : Option Text) (message : Text)
      → Keeps OfTickets (drop_session {A = User × List Text} x reason name message)
  unfolding delete_session
  drop_session-tickets x reason name message =
      bind-Keeps OfTickets _ _ (λ env s p. p)
        λ _. bind-Keeps OfTickets _ _ (emit-Keeps OfTickets (λ s es p. p) _) λ _.
          bind-Keeps OfTickets _ _ (publish_session_closed-Keeps OfTickets (λ s es p. p) x name)
            λ _ env s p. p

  with_permissions-tickets : (u : User) → Keeps OfTickets (with_permissions u)
  with_permissions-tickets u =
      Reads-bind-Keeps OfTickets _ _ (get_effective_permissions-Reads u) λ ps env s p. p

  valid_for-tickets : (x : Session) (f o : Option User) → Keeps OfTickets (valid_for x f o)
  valid_for-tickets x f none env s p = drop_session-tickets x _ _ _ env s p
  valid_for-tickets x f (some u) env s p = with_permissions-tickets u env s p

  unless_expired-tickets : (x : Session) (b : Bool) → Keeps OfTickets (unless_expired x b)
  unfolding get_user
  unless_expired-tickets x true env s p = drop_session-tickets x _ _ _ env s p
  unless_expired-tickets x false env s p =
      bind-Keeps OfTickets _ _ (λ env s p. p) (λ f. valid_for-tickets x f (available x.user_id f))
        env s p

  validate_session-tickets : (x : Session) → Keeps OfTickets (validate_session x)
  unfolding validate_session
  validate_session-tickets x = bind-Keeps OfTickets _ _ (λ env s p. p) (unless_expired-tickets x)

  attempt-tickets : {A : Type 0} (m : Action A) → Keeps OfTickets m → Keeps OfTickets (attempt m)
  attempt-tickets m k env s p = k env s p

  session_of_user-tickets :
      (id : Text) (o : Option Session) → Keeps OfTickets (session_of_user id o)
  session_of_user-tickets id none env s p = p
  session_of_user-tickets id (some x) env s p =
      if_intro (λ (m : Action (Option AuthContext)). OfTickets (m env s).1)
        (not (text_eq x.user_id id)) p
        (bind-Keeps OfTickets _ _
          (attempt-tickets (validate_session x) (validate_session-tickets x)) (λ v env s p. p) env s
          p)

  context_of_session-tickets : (id session : Text) → Keeps OfTickets (context_of_session id session)
  unfolding context_of_session get_session_by_id
  context_of_session-tickets id session =
      bind-Keeps OfTickets _ _ (λ env s p. p) (session_of_user-tickets id)

  validate_api_token-tickets : (t : ApiToken) → Keeps OfTickets (validate_api_token t)
  unfolding validate_api_token get_user
  validate_api_token-tickets t =
      bind-Keeps OfTickets _ _ (λ env s p. p)
        λ b.
          bind-Keeps OfTickets _ _ (λ env s p. p)
            λ _.
              bind-Keeps OfTickets _ _ (λ env s p. p)
                λ f. Reads-bind-Keeps OfTickets _ _ (or_raise-Reads (available t.user_id f) _) λ u.
                  Reads-bind-Keeps OfTickets _ _ (get_effective_permissions-Reads u) λ ps env s p. p

  revalidated-tickets : (o : Option ApiToken) → Keeps OfTickets (revalidated o)
  revalidated-tickets none env s p = p
  revalidated-tickets (some t) env s p = validate_api_token-tickets t env s p

  revalidate_api_token-tickets : (id token : Text) → Keeps OfTickets (revalidate_api_token id token)
  unfolding revalidate_api_token get_token
  revalidate_api_token-tickets id token =
      bind-Keeps OfTickets _ _ (λ env s p. p) (λ f. revalidated-tickets (owned_by id f))

  fresh_or_none-tickets : (o : Option AuthContext) → Keeps OfTickets (fresh_or_none o)
  fresh_or_none-tickets none env s p = p
  fresh_or_none-tickets (some c) env s p =
      bind-Keeps OfTickets _ _ (λ env s p. p) (λ _ env s p. p) env s p

  context_of_ticket-tickets :
      (t : TicketEntry) (a b : Option Text) → Keeps OfTickets (context_of_ticket t a b)
  context_of_ticket-tickets t (some a) b env s p =
      bind-Keeps OfTickets _ _ (revalidate_api_token-tickets t.user_id a) fresh_or_none-tickets env
        s p
  context_of_ticket-tickets t none (some b) env s p =
      bind-Keeps OfTickets _ _ (context_of_session-tickets t.user_id b) fresh_or_none-tickets env s
        p
  context_of_ticket-tickets t none none env s p = p

  resolve_ticket-tickets : (o : Option TicketEntry) → Keeps OfTickets (resolve_ticket o)
  resolve_ticket-tickets none env s p = p
  resolve_ticket-tickets (some t) env s p =
      context_of_ticket-tickets t (given_id t.api_token_id) (given_id t.session_id) env s p

take_ticket_gone :
    (ticket : Text) (env : Env) (s : UsersState)
    → map_get (hash_token env.crypto ticket) (take_ticket ticket env s).1.tickets ≡ none
unfolding take_ticket ◌>>=◌
take_ticket_gone ticket env s =
    let key = hash_token env.crypto ticket in
    resolve_ticket-tickets (λ m. map_get key m ≡ none) _ env _
      (map_get-map_delete_at key key s.tickets (text_eq_refl key))

take_ticket_unknown :
    (ticket : Text) (env : Env) (s : UsersState)
    → map_get (hash_token env.crypto ticket) s.tickets ≡ none
    → (take_ticket ticket env s).0 ≡ ok none
unfolding take_ticket ◌>>=◌
take_ticket_unknown ticket env s h =
    let left : UsersState = record s {
      tickets = map_delete (hash_token env.crypto ticket) s.tickets;
    } in
    ap (λ o. (resolve_ticket (live_ticket env.now o) env left).0) h

-- Once a ticket was tried, and whatever came of it, errors included, trying it again gives no identity
-- and no error, in any later state that has at its hash what the first try left there.
pub consume_ticket_once :
    (ticket : Text) (env env' : Env) (s s' : UsersState)
    → env'.crypto ≡ env.crypto
    → map_get (hash_token env.crypto ticket) s'.tickets
      ≡ map_get (hash_token env.crypto ticket) (consume_ticket ticket env s).1.tickets
    → (consume_ticket ticket env' s').0 ≡ ok none
unfolding consume_ticket
consume_ticket_once [] env env' s s' c h = refl
consume_ticket_once (x ∷ t) env env' s s' c h =
    take_ticket_unknown (x ∷ t) env' s'
      (ap (λ k. map_get (hash_token k (x ∷ t)) s'.tickets) c ∙ (h ∙ take_ticket_gone (x ∷ t) env s))
