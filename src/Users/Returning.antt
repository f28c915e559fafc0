-- ===== src/Users/Returning.antt =====
-- The operations that never throw: telling the outside, revoking sessions, deleting tokens.
use cli_server_node.Common.{
  Bool, true, false, Option, none, some, List, [], ◌∷◌, Text, Map, refl, ◌≡◌, ap, ◌∙◌,
}
use cli_server_node.Audit.{AuditEntry}
use cli_server_node.Users.{User, Session, ApiToken, UsersState, Env, UsersSessionEvent, Audience}
use cli_server_node.Users.Actions.{
  ok, Action, Done, pure, when, for_some, for_each, emit_session_event, publish_event, audit, ◌>>=◌,
}
use cli_server_node.Users.Stores
use cli_server_node.Users.Access.{set_password, delete_credentials, clear_user_lockout}
use cli_server_node.Users.Sessions.{
  publish_session_closed, tell_revoked, revoke_session, Revocation, revoke_user_sessions,
}
use cli_server_node.Users.Tokens.{publish_token_event, delete_user_tokens}
use cli_server_node.Users.Directory.{Caller, publish_user_event}
use cli_server_node.Users.Groups.{publish_group_event}
use cli_server_node.Users.Laws.{bind_ok_lem}

-- The action returns a value in every state.
abbrev pub Returns : {A : Type 0} → Action A → Type 0
Returns {A} m = (env : Env) (s : UsersState) → (a : A) × ((m env s).0 ≡ ok a)

pub Returns-bind :
    {A B : Type 0} (m : Action A) (f : A → Action B)
    → Returns m
    → ((a : A) → Returns (f a))
    → Returns (m >>= f)
Returns-bind m f r h env s =
    let (a, e) = r env s in
    let (b, k) = h a env (m env s).1 in (b, ap (λ q. q.0) (bind_ok_lem m f env s a e) ∙ k)

pub Returns-when : (b : Bool) (m : Action Done) → Returns m → Returns (when b m)
Returns-when true m r env s = r env s
Returns-when false m r env s = (tt, refl)

pub Returns-for_some :
    {A : Type 0} (o : Option A) (f : A → Action Done)
    → ((a : A) → Returns (f a))
    → Returns (for_some o f)
Returns-for_some none f r env s = (tt, refl)
Returns-for_some (some a) f r env s = r a env s

pub Returns-for_each :
    {A : Type 0} (f : A → Action Done)
    → ((a : A) → Returns (f a))
    → (xs : List A) → Returns (for_each f xs)
unfolding for_each
Returns-for_each f r [] env s = (tt, refl)
Returns-for_each f r (x ∷ xs) env s =
    Returns-bind (f x) (λ _. for_each f xs) (r x) (λ _. Returns-for_each f r xs) env s

pub Returns-pure : {A : Type 0} (a : A) → Returns (pure a)
Returns-pure a env s = (a, refl)

emit-Returns : (e : UsersSessionEvent) → Returns (emit_session_event e)
unfolding emit_session_event
emit-Returns e env s = (tt, refl)

publish_event-Returns :
    (type : Text) (d : Map Text) (a : Audience) → Returns (publish_event type d a)
unfolding publish_event
publish_event-Returns type d a =
    Returns-bind _ _ (λ env s. (env.has_event_bus, refl))
      (λ b. Returns-when b _ (λ env s. (tt, refl)))

pub audit-Returns : (e : AuditEntry) → Returns (audit e)
unfolding audit
audit-Returns e =
    Returns-bind _ _ (λ env s. (env.now, refl))
      λ now. Returns-bind _ _ (λ env s. (tt, refl)) λ _. Returns-when _ _ (emit-Returns _)

publish_session_closed-Returns :
    (x : Session) (name : Option Text) → Returns (publish_session_closed x name)
unfolding publish_session_closed Stores.get_user
publish_session_closed-Returns x name =
    Returns-bind _ _ (λ env s. (_, refl)) λ u. publish_event-Returns _ _ _

publish_token_event-Returns :
    (type : Text) (t : ApiToken) (actor : Option Text) → Returns (publish_token_event type t actor)
unfolding publish_token_event
publish_token_event-Returns type t actor = publish_event-Returns _ _ _

pub publish_user_event-Returns :
    (type : Text) (u : User) (c : Caller) → Returns (publish_user_event type u c)
unfolding publish_user_event
publish_user_event-Returns type u c = publish_event-Returns _ _ _

pub publish_group_event-Returns :
    (type g : Text) (c : Caller) → Returns (publish_group_event type g c)
unfolding publish_group_event
publish_group_event-Returns type g c = publish_event-Returns _ _ _

pub set_password-Returns : (id password : Text) → Returns (set_password id password)
unfolding set_password Stores.store_set_password
set_password-Returns id password =
    Returns-bind _ _ (λ env s. (_, refl))
      λ e. Returns-bind _ _ (λ env s. (env.now, refl)) λ now env s. (tt, refl)

revoke_session-Returns :
    (x : Session) (reason : Text) (by : Revocation) → Returns (revoke_session x reason by)
unfolding revoke_session tell_revoked Stores.delete_session_by_id Stores.get_user
revoke_session-Returns x reason by =
    Returns-bind _ _ (λ env s. (tt, refl))
      λ _. Returns-bind _ _ (emit-Returns _) λ _.
        Returns-bind _ _ (λ env s. (_, refl))
          λ u. Returns-bind _ _ (audit-Returns _) λ _.
            Returns-bind _ _ (λ env s. (env.has_broadcast, refl))
              λ b. Returns-bind _ _ (Returns-when _ _ (λ env s. (tt, refl))) λ _.
                Returns-bind _ _ (Returns-when _ _ (publish_event-Returns _ _ _))
                  λ _. publish_session_closed-Returns _ _

pub revoke_user_sessions-Returns :
    (id reason : Text) (by : Revocation) → Returns (revoke_user_sessions id reason by)
unfolding revoke_user_sessions
revoke_user_sessions-Returns id reason by =
    Returns-bind _ _ (λ env s. (_, refl))
      λ xs.
        Returns-bind _ _ (Returns-for_each _ (λ x. revoke_session-Returns x reason by) _)
          λ _ env s. (_, refl)

pub delete_credentials-Returns : (id : Text) → Returns (delete_credentials id)
unfolding delete_credentials Stores.store_delete_credentials clear_user_lockout
delete_credentials-Returns id = Returns-bind _ _ (λ env s. (tt, refl)) λ _ env s. (tt, refl)

pub delete_user_tokens-Returns :
    (id : Text) (actor : Option Text) → Returns (delete_user_tokens id actor)
unfolding delete_user_tokens Stores.get_tokens Stores.store_delete_user_tokens
delete_user_tokens-Returns id actor =
    Returns-bind _ _ (λ env s. (_, refl))
      λ ts.
        Returns-bind _ _ (λ env s. (tt, refl))
          λ _.
            Returns-bind _ _ (emit-Returns _)
              λ _. Returns-for_each _ (λ t. publish_token_event-Returns _ t actor) ts
