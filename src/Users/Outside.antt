-- ===== src/Users/Outside.antt =====
-- What the operations leave alone: telling the outside changes no store, and the operations on
-- sessions, tokens and credentials change no user.
use cli_server_node.Common.{Option, List, Text, Map, refl}
use cli_server_node.Audit.{AuditEntry}
use cli_server_node.Users.{
  User, Session, ApiToken, UsersState, Env, Effect, UsersSessionEvent, Audience,
}
use cli_server_node.Users.Actions.{tell, emit_session_event, publish_event, audit}
use cli_server_node.Users.Stores
use cli_server_node.Users.Access.{set_password, delete_credentials, clear_user_lockout}
use cli_server_node.Users.Sessions.{
  publish_session_closed, tell_revoked, revoke_session, Revocation, revoke_user_sessions,
}
use cli_server_node.Users.Tokens.{publish_token_event, delete_user_tokens}
use cli_server_node.Users.Directory.{Caller, publish_user_event}
use cli_server_node.Users.Groups.{publish_group_event}
use cli_server_node.Users.Laws.{
  Keeps, bind-Keeps, when-Keeps, for_each-Keeps, bind_elim, reads_bind,
}

module _ (P : UsersState → Type 0)
    (quiet : (s : UsersState) (es : List Effect) → P s → P (record s { effects = es })) where
  tell-Keeps : (e : Effect) → Keeps P (tell e)
  tell-Keeps e env s p = quiet s _ p

  pub emit-Keeps : (e : UsersSessionEvent) → Keeps P (emit_session_event e)
  unfolding emit_session_event
  emit-Keeps e env s p = quiet s _ p

  pub publish_event-Keeps :
      (type : Text) (details : Map Text) (a : Audience) → Keeps P (publish_event type details a)
  unfolding publish_event
  publish_event-Keeps type details a =
      bind-Keeps P _ _ (λ env s p. p) (λ bus. when-Keeps P bus _ (λ env s p. quiet s _ p))

  pub audit-Keeps : (e : AuditEntry) → Keeps P (audit e)
  unfolding audit
  audit-Keeps e =
      bind-Keeps P _ _ (λ env s p. p)
        (λ now. bind-Keeps P _ _ (λ env s p. quiet s _ p) (λ _. when-Keeps P _ _ (emit-Keeps _)))

  pub publish_session_closed-Keeps :
      (x : Session) (name : Option Text) → Keeps P (publish_session_closed x name)
  unfolding publish_session_closed Stores.get_user
  publish_session_closed-Keeps x name =
      bind-Keeps P _ _ (λ env s p. p) (λ u. publish_event-Keeps _ _ _)

  pub publish_token_event-Keeps :
      (type : Text) (t : ApiToken) (actor : Option Text)
      → Keeps P (publish_token_event type t actor)
  unfolding publish_token_event
  publish_token_event-Keeps type t actor = publish_event-Keeps _ _ _

  pub publish_user_event-Keeps :
      (type : Text) (u : User) (c : Caller) → Keeps P (publish_user_event type u c)
  unfolding publish_user_event
  publish_user_event-Keeps type u c = publish_event-Keeps _ _ _

  pub publish_group_event-Keeps :
      (type group : Text) (c : Caller) → Keeps P (publish_group_event type group c)
  unfolding publish_group_event
  publish_group_event-Keeps type group c = publish_event-Keeps _ _ _

  pub tell_revoked-Keeps :
      (x : Session) (reason : Text) (by : Revocation) → Keeps P (tell_revoked x reason by)
  unfolding tell_revoked Stores.get_user
  tell_revoked-Keeps x reason by = bind-Keeps P _ _ (emit-Keeps _) λ _.
      bind-Keeps P _ _ (λ env s p. p)
        λ u. bind-Keeps P _ _ (audit-Keeps _) λ _.
          bind-Keeps P _ _ (λ env s p. p)
            λ b. bind-Keeps P _ _ (when-Keeps P _ _ (tell-Keeps _)) λ _.
              bind-Keeps P _ _ (when-Keeps P _ _ (publish_event-Keeps _ _ _))
                λ _. publish_session_closed-Keeps _ _

  -- A revocation tells much and deletes one session.
  revoke_session-Keeps :
      (x : Session) (reason : Text) (by : Revocation)
      → Keeps P (Stores.delete_session_by_id x.id)
      → Keeps P (revoke_session x reason by)
  unfolding revoke_session
  revoke_session-Keeps x reason by k = bind-Keeps P _ _ k (λ _. tell_revoked-Keeps x reason by)

  pub revoke_user_sessions-Keeps :
      (user_id reason : Text) (by : Revocation)
      → ((id : Text) → Keeps P (Stores.delete_session_by_id id))
      → Keeps P (revoke_user_sessions user_id reason by)
  unfolding revoke_user_sessions
  revoke_user_sessions-Keeps user_id reason by k =
      bind-Keeps P _ _ (λ env s p. p)
        (λ xs.
          bind-Keeps P _ _ (for_each-Keeps P _ (λ x. revoke_session-Keeps x reason by (k x.id)) _)
            (λ _ env s p. p))

-- What holds after a user's tokens are deleted from the store holds after that is told.
pub delete_user_tokens_after :
    (P : UsersState → Type 0)
    (quiet : (s : UsersState) (es : List Effect) → P s → P (record s { effects = es })) (id : Text)
    (actor : Option Text) (env : Env) (s : UsersState)
    → P (Stores.store_delete_user_tokens id env s).1
    → P (delete_user_tokens id actor env s).1
unfolding delete_user_tokens Stores.get_tokens Stores.store_delete_user_tokens
delete_user_tokens_after P quiet id actor env s p =
    reads_bind _ _ env s (λ q. P q.1) (λ env s. refl) (λ e q. absurd (cc))
      λ ts q.
        bind_elim _ _ env s (λ q. P q.1) (λ e q. absurd (cc))
          λ _ q.
            bind-Keeps P _ _ (emit-Keeps P quiet _)
              (λ _. for_each-Keeps P _ (λ t. publish_token_event-Keeps P quiet _ t actor) ts) env _
              p

-- What is said of the users alone.
module _ (I : Map User → Type 0) where
  abbrev pub OfUsers : UsersState → Type 0
  OfUsers s = I s.users

  pub audit-users : (e : AuditEntry) → Keeps OfUsers (audit e)
  audit-users = audit-Keeps OfUsers (λ s es p. p)

  pub publish_user_event-users :
      (type : Text) (u : User) (c : Caller) → Keeps OfUsers (publish_user_event type u c)
  publish_user_event-users = publish_user_event-Keeps OfUsers (λ s es p. p)

  pub publish_group_event-users :
      (type group : Text) (c : Caller) → Keeps OfUsers (publish_group_event type group c)
  publish_group_event-users = publish_group_event-Keeps OfUsers (λ s es p. p)

  pub revoke_user_sessions-users :
      (user_id reason : Text) (by : Revocation)
      → Keeps OfUsers (revoke_user_sessions user_id reason by)
  unfolding Stores.delete_session_by_id
  revoke_user_sessions-users user_id reason by =
      revoke_user_sessions-Keeps OfUsers (λ s es p. p) user_id reason by (λ id env s p. p)

  pub set_password-users : (id password : Text) → Keeps OfUsers (set_password id password)
  unfolding set_password Stores.store_set_password
  set_password-users id password =
      bind-Keeps OfUsers _ _ (λ env s p. p)
        (λ e. bind-Keeps OfUsers _ _ (λ env s p. p) (λ now env s p. p))

  pub delete_credentials-users : (id : Text) → Keeps OfUsers (delete_credentials id)
  unfolding delete_credentials Stores.store_delete_credentials clear_user_lockout
  delete_credentials-users id = bind-Keeps OfUsers _ _ (λ env s p. p) (λ _ env s p. p)

  pub delete_user_tokens-users :
      (id : Text) (actor : Option Text) → Keeps OfUsers (delete_user_tokens id actor)
  unfolding Stores.store_delete_user_tokens
  delete_user_tokens-users id actor env s p =
      delete_user_tokens_after OfUsers (λ s es p. p) id actor env s p
