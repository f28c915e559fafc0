-- ===== src/Users/SignedIn.antt =====
-- What a sign-in leaves: the session under the hash of the token that it returns.
pub mod Accepted
use cli_server_node.Common.{
  ℕ, Bool, true, false, not, ◌||◌, Option, none, some, List, Text, Map, ◌++◌, ◌∷◌, [], codes,
  map_get, map_set, map_values, map_get-map_set_at, find?, text_eq, text_eq_refl, ltb, Bool-cases,
  Option-cases, ◌≡◌, refl, sym, ap, subst, ◌∙◌, arith, inl, inr, ◌⊎◌, if◌then◌else◌,
}
use cli_server_node.Users.{
  User, UpdateUserDto, Session, SessionMetadata, AuthContext, UsersState, Env, UsersError, Effect,
}
use cli_server_node.Users.Actions.{
  Result, ok, err, Action, Done, when, asks, pure, hash_token, audit, publish_event, ◌>>=◌, ◌>>◌,
}
use cli_server_node.Users.Stores.{
  store_clash, store_update_user, updated_user, create_session, get_session, get_user, look_up,
  same_text, get_group, update_last_activity,
}
use cli_server_node.Users.Access.{
  group_permissions, permissions_with, verify_password_with_lockout, get_effective_permissions,
}
use cli_server_node.Users.Sessions.{
  LoginResult, login, open_session, open_unless_disabled, refuse_disabled, no_changes, expires_at,
  is_expired, sign_in_attempt, validate_session, unless_expired, valid_for, available,
  with_permissions,
}
use cli_server_node.Users.Tokens.{
  is_api_token, authenticate_token, authenticate_api_token, authenticate_session, slide_session,
}
use cli_server_node.Users.Laws.{
  Reads, Keeps, Result-cases, bind_ok_lem, bind_err_lem, bind_elim, bind_returned, reads_bind,
  ok_injective,
}
use cli_server_node.Users.Reading.{get_effective_permissions-Reads}
use cli_server_node.Users.Outside.{OfUsers, audit-Keeps, publish_event-Keeps}
use cli_server_node.Users.Changes.{IsKeyed}
use cli_server_node.Users.SigningIn.{
  find_user_returned, find_user-Reads, user_if_valid_returned, user_if_valid-Reads,
  verify_password_with_lockout-users,
}

-- What a sign-in leaves: the session under the hash of the token, for a stored, enabled user.
pub record IsSignedIn (env : Env) (r : LoginResult) (t : UsersState) : Type 0 where
  pub session : map_get (hash_token env.crypto r.token) t.sessions ≡ some r.session
  pub user : map_get r.user.id t.users ≡ some r.user
  pub owner : r.session.user_id ≡ r.user.id
  pub enabled : r.user.disabled ≡ false
  pub permissions : (get_effective_permissions r.user env t).0 ≡ ok r.permissions
  pub expires : r.expires_at ≡ expires_at env r.session

-- If the outcome is a result, that is signed in.
abbrev pub Opens : Env → Result LoginResult × UsersState → Type 0
Opens env q = (r : LoginResult) → q.0 ≡ ok r → IsSignedIn env r q.1

err-Opens : (env : Env) (e : UsersError) (t : UsersState) → Opens env (err e, t)
err-Opens env e t r h = absurd (cc h)

store_update_user_stored :
    (id : Text) (dto : UpdateUserDto) (u live : User) (env : Env) (s : UsersState)
    → map_get id s.users ≡ some u
    → u.id ≡ id
    → (store_update_user id dto env s).0 ≡ ok live
    → (map_get id (store_update_user id dto env s).1.users ≡ some live)
      × (live ≡ updated_user env.now dto u)
unfolding store_update_user ◌>>=◌
store_update_user_stored id dto u live env s at same h =
    elim (Option-cases (store_clash dto.name dto.email (some id) (map_values s.users))) [
      | inl e ↦
          let is : updated_user env.now dto u ≡ live = ok_injective (rw (at, e) at h) in
          (
            rw (at, e)
                (map_get-map_set_at id id s.users (updated_user env.now dto u) (text_eq_refl id)
                  ∙ ap some is),
            sym is,
          )
      | inr (x, e) ↦ absurd (cc (rw (at, e) at h))
    ]

create_session_stored :
    (id hash : Text) (meta : SessionMetadata) (env : Env) (s : UsersState) (x : Session)
    → (create_session id hash meta env s).0 ≡ ok x
    → (map_get hash (create_session id hash meta env s).1.sessions ≡ some x)
      × (x.user_id ≡ id)
      × ((create_session id hash meta env s).1.users ≡ s.users)
unfolding create_session ◌>>=◌
create_session_stored id hash meta env s x h =
    let is = ok_injective h in
    (
      map_get-map_set_at hash hash s.sessions _ (text_eq_refl hash) ∙ ap some is,
      sym (ap (λ (y : Session). y.user_id) is),
      refl,
    )

-- What an opened session and its user are in a state; telling the outside changes neither.
abbrev Holds : Text → Session → User → UsersState → Type 0
Holds hash x live t = (map_get hash t.sessions ≡ some x) × (map_get live.id t.users ≡ some live)

-- A part of a chain that keeps what holds.
bind-Opens :
    {A : Type 0} (m : Action A) (f : A → Action LoginResult) (env : Env) (t : UsersState)
    (Q : UsersState → Type 0)
    → Q t
    → Keeps Q m
    → ((a : A) (t' : UsersState) → Q t' → Opens env (f a env t'))
    → Opens env ((m >>= f) env t)
bind-Opens m f env t Q q k h =
    bind_elim m f env t (Opens env) (λ e b. err-Opens env e (m env t).1)
      (λ a b. h a (m env t).1 (k env t q))

-- The result of a sign-in is put together.
result_of : Text → Session → User → Action LoginResult
unfolding expires_at
result_of token x live = get_effective_permissions live >>= λ ps.
    asks (λ env. expires_at env x) >>= λ until.
    pure (record { token = token; session = x; user = live; permissions = ps; expires_at = until })

result_of-Opens :
    (token : Text) (x : Session) (live : User) (env : Env) (t : UsersState)
    → Holds (hash_token env.crypto token) x live t
    → x.user_id ≡ live.id
    → live.disabled ≡ false
    → Opens env (result_of token x live env t)
unfolding result_of
result_of-Opens token x live env t (stored, kept) owner on =
    let O : Result LoginResult × UsersState → Type 0 = Opens env in
    reads_bind _ _ env t O (get_effective_permissions-Reads live) (λ e q. err-Opens env e t)
      λ ps is_ps.
        reads_bind _ _ env t O (λ env s. refl) (λ e q. err-Opens env e t)
          λ until is_until r h.
            subst (λ r. IsSignedIn env r t) (ok_injective h)
              (record {
                session = stored;
                user = kept;
                owner = owner;
                enabled = on;
                permissions = is_ps;
                expires = sym (ok_injective is_until);
              })

open_session-Opens :
    (u : User) (meta : SessionMetadata) (env : Env) (s : UsersState)
    → map_get u.id s.users ≡ some u
    → u.disabled ≡ false
    → Opens env (open_session u meta env s)
unfolding open_session result_of
open_session-Opens u meta env s at on =
    let O : Result LoginResult × UsersState → Type 0 = Opens env in
    reads_bind _ _ env s O (λ env s. refl) (λ e q. err-Opens env e s)
      λ now is_now.
        bind_elim _ _ env s O (λ e q. err-Opens env e _)
          λ live is_live.
            let s₁ : UsersState =
              (store_update_user u.id (record no_changes { last_login_at = some now }) env s).1 in
            let (kept, updated) = store_update_user_stored u.id _ u live env s at refl is_live in
            let same_id : live.id ≡ u.id = ap (λ (v : User). v.id) updated in
            reads_bind _ _ env s₁ O (λ env s. refl) (λ e q. err-Opens env e s₁)
              λ token is_token.
                reads_bind _ _ env s₁ O (λ env s. refl) (λ e q. err-Opens env e s₁)
                  λ hash is_hash.
                    bind_elim _ _ env s₁ O (λ e q. err-Opens env e _)
                      λ x is_x.
                        let s₂ : UsersState = (create_session u.id hash meta env s₁).1 in
                        let (stored, owner, users) =
                          create_session_stored u.id hash meta env s₁ x is_x in
                        let base : Holds hash x live s₂ = (
                          stored,
                          ap (λ m. map_get live.id m) users
                              ∙ (ap (λ i. map_get i s₁.users) same_id ∙ kept),
                        ) in
                        bind-Opens _ _ env s₂ (Holds hash x live) base
                          (audit-Keeps (Holds hash x live) (λ s es p. p) _)
                          λ _ s₃ told.
                            bind-Opens _ _ env s₃ (Holds hash x live) told
                              (publish_event-Keeps (Holds hash x live) (λ s es p. p) _ _ _)
                              λ _ s₄ (session, user).
                                result_of-Opens token x live env s₄
                                  (
                                    ap (λ k. map_get k s₄.sessions) (ok_injective is_hash)
                                        ∙ session,
                                    user,
                                  )
                                  (owner ∙ sym same_id) (ap (λ (v : User). v.disabled) updated ∙ on)

refused_throws :
    (u : User) (meta : SessionMetadata) (env : Env) (s : UsersState)
    → (refuse_disabled u meta env s).0 ≡ ok tt
    → ⊥
refused_throws u meta env s h =
    let (_, _, e) = bind_returned _ _ env s tt h in cc (ap (λ q. q.0) e, h)

open_unless_disabled-Opens :
    (u : User) (meta : SessionMetadata) (env : Env) (s : UsersState)
    → map_get u.id s.users ≡ some u
    → Opens env (open_unless_disabled u meta env s)
unfolding open_unless_disabled
open_unless_disabled-Opens u meta env s at =
    bind_elim (when u.disabled (refuse_disabled u meta)) _ env s (Opens env)
      (λ e q. err-Opens env e _) (λ _ q. opens (Bool-cases u.disabled) q)
  where
    opens :
        (u.disabled ≡ true) ⊎ (u.disabled ≡ false)
        → (when u.disabled (refuse_disabled u meta) env s).0 ≡ ok tt
        → Opens env (open_session u meta env (when u.disabled (refuse_disabled u meta) env s).1)
    opens (inl off) q = absurd (
        refused_throws u meta env s
          (subst (λ b. (when b (refuse_disabled u meta) env s).0 ≡ ok tt) off q))
    opens (inr on) q =
        subst (λ b. Opens env (open_session u meta env (when b (refuse_disabled u meta) env s).1))
          (sym on) (open_session-Opens u meta env s at on)

pub login-Opens :
    (username password : Text) (meta : SessionMetadata) (env : Env) (s : UsersState)
    → IsKeyed s.users
    → Opens env (login username password meta env s)
unfolding login
login-Opens username password meta env s w =
    let O : Result LoginResult × UsersState → Type 0 = Opens env in
    let Same : Map User → Type 0 = λ m. m ≡ s.users in
    reads_bind _ _ env s O (find_user-Reads username) (λ e q. err-Opens env e s)
      λ found who.
        bind_elim _ _ env s O (λ e q. err-Opens env e _)
          λ valid q.
            let s₁ : UsersState =
              (verify_password_with_lockout found password (sign_in_attempt username meta) env
                s).1 in
            let kept : s₁.users ≡ s.users =
              verify_password_with_lockout-users Same found password (sign_in_attempt username meta)
                env s refl in
            reads_bind _ _ env s₁ O (user_if_valid-Reads found valid) (λ e q. err-Opens env e s₁)
              λ u right. open_unless_disabled-Opens u meta env s₁ (
                ap (map_get u.id) kept
                ∙ find_user_returned username env s u w
                    (who ∙ ap ok (user_if_valid_returned found valid env s₁ u right)))
