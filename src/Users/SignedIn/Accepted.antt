-- ===== src/Users/SignedIn/Accepted.antt =====
-- The token that a sign-in returns authenticates its user until the session expires.
use cli_server_node.Common.{
  ℕ, Bool, true, false, not, ◌||◌, Option, none, some, List, Text, Map, ◌∷◌, [], map_get,
  map_values, find?, text_eq, text_eq_refl, ltb, ◌≡◌, refl, sym, ap, subst, ◌∙◌, arith, inl, inr,
  if◌then◌else◌,
}
use cli_server_node.Users.{User, Session, SessionMetadata, AuthContext, UsersState, Env}
use cli_server_node.Users.Actions.{Result, ok, err, Action, pure, hash_token, ◌>>=◌}
use cli_server_node.Users.Stores.{
  get_session, get_user, look_up, same_text, get_group, update_last_activity,
}
use cli_server_node.Users.Access.{group_permissions, permissions_with, get_effective_permissions}
use cli_server_node.Users.Sessions.{
  LoginResult, login, expires_at, is_expired, validate_session, unless_expired, valid_for,
  available, with_permissions,
}
use cli_server_node.Users.Tokens.{
  is_api_token, authenticate_token, authenticate_api_token, authenticate_session, slide_session,
}
use cli_server_node.Users.Laws.{Result-cases, bind_ok_lem, bind_err_lem}
use cli_server_node.Users.Reading.{get_effective_permissions-Reads}
use cli_server_node.Users.Changes.{IsKeyed}
use cli_server_node.Users.SignedIn.{IsSignedIn, login-Opens}

-- The environment at another time.
abbrev pub at_time : ℕ → Env → Env
at_time n env = record env { now = n }

-- The outcome is a context of the user with the permissions.
abbrev pub Admits : User → List Text → Result AuthContext × UsersState → Type 0
Admits u ps q = (ctx : AuthContext) × (q.0 ≡ ok ctx) × (ctx.user ≡ u) × (ctx.permissions ≡ ps)

-- A part of a chain that gives a value and only reads.
bind-Admits :
    {A : Type 0} (m : Action A) (f : A → Action AuthContext) (env : Env) (t : UsersState) (u : User)
    (ps : List Text) (a : A)
    → (m env t).0 ≡ ok a
    → Admits u ps (f a env (m env t).1)
    → Admits u ps ((m >>= f) env t)
bind-Admits m f env t u ps a e (ctx, h, same_user, same_permissions) =
    (ctx, ap (λ q. q.0) (bind_ok_lem m f env t a e) ∙ h, same_user, same_permissions)

slide_session-Admits :
    (x : Session) (hash : Text) (u : User) (ps : List Text) (env : Env) (t : UsersState)
    → map_get hash t.sessions ≡ some x
    → Admits u ps (slide_session x hash (u, ps) env t)
unfolding slide_session update_last_activity get_session ◌>>=◌ map_get
slide_session-Admits x hash u ps env t at = rw at (_, refl, refl, refl)

abbrev found_in : Text → Map User → Option User → Option User
found_in id users o = elim o [
  | none ↦ find? (λ u. same_text u.name id) (map_values users)
  | some u ↦ some u
]

look_up_at :
    (id : Text) (users : Map User) (u : User)
    → map_get id users ≡ some u
    → look_up id users ≡ some u
unfolding look_up
look_up_at id users u e = ap (found_in id users) e

available_at :
    (id : Text) (u : User) → id ≡ u.id → u.disabled ≡ false → available id (some u) ≡ some u
available_at id u e on =
    let same : text_eq u.id id ≡ true =
      subst (λ i. text_eq u.id i ≡ true) (sym e) (text_eq_refl u.id) in
    let off : (not (text_eq u.id id) || u.disabled) ≡ false = ground (arith, on, same) in
    ap (λ b. if b then none else some u) off

with_permissions_gives :
    (u : User) (ps : List Text) (env : Env) (t : UsersState)
    → (get_effective_permissions u env t).0 ≡ ok ps
    → with_permissions u env t ≡ (ok (u, ps), t)
with_permissions_gives u ps env t got =
    bind_ok_lem (get_effective_permissions u) (λ ps. pure (u, ps)) env t ps got
    ∙ ap (λ t'. (ok (u, ps), t')) (get_effective_permissions-Reads u env t)

validate_session_gives :
    (x : Session) (u : User) (ps : List Text) (env : Env) (t : UsersState)
    → is_expired env x ≡ false
    → map_get u.id t.users ≡ some u
    → x.user_id ≡ u.id
    → u.disabled ≡ false
    → (get_effective_permissions u env t).0 ≡ ok ps
    → validate_session x env t ≡ (ok (u, ps), t)
unfolding validate_session get_user ◌>>=◌
validate_session_gives x u ps env t alive at owner on got =
    let found : look_up x.user_id t.users ≡ some u =
      look_up_at x.user_id t.users u (ap (λ i. map_get i t.users) owner ∙ at) in
    ap (λ b. unless_expired x b env t) alive
    ∙ (ap (λ o. valid_for x o (available x.user_id o) env t) found
        ∙ (ap (λ o. valid_for x (some u) o env t) (available_at x.user_id u owner on)
            ∙ with_permissions_gives u ps env t got))

-- Two environments give one outcome of a chain where they do of its parts.
bind_same :
    {A B : Type 0} (m : Action A) (f : A → Action B) (env other : Env) (t : UsersState)
    → m other t ≡ m env t
    → ((a : A) (t' : UsersState) → f a other t' ≡ f a env t')
    → (m >>= f) other t ≡ (m >>= f) env t
bind_same m f env other t same h = elim (Result-cases (m env t).0) [
  | inl (a, e) ↦
      bind_ok_lem m f other t a (ap (λ q. q.0) same ∙ e)
      ∙ (h a (m other t).1 ∙ (ap (λ q. f a env q.1) same ∙ sym (bind_ok_lem m f env t a e)))
  | inr (x, e) ↦
      bind_err_lem m f other t x (ap (λ q. q.0) same ∙ e)
      ∙ (ap (λ q. (err x, q.1)) same ∙ sym (bind_err_lem m f env t x e))
]

group_permissions_at :
    (names : List Text) (n : ℕ) (env : Env) (t : UsersState)
    → group_permissions names (at_time n env) t ≡ group_permissions names env t
unfolding group_permissions get_group
group_permissions_at [] n env t = refl
group_permissions_at (name ∷ names) n env t = bind_same _ _ env (at_time n env) t refl (λ g t'.
    bind_same _ _ env (at_time n env) t' (group_permissions_at names n env t') (λ ls t. refl))

permissions_with_at :
    (b : Bool) (u : User) (n : ℕ) (env : Env) (t : UsersState)
    → permissions_with b u (at_time n env) t ≡ permissions_with b u env t
permissions_with_at false u n env t = refl
permissions_with_at true u n env t =
    bind_same _ _ env (at_time n env) t (group_permissions_at u.groups n env t) (λ ls t. refl)

effective_at :
    (u : User) (n : ℕ) (env : Env) (t : UsersState)
    → get_effective_permissions u (at_time n env) t ≡ get_effective_permissions u env t
unfolding get_effective_permissions
effective_at u n env t =
    bind_same _ _ env (at_time n env) t refl (λ b t'. permissions_with_at b u n env t')

authenticate_session-Admits :
    (r : LoginResult) (n : ℕ) (env : Env) (t : UsersState)
    → IsSignedIn env r t
    → ltb r.expires_at n ≡ false
    → Admits r.user r.permissions (authenticate_session r.token (at_time n env) t)
unfolding authenticate_session get_session expires_at
authenticate_session-Admits r n env t signed alive =
    let u = r.user in
    let ps = r.permissions in
    let later = at_time n env in
    let valid =
      validate_session_gives r.session u ps later t
        (subst (λ e. ltb e n ≡ false) signed.expires alive) signed.user signed.owner signed.enabled
        (ap (λ q. q.0) (effective_at u n env t) ∙ signed.permissions) in
    bind-Admits _ _ later t u ps _ refl (
      bind-Admits _ _ later t u ps _ (ap ok signed.session) (
        bind-Admits _ _ later t u ps r.session refl (
          bind-Admits _ _ later t u ps _ (ap (λ q. q.0) valid) (
            subst
              (λ t'.
                Admits u ps
                  (slide_session r.session (hash_token env.crypto r.token) (u, ps) later t'))
              (sym (ap (λ q. q.1) valid))
              (slide_session-Admits r.session (hash_token env.crypto r.token) u ps later t
                signed.session)))))

-- Where users are stored by their ids: if a sign-in returns a token that does not look like an API token,
-- then at any time up to the expiry that it names, in the state that the sign-in leaves, the token
-- authenticates, as the user and with the permissions that the sign-in returned.
pub authenticate_token-login :
    (username password : Text) (meta : SessionMetadata) (env : Env) (s : UsersState)
    (r : LoginResult) (n : ℕ)
    → IsKeyed s.users
    → (login username password meta env s).0 ≡ ok r
    → is_api_token r.token ≡ false
    → ltb r.expires_at n ≡ false
    → Admits r.user r.permissions
        (authenticate_token r.token (at_time n env) (login username password meta env s).1)
unfolding authenticate_token
authenticate_token-login username password meta env s r n w h plain alive =
    let t : UsersState = (login username password meta env s).1 in
    subst
      (λ b. Admits r.user r.permissions (
        (if b then authenticate_api_token r.token else authenticate_session r.token) (at_time n env)
          t))
      (sym plain)
      (authenticate_session-Admits r n env t (login-Opens username password meta env s w r h) alive)
