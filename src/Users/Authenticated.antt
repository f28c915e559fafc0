-- ===== src/Users/Authenticated.antt =====
-- Whom a bearer token authenticates: the live user of a session or an API token that is stored for it.
use cli_server_node.Common.{
  ℕ, Bool, true, false, not, ◌||◌, Option, none, some, List, Text, map_get, map_values, text_eq,
  text_eq_sound, find?, Option-cases, Bool-cases, ◌≡◌, refl, sym, ap, subst, ◌∙◌, arith, inl, inr,
  if◌then◌else◌, some_injective,
}
use cli_server_node.Users.{User, Session, ApiToken, AuthContext, UsersState, Env}
use cli_server_node.Users.Actions.{ok, pure, hash_token}
use cli_server_node.Users.Stores.{get_user, get_session, get_token_by_hash, look_up}
use cli_server_node.Users.Access.{get_effective_permissions}
use cli_server_node.Users.Sessions.{
  available, is_expired, validate_session, valid_for, unless_expired, with_permissions,
  drop_session,
}
use cli_server_node.Users.Tokens.{
  validate_api_token, is_token_expired, scope_permissions, authenticate_api_token,
  authenticate_session, slide_session, used_at, is_use_due, authenticate_token, is_api_token,
}
use cli_server_node.Users.Laws.{
  Reads-returned, bind_returned, raise_if_returned, or_raise-Reads, or_raise_returned, ok_injective,
}
use cli_server_node.Users.Reading.{get_effective_permissions-Reads}
use cli_server_node.Users.Changes.{IsKeyed}
use cli_server_node.Users.Stored.{look_up_stored}

-- A user that is stored under its id, which is the one given, and is enabled.
pub record IsLive (s : UsersState) (id : Text) (u : User) : Type 0 where
  pub stored : map_get u.id s.users ≡ some u
  pub enabled : u.disabled ≡ false
  pub same_id : u.id ≡ id

available_returned :
    (id : Text) (o : Option User) (u : User)
    → available id o ≡ some u
    → (o ≡ some u) × (u.id ≡ id) × (u.disabled ≡ false)
available_returned id none u h = absurd (cc)
available_returned id (some v) u h = elim (Bool-cases (not (text_eq v.id id) || v.disabled)) [
  | inl e ↦ absurd (cc (subst (λ b. (if b then none else some v) ≡ some u) e h))
  | inr e ↦
      let same : some v ≡ some u = subst (λ b. (if b then none else some v) ≡ some u) e h in
      subst (λ x. (some v ≡ some x) × (x.id ≡ id) × (x.disabled ≡ false)) (some_injective same)
        (refl, text_eq_sound v.id id (ground (arith, e)), ground (arith, e))
]

IsLive-available :
    (s : UsersState) (id : Text) (u : User)
    → IsKeyed s.users
    → available id (look_up id s.users) ≡ some u
    → IsLive s id u
IsLive-available s id u w h =
    let (found, same, on) = available_returned id (look_up id s.users) u h in
    record { stored = look_up_stored id s.users u w found; enabled = on; same_id = same }

-- What a permission check of a user gives in a state.
abbrev pub HasPermissions : Env → UsersState → User → List Text → Type 0
HasPermissions env s u ps = (get_effective_permissions u env s).0 ≡ ok ps

-- A dropped session throws.
drop_session_throws :
    {A : Type 0} (x : Session) (reason : Text) (name : Option Text) (message : Text) (env : Env)
    (s : UsersState) (a : A)
    → (drop_session x reason name message env s).0 ≡ ok a
    → ⊥
drop_session_throws x reason name message env s a h =
    let (_, _, e₁) = bind_returned _ _ env s a h in
    let (_, _, e₂) = bind_returned _ _ env _ a (sym (ap (λ q. q.0) e₁) ∙ h) in
    let (_, _, e₃) =
      bind_returned _ _ env _ a (sym (ap (λ q. q.0) e₂) ∙ (sym (ap (λ q. q.0) e₁) ∙ h)) in
    cc (ap (λ q. q.0) e₁, ap (λ q. q.0) e₂, ap (λ q. q.0) e₃, h)

with_permissions_returned :
    (u : User) (env : Env) (s : UsersState) (v : User × List Text)
    → (with_permissions u env s).0 ≡ ok v
    → (u ≡ v.0) × HasPermissions env s u v.1
with_permissions_returned u env s v h =
    let (ps, got, e) =
      Reads-returned (get_effective_permissions u) (λ ps. pure (u, ps)) env s v
        (get_effective_permissions-Reads u) h in
    let one : (u, ps) ≡ v = ok_injective e in (ap (λ q. q.0) one, got ∙ ap (λ q. ok q.1) one)

valid_for_returned :
    (x : Session) (env : Env) (s : UsersState) (v : User × List Text)
    → IsKeyed s.users
    → (valid_for x
        (look_up x.user_id s.users)
        (available x.user_id (look_up x.user_id s.users))
        env
        s).0
      ≡ ok v
    → IsLive s x.user_id v.0 × HasPermissions env s v.0 v.1
valid_for_returned x env s v w h =
    elim (Option-cases (available x.user_id (look_up x.user_id s.users))) [
      | inl e ↦ absurd (
          drop_session_throws x _ _ _ env s v
            (subst (λ o. (valid_for x (look_up x.user_id s.users) o env s).0 ≡ ok v) e h))
      | inr (u, e) ↦
          let (same, ps) =
            with_permissions_returned u env s v
              (subst (λ o. (valid_for x (look_up x.user_id s.users) o env s).0 ≡ ok v) e h) in
          subst (λ z. IsLive s x.user_id z × HasPermissions env s z v.1) same
            (IsLive-available s x.user_id u w e, ps)
    ]

-- A session that is valid is not expired, and its user is live.
pub validate_session_returned :
    (x : Session) (env : Env) (s : UsersState) (v : User × List Text)
    → IsKeyed s.users
    → (validate_session x env s).0 ≡ ok v
    → (is_expired env x ≡ false) × IsLive s x.user_id v.0 × HasPermissions env s v.0 v.1
unfolding validate_session get_user
validate_session_returned x env s v w h =
    let (expired, got, h) = Reads-returned _ _ env s v (λ env s. refl) h in
    let is : is_expired env x ≡ expired = ok_injective got in
    elim (Bool-cases expired) [
      | inl e ↦ absurd (
          drop_session_throws x _ _ _ env s v
            (subst (λ b. (unless_expired x b env s).0 ≡ ok v) e h))
      | inr e ↦
          let (found, got, h) =
            Reads-returned _ _ env s v (λ env s. refl)
              (subst (λ b. (unless_expired x b env s).0 ≡ ok v) e h) in
          let (live, ps) = valid_for_returned x env s v w (
            subst (λ o. (valid_for x o (available x.user_id o) env s).0 ≡ ok v)
              (sym (ok_injective got)) h) in
          (is ∙ e, live, ps)
    ]

-- What stands for a token: a session that is stored under its hash and not expired, or an API token that
-- is stored with that hash and not expired, whose scope narrows the permissions.
pub data Credential (env : Env) (s : UsersState) (token : Text) (ctx : AuthContext) : Type 0 where
  by_session :
      (x : Session)
      → map_get (hash_token env.crypto token) s.sessions ≡ some x
      → is_expired env x ≡ false
      → IsLive s x.user_id ctx.user
      → HasPermissions env s ctx.user ctx.permissions
      → Credential env s token ctx
  by_api_token :
      (t : ApiToken) (held : List Text)
      → find?
          (λ (t : ApiToken). text_eq t.token_hash (hash_token env.crypto token))
          (map_values s.tokens)
        ≡ some t
      → is_token_expired t env.now ≡ false
      → IsLive s t.user_id ctx.user
      → HasPermissions env s ctx.user held
      → ctx.permissions ≡ scope_permissions held t.permissions
      → Credential env s token ctx

slide_session_returned :
    (x : Session) (hash : Text) (v : User × List Text) (env : Env) (s : UsersState)
    (ctx : AuthContext)
    → (slide_session x hash v env s).0 ≡ ok ctx
    → (v.0 ≡ ctx.user) × (v.1 ≡ ctx.permissions)
unfolding slide_session
slide_session_returned x hash v env s ctx h =
    let (now, _, h) = Reads-returned _ _ env s ctx (λ env s. refl) h in
    let (_, _, e) = bind_returned _ _ env s ctx h in
    let one = ok_injective (sym (ap (λ q. q.0) e) ∙ h) in
    (ap (λ (c : AuthContext). c.user) one, ap (λ (c : AuthContext). c.permissions) one)

authenticate_session_returned :
    (token : Text) (env : Env) (s : UsersState) (ctx : AuthContext)
    → IsKeyed s.users
    → (authenticate_session token env s).0 ≡ ok ctx
    → Credential env s token ctx
unfolding authenticate_session get_session
authenticate_session_returned token env s ctx w h =
    let (hash, is_hash, h) = Reads-returned _ _ env s ctx (λ env s. refl) h in
    let (found, is_found, h) = Reads-returned _ _ env s ctx (λ env s. refl) h in
    let (x, is_x, h) = Reads-returned _ _ env s ctx (or_raise-Reads found _) h in
    let (v, valid, e) = bind_returned _ _ env s ctx h in
    let (alive, live, ps) = validate_session_returned x env s v w valid in
    let (user, permissions) =
      slide_session_returned x hash v env (validate_session x env s).1 ctx
        (sym (ap (λ q. q.0) e) ∙ h) in
    by_session x
      (ap (λ k. map_get k s.sessions) (ok_injective is_hash)
        ∙ (ok_injective is_found ∙ or_raise_returned found _ env s x is_x))
      alive (subst (IsLive s x.user_id) user live)
      (subst (λ z. HasPermissions env s z ctx.permissions) user
        (subst (HasPermissions env s v.0) permissions ps))

validate_api_token_returned :
    (t : ApiToken) (env : Env) (s : UsersState) (ctx : AuthContext)
    → IsKeyed s.users
    → (validate_api_token t env s).0 ≡ ok ctx
    → (is_token_expired t env.now ≡ false)
      × IsLive s t.user_id ctx.user
      × (held : List Text) × HasPermissions env s ctx.user held
      × (ctx.permissions ≡ scope_permissions held t.permissions)
unfolding validate_api_token get_user
validate_api_token_returned t env s ctx w h =
    let (expired, is, h) = Reads-returned _ _ env s ctx (λ env s. refl) h in
    let (_, alive, h) = Reads-returned _ _ env s ctx (λ env s. refl) h in
    let (found, is_found, h) = Reads-returned _ _ env s ctx (λ env s. refl) h in
    let (u, is_u, h) =
      Reads-returned _ _ env s ctx (or_raise-Reads (available t.user_id found) _) h in
    let (held, got, h) = Reads-returned _ _ env s ctx (get_effective_permissions-Reads u) h in
    let one = ok_injective h in
    let same : u ≡ ctx.user = ap (λ (c : AuthContext). c.user) one in
    (
      ok_injective is ∙ raise_if_returned expired _ env s alive,
      subst (IsLive s t.user_id) same (
          IsLive-available s t.user_id u w (
            ap (available t.user_id) (ok_injective is_found)
            ∙ or_raise_returned (available t.user_id found) _ env s u is_u)),
      held,
      subst (λ z. HasPermissions env s z held) same got,
      sym (ap (λ (c : AuthContext). c.permissions) one),
    )

used_at_same :
    (now : ℕ) (due : Bool) (c : AuthContext)
    → ((used_at now due c).user ≡ c.user) × ((used_at now due c).permissions ≡ c.permissions)
used_at_same now true c = (refl, refl)
used_at_same now false c = (refl, refl)

authenticate_api_token_returned :
    (token : Text) (env : Env) (s : UsersState) (ctx : AuthContext)
    → IsKeyed s.users
    → (authenticate_api_token token env s).0 ≡ ok ctx
    → Credential env s token ctx
unfolding authenticate_api_token get_token_by_hash
authenticate_api_token_returned token env s ctx w h =
    let (hash, is_hash, h) = Reads-returned _ _ env s ctx (λ env s. refl) h in
    let (found, is_found, h) = Reads-returned _ _ env s ctx (λ env s. refl) h in
    let (t, is_t, h) = Reads-returned _ _ env s ctx (or_raise-Reads found _) h in
    let (c, valid, e) = bind_returned _ _ env s ctx h in
    let (alive, live, held, ps, scoped) = validate_api_token_returned t env s c w valid in
    let s' : UsersState = (validate_api_token t env s).1 in
    let (now, _, h) = Reads-returned _ _ env s' ctx (λ env s. refl) (sym (ap (λ q. q.0) e) ∙ h) in
    let (_, _, e) = bind_returned _ _ env s' ctx h in
    let one = ok_injective (sym (ap (λ q. q.0) e) ∙ h) in
    let same : c.user ≡ ctx.user =
      sym (used_at_same now (is_use_due now t) c).0 ∙ ap (λ (c : AuthContext). c.user) one in
    let narrowed : c.permissions ≡ ctx.permissions =
      sym (used_at_same now (is_use_due now t) c).1 ∙ ap (λ (c : AuthContext). c.permissions) one in
    by_api_token t held
      (ap (λ k. find? (λ (t : ApiToken). text_eq t.token_hash k) (map_values s.tokens))
          (ok_injective is_hash)
        ∙ (ok_injective is_found ∙ or_raise_returned found _ env s t is_t))
      alive (subst (IsLive s t.user_id) same live)
      (subst (λ z. HasPermissions env s z held) same ps) (sym narrowed ∙ scoped)

-- Where users are stored by their ids: if a bearer token authenticates, a session is stored under its
-- hash or an API token with it; that is not expired, its user is stored, enabled and the one of the
-- context, and the permissions of the context are those of the user's groups at that time, narrowed to
-- the scope of an API token.
pub authenticate_token_returned :
    (token : Text) (env : Env) (s : UsersState) (ctx : AuthContext)
    → IsKeyed s.users
    → (authenticate_token token env s).0 ≡ ok ctx
    → Credential env s token ctx
unfolding authenticate_token
authenticate_token_returned token env s ctx w h = elim (Bool-cases (is_api_token token)) [
  | inl e ↦ authenticate_api_token_returned token env s ctx w (
      subst
        (λ b.
          ((if b then authenticate_api_token token else authenticate_session token) env s).0
          ≡ ok ctx)
        e h)
  | inr e ↦ authenticate_session_returned token env s ctx w (
      subst
        (λ b.
          ((if b then authenticate_api_token token else authenticate_session token) env s).0
          ≡ ok ctx)
        e h)
]
