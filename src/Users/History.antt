-- ===== src/Users/History.antt =====
-- Every request to the directory, and every sign-in, changes the users as the directory allows; so what
-- such changes keep holds after any history of requests.
use cli_server_node.Common.{
  Option, none, some, Text, Map, map_get, Bool-cases, ◌≡◌, refl, sym, subst, ◌∙◌, arith, inl, inr,
  if◌then◌else◌,
}
use cli_server_node.Users.{User, AuthContext, SessionMetadata, UsersState, Env}
use cli_server_node.Users.Json.{Json}
use cli_server_node.Users.Actions.{Result, ok, err, caught, Action, attempt, ◌>>=◌}
use cli_server_node.Users.Directory.{caller_of, get_user_or_404}
use cli_server_node.Users.Sessions.{login}
use cli_server_node.Users.Requests.{
  DirectoryRequest, post_user, put_user, delete_user_of, post_group, put_group, delete_group_of,
  post_member, delete_member, answer, put_user_request, resolve_self_or, only_self, can,
  users_update,
}
use cli_server_node.Users.Laws.{Reads, bind_elim, Reads-returned, bind-Reads, ok_injective}
use cli_server_node.Users.Reading.{body_of-Reads, get_user_or_404-Reads, get_group_or_404-Reads}
use cli_server_node.Users.Changes.{Changes, unchanged, IsKeyed, Changes-IsKeyed}
use cli_server_node.Users.Admins.{HasEnabledAdmin, Changes-HasEnabledAdmin}
use cli_server_node.Users.Apart.{AreApart, Changes-AreApart}
use cli_server_node.Users.Managing.{
  Allowed, Allowed-bind, create_user-Changes, update_user-Changes, delete_user-Changes,
}
use cli_server_node.Users.Membership.{
  get_user_returned, add_member-Changes, remove_member-Changes, create_group-users,
  update_group-users,
}
use cli_server_node.Users.Leaving.{delete_group-Changes}
use cli_server_node.Users.SigningIn.{login-Changes}

attempt-Reads : {A : Type 0} (m : Action A) → Reads m → Reads (attempt m)
attempt-Reads m r env s = r env s

only_self-Reads : (ctx : AuthContext) (p : Text) (o : Option User) → Reads (only_self ctx p o)
only_self-Reads ctx p none env s = refl
only_self-Reads ctx p (some u) env s = bind-Reads _ _ (λ env s. refl) (λ _ env s. refl) env s

only_self_returned :
    (ctx : AuthContext) (p : Text) (o : Option User) (env : Env) (s : UsersState) (u : User)
    → (only_self ctx p o env s).0 ≡ ok u
    → o ≡ some u
unfolding ◌>>=◌
only_self_returned ctx p none env s u h = cc
only_self_returned ctx p (some v) env s u h = ground (arith, h)

caught-some : {A : Type 0} (r : Result A) (a : A) → caught r ≡ some a → r ≡ ok a
caught-some (ok b) a h = cc
caught-some (err e) a h = cc

pub resolve_self_or-Reads : (ctx : AuthContext) (p x : Text) → Reads (resolve_self_or ctx p x)
unfolding resolve_self_or
resolve_self_or-Reads ctx p x env s = elim (Bool-cases (can ctx p)) [
  | inl e ↦ rw e (get_user_or_404-Reads x env s)
  | inr e ↦ rw e (
      bind-Reads (attempt (get_user_or_404 x)) (only_self ctx p)
        (attempt-Reads (get_user_or_404 x) (get_user_or_404-Reads x)) (only_self-Reads ctx p) env s)
]

self_returned :
    (ctx : AuthContext) (p x : Text) (env : Env) (s : UsersState) (u : User)
    → IsKeyed s.users
    → ((attempt (get_user_or_404 x) >>= only_self ctx p) env s).0 ≡ ok u
    → map_get u.id s.users ≡ some u
self_returned ctx p x env s u w h =
    let (o, e, k) =
      Reads-returned (attempt (get_user_or_404 x)) (only_self ctx p) env s u
        (attempt-Reads (get_user_or_404 x) (get_user_or_404-Reads x)) h in
    get_user_returned x env s u w
      (caught-some _ u (ok_injective e ∙ only_self_returned ctx p o env s u k))

pub resolve_self_or_returned :
    (ctx : AuthContext) (p x : Text) (env : Env) (s : UsersState) (u : User)
    → IsKeyed s.users
    → (resolve_self_or ctx p x env s).0 ≡ ok u
    → map_get u.id s.users ≡ some u
unfolding resolve_self_or
resolve_self_or_returned ctx p x env s u w h = elim (Bool-cases (can ctx p)) [
  | inl e ↦ get_user_returned x env s u w (
      subst
        (λ b.
          ((if b then get_user_or_404 x else attempt (get_user_or_404 x) >>= only_self ctx p) env
            s).0
          ≡ ok u)
        e h)
  | inr e ↦ self_returned ctx p x env s u w (
      subst
        (λ b.
          ((if b then get_user_or_404 x else attempt (get_user_or_404 x) >>= only_self ctx p) env
            s).0
          ≡ ok u)
        e h)
]

put_user-Changes :
    (ctx : AuthContext) (x : Text) (json : Option Json) (env : Env) (s : UsersState)
    → IsKeyed s.users
    → Allowed s.users (put_user_request ctx x json env s)
unfolding put_user_request
put_user-Changes ctx x json env s w = Allowed-bind _ _ env s (body_of-Reads json) λ body q.
    Allowed-bind _ _ env s (resolve_self_or-Reads ctx users_update x) λ t who.
      Allowed-bind _ _ env s (λ env s. refl)
        λ _ q.
          let at = resolve_self_or_returned ctx users_update x env s t w who in
          let base = update_user-Changes t body (caller_of ctx) env s at in
          bind_elim _ _ env s (Allowed s.users) (λ e q. base) (λ u q. base)

-- Where the store keeps users by their ids, and a UUID that is drawn is no user's id yet: whatever a
-- request to the directory does, and also where it throws, the users are changed only in steps that the
-- directory allows.
pub answer-Changes :
    (ctx : AuthContext) (request : DirectoryRequest) (env : Env) (s : UsersState)
    → IsKeyed s.users
    → map_get env.new_id s.users ≡ none
    → Changes s.users (answer ctx request env s).1.users
unfolding answer
answer-Changes ctx (post_user external json) env s w fresh =
    Allowed-bind _ _ env s (λ env s. refl)
      λ _ q. Allowed-bind _ _ env s (body_of-Reads json) λ body q.
        let base = create_user-Changes body (caller_of ctx) external env s fresh in
        bind_elim _ _ env s (Allowed s.users) (λ e q. base) (λ u q. base)
answer-Changes ctx (put_user x json) env s w fresh = put_user-Changes ctx x json env s w
answer-Changes ctx (delete_user_of x) env s w fresh =
    Allowed-bind _ _ env s (λ env s. refl)
      λ _ q.
        Allowed-bind _ _ env s (get_user_or_404-Reads x)
          λ t who. delete_user-Changes t (caller_of ctx) env s (get_user_returned x env s t w who)
answer-Changes ctx (post_group json) env s w fresh =
    Allowed-bind _ _ env s (λ env s. refl)
      λ _ q. Allowed-bind _ _ env s (body_of-Reads json) λ body q.
        let base =
          create_group-users (Changes s.users) body (caller_of ctx) env s (unchanged refl) in
        bind_elim _ _ env s (Allowed s.users) (λ e q. base) (λ u q. base)
answer-Changes ctx (put_group name json) env s w fresh =
    Allowed-bind _ _ env s (λ env s. refl)
      λ _ q. Allowed-bind _ _ env s (body_of-Reads json) λ body q.
        Allowed-bind _ _ env s (get_group_or_404-Reads name) λ g q.
          let base =
            update_group-users (Changes s.users) g body (caller_of ctx) env s (unchanged refl) in
          bind_elim _ _ env s (Allowed s.users) (λ e q. base) (λ u q. base)
answer-Changes ctx (delete_group_of name) env s w fresh =
    Allowed-bind _ _ env s (λ env s. refl)
      λ _ q.
        Allowed-bind _ _ env s (get_group_or_404-Reads name)
          λ g q. delete_group-Changes g (caller_of ctx) env s w
answer-Changes ctx (post_member name x) env s w fresh =
    Allowed-bind _ _ env s (λ env s. refl) λ _ q. add_member-Changes name x (caller_of ctx) env s w
answer-Changes ctx (delete_member name x) env s w fresh =
    Allowed-bind _ _ env s (λ env s. refl)
      λ _ q. Allowed-bind _ _ env s (get_group_or_404-Reads name) λ g q.
        Allowed-bind _ _ env s (get_user_or_404-Reads x) λ t who.
          remove_member-Changes g t (caller_of ctx) env s (get_user_returned x env s t w who)

-- A history of requests to the directory and of sign-ins, whoever makes them, from a state to the one
-- that it leads to. Between them anything may happen that leaves the users as they are.
pub data Reaches : UsersState → UsersState → Type 0 where
  ends : {s s' : UsersState} → s' ≡ s → Reaches s s'
  others : {s s' s'' : UsersState} → s'.users ≡ s.users → Reaches s' s'' → Reaches s s''
  requests :
      {s s' : UsersState} (ctx : AuthContext) (request : DirectoryRequest) (env : Env)
      → map_get env.new_id s.users ≡ none
      → Reaches (answer ctx request env s).1 s'
      → Reaches s s'
  signs_in :
      {s s' : UsersState} (username password : Text) (meta : SessionMetadata) (env : Env)
      → Reaches (login username password meta env s).1 s'
      → Reaches s s'

-- What allowed changes keep, with the keys of the users, is kept by a history.
history_keeps :
    (I : Map User → Type 0)
    → ((users users' : Map User) → Changes users users' → IsKeyed users → I users → I users')
    → {s s' : UsersState} → Reaches s s'
    → IsKeyed s.users
    → I s.users
    → I s'.users
history_keeps I keep (ends e) w i = subst (λ t. I t.users) (sym e) i
history_keeps I keep (others e r) w i =
    history_keeps I keep r (subst IsKeyed (sym e) w) (subst I (sym e) i)
history_keeps I keep (requests ctx request env fresh r) w i =
    let c = answer-Changes ctx request env _ w fresh in
    history_keeps I keep r (Changes-IsKeyed c w) (keep _ _ c w i)
history_keeps I keep (signs_in username password meta env r) w i =
    let c = login-Changes username password meta env _ w in
    history_keeps I keep r (Changes-IsKeyed c w) (keep _ _ c w i)

-- After any history of requests and sign-ins, refused or not, whoever made them: if some enabled user
-- was a member of `admin`, some enabled user is.
pub admin_remains :
    {s s' : UsersState}
    → Reaches s s'
    → IsKeyed s.users
    → HasEnabledAdmin s.users
    → HasEnabledAdmin s'.users
admin_remains r w h =
    history_keeps HasEnabledAdmin (λ m m' c k i. Changes-HasEnabledAdmin c k i) r w h

-- After any such history: if no two users shared a name or an email, also one's name with another's
-- email and whatever the case of letters, no two do.
pub names_stay_apart :
    {s s' : UsersState} → Reaches s s' → IsKeyed s.users → AreApart s.users → AreApart s'.users
names_stay_apart r w h = history_keeps AreApart (λ m m' c k i. Changes-AreApart c k i) r w h
