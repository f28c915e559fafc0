-- ===== src/Users/SigningIn.antt =====
-- A sign-in changes no user but in the time of its last sign-in, which the directory allows.
use cli_server_node.Common.{
  Bool, true, false, Option, none, some, Text, Map, map_get, map_values, find?, Option-cases, ◌≡◌,
  refl, sym, ap, subst, ◌∙◌, arith, inl, inr,
}
use cli_server_node.Users.{User, SessionMetadata, UsersState, Env}
use cli_server_node.Users.Actions.{ok, ◌>>=◌}
use cli_server_node.Users.Stores.{same_text, get_user, get_credentials, look_up, create_session}
use cli_server_node.Users.Access.{
  PasswordAttempt, find_user, verify_password, check_of, verify_password_with_lockout,
}
use cli_server_node.Users.Sessions.{
  no_changes, open_session, open_unless_disabled, refuse_disabled, sign_in_attempt, login,
  user_if_valid,
}
use cli_server_node.Users.Laws.{
  Keeps, Reads, bind_elim, bind-Keeps, bind-Reads, when-Keeps, Reads-bind-Keeps,
}
use cli_server_node.Users.Reading.{get_effective_permissions-Reads}
use cli_server_node.Users.Outside.{OfUsers, audit-users, publish_event-Keeps}
use cli_server_node.Users.Changes.{Changes, unchanged, IsKeyed}
use cli_server_node.Users.Stored.{
  find_stored, look_up_stored, store_update_user-Changes, user_clash_nothing,
}
use cli_server_node.Users.Managing.{Allowed, Allowed-bind}

check_of-Reads : (u : Option User) (password : Text) → Reads (check_of u password)
unfolding verify_password get_credentials
check_of-Reads none password env s = refl
check_of-Reads (some u) password env s = bind-Reads _ _ (λ env s. refl) (λ c env s. refl) env s

pub verify_password_with_lockout-users :
    (I : Map User → Type 0) (u : Option User) (password : Text) (a : PasswordAttempt)
    → Keeps (OfUsers I) (verify_password_with_lockout u password a)
unfolding verify_password_with_lockout
verify_password_with_lockout-users I u password a =
    bind-Keeps (OfUsers I) _ _ (λ env s p. p)
      λ reserved.
        bind-Keeps (OfUsers I) _ _
          (when-Keeps (OfUsers I) _ _
            (bind-Keeps (OfUsers I) _ _ (audit-users I _) (λ _ env s p. p)))
          λ _. Reads-bind-Keeps (OfUsers I) _ _ (check_of-Reads u password) λ valid.
            bind-Keeps (OfUsers I) _ _ (when-Keeps (OfUsers I) _ _ (λ env s p. p)) λ _.
              bind-Keeps (OfUsers I) _ _
                (when-Keeps (OfUsers I) _ _
                  (bind-Keeps (OfUsers I) _ _ (λ env s p. p) (λ _. audit-users I _)))
                λ _ env s p. p

open_session-Changes :
    (u : User) (meta : SessionMetadata) (env : Env) (s : UsersState)
    → map_get u.id s.users ≡ some u
    → Allowed s.users (open_session u meta env s)
unfolding open_session create_session
open_session-Changes u meta env s at =
    let I : Map User → Type 0 = Changes s.users in
    Allowed-bind _ _ env s (λ env s. refl)
      λ now q.
        let base =
          store_update_user-Changes u (record no_changes { last_login_at = some now }) env s at
            (user_clash_nothing (some u.id) (map_values s.users)) (λ last. ground (arith, last)) in
        bind_elim _ _ env s (Allowed s.users) (λ e q. base)
          λ live q.
            (bind-Keeps (OfUsers I) _ _ (λ env s p. p)
                λ token.
                  bind-Keeps (OfUsers I) _ _ (λ env s p. p)
                    λ hash.
                      bind-Keeps (OfUsers I) _ _
                        (bind-Keeps (OfUsers I) _ _ (λ env s p. p)
                          (λ x. bind-Keeps (OfUsers I) _ _ (λ env s p. p) (λ _ env s p. p)))
                        λ x. bind-Keeps (OfUsers I) _ _ (audit-users I _) λ _.
                          bind-Keeps (OfUsers I) _ _
                            (publish_event-Keeps (OfUsers I) (λ s es p. p) _ _ _)
                            λ _.
                              Reads-bind-Keeps (OfUsers I) _ _
                                (get_effective_permissions-Reads live)
                                λ ps. bind-Keeps (OfUsers I) _ _ (λ env s p. p) λ e env s p. p)
              env _ base

-- Whoever is found, by id, name or email, is stored.
pub find_user_returned :
    (x : Text) (env : Env) (s : UsersState) (u : User)
    → IsKeyed s.users
    → (find_user x env s).0 ≡ ok (some u)
    → map_get u.id s.users ≡ some u
unfolding find_user get_user ◌>>=◌
find_user_returned x env s u w h = elim (Option-cases (look_up x s.users)) [
  | inl e ↦
      let found : find? (λ (v : User). same_text v.email x) (map_values s.users) ≡ some u =
        ground (arith, e, h) in
      let (k, at) = find_stored (λ (v : User). same_text v.email x) s.users u w.keys found in
      subst (λ i. map_get i s.users ≡ some u) (sym (w.ids k u at)) at
  | inr (v, e) ↦ look_up_stored x s.users u w (ground (arith, e, h))
]

pub find_user-Reads : (x : Text) → Reads (find_user x)
unfolding find_user get_user
find_user-Reads x =
    bind-Reads _ _ (λ env s. refl) (λ f. bind-Reads _ _ (λ env s. refl) (λ us env s. refl))

-- A user that is let in is the one that was found.
pub user_if_valid_returned :
    (o : Option User) (valid : Bool) (env : Env) (s : UsersState) (u : User)
    → (user_if_valid o valid env s).0 ≡ ok u
    → o ≡ some u
user_if_valid_returned none valid env s u h = cc
user_if_valid_returned (some v) true env s u h = cc
user_if_valid_returned (some v) false env s u h = cc

pub user_if_valid-Reads : (o : Option User) (valid : Bool) → Reads (user_if_valid o valid)
user_if_valid-Reads none valid env s = refl
user_if_valid-Reads (some v) true env s = refl
user_if_valid-Reads (some v) false env s = refl

-- A session is opened for a user that is stored before, or an error is thrown.
open_unless_disabled-Changes :
    (u : User) (meta : SessionMetadata) (env : Env) (s : UsersState)
    → map_get u.id s.users ≡ some u
    → Allowed s.users (open_unless_disabled u meta env s)
unfolding open_unless_disabled
open_unless_disabled-Changes u meta env s at =
    let Same : Map User → Type 0 = λ m. m ≡ s.users in
    let kept =
      when-Keeps (OfUsers Same) u.disabled (refuse_disabled u meta)
        (bind-Keeps (OfUsers Same) _ _ (audit-users Same _) (λ _ env s p. p)) env s refl in
    bind_elim _ _ env s (Allowed s.users) (λ e q. unchanged kept)
      λ _ q. from_same u meta env _ kept at
  where
    from_same :
        (u : User) (meta : SessionMetadata) (env : Env) (s1 : UsersState) {users : Map User}
        → s1.users ≡ users
        → map_get u.id users ≡ some u
        → Allowed users (open_session u meta env s1)
    from_same u meta env s1 same at =
        subst (λ m. Changes m (open_session u meta env s1).1.users) same
          (open_session-Changes u meta env s1 (ap (map_get u.id) same ∙ at))

pub login-Changes :
    (username password : Text) (meta : SessionMetadata) (env : Env) (s : UsersState)
    → IsKeyed s.users
    → Allowed s.users (login username password meta env s)
unfolding login
login-Changes username password meta env s w =
    let Same : Map User → Type 0 = λ m. m ≡ s.users in
    Allowed-bind _ _ env s (find_user-Reads username) λ found who.
      let kept =
        verify_password_with_lockout-users Same found password (sign_in_attempt username meta) env s
          refl in
      bind_elim _ _ env s (Allowed s.users) (λ e q. unchanged kept)
        λ valid q.
          let s1 : UsersState =
            (verify_password_with_lockout found password (sign_in_attempt username meta) env s).1 in
          subst
            (λ m.
              Changes m
                ((user_if_valid found valid >>= λ u. open_unless_disabled u meta) env s1).1.users)
            kept
            (Allowed-bind _ _ env s1 (user_if_valid-Reads found valid) λ u right.
              open_unless_disabled-Changes u meta env s1 (
                ap (map_get u.id) kept
                ∙ find_user_returned username env s u w
                    (who ∙ ap ok (user_if_valid_returned found valid env s1 u right))))
