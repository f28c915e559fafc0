-- ===== src/Users/Erased.antt =====
-- What is left of a user that was deleted: nothing that it could sign in or be recognised with.
use cli_server_node.Common.{
  Bool, true, not, ◌||◌, none, some, List, [], ◌∷◌, Text, Map, map_get, map_values, map_update,
  map_get-map_delete_at, text_eq, text_eq_refl, text_eq_iff, any, all, filter, Bool-cases, ◌≡◌,
  refl, sym, ap, ap₂, subst, ◌∙◌, arith, inl, inr, if◌then◌else◌,
}
use cli_server_node.Users.{User, Session, ApiToken, UsersState, Env, Effect}
use cli_server_node.Users.Actions.{Result, ok, for_each, ◌>>=◌}
use cli_server_node.Users.Stores
use cli_server_node.Users.Stores.{is_id, without_session}
use cli_server_node.Users.Access.{delete_credentials, clear_user_lockout}
use cli_server_node.Users.Sessions.{revoke_session, revoke_user_sessions, Revocation, is_revoked_of}
use cli_server_node.Users.Tokens.{delete_user_tokens}
use cli_server_node.Users.Directory.{Caller, drop_tokens, drop_user, delete_user, by_caller}
use cli_server_node.Users.Laws.{bind_elim, reads_bind, ok_injective, bind_returned, bind-Keeps}
use cli_server_node.Users.Reading.{assert_can_act_on-Reads, is_last_enabled_admin-Reads}
use cli_server_node.Users.Outside

-- No two sessions of a list have one id.
abbrev pub HasUniqueIds : List Session → Type 0
HasUniqueIds [] = Unit
HasUniqueIds (x ∷ xs) = (all (λ (y : Session). not (text_eq y.id x.id)) xs ≡ true) × HasUniqueIds xs

without_all :
    (p : Session → Bool) (id : Text) (m : Map Session)
    → all p (map_values m) ≡ true
    → all p (map_values (without_session id m)) ≡ true
unfolding without_session
without_all p id [] h = refl
without_all p id ((k, x) ∷ m) h = ground (arith, without_all p id m (ground arith))

without_unique :
    (id : Text) (m : Map Session)
    → HasUniqueIds (map_values m)
    → HasUniqueIds (map_values (without_session id m))
unfolding without_session
without_unique id [] u = tt
without_unique id ((k, x) ∷ m) (apart, u) = elim (Bool-cases (text_eq x.id id)) [
  | inl e ↦ rw e u
  | inr n ↦
      rw n
        (without_all (λ (y : Session). not (text_eq y.id x.id)) id m apart, without_unique id m u)
]

-- With unique ids no session of the id is left.
without_gone :
    (id : Text) (m : Map Session)
    → HasUniqueIds (map_values m)
    → all (λ (y : Session). not (text_eq y.id id)) (map_values (without_session id m)) ≡ true
unfolding without_session
without_gone id [] u = refl
without_gone id ((k, x) ∷ m) (apart, u) = elim (Bool-cases (text_eq x.id id)) [
  | inl e ↦ rw e (
      subst (λ i. all (λ (y : Session). not (text_eq y.id i)) (map_values m) ≡ true)
        ((text_eq_iff x.id id).0 e) apart)
  | inr n ↦ rw n (ground (arith, without_gone id m u))
]

-- A user's sessions that remain are among those still to be revoked.
abbrev is_left : Text → List Session → Session → Bool
is_left user_id rest y = not (text_eq y.user_id user_id) || any (λ x. text_eq y.id x.id) rest

all_weaken :
    (p q r : Session → Bool)
    → ((y : Session) → p y ≡ true → q y ≡ true → r y ≡ true)
    → (ys : List Session) → all p ys ≡ true
    → all q ys ≡ true
    → all r ys ≡ true
all_weaken p q r f [] h k = refl
all_weaken p q r f (y ∷ ys) h k =
    ground (arith, f y (ground arith) (ground arith), all_weaken p q r f ys)

module _ (user_id reason : Text) (by : Revocation) where
  -- The sessions with unique ids, of which those of the user are among some.
  record AreLeft (rest : List Session) (m : Map Session) : Type 0 where
    unique : HasUniqueIds (map_values m)
    among : all (is_left user_id rest) (map_values m) ≡ true

  revoke-AreLeft :
      (x : Session) (rest : List Session) (env : Env) (s : UsersState)
      → AreLeft (x ∷ rest) s.sessions
      → AreLeft rest (revoke_session x reason by env s).1.sessions
  unfolding revoke_session Stores.delete_session_by_id
  revoke-AreLeft x rest env s h =
      let after : AreLeft rest (without_session x.id s.sessions) = record {
        unique = without_unique x.id s.sessions h.unique;
        among =
            all_weaken (is_left user_id (x ∷ rest)) (λ y. not (text_eq y.id x.id))
              (is_left user_id rest) (λ y p q. ground arith) _
              (without_all (is_left user_id (x ∷ rest)) x.id s.sessions h.among)
              (without_gone x.id s.sessions h.unique);
      } in
      bind_elim _ _ env s (λ q. AreLeft rest q.1.sessions) (λ e q. after)
        (λ _ q.
          Outside.tell_revoked-Keeps (λ t. AreLeft rest t.sessions) (λ s es p. p) x reason by env _
            after)

  revoke_all-AreLeft :
      (xs : List Session) (env : Env) (s : UsersState)
      → AreLeft xs s.sessions
      → (for_each (λ x. revoke_session x reason by) xs env s).0 ≡ ok tt
      → AreLeft [] (for_each (λ x. revoke_session x reason by) xs env s).1.sessions
  unfolding for_each
  revoke_all-AreLeft [] env s h q = h
  revoke_all-AreLeft (x ∷ xs) env s h q =
      let (_, _, e) =
        bind_returned (revoke_session x reason by)
          (λ _. for_each (λ x. revoke_session x reason by) xs) env s tt q in
      subst (λ t. AreLeft [] t.1.sessions) (sym e)
        (revoke_all-AreLeft xs env (revoke_session x reason by env s).1
          (revoke-AreLeft x xs env s h) (sym (ap (λ t. t.0) e) ∙ q))

is_left_cons :
    (user_id : Text) (x : Session) (rest : List Session) (y : Session)
    → is_left user_id rest y ≡ true
    → is_left user_id (x ∷ rest) y ≡ true
is_left_cons user_id x rest y h = ground arith

-- The sessions to be revoked are all of the user's.
filter-is_left :
    (user_id : Text) (ys : List Session)
    → all (is_left user_id (filter (is_revoked_of user_id none) ys)) ys ≡ true
filter-is_left user_id [] = refl
filter-is_left user_id (y ∷ ys) = elim (Bool-cases (text_eq y.user_id user_id)) [
  | inl e ↦
      let kept : filter mine (y ∷ ys) ≡ y ∷ filter mine ys = rw e refl in
      subst (λ zs. all (is_left user_id zs) (y ∷ ys) ≡ true) (sym kept)
        (ground (
          arith,
          text_eq_refl y.id,
          all_weaken _ _ (is_left user_id (y ∷ filter mine ys))
              (λ z p q. is_left_cons user_id y _ z p) ys (filter-is_left user_id ys)
              (filter-is_left user_id ys),
        ))
  | inr n ↦
      let kept : filter mine (y ∷ ys) ≡ filter mine ys = rw n refl in
      subst (λ zs. all (is_left user_id zs) (y ∷ ys) ≡ true) (sym kept)
        (ground (arith, n, filter-is_left user_id ys))
]
  where
    mine : Session → Bool
    mine = is_revoked_of user_id none

-- No session in the store is the user's.
abbrev HasNoSession : Text → Map Session → Type 0
HasNoSession user_id m =
    all (λ (x : Session). not (text_eq x.user_id user_id)) (map_values m) ≡ true

none_left :
    (user_id : Text) (ys : List Session)
    → all (is_left user_id []) ys ≡ true
    → all (λ (x : Session). not (text_eq x.user_id user_id)) ys ≡ true
none_left user_id [] h = refl
none_left user_id (y ∷ ys) h = ground (arith, none_left user_id ys)

-- If it returned, none of the user's sessions is stored.
abbrev LeavesNone : {A : Type 0} → Text → Result A × UsersState → Type 0
LeavesNone {A} user_id q = (a : A) → q.0 ≡ ok a → HasNoSession user_id q.1.sessions

revoke_user_sessions_gone :
    (user_id reason : Text) (by : Revocation) (env : Env) (s : UsersState)
    → by.except_session_id ≡ none
    → HasUniqueIds (map_values s.sessions)
    → LeavesNone user_id (revoke_user_sessions user_id reason by env s)
unfolding revoke_user_sessions
revoke_user_sessions_gone user_id reason by env s except u =
    reads_bind _ _ env s (LeavesNone user_id) (λ env s. refl) (λ e q a k. absurd (cc (q, k)))
      λ ys is_ys.
        let chosen : filter (is_revoked_of user_id none) (map_values s.sessions)
            ≡ filter (is_revoked_of user_id by.except_session_id) ys =
          ap₂ (λ o zs. filter (is_revoked_of user_id o) zs) (sym except) (ok_injective is_ys) in
        let start : AreLeft user_id reason by
            (filter (is_revoked_of user_id by.except_session_id) ys) s.sessions =
          record {
            unique = u;
            among =
                subst (λ xs. all (is_left user_id xs) (map_values s.sessions) ≡ true) chosen
                  (filter-is_left user_id (map_values s.sessions));
          } in
        bind_elim _ _ env s (LeavesNone user_id) (λ e q a k. absurd (cc (q, k)))
          λ _ q a k.
            none_left user_id _ (revoke_all-AreLeft user_id reason by _ env s start q).among

-- Nothing of a user is stored: no user of the id, no password, no session and no API token.
pub record IsErased (id : Text) (s : UsersState) : Type 0 where
  pub no_user : map_get id s.users ≡ none
  pub no_credentials : map_get id s.credentials ≡ none
  pub no_sessions : all (λ (x : Session). not (text_eq x.user_id id)) (map_values s.sessions) ≡ true
  pub no_tokens : all (λ (t : ApiToken). not (text_eq t.user_id id)) (map_values s.tokens) ≡ true

-- The first part of it, before the sessions are revoked.
record IsForgotten (id : Text) (s : UsersState) : Type 0 where
  no_user : map_get id s.users ≡ none
  no_credentials : map_get id s.credentials ≡ none

tokens_gone :
    (id : Text) (m : Map ApiToken)
    → all
        (λ (t : ApiToken). not (text_eq t.user_id id))
        (map_values
          (map_update (λ (t : ApiToken). if text_eq t.user_id id then none else some t) m))
      ≡ true
unfolding map_update
tokens_gone id [] = refl
tokens_gone id ((k, t) ∷ m) = ground (arith, tokens_gone id m)

forgotten :
    (id : Text) (env : Env) (s : UsersState)
    → map_get id s.users ≡ none
    → IsForgotten id (delete_credentials id env s).1
      × ((delete_credentials id env s).1.sessions ≡ s.sessions)
unfolding delete_credentials Stores.store_delete_credentials clear_user_lockout ◌>>=◌
forgotten id env s h = (
  record {
    no_user = h;
    no_credentials = map_get-map_delete_at id id s.credentials (text_eq_refl id);
  },
  refl,
)

Erases : Text → {A : Type 0} → Result A × UsersState → Type 0
Erases id {A} q = (a : A) → q.0 ≡ ok a → IsErased id q.1

IsErased-quiet :
    (id : Text) (s : UsersState) (es : List Effect)
    → IsErased id s
    → IsErased id (record s { effects = es })
IsErased-quiet id s es p = record {
  no_user = p.no_user;
  no_credentials = p.no_credentials;
  no_sessions = p.no_sessions;
  no_tokens = p.no_tokens;
}

-- The last part: the tokens are deleted, and it is told.
drop_tokens-IsErased :
    (t : User) (caller : Caller) (env : Env) (s : UsersState)
    → IsForgotten t.id s
    → HasNoSession t.id s.sessions
    → IsErased t.id (drop_tokens t caller env s).1
unfolding drop_tokens Stores.store_delete_user_tokens
drop_tokens-IsErased t caller env s f no_session =
    let P = IsErased t.id in
    let base : IsErased t.id (delete_user_tokens t.id (some caller.name) env s).1 =
      Outside.delete_user_tokens_after (IsErased t.id) (IsErased-quiet t.id) t.id (some caller.name)
        env s
        (record {
          no_user = f.no_user;
          no_credentials = f.no_credentials;
          no_sessions = no_session;
          no_tokens = tokens_gone t.id s.tokens;
        }) in
    bind_elim _ _ env s (λ q. IsErased t.id q.1) (λ e q. base)
      λ _ q.
        bind-Keeps (IsErased t.id) _ _ (Outside.audit-Keeps (IsErased t.id) (IsErased-quiet t.id) _)
          (λ _. Outside.publish_user_event-Keeps (IsErased t.id) (IsErased-quiet t.id) _ t caller)
          env _ base

drop_user-Erases :
    (t : User) (caller : Caller) (env : Env) (s : UsersState)
    → HasUniqueIds (map_values s.sessions)
    → Erases t.id (drop_user t caller env s)
unfolding Erases drop_user Stores.store_delete_user Stores.delete_session_by_id
drop_user-Erases t caller env s u =
    let s₁ : UsersState = (Stores.store_delete_user t.id env s).1 in
    let s₂ : UsersState = (delete_credentials t.id env s₁).1 in
    let (f, same) =
      forgotten t.id env s₁ (map_get-map_delete_at t.id t.id s.users (text_eq_refl t.id)) in
    bind_elim _ _ env s (Erases t.id) (λ e q a k. absurd (cc (q, k)))
      λ _ q.
        bind_elim _ _ env s₁ (Erases t.id) (λ e q a k. absurd (cc (q, k)))
          λ _ q.
            bind_elim _ _ env s₂ (Erases t.id) (λ e q a k. absurd (cc (q, k)))
              λ n q a k.
                drop_tokens-IsErased t caller env _
                  (Outside.revoke_user_sessions-Keeps (IsForgotten t.id)
                    (λ s es p. record { no_user = p.no_user; no_credentials = p.no_credentials })
                    t.id _ _
                    (λ id env s p. record {
                      no_user = p.no_user;
                      no_credentials = p.no_credentials;
                    })
                    env s₂ f)
                  (revoke_user_sessions_gone t.id _ (by_caller caller t.name) env s₂ refl
                    (subst (λ m. HasUniqueIds (map_values m)) (sym same) u) n q)

-- Where no two sessions have one id: if deleting a user returns, nothing of it is stored, whatever was:
-- no user of its id, no password, no session and no API token.
pub delete_user-IsErased :
    (t : User) (caller : Caller) (env : Env) (s : UsersState)
    → HasUniqueIds (map_values s.sessions)
    → (delete_user t caller env s).0 ≡ ok tt
    → IsErased t.id (delete_user t caller env s).1
unfolding delete_user Erases
delete_user-IsErased t caller env s u h =
    reads_bind _ _ env s (Erases t.id) (λ env s. refl) (λ e q a k. absurd (cc (q, k)))
      (λ _ q.
        reads_bind _ _ env s (Erases t.id) (assert_can_act_on-Reads caller t)
          (λ e q a k. absurd (cc (q, k)))
          λ _ q.
            reads_bind _ _ env s (Erases t.id) (is_last_enabled_admin-Reads t)
              (λ e q a k. absurd (cc (q, k)))
              λ l q.
                reads_bind _ _ env s (Erases t.id) (λ env s. refl) (λ e q a k. absurd (cc (q, k)))
                  λ _ q. drop_user-Erases t caller env s u)
      tt h
