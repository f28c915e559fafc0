-- ===== src/Users/Leaving.antt =====
-- The deletion of a group: each of its members is updated in turn, from the list read before.
use cli_server_node.Common.{
  false, some, List, [], ◌∷◌, Text, Map, map_get, map_set, map_values, map_get-map_set_apart,
  text_eq, text_eq_refl, text_eq_comm, text_eq_iff, is_some, All, Bool-cases, Option-cases, ◌≡◌,
  refl, sym, ap, subst, ◌∙◌, arith, inl, inr, if◌then◌else◌, if_intro, to_lower,
}
use cli_server_node.Permissions.{same_name, in_group, admin_group}
use cli_server_node.Users.{User, Group, UpdateUserDto, UsersState, Env}
use cli_server_node.Users.Actions.{Result, Action, ◌>>=◌}
use cli_server_node.Users.Stores.{updated_user, store_clash, store_update_user, store_delete_group}
use cli_server_node.Users.Directory.{Caller}
use cli_server_node.Users.Groups.{
  without_group, member_left, remove_members, is_built_in, delete_group,
}
use cli_server_node.Users.Laws.{
  bind_elim, bind-Keeps, for_each-Keeps, raise_if_returned, ok_injective,
}
use cli_server_node.Users.Outside.{
  OfUsers, audit-users, publish_user_event-users, publish_group_event-users,
}
use cli_server_node.Users.Changes.{Changes, unchanged, Changes-trans, IsKeyed}
use cli_server_node.Users.Stored.{
  store_update_user-Changes, user_clash_nothing, without_group-admin,
}
use cli_server_node.Users.Managing.{Allowed, Allowed-bind}
use cli_server_node.Users.Membership.{regrouped}

-- The users of a list are stored as they stand there, no two under one id.
pub AreStored : List User → Map User → Type 0
AreStored [] m = Unit
AreStored (u ∷ us) m =
    (map_get u.id m ≡ some u) × All (λ (v : User). text_eq u.id v.id ≡ false) us × AreStored us m

-- A map that a list of users is stored in, at an entry before its own.
AreStored-cons :
    (j : Text) (w : User) (m : Map User) (us : List User)
    → is_some (map_get j m) ≡ false
    → AreStored us m
    → AreStored us ((j, w) ∷ m) × All (λ (v : User). text_eq j v.id ≡ false) us
unfolding AreStored map_get
AreStored-cons j w m [] new h = (tt, tt)
AreStored-cons j w m (u ∷ us) new (at, apart, h) =
    let (rest, off) = AreStored-cons j w m us new h in
    elim (Bool-cases (text_eq j u.id)) [
      | inl e ↦ absurd (
          cc (
            subst (λ i. is_some (map_get i m) ≡ false) ((text_eq_iff j u.id).0 e) new,
            ap is_some at,
          ))
      | inr n ↦ ((rw n at, apart, rest), (n, off))
    ]

pub none-AreStored : (m : Map User) → AreStored [] m
unfolding AreStored
none-AreStored m = tt

tail-IsKeyed : (j : Text) (w : User) (m : Map User) → IsKeyed ((j, w) ∷ m) → IsKeyed m
unfolding map_get
tail-IsKeyed j w m k = record {
  keys = k.keys.1;
  ids = λ i u e. elim (Bool-cases (text_eq j i)) [
    | inl h ↦ absurd (
        cc (
          subst (λ x. is_some (map_get x m) ≡ false) ((text_eq_iff j i).0 h) k.keys.0,
          ap is_some e,
        ))
    | inr n ↦ k.ids i u (rw n e)
  ];
}

pub head-AreStored :
    (t : User) (us : List User) (m : Map User) → AreStored (t ∷ us) m → map_get t.id m ≡ some t
unfolding AreStored
head-AreStored t us m (at, apart, h) = at

-- All the users of a store are.
pub values-AreStored : (m : Map User) → IsKeyed m → AreStored (map_values m) m
unfolding AreStored map_get
values-AreStored [] k = tt
values-AreStored ((j, w) ∷ m) k =
    let id : w.id ≡ j = k.ids j w (rw (text_eq_refl j) refl) in
    let (rest, off) =
      AreStored-cons j w m (map_values m) k.keys.0 (values-AreStored m (tail-IsKeyed j w m k)) in
    (
      rw (id, text_eq_refl j) refl,
      subst (λ i. All (λ (v : User). text_eq i v.id ≡ false) (map_values m)) (sym id) off,
      rest,
    )

-- An update of another user leaves them stored.
AreStored-map_set :
    (t : User) (m : Map User) (us : List User)
    → All (λ (v : User). text_eq t.id v.id ≡ false) us
    → AreStored us m
    → AreStored us (map_set t.id t m)
unfolding AreStored
AreStored-map_set t m [] off h = tt
AreStored-map_set t m (u ∷ us) (n, off) (at, apart, h) =
    (map_get-map_set_apart u.id t.id m t n ∙ at, apart, AreStored-map_set t m us off h)

store_update_user-AreStored :
    (t : User) (dto : UpdateUserDto) (us : List User) (env : Env) (s : UsersState)
    → AreStored (t ∷ us) s.users
    → AreStored us (store_update_user t.id dto env s).1.users
unfolding AreStored store_update_user ◌>>=◌
store_update_user-AreStored t dto us env s (at, apart, h) =
    elim (Option-cases (store_clash dto.name dto.email (some t.id) (map_values s.users))) [
      | inl e ↦ rw (at, e) (AreStored-map_set (updated_user env.now dto t) s.users us apart h)
      | inr (x, e) ↦ rw (at, e) h
    ]

-- What the loop leaves so far: allowed changes, and the users that follow as they were.
Round : {A : Type 0} → Map User → List User → Result A × UsersState → Type 0
Round users us q = Changes users q.1.users × AreStored us q.1.users

module _ (name : Text) (other : same_name (some name) (some admin_group) ≡ false) where
  member_left-Round :
      (t : User) (us : List User) (env : Env) (s : UsersState)
      → AreStored (t ∷ us) s.users
      → Round s.users us (member_left name t env s)
  unfolding Round AreStored
  member_left-Round t us env s (at, apart, h) =
      let dto = regrouped (without_group name t.groups) in
      let base : Changes s.users (store_update_user t.id dto env s).1.users =
        store_update_user-Changes t dto env s at
          (user_clash_nothing (some t.id) (map_values s.users))
          (λ last.
            ground (arith, without_group-admin name t.groups other (ground (arith, last)), last)) in
      let later = store_update_user-AreStored t dto us env s (at, apart, h) in
      if_intro (λ (m : Action (List User)). Round s.users us (m env s))
        (in_group (some t.groups) name)
        (bind_elim _ _ env s (Round s.users us) (λ e q. (base, later)) (λ u q. (base, later)))
        (unchanged refl, h)

  pub member_left-AreStored :
      (t : User) (us : List User) (env : Env) (s : UsersState)
      → AreStored (t ∷ us) s.users
      → AreStored us (member_left name t env s).1.users
  unfolding Round
  member_left-AreStored t us env s h = (member_left-Round t us env s h).1

  remove_members-Changes :
      (us : List User) (env : Env) (s : UsersState)
      → AreStored us s.users
      → Allowed s.users (remove_members name us env s)
  unfolding remove_members Round
  remove_members-Changes [] env s h = unchanged refl
  remove_members-Changes (t ∷ us) env s h =
      let (base, later) = member_left-Round t us env s h in
      bind_elim _ _ env s (Allowed s.users) (λ e q. base)
        (λ left q.
          let rest =
            Changes-trans base (remove_members-Changes us env (member_left name t env s).1 later) in
          bind_elim _ _ env _ (Allowed s.users) (λ e q. rest) (λ r q. rest))

-- The groups that are built in hold `admin`.
pub not_admin :
    (g : Group) → is_built_in g ≡ false → same_name (some g.name) (some admin_group) ≡ false
unfolding same_name
not_admin g h = ground (arith, text_eq_comm (to_lower admin_group) (to_lower g.name))

pub delete_group-Changes :
    (g : Group) (caller : Caller) (env : Env) (s : UsersState)
    → IsKeyed s.users
    → Allowed s.users (delete_group g caller env s)
unfolding delete_group store_delete_group
delete_group-Changes g caller env s w =
    Allowed-bind _ _ env s (λ env s. refl)
      λ _ built.
        bind_elim _ _ env s (Allowed s.users) (λ e q. unchanged refl)
          λ _ q.
            Allowed-bind _ _ env (store_delete_group g.name env s).1 (λ env s. refl)
              λ read_only q.
                Allowed-bind _ _ env (store_delete_group g.name env s).1 (λ env s. refl)
                  λ users got.
                    let all_stored : AreStored users s.users =
                      subst (λ us. AreStored us s.users) (ok_injective got)
                        (values-AreStored s.users w) in
                    let gone =
                      remove_members-Changes g.name
                        (not_admin g (raise_if_returned _ _ env s built))
                        (if read_only then [] else users) env (store_delete_group g.name env s).1
                        (if_intro (λ us. AreStored us s.users) read_only (none-AreStored s.users)
                          all_stored) in
                    bind_elim _ _ env (store_delete_group g.name env s).1 (Allowed s.users)
                      (λ e q. gone)
                      λ members q.
                        bind-Keeps (OfUsers (Changes s.users)) _ _ (audit-users (Changes s.users) _)
                          (λ _.
                            bind-Keeps (OfUsers (Changes s.users)) _ _
                              (publish_group_event-users (Changes s.users) _ _ caller)
                              (λ _.
                                for_each-Keeps (OfUsers (Changes s.users)) _
                                  (λ m. publish_user_event-users (Changes s.users) _ m caller)
                                  members))
                          env _ gone
