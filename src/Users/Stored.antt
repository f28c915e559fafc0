-- ===== src/Users/Stored.antt =====
-- What the store of users does is a change that the directory allows, once its checks have passed.
use cli_server_node.Common.{
  Bool, true, false, Option, none, some, List, [], ◌∷◌, ◌++◌, Text, Map, map_get, map_values,
  HasUniqueKeys, text_eq, text_eq_iff, text_eq_refl, to_lower, is_some, find?, any-append,
  Bool-cases, Option-cases, ◌≡◌, refl, sym, ap, subst, ◌∙◌, arith, inl, inr,
}
use cli_server_node.Permissions.{same_name, in_group, admin_group}
use cli_server_node.Users.{User, CreateUserDto, UpdateUserDto, UsersState, Env}
use cli_server_node.Users.Actions.{◌>>=◌}
use cli_server_node.Users.Stores.{
  look_up, same_text, store_clash, created_user, updated_user, store_create_user, store_update_user,
  store_delete_user,
}
use cli_server_node.Users.Directory.{user_clash, is_enabled_admin, is_last_of}
use cli_server_node.Users.Groups.{without_group}
use cli_server_node.Users.Changes.{adds, alters, removes, Changes, unchanged, one_change, IsKeyed}

pub find_stored :
    (p : User → Bool) (m : Map User) (u : User)
    → HasUniqueKeys m
    → find? p (map_values m) ≡ some u
    → (k : Text) × (map_get k m ≡ some u)
unfolding map_get
find_stored p [] u w h = absurd (cc)
find_stored p ((j, v) ∷ m) u (new, w) h = elim (Bool-cases (p v)) [
  | inl e ↦ (j, ground (arith, text_eq_refl j))
  | inr n ↦
      let (k, at) = find_stored p m u w (ground arith) in
      elim (Bool-cases (text_eq j k)) [
        | inl e ↦ absurd (
            cc (
              subst (λ i. is_some (map_get i m) ≡ false) ((text_eq_iff j k).0 e) new,
              ap is_some at,
            ))
        | inr d ↦ (k, rw d at)
      ]
]

-- A user that is looked up is the one stored under its id.
pub look_up_stored :
    (x : Text) (users : Map User) (u : User)
    → IsKeyed users
    → look_up x users ≡ some u
    → map_get u.id users ≡ some u
unfolding look_up
look_up_stored x users u w h = elim (Option-cases (map_get x users)) [
  | inl e ↦
      let found : find? (λ (v : User). same_text v.name x) (map_values users) ≡ some u =
        ground (arith, e) in
      let (k, at) = find_stored (λ (v : User). same_text v.name x) users u w.keys found in
      subst (λ i. map_get i users ≡ some u) (sym (w.ids k u at)) at
  | inr (v, e) ↦
      let at : map_get x users ≡ some u = ground (arith, e) in
      subst (λ i. map_get i users ≡ some u) (sym (w.ids x u at)) at
]

pub store_create_user-Changes :
    (dto : CreateUserDto) (env : Env) (s : UsersState)
    → map_get env.new_id s.users ≡ none
    → user_clash (some dto.name) (some dto.email) none (map_values s.users) ≡ none
    → Changes s.users (store_create_user dto env s).1.users
unfolding store_create_user ◌>>=◌
store_create_user-Changes dto env s fresh clash =
    elim (Option-cases (store_clash (some dto.name) (some dto.email) none (map_values s.users))) [
      | inl e ↦ rw e (one_change (adds (created_user env dto) fresh clash refl))
      | inr (x, e) ↦ rw e (unchanged refl)
    ]

pub store_update_user-Changes :
    (t : User) (dto : UpdateUserDto) (env : Env) (s : UsersState)
    → map_get t.id s.users ≡ some t
    → user_clash dto.name dto.email (some t.id) (map_values s.users) ≡ none
    → (is_last_of t (map_values s.users) ≡ true
        → is_enabled_admin (updated_user env.now dto t) ≡ true)
    → Changes s.users (store_update_user t.id dto env s).1.users
unfolding store_update_user ◌>>=◌
store_update_user-Changes t dto env s at clash last =
    elim (Option-cases (store_clash dto.name dto.email (some t.id) (map_values s.users))) [
      | inl e ↦ rw (at, e) (one_change (alters t dto env.now at clash last refl))
      | inr (x, e) ↦ rw (at, e) (unchanged refl)
    ]

pub store_delete_user-Changes :
    (t : User) (env : Env) (s : UsersState)
    → map_get t.id s.users ≡ some t
    → is_last_of t (map_values s.users) ≡ false
    → Changes s.users (store_delete_user t.id env s).1.users
unfolding store_delete_user
store_delete_user-Changes t env s at last = one_change (removes t at last refl)

-- Where neither a name nor an email is given, nothing clashes.
pub user_clash_nothing :
    (except : Option Text) (users : List User) → user_clash none none except users ≡ none
unfolding user_clash
user_clash_nothing except [] = refl
user_clash_nothing except (u ∷ users) = ground (arith, user_clash_nothing except users)

same_name_trans :
    (a b c : Text)
    → same_name (some a) (some b) ≡ true
    → same_name (some a) (some c) ≡ true
    → same_name (some b) (some c) ≡ true
unfolding same_name
same_name_trans a b c h k = ground (
  arith,
  text_eq_iff (to_lower a) (to_lower b),
  text_eq_iff (to_lower a) (to_lower c),
  text_eq_iff (to_lower b) (to_lower c),
)

-- Leaving another group is not leaving `admin`.
pub without_group-admin :
    (name : Text) (groups : List Text)
    → same_name (some name) (some admin_group) ≡ false
    → in_group (some groups) admin_group ≡ true
    → in_group (some (without_group name groups)) admin_group ≡ true
unfolding in_group
without_group-admin name [] h k = k
without_group-admin name (g ∷ groups) h k = elim (Bool-cases (same_name (some g) (some name))) [
  | inl e ↦ elim (Bool-cases (same_name (some g) (some admin_group))) [
    | inl f ↦ absurd (cc (h, same_name_trans g name admin_group e f))
    | inr f ↦ ground (arith, without_group-admin name groups h)
  ]
  | inr n ↦ ground (arith, without_group-admin name groups h)
]

pub in_group-append :
    (groups more : List Text) (name : Text)
    → in_group (some groups) name ≡ true
    → in_group (some (groups ++ more)) name ≡ true
unfolding in_group
in_group-append groups more name h =
    any-append (λ g. same_name (some g) (some name)) groups more ∙ ground arith
