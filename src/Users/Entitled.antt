-- ===== src/Users/Entitled.antt =====
-- Changes of users and of groups that give no one a permission: what each store operation of
-- directory-service.ts leaves a user entitled to.
pub mod Managing
pub mod Membership
pub mod Groups
use cli_server_node.Common.{
  Bool, true, false, not, Option, none, some, List, [], ◌∷◌, ◌++◌, Text, Map, map_get, map_set,
  map_delete, map_values, map_get-map_set_at, map_get-map_set_apart, map_get-map_delete_at,
  map_get-map_delete_apart, to_lower, text_eq, text_eq_iff, filter, any, Bool-cases, Option-cases,
  ◌≡◌, refl, sym, ap, subst, ◌∙◌, arith, inl, inr, ◌⊎◌, if◌then◌else◌, if_intro, some_injective,
}
use cli_server_node.Permissions.{has_permission, users_group, same_name}
use cli_server_node.Users.{User, Group, UpdateUserDto, UsersState, Env, Effect}
use cli_server_node.Users.Actions.{Action, ok, ◌>>=◌}
use cli_server_node.Users.Laws.{Reads, reads_bind}
use cli_server_node.Users.Stores.{
  look_up_group, given_or, updated_user, store_clash, store_update_user, store_delete_user,
  store_delete_group,
}
use cli_server_node.Users.Directory.{Caller}
use cli_server_node.Users.Groups.{without_group}
use cli_server_node.Users.Granted.{granted, allows, counts}

-- What groups that changed give, they gave before, unless something holds of each name that gains.
granted_before :
    (C : Type 0) (old new : Map Group) (p : Text)
    → ((k : Text) → allows p (map_get k new) ≡ true → C ⊎ (allows p (map_get k old) ≡ true))
    → (names : List Text) → granted new names p ≡ true
    → C ⊎ (granted old names p ≡ true)
unfolding granted
granted_before C old new p f [] h = cc
granted_before C old new p f (n ∷ names) h = elim (Bool-cases (allows p (look_up_group n new))) [
  | inl e ↦ elim (f (to_lower n) e) [ inl c ↦ inl c | inr k ↦ inr (ground (arith, k)) ]
  | inr d ↦ elim (granted_before C old new p f names (ground (arith, d))) [
    | inl c ↦ inl c
    | inr k ↦ inr (ground (arith, k))
  ]
]

-- Fewer names give no more.
pub granted-without_group :
    (groups : Map Group) (name : Text) (names : List Text) (p : Text)
    → granted groups (without_group name names) p ≡ true
    → granted groups names p ≡ true
unfolding granted
granted-without_group groups name [] p h = h
granted-without_group groups name (n ∷ names) p h =
    elim (Bool-cases (granted groups (without_group name names) p)) [
      | inl e ↦ ground (arith, granted-without_group groups name names p e)
      | inr d ↦ ground (arith, h, d)
    ]

module _ (s₀ : UsersState) (caller : Caller) where
  -- The caller has the permission, or the user had it, or is new and has it of the group of all users.
  abbrev pub Had : Text → Text → Type 0
  Had k p =
      (has_permission (some caller.permissions) p ≡ true)
      ⊎ (((v : User) × (map_get k s₀.users ≡ some v) × (granted s₀.groups v.groups p ≡ true))
          ⊎ ((map_get k s₀.users ≡ none) × (granted s₀.groups (users_group ∷ []) p ≡ true)))

  -- No user has a permission that it should not.
  abbrev pub IsEntitled : UsersState → Type 0
  IsEntitled t =
      (k : Text) (u : User) (p : Text)
      → map_get k t.users ≡ some u
      → granted t.groups u.groups p ≡ true
      → Had k p

  pub start-IsEntitled : IsEntitled s₀
  start-IsEntitled k u p at g = inr (inl (u, at, g))

  pub put-IsEntitled :
      (id : Text) (new : User) (t : UsersState)
      → IsEntitled t
      → ((p : Text) → granted t.groups new.groups p ≡ true → Had id p)
      → IsEntitled (record t { users = map_set id new t.users })
  put-IsEntitled id new t h f k u p at g = elim (Bool-cases (text_eq id k)) [
    | inl e ↦
        let same : new ≡ u = some_injective (sym (map_get-map_set_at k id t.users new e) ∙ at) in
        subst (λ i. Had i p) ((text_eq_iff id k).0 e)
          (f p (subst (λ (x : User). granted t.groups x.groups p ≡ true) (sym same) g))
    | inr d ↦ h k u p (sym (map_get-map_set_apart k id t.users new d) ∙ at) g
  ]

  -- An update of a stored user whose new groups give what the old ones gave, or what the caller has.
  pub store_update_user-IsEntitled :
      (t : User) (dto : UpdateUserDto) (env : Env) (s : UsersState)
      → map_get t.id s.users ≡ some t
      → ((p : Text)
          → granted s.groups (given_or dto.groups t.groups) p ≡ true
          → (has_permission (some caller.permissions) p ≡ true)
            ⊎ (granted s.groups t.groups p ≡ true))
      → IsEntitled s
      → IsEntitled (store_update_user t.id dto env s).1
  unfolding store_update_user ◌>>=◌
  store_update_user-IsEntitled t dto env s at f h =
      elim (Option-cases (store_clash dto.name dto.email (some t.id) (map_values s.users))) [
        | inl e ↦
            rw (at, e)
              (put-IsEntitled t.id (updated_user env.now dto t) s h
                (λ p g. elim (f p g) [ inl c ↦ inl c | inr k ↦ h t.id t p at k ]))
        | inr (x, e) ↦ rw (at, e) h
      ]

  pub store_delete_user-IsEntitled :
      (id : Text) (env : Env) (s : UsersState)
      → IsEntitled s
      → IsEntitled (store_delete_user id env s).1
  unfolding store_delete_user
  store_delete_user-IsEntitled id env s h k u p at g = elim (Bool-cases (text_eq id k)) [
    | inl e ↦ absurd (cc (map_get-map_delete_at k id s.users e, at))
    | inr d ↦ h k u p (sym (map_get-map_delete_apart k id s.users d) ∙ at) g
  ]

  -- A change of the groups.
  groups-IsEntitled :
      (t : UsersState) (new : Map Group)
      → ((p k : Text)
          → allows p (map_get k new) ≡ true
          → (has_permission (some caller.permissions) p ≡ true)
            ⊎ (allows p (map_get k t.groups) ≡ true))
      → IsEntitled t
      → IsEntitled (record t { groups = new })
  groups-IsEntitled t new f h k u p at g =
      elim (granted_before (has_permission (some caller.permissions) p ≡ true) t.groups new p (f p)
        u.groups g) [ inl c ↦ inl c | inr old ↦ h k u p at old ]

  pub store_delete_group-IsEntitled :
      (name : Text) (env : Env) (s : UsersState)
      → IsEntitled s
      → IsEntitled (store_delete_group name env s).1
  unfolding store_delete_group
  store_delete_group-IsEntitled name env s h =
      groups-IsEntitled s (map_delete (to_lower name) s.groups)
        (λ p k g. elim (Bool-cases (text_eq (to_lower name) k)) [
          | inl e ↦
              absurd (cc (ap (allows p) (map_get-map_delete_at k (to_lower name) s.groups e), g))
          | inr d ↦
              inr (ap (allows p) (sym (map_get-map_delete_apart k (to_lower name) s.groups d)) ∙ g)
        ])
        h

  -- A group is put that gives what the one there gave, or what the caller has.
  pub put_group-IsEntitled :
      (key : Text) (group : Group) (t : UsersState)
      → ((p : Text)
          → counts p group.permissions ≡ true
          → (has_permission (some caller.permissions) p ≡ true)
            ⊎ (allows p (map_get key t.groups) ≡ true))
      → IsEntitled t
      → IsEntitled (record t { groups = map_set key group t.groups })
  put_group-IsEntitled key group t f h =
      groups-IsEntitled t (map_set key group t.groups)
        (λ p k g. elim (Bool-cases (text_eq key k)) [
          | inl e ↦
              let at = map_get-map_set_at k key t.groups group e in
              elim (f p (sym (ap (allows p) at) ∙ g)) [
                | inl c ↦ inl c
                | inr old ↦
                    inr (
                      ap (λ i. allows p (map_get i t.groups)) (sym ((text_eq_iff key k).0 e)) ∙ old)
              ]
          | inr d ↦ inr (ap (allows p) (sym (map_get-map_set_apart k key t.groups group d)) ∙ g)
        ])
        h

-- The rest of a chain whose first part only reads, from where that part returned.
pub bind-IsEntitled :
    {A B : Type 0} (caller : Caller) (m : Action A) (f : A → Action B) (env : Env) (s : UsersState)
    → Reads m
    → ((a : A) → (m env s).0 ≡ ok a → IsEntitled s caller (f a env s).1)
    → IsEntitled s caller ((m >>= f) env s).1
bind-IsEntitled caller m f env s r h =
    reads_bind m f env s (λ q. IsEntitled s caller q.1) r (λ e q. start-IsEntitled s caller) h
