-- ===== src/Users/Admins.antt =====
-- An enabled member of the group `admin` stays, whatever changes the directory allows.
use cli_server_node.Common.{
  Bool, true, false, not, ◌&&◌, some, Text, Map, map_get, map_values, map_get-map_set_at,
  map_get-map_set_apart, map_get-map_delete_apart, text_eq, text_eq_iff, text_eq_refl, text_eq_comm,
  any, Bool-cases, ◌≡◌, sym, ap, subst, ◌∙◌, arith, inl, inr, ◌⊎◌,
}
use cli_server_node.Users.{User}
use cli_server_node.Users.Stores.{updated_user}
use cli_server_node.Users.Directory.{is_enabled_admin, is_last_of}
use cli_server_node.Users.Changes.{
  Change, adds, alters, removes, Changes, unchanged, changed, IsKeyed, Change-IsKeyed, any_stored,
}

-- Some user that is stored is an enabled member of `admin`.
abbrev pub HasEnabledAdmin : Map User → Type 0
HasEnabledAdmin users =
    (k : Text) × (u : User) × (map_get k users ≡ some u) × (is_enabled_admin u ≡ true)

-- One whose id is another's.
abbrev pub HasOther : User → Map User → Type 0
HasOther t users =
    (k : Text) × (u : User) × (map_get k users ≡ some u)
    × (is_enabled_admin u ≡ true)
    × (text_eq t.id k ≡ false)

other_than : User → User → Bool
other_than t u = not (text_eq u.id t.id) && is_enabled_admin u

stored_other :
    (t : User) (users : Map User)
    → IsKeyed users
    → any (other_than t) (map_values users) ≡ true
    → HasOther t users
unfolding other_than
stored_other t users w h =
    let (k, u, at, q) = any_stored (other_than t) users w.keys h in
    let id : u.id ≡ k = w.ids k u at in
    (
      k,
      u,
      at,
      ground arith,
      subst (λ i. text_eq t.id i ≡ false) id (text_eq_comm t.id u.id ∙ ground arith),
    )

-- Unless a user is the last enabled admin, there is another.
other_admin :
    (t : User) (users : Map User)
    → IsKeyed users
    → map_get t.id users ≡ some t
    → is_last_of t (map_values users) ≡ false
    → HasEnabledAdmin users
    → HasOther t users
unfolding other_than
other_admin t users w at last (k, u, there, admin) = elim (Bool-cases (is_enabled_admin t)) [
  | inl e ↦ stored_other t users w (ground (arith, e))
  | inr n ↦ elim (Bool-cases (text_eq t.id k)) [
    | inl same ↦
        let one : some t ≡ some u =
          sym at ∙ (ap (λ i. map_get i users) ((text_eq_iff t.id k).0 same) ∙ there) in
        absurd (ground (arith, one))
    | inr apart ↦ (k, u, there, admin, apart)
  ]
]

-- One that is not the last enabled admin is none, or there is another.
pub other_unless_last :
    (t : User) (users : Map User)
    → IsKeyed users
    → is_last_of t (map_values users) ≡ false
    → (is_enabled_admin t ≡ false) ⊎ HasOther t users
unfolding other_than
other_unless_last t users w last = elim (Bool-cases (is_enabled_admin t)) [
  | inl e ↦ inr (stored_other t users w (ground (arith, e)))
  | inr n ↦ inl n
]

Change-HasEnabledAdmin :
    {users users' : Map User}
    → Change users users'
    → IsKeyed users
    → HasEnabledAdmin users
    → HasEnabledAdmin users'
Change-HasEnabledAdmin (adds {users = m} u new clash e) w (k, v, there, admin) =
    elim (Bool-cases (text_eq u.id k)) [
      | inl same ↦ absurd (cc (new, ap (λ i. map_get i m) ((text_eq_iff u.id k).0 same), there))
      | inr apart ↦
          subst HasEnabledAdmin (sym e)
            (k, v, map_get-map_set_apart k u.id m u apart ∙ there, admin)
    ]
Change-HasEnabledAdmin (alters {users = m} t dto now at clash last e) w h =
    elim (Bool-cases (is_last_of t (map_values m))) [
      | inl yes_last ↦ subst HasEnabledAdmin (sym e) (
        t.id,
        updated_user now dto t,
        map_get-map_set_at t.id t.id m (updated_user now dto t) (text_eq_refl t.id),
        last yes_last,
      )
      | inr not_last ↦
          let (k, u, there, admin, apart) = other_admin t m w at not_last h in
          subst HasEnabledAdmin (sym e)
            (k, u, map_get-map_set_apart k t.id m (updated_user now dto t) apart ∙ there, admin)
    ]
Change-HasEnabledAdmin (removes {users = m} t at last e) w h =
    let (k, u, there, admin, apart) = other_admin t m w at last h in
    subst HasEnabledAdmin (sym e) (k, u, map_get-map_delete_apart k t.id m apart ∙ there, admin)

pub Changes-HasEnabledAdmin :
    {users users' : Map User}
    → Changes users users'
    → IsKeyed users
    → HasEnabledAdmin users
    → HasEnabledAdmin users'
Changes-HasEnabledAdmin (unchanged e) w h = subst HasEnabledAdmin (sym e) h
Changes-HasEnabledAdmin (changed c cs) w h =
    Changes-HasEnabledAdmin cs (Change-IsKeyed c w) (Change-HasEnabledAdmin c w h)
