-- ===== src/Users/Changes.antt =====
-- The changes that a directory allows, as a step relation on the stored users: the specification that
-- the management of users, groups and members implements.
use cli_server_node.Common.{
  ℕ, Bool, true, false, none, some, [], ◌∷◌, Text, Map, map_get, map_set, map_delete, map_values,
  HasUniqueKeys, map_get-map_set_at, map_get-map_set_apart, map_get-map_delete_at,
  map_get-map_delete_apart, map_set-HasUniqueKeys, map_delete-HasUniqueKeys, text_eq, text_eq_iff,
  text_eq_refl, any, is_some, Bool-cases, ◌≡◌, refl, sym, ap, subst, ◌∙◌, arith, inl, inr,
  some_injective,
}
use cli_server_node.Users.{User, UpdateUserDto}
use cli_server_node.Users.Stores.{updated_user}
use cli_server_node.Users.Directory.{is_enabled_admin, is_last_of, user_clash}

-- One change of the users: a user is added under a new id, changed or removed. The name and email that
-- are given are no one else's, and the last enabled admin stays one.
pub data Change : Map User → Map User → Type 0 where
  adds :
      {users users' : Map User} (u : User)
      → map_get u.id users ≡ none
      → user_clash (some u.name) (some u.email) none (map_values users) ≡ none
      → users' ≡ map_set u.id u users
      → Change users users'
  alters :
      {users users' : Map User} (t : User) (dto : UpdateUserDto) (now : ℕ)
      → map_get t.id users ≡ some t
      → user_clash dto.name dto.email (some t.id) (map_values users) ≡ none
      → (is_last_of t (map_values users) ≡ true → is_enabled_admin (updated_user now dto t) ≡ true)
      → users' ≡ map_set t.id (updated_user now dto t) users
      → Change users users'
  removes :
      {users users' : Map User} (t : User)
      → map_get t.id users ≡ some t
      → is_last_of t (map_values users) ≡ false
      → users' ≡ map_delete t.id users
      → Change users users'

pub data Changes : Map User → Map User → Type 0 where
  unchanged : {users users' : Map User} → users' ≡ users → Changes users users'
  changed :
      {users users' users'' : Map User}
      → Change users users'
      → Changes users' users''
      → Changes users users''

pub one_change : {users users' : Map User} → Change users users' → Changes users users'
one_change c = changed c (unchanged refl)

pub Changes-trans : {a b c : Map User} → Changes a b → Changes b c → Changes a c
Changes-trans {c = c} (unchanged {users = u} {users' = v} e) k = subst (λ x. Changes x c) e k
Changes-trans (changed d ds) k = changed d (Changes-trans ds k)

-- The users are stored under their ids, each id once.
pub record IsKeyed (users : Map User) : Type 0 where
  pub keys : HasUniqueKeys users
  pub ids : (k : Text) (u : User) → map_get k users ≡ some u → u.id ≡ k

pub map_set-IsKeyed : (u : User) (users : Map User) → IsKeyed users → IsKeyed (map_set u.id u users)
map_set-IsKeyed u users w = record {
  keys = map_set-HasUniqueKeys u.id u users w.keys;
  ids = λ k v e. elim (Bool-cases (text_eq u.id k)) [
    | inl h ↦
        let same : some u ≡ some v = sym (map_get-map_set_at k u.id users u h) ∙ e in
        sym (ap (λ (z : User). z.id) (some_injective same)) ∙ (text_eq_iff u.id k).0 h
    | inr h ↦ w.ids k v (sym (map_get-map_set_apart k u.id users u h) ∙ e)
  ];
}

pub map_delete-IsKeyed :
    (id : Text) (users : Map User) → IsKeyed users → IsKeyed (map_delete id users)
map_delete-IsKeyed id users w = record {
  keys = map_delete-HasUniqueKeys id users w.keys;
  ids = λ k v e. elim (Bool-cases (text_eq id k)) [
    | inl h ↦ absurd (cc (map_get-map_delete_at k id users h, e))
    | inr h ↦ w.ids k v (sym (map_get-map_delete_apart k id users h) ∙ e)
  ];
}

pub Change-IsKeyed :
    {users users' : Map User} → Change users users' → IsKeyed users → IsKeyed users'
Change-IsKeyed (adds {users = m} u new clash e) w = subst IsKeyed (sym e) (map_set-IsKeyed u m w)
Change-IsKeyed (alters {users = m} t dto now at clash last e) w =
    subst IsKeyed (sym e) (map_set-IsKeyed (updated_user now dto t) m w)
Change-IsKeyed (removes {users = m} t at last e) w =
    subst IsKeyed (sym e) (map_delete-IsKeyed t.id m w)

pub Changes-IsKeyed :
    {users users' : Map User} → Changes users users' → IsKeyed users → IsKeyed users'
Changes-IsKeyed (unchanged e) w = subst IsKeyed (sym e) w
Changes-IsKeyed (changed c cs) w = Changes-IsKeyed cs (Change-IsKeyed c w)

-- A value of the map that passes a test is found under its key.
pub any_stored :
    (p : User → Bool) (m : Map User)
    → HasUniqueKeys m
    → any p (map_values m) ≡ true
    → (k : Text) × (u : User) × (map_get k m ≡ some u) × (p u ≡ true)
unfolding map_get
any_stored p [] w h = absurd (cc)
any_stored p ((j, v) ∷ m) (new, w) h = elim (Bool-cases (p v)) [
  | inl e ↦ (j, v, rw (text_eq_refl j) refl, e)
  | inr n ↦
      let (k, u, at, q) = any_stored p m w (ground arith) in
      elim (Bool-cases (text_eq j k)) [
        | inl e ↦ absurd (
            cc (
              subst (λ i. is_some (map_get i m) ≡ false) ((text_eq_iff j k).0 e) new,
              ap is_some at,
            ))
        | inr d ↦ (k, u, rw d at, q)
      ]
]

pub stored_any :
    (p : User → Bool) (m : Map User) (k : Text) (u : User)
    → map_get k m ≡ some u
    → p u ≡ true
    → any p (map_values m) ≡ true
unfolding map_get
stored_any p [] k u at q = cc
stored_any p ((j, v) ∷ m) k u at q = elim (Bool-cases (text_eq j k)) [
  | inl e ↦ let same : some v ≡ some u = sym (rw e refl) ∙ at in ground (arith, same)
  | inr d ↦ ground (arith, stored_any p m k u (ground arith) q)
]
