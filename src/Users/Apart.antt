-- ===== src/Users/Apart.antt =====
-- Names and emails share one namespace: no two users have a name or an email in common, whatever changes
-- the directory allows.
use cli_server_node.Common.{
  ℕ, Bool, true, false, not, ◌&&◌, ◌||◌, Option, none, some, List, [], ◌∷◌, Text, Map, map_get,
  map_set, map_values, map_get-map_set_at, map_get-map_set_apart, map_get-map_delete_at,
  map_get-map_delete_apart, text_eq, text_eq_iff, text_eq_comm, to_lower, all, Bool-cases, ◌≡◌,
  refl, sym, subst, ◌∙◌, arith, inl, inr, some_injective,
}
use cli_server_node.Permissions.{same_name}
use cli_server_node.Users.{User, UpdateUserDto}
use cli_server_node.Users.Stores.{is_id, updated_user, given_or}
use cli_server_node.Users.Directory.{user_clash, takes}
use cli_server_node.Users.Changes.{
  Change, adds, alters, removes, Changes, unchanged, changed, IsKeyed, Change-IsKeyed,
}

-- A name or email of the one is a name or email of the other.
abbrev pub collide : User → User → Bool
collide u v = takes (some v.name) u || takes (some v.email) u

abbrev pub AreApart : Map User → Type 0
AreApart users =
    (j k : Text) (u v : User)
    → map_get j users ≡ some u
    → map_get k users ≡ some v
    → text_eq j k ≡ false
    → collide u v ≡ false

same_name_comm : (a b : Text) → same_name (some a) (some b) ≡ same_name (some b) (some a)
unfolding same_name
same_name_comm a b = ground (arith, text_eq_comm (to_lower a) (to_lower b))

collide_comm : (u v : User) → collide u v ≡ collide v u
collide_comm u v = ground (
  arith,
  same_name_comm u.name v.name,
  same_name_comm u.email v.name,
  same_name_comm u.name v.email,
  same_name_comm u.email v.email,
)

stored_all :
    (p : User → Bool) (m : Map User) (k : Text) (u : User)
    → map_get k m ≡ some u
    → all p (map_values m) ≡ true
    → p u ≡ true
unfolding map_get
stored_all p [] k u at h = cc
stored_all p ((j, v) ∷ m) k u at h = elim (Bool-cases (text_eq j k)) [
  | inl e ↦ let same : some v ≡ some u = sym (rw e refl) ∙ at in ground (arith, same)
  | inr d ↦ stored_all p m k u (ground arith) (ground arith)
]

-- Neither of two names is taken by a user, unless it is the one excepted.
abbrev is_free : Option Text → Option Text → Option Text → User → Bool
is_free name email except u = is_id except u.id || (not (takes name u) && not (takes email u))

all_free :
    (name email except : Option Text) (users : List User)
    → user_clash name email except users ≡ none
    → all (is_free name email except) users ≡ true
unfolding user_clash
all_free name email except [] h = refl
all_free name email except (u ∷ users) h = ground (arith, all_free name email except users)

-- What is given to a change is no name and no email of another user.
pub free_elsewhere :
    (name email except : Option Text) (users : Map User) (k : Text) (v : User)
    → user_clash name email except (map_values users) ≡ none
    → map_get k users ≡ some v
    → is_id except v.id ≡ false
    → (takes name v ≡ false) × (takes email v ≡ false)
free_elsewhere name email except users k v clash at other =
    let free : is_free name email except v ≡ true =
      stored_all (is_free name email except) users k v at (all_free name email except _ clash) in
    (ground (arith, free), ground (arith, free))

-- A user put under an id is apart from the rest if it collides with none of them.
pub put-AreApart :
    (u : User) (users : Map User)
    → AreApart users
    → ((k : Text) (v : User)
        → map_get k users ≡ some v
        → text_eq u.id k ≡ false
        → collide u v ≡ false)
    → AreApart (map_set u.id u users)
put-AreApart u m apart new i j v w at_i at_j differ = elim (Bool-cases (text_eq u.id i)) [
  | inl e ↦
      let one : some u ≡ some v = sym (map_get-map_set_at i u.id m u e) ∙ at_i in
      let off : text_eq u.id j ≡ false =
        subst (λ x. text_eq x j ≡ false) (sym ((text_eq_iff u.id i).0 e)) differ in
      subst (λ x. collide x w ≡ false) (some_injective one)
        (new j w (sym (map_get-map_set_apart j u.id m u off) ∙ at_j) off)
  | inr n ↦ elim (Bool-cases (text_eq u.id j)) [
    | inl e ↦
        let one : some u ≡ some w = sym (map_get-map_set_at j u.id m u e) ∙ at_j in
        subst (λ x. collide v x ≡ false) (some_injective one)
          (collide_comm v u ∙ new i v (sym (map_get-map_set_apart i u.id m u n) ∙ at_i) n)
    | inr d ↦
        apart i j v w (sym (map_get-map_set_apart i u.id m u n) ∙ at_i)
          (sym (map_get-map_set_apart j u.id m u d) ∙ at_j) differ
  ]
]

-- A name or an email that is replaced or kept is not taken by another user.
takes-given_or :
    (o : Option Text) (old : Text) (v : User)
    → takes o v ≡ false
    → takes (some old) v ≡ false
    → takes (some (given_or o old)) v ≡ false
takes-given_or none old v h k = k
takes-given_or (some t) old v h k = h

altered_apart :
    (t v : User) (dto : UpdateUserDto) (now : ℕ)
    → takes dto.name v ≡ false
    → takes dto.email v ≡ false
    → collide t v ≡ false
    → collide (updated_user now dto t) v ≡ false
altered_apart t v dto now n e c =
    let c' : collide v t ≡ false = collide_comm v t ∙ c in
    collide_comm (updated_user now dto t) v
    ∙ ground (
      arith,
      takes-given_or dto.name t.name v n (ground (arith, c')),
      takes-given_or dto.email t.email v e (ground (arith, c')),
    )

Change-AreApart :
    {users users' : Map User}
    → Change users users'
    → IsKeyed users
    → AreApart users
    → AreApart users'
Change-AreApart (adds {users = m} u new clash e) w apart = subst AreApart (sym e) (
    put-AreApart u m apart (λ k v at off.
      let (n, q) = free_elsewhere (some u.name) (some u.email) none m k v clash at refl in
      collide_comm u v ∙ ground (arith, n, q)))
Change-AreApart (alters {users = m} t dto now at clash last e) w apart = subst AreApart (sym e) (
    put-AreApart (updated_user now dto t) m apart (λ k v there off.
      let other : text_eq v.id t.id ≡ false =
        text_eq_comm v.id t.id ∙ subst (λ i. text_eq t.id i ≡ false) (sym (w.ids k v there)) off in
      let (n, q) = free_elsewhere dto.name dto.email (some t.id) m k v clash there other in
      altered_apart t v dto now n q (apart t.id k t v at there off)))
Change-AreApart (removes {users = m} t at last e) w apart =
    subst AreApart (sym e) (λ i j u v at_i at_j differ. elim (Bool-cases (text_eq t.id i)) [
      | inl a ↦ absurd (cc (map_get-map_delete_at i t.id m a, at_i))
      | inr a ↦ elim (Bool-cases (text_eq t.id j)) [
        | inl b ↦ absurd (cc (map_get-map_delete_at j t.id m b, at_j))
        | inr b ↦
            apart i j u v (sym (map_get-map_delete_apart i t.id m a) ∙ at_i)
              (sym (map_get-map_delete_apart j t.id m b) ∙ at_j) differ
      ]
    ])

pub Changes-AreApart :
    {users users' : Map User}
    → Changes users users'
    → IsKeyed users
    → AreApart users
    → AreApart users'
Changes-AreApart (unchanged e) w h = subst AreApart (sym e) h
Changes-AreApart (changed c cs) w h =
    Changes-AreApart cs (Change-IsKeyed c w) (Change-AreApart c w h)
