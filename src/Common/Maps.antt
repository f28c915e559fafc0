-- ===== src/Common/Maps.antt =====
-- JavaScript `Map`s with string keys, as association lists in insertion order.
use mathlib.Core.Path.{◌≡◌, refl, subst, ◌∙◌}
use mathlib.Core.Logic.{inl, inr}
use mathlib.Core.Bool.{true, false}
use mathlib.Core.Option.{Option, none, some}
use mathlib.Core.List.{List, [], ◌∷◌, map}
use native.Mathlib.Omega.{arith}
use cli_server_node.Common.Tests.{if◌then◌else◌, Bool-cases, Option-cases, is_some}
use cli_server_node.Common.Strings.{Text, text_eq, text_eq_iff, text_eq_comm}

abbrev pub Map {ℓ} : Type ℓ → Type ℓ
Map V = List (Text × V)

none_of_not_some {ℓ} : {A : Type ℓ} (o : Option A) → is_some o ≡ false → o ≡ none
none_of_not_some none h = refl
none_of_not_some (some a) h = cc

module _ {ℓ} {V : Type ℓ} where
  unfoldable pub map_get : Text → Map V → Option V
  map_get k [] = none
  map_get k ((j, v) ∷ m) = if text_eq j k then some v else map_get k m

  unfoldable pub map_set : Text → V → Map V → Map V
  map_set k v [] = (k, v) ∷ []
  map_set k v ((j, w) ∷ m) = if text_eq j k then (k, v) ∷ m else (j, w) ∷ map_set k v m

  unfoldable pub map_delete : Text → Map V → Map V
  map_delete k [] = []
  map_delete k ((j, w) ∷ m) = if text_eq j k then map_delete k m else (j, w) ∷ map_delete k m

  -- The loop that gives each entry a new value or deletes it.
  unfoldable pub map_update : (V → Option V) → Map V → Map V
  map_update f [] = []
  map_update f ((j, w) ∷ m) = elim (f w) [
    | none ↦ map_update f m
    | some v ↦ (j, v) ∷ map_update f m
  ]

  abbrev pub map_values : Map V → List V
  map_values m = map (λ e. e.1) m

  pub map_get-map_set :
      (j k : Text) (v : V) (m : Map V)
      → map_get j (map_set k v m) ≡ (if text_eq k j then some v else map_get j m)
  unfolding map_get map_set
  map_get-map_set j k v [] = refl
  map_get-map_set j k v ((i, w) ∷ m) =
      ground (arith, text_eq_iff k j, text_eq_iff i k, text_eq_iff i j, map_get-map_set j k v m)

  pub map_get-map_delete :
      (j k : Text) (m : Map V)
      → map_get j (map_delete k m) ≡ (if text_eq k j then none else map_get j m)
  unfolding map_get map_delete
  map_get-map_delete j k [] = ground arith
  map_get-map_delete j k ((i, w) ∷ m) =
      ground (arith, text_eq_iff k j, text_eq_iff i k, text_eq_iff i j, map_get-map_delete j k m)

  abbrev pub HasUniqueKeys : Map V → Type 0
  HasUniqueKeys [] = Unit
  HasUniqueKeys ((j, w) ∷ m) = (is_some (map_get j m) ≡ false) × HasUniqueKeys m

  -- With unique keys an entry's new value depends on its old value alone.
  pub map_get-map_update :
      (f : V → Option V) (k : Text) (m : Map V)
      → HasUniqueKeys m
      → map_get k (map_update f m) ≡ (elim (map_get k m) [ none ↦ none | some v ↦ f v ])
  unfolding map_get map_update
  map_get-map_update f k [] u = refl
  map_get-map_update f k ((j, w) ∷ m) (new, u) = elim (Bool-cases (text_eq j k)) [
    | inl e ↦
        let gone : map_get k m ≡ none =
          none_of_not_some _
            (subst (λ i. is_some (map_get i m) ≡ false) ((text_eq_iff j k).0 e) new) in
        elim (Option-cases (f w)) [
          | inl d ↦ rw (e, d, map_update) (map_get-map_update f k m u ∙ rw (gone) refl)
          | inr (v, d) ↦ rw (e, d, map_update) (rw e refl)
        ]
    | inr n ↦ elim (Option-cases (f w)) [
      | inl d ↦ rw (n, d, map_update) (map_get-map_update f k m u)
      | inr (v, d) ↦ rw (n, d, map_update) (rw n (map_get-map_update f k m u))
    ]
  ]

  pub map_set-HasUniqueKeys :
      (k : Text) (v : V) (m : Map V) → HasUniqueKeys m → HasUniqueKeys (map_set k v m)
  unfolding map_set map_get
  map_set-HasUniqueKeys k v [] u = (refl, tt)
  map_set-HasUniqueKeys k v ((j, w) ∷ m) (new, u) = elim (Bool-cases (text_eq j k)) [
    | inl e ↦ rw e (subst (λ i. is_some (map_get i m) ≡ false) ((text_eq_iff j k).0 e) new, u)
    | inr n ↦
        rw n (rw (map_get-map_set j k v m, text_eq_comm k j, n) new, map_set-HasUniqueKeys k v m u)
  ]

  pub map_delete-HasUniqueKeys :
      (k : Text) (m : Map V) → HasUniqueKeys m → HasUniqueKeys (map_delete k m)
  unfolding map_delete
  map_delete-HasUniqueKeys k [] u = tt
  map_delete-HasUniqueKeys k ((j, w) ∷ m) (new, u) = elim (Bool-cases (text_eq j k)) [
    | inl e ↦ rw e (map_delete-HasUniqueKeys k m u)
    | inr n ↦
        rw n
          (rw (map_get-map_delete j k m, text_eq_comm k j, n) new, map_delete-HasUniqueKeys k m u)
  ]

  pub map_update-HasUniqueKeys :
      (f : V → Option V) (m : Map V) → HasUniqueKeys m → HasUniqueKeys (map_update f m)
  unfolding map_update
  map_update-HasUniqueKeys f [] u = tt
  map_update-HasUniqueKeys f ((j, w) ∷ m) (new, u) = elim (Option-cases (f w)) [
    | inl d ↦ rw (d, map_update) (map_update-HasUniqueKeys f m u)
    | inr (v, d) ↦
        rw (d, map_update)
          (
            rw (map_get-map_update f j m u, none_of_not_some _ new) refl,
            map_update-HasUniqueKeys f m u,
          )
  ]

-- The two cases of each law.
module _ {ℓ} {V : Type ℓ} (j k : Text) (m : Map V) where
  pub map_get-map_set_at : (v : V) → text_eq k j ≡ true → map_get j (map_set k v m) ≡ some v
  map_get-map_set_at v e = map_get-map_set j k v m ∙ rw e refl

  pub map_get-map_set_apart :
      (v : V) → text_eq k j ≡ false → map_get j (map_set k v m) ≡ map_get j m
  map_get-map_set_apart v e = map_get-map_set j k v m ∙ rw e refl

  pub map_get-map_delete_at : text_eq k j ≡ true → map_get j (map_delete k m) ≡ none
  map_get-map_delete_at e = map_get-map_delete j k m ∙ rw e refl

  pub map_get-map_delete_apart : text_eq k j ≡ false → map_get j (map_delete k m) ≡ map_get j m
  map_get-map_delete_apart e = map_get-map_delete j k m ∙ rw e refl
