-- ===== src/Permissions/Matching.antt =====
-- `permissionMatches` decides a relation between segments, and the relation is transitive.
use cli_server_node.Common.{
  Bool, true, false, ◌&&◌, inl, inr, Bool-cases, List, [], ◌∷◌, Text, text_eq, text_eq_iff,
  text_eq_refl, is_nil, ◌≡◌, refl, sym, ap, subst, ◌∙◌, ◌++◌, ◌⊎◌, ◌↔◌, arith,
}
use cli_server_node.Permissions.{star, segments_match, segments, permission_matches}

-- `*` at the end covers whatever is left, elsewhere one segment; any other segment covers itself.
pub data Covers : List Text → List Text → Type 0 where
  done : Covers [] []
  below : {g : Text} {rs : List Text} → g ≡ star → Covers (g ∷ []) rs
  one : {g r : Text} {gs rs : List Text} → g ≡ star → Covers gs rs → Covers (g ∷ gs) (r ∷ rs)
  same : {g r : Text} {gs rs : List Text} → g ≡ r → Covers gs rs → Covers (g ∷ gs) (r ∷ rs)

and_false : (b : Bool) → (b && false) ≡ false
and_false true = refl
and_false false = refl

segments_match_sound : (gs rs : List Text) → segments_match gs rs ≡ true → Covers gs rs
unfolding segments_match
segments_match_sound [] [] h = done
segments_match_sound [] (r ∷ rs) h = cc
segments_match_sound (g ∷ []) [] h = below ((text_eq_iff g star).0 (ground arith))
segments_match_sound (g ∷ g' ∷ gs) [] h = cc (and_false (text_eq g star))
segments_match_sound (g ∷ []) (r ∷ rs) h = elim (Bool-cases (text_eq g star)) [
  | inl e ↦ below ((text_eq_iff g star).0 e)
  | inr n ↦ same ((text_eq_iff g r).0 (ground arith)) (segments_match_sound [] rs (ground arith))
]
segments_match_sound (g ∷ g' ∷ gs) (r ∷ rs) h = elim (Bool-cases (text_eq g star)) [
  | inl e ↦ one ((text_eq_iff g star).0 e) (segments_match_sound (g' ∷ gs) rs (ground arith))
  | inr n ↦
      same ((text_eq_iff g r).0 (ground arith)) (segments_match_sound (g' ∷ gs) rs (ground arith))
]

segments_match_complete : {gs rs : List Text} → Covers gs rs → segments_match gs rs ≡ true
unfolding segments_match
segments_match_complete done = refl
segments_match_complete (below {g} {rs = []} e) = ground (arith, text_eq_iff g star)
segments_match_complete (below {g} {rs = r ∷ rs} e) = ground (arith, text_eq_iff g star)
segments_match_complete (one {g} e c) =
    ground (arith, text_eq_iff g star, segments_match_complete c)
segments_match_complete (same {g} {r} e c) =
    ground (arith, text_eq_iff g r, segments_match_complete c)

-- A permission matches exactly when its segments cover those of the required one.
pub permission_matches_iff :
    (granted required : Text)
    → (permission_matches granted required ≡ true) ↔ Covers (segments granted) (segments required)
unfolding permission_matches
permission_matches_iff granted required =
    (segments_match_sound (segments granted) (segments required), segments_match_complete)

-- No `*` stands before a last `*`: not `users:*:*`, nor `*:*`.
abbrev pub EndsInOneStar : List Text → Type 0
EndsInOneStar [] = Unit
EndsInOneStar (g ∷ gs) = (g ≡ star → gs ≡ star ∷ [] → ⊥) × EndsInOneStar gs

Covers-nil : {gs : List Text} → Covers gs [] → (gs ≡ []) ⊎ (gs ≡ star ∷ [])
Covers-nil done = inl refl
Covers-nil (below e) = inr (ap (λ g. g ∷ []) e)

-- What covers no more segments after a star is the end, unless it is a second star.
below_of_star :
    {g : Text} {gs rs : List Text}
    → EndsInOneStar (g ∷ gs)
    → g ≡ star
    → Covers gs []
    → Covers (g ∷ gs) rs
below_of_star {g} {rs} w e c = elim (Covers-nil c) [
  | inl n ↦ subst (λ gs. Covers (g ∷ gs) rs) (sym n) (below e)
  | inr s ↦ absurd (w.0 e s)
]

pub Covers-trans :
    {gs hs rs : List Text} → EndsInOneStar gs → Covers gs hs → Covers hs rs → Covers gs rs
Covers-trans w done d = d
Covers-trans w (below e) d = below e
Covers-trans w (one e c) (below f) = below_of_star w e c
Covers-trans w (one e c) (one f d) = one e (Covers-trans w.1 c d)
Covers-trans w (one e c) (same f d) = one e (Covers-trans w.1 c d)
Covers-trans w (same e c) (below f) = below_of_star w (e ∙ f) c
Covers-trans w (same e c) (one f d) = one (e ∙ f) (Covers-trans w.1 c d)
Covers-trans w (same e c) (same f d) = same (e ∙ f) (Covers-trans w.1 c d)

is_nil-snoc : (p : List Text) (g : Text) (q : List Text) → is_nil (p ++ g ∷ q) ≡ false
is_nil-snoc [] g q = refl
is_nil-snoc (h ∷ p) g q = refl

-- Two stars at the end break it: `p:*:*` covers `p:*`, which covers `p`, which `p:*:*` does not.
pub double_star_gap :
    (p : List Text)
    → (segments_match (p ++ star ∷ star ∷ []) (p ++ star ∷ []) ≡ true)
      × (segments_match (p ++ star ∷ []) p ≡ true)
      × (segments_match (p ++ star ∷ star ∷ []) p ≡ false)
unfolding segments_match
double_star_gap [] = ground (arith, text_eq_refl star)
double_star_gap (g ∷ p) =
    let (a, b, c) = double_star_gap p in
    ground (arith, text_eq_refl g, is_nil-snoc p star [], is_nil-snoc p star (star ∷ []))
