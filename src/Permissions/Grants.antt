-- ===== src/Permissions/Grants.antt =====
-- What `assertCanGrant` rests on: permissions that a caller's own permissions cover let their holder
-- do nothing that the caller may not.
use cli_server_node.Common.{
  Bool, true, some, List, [], ◌∷◌, Text, any, All, inl, inr, Bool-cases, ◌≡◌, refl, arith,
}
use cli_server_node.Permissions.{
  segments, permission_matches, has_permission, uncovered_permissions,
}
use cli_server_node.Permissions.Matching.{EndsInOneStar, Covers-trans, permission_matches_iff}

permission_matches_trans :
    (a b c : Text)
    → EndsInOneStar (segments a)
    → permission_matches a b ≡ true
    → permission_matches b c ≡ true
    → permission_matches a c ≡ true
permission_matches_trans a b c w h k =
    (permission_matches_iff a c).1
      (Covers-trans w ((permission_matches_iff a b).0 h) ((permission_matches_iff b c).0 k))

abbrev held_by : List Text → Text → Bool
held_by granted p = any (λ c. permission_matches c p) granted

held_by_trans :
    (caller : List Text) (t p : Text)
    → All (λ c. EndsInOneStar (segments c)) caller
    → held_by caller t ≡ true
    → permission_matches t p ≡ true
    → held_by caller p ≡ true
held_by_trans [] t p w h k = cc
held_by_trans (c ∷ caller) t p w h k = elim (Bool-cases (permission_matches c t)) [
  | inl e ↦ rw (permission_matches_trans c t p w.0 e k) refl
  | inr n ↦ ground (arith, held_by_trans caller t p w.1 (ground arith) k)
]

uncovered_permissions_sound :
    (caller target : List Text) (p : Text)
    → All (λ c. EndsInOneStar (segments c)) caller
    → uncovered_permissions caller target ≡ []
    → held_by target p ≡ true
    → held_by caller p ≡ true
unfolding uncovered_permissions
uncovered_permissions_sound caller [] p w e h = cc
uncovered_permissions_sound caller (t ∷ target) p w e h = elim (Bool-cases (held_by caller t)) [
  | inl covered ↦ elim (Bool-cases (permission_matches t p)) [
    | inl k ↦ held_by_trans caller t p w covered k
    | inr n ↦ uncovered_permissions_sound caller target p w (ground arith) (ground arith)
  ]
  | inr bare ↦ absurd (ground arith)
]

-- If a caller leaves none of the target's permissions uncovered, and none of the caller's own
-- permissions ends in `*:*`, then the caller has every permission that the target gives.
pub has_permission_of_covered :
    (caller target : List Text) (p : Text)
    → All (λ c. EndsInOneStar (segments c)) caller
    → uncovered_permissions caller target ≡ []
    → has_permission (some target) p ≡ true
    → has_permission (some caller) p ≡ true
unfolding has_permission
has_permission_of_covered caller target p w e h = uncovered_permissions_sound caller target p w e h
