-- ===== src/Permissions/Merge.antt =====
-- `mergePermissions` is a union: it keeps what each list permits, and names each permission once.
use cli_server_node.Common.{
  Bool, true, false, not, ◌&&◌, ◌||◌, Option, none, some, List, [], ◌∷◌, ◌++◌, Text, text_eq,
  text_eq_iff, text_eq_comm, trim, trim_idem, split_on, to_lower, map, is_nil, any, any-append,
  map-append, All, inl, inr, Bool-cases, ◌≡◌, refl, ap, arith, ◌⊎◌,
}
use cli_server_node.Permissions.{
  Merged, merge_one, merge_list, merge_lists, merge_permissions, segments, segments_match,
  permission_matches, has_permission,
}

-- Two permissions with one key (trimmed, in lower case) match the same requirements.
permission_matches-key :
    (p q r : Text)
    → to_lower (trim p) ≡ to_lower (trim q)
    → permission_matches p r ≡ permission_matches q r
unfolding permission_matches segments
permission_matches-key p q r e =
    ap (λ k. segments_match (split_on b':' k) (split_on b':' (to_lower (trim r)))) e

abbrev held : Text → List Text → Bool
held r ps = any (λ p. permission_matches p r) ps

-- `seen` holds the keys of `out`, in order, and what `out` holds is trimmed.
record Tracks (m : Merged) : Type 0 where
  keys : m.seen ≡ map to_lower m.out
  trimmed : All (λ q. trim q ≡ q) m.out

-- A permission whose key was seen adds nothing.
held_of_seen :
    (p r : Text) (out : List Text)
    → All (λ q. trim q ≡ q) out
    → any (text_eq (to_lower (trim p))) (map to_lower out) ≡ true
    → permission_matches p r ≡ true
    → held r out ≡ true
held_of_seen p r [] t h k = cc
held_of_seen p r (q ∷ out) t h k = elim (Bool-cases (text_eq (to_lower (trim p)) (to_lower q))) [
  | inl e ↦
      let key : to_lower (trim p) ≡ to_lower (trim q) =
        rw t.0 ((text_eq_iff (to_lower (trim p)) (to_lower q)).0 e) in
      ground (arith, permission_matches-key p q r key)
  | inr n ↦ ground (arith, held_of_seen p r out t.1 (ground arith) k)
]

abbrev is_blank : Text → Bool
is_blank p = is_nil (trim p)

abbrev is_new : Merged → Text → Bool
is_new m p = not (is_nil (trim p)) && not (any (text_eq (to_lower (trim p))) m.seen)

abbrev added : Merged → Text → Merged
added m p = record { seen = m.seen ++ to_lower (trim p) ∷ []; out = m.out ++ trim p ∷ [] }

merge_one_cases {ℓ} :
    (P : Merged → Type ℓ) (m : Merged) (p : Text)
    → (is_new m p ≡ true → P (added m p))
    → (is_new m p ≡ false → P m)
    → P (merge_one m p)
unfolding merge_one
merge_one_cases P m p f g = elim (Bool-cases (is_new m p)) [
  | inl e ↦ rw e (f e)
  | inr e ↦ rw e (g e)
]

All-snoc :
    (out : List Text) (p : Text)
    → All (λ q. trim q ≡ q) out
    → All (λ q. trim q ≡ q) (out ++ trim p ∷ [])
All-snoc [] p v = (trim_idem p, tt)
All-snoc (q ∷ out) p (h, v) = (h, All-snoc out p v)

merge_one-Tracks : (m : Merged) (p : Text) → Tracks m → Tracks (merge_one m p)
merge_one-Tracks m p v =
    merge_one_cases Tracks m p
      (λ e. record { keys = rw (v.keys, map-append) refl; trimmed = All-snoc m.out p v.trimmed })
      (λ e. v)

abbrev counts : Text → Text → Bool
counts r p = not (is_blank p) && permission_matches p r

held_old :
    (m : Merged) (p r : Text)
    → Tracks m
    → is_new m p ≡ false
    → counts r p ≡ true
    → held r m.out ≡ true
held_old m p r v e h =
    held_of_seen p r m.out v.trimmed (rw v.keys at (seen (Bool-cases _))) (ground arith)
  where
    seen :
        (any (text_eq (to_lower (trim p))) m.seen ≡ true)
          ⊎ (any (text_eq (to_lower (trim p))) m.seen ≡ false)
        → any (text_eq (to_lower (trim p))) m.seen ≡ true
    seen (inl s) = s
    seen (inr n) = ground arith

held-merge_one :
    (m : Merged) (p r : Text) → Tracks m → held r (merge_one m p).out ≡ (held r m.out || counts r p)
held-merge_one m p r v =
    merge_one_cases (λ n. held r n.out ≡ (held r m.out || counts r p)) m p
      (λ e. ground (
        arith,
        any-append (λ q. permission_matches q r) m.out (trim p ∷ []),
        permission_matches-key (trim p) p r (ap to_lower (trim_idem p)),
      ))
      (λ e. ground (arith, held_old m p r v e))

merge_list-Tracks : (m : Merged) (ps : List Text) → Tracks m → Tracks (merge_list m ps)
unfolding merge_list
merge_list-Tracks m [] v = v
merge_list-Tracks m (p ∷ ps) v = merge_list-Tracks (merge_one m p) ps (merge_one-Tracks m p v)

held-merge_list :
    (m : Merged) (ps : List Text) (r : Text)
    → Tracks m
    → held r (merge_list m ps).out ≡ (held r m.out || any (counts r) ps)
unfolding merge_list
held-merge_list m [] r v = ground arith
held-merge_list m (p ∷ ps) r v =
    ground
      (arith, held-merge_list (merge_one m p) ps r (merge_one-Tracks m p v), held-merge_one m p r v)

-- Some list has a permission that is not blank and matches.
abbrev pub held_in_some : Text → List (Option (List Text)) → Bool
held_in_some r [] = false
held_in_some r (none ∷ lists) = held_in_some r lists
held_in_some r (some ps ∷ lists) =
    any (λ p. not (is_nil (trim p)) && permission_matches p r) ps || held_in_some r lists

held-merge_lists :
    (m : Merged) (lists : List (Option (List Text))) (r : Text)
    → Tracks m
    → held r (merge_lists m lists).out ≡ (held r m.out || held_in_some r lists)
unfolding merge_lists
held-merge_lists m [] r v = ground arith
held-merge_lists m (none ∷ lists) r v = held-merge_lists m lists r v
held-merge_lists m (some ps ∷ lists) r v = ground (
  arith,
  held-merge_lists (merge_list m ps) lists r (merge_list-Tracks m ps v),
  held-merge_list m ps r v,
)

-- The merged list permits exactly what a permission of one of the lists permits, other than a blank
-- one (only spaces), which is dropped.
pub has_permission-merge_permissions :
    (lists : List (Option (List Text))) (r : Text)
    → has_permission (some (merge_permissions lists)) r ≡ held_in_some r lists
unfolding has_permission merge_permissions
has_permission-merge_permissions lists r =
    held-merge_lists (record { seen = []; out = [] }) lists r (record { keys = refl; trimmed = tt })

-- No two keys are equal.
abbrev pub AllDistinct : List Text → Type 0
AllDistinct [] = Unit
AllDistinct (k ∷ ks) = (any (text_eq k) ks ≡ false) × AllDistinct ks

AllDistinct-snoc :
    (ks : List Text) (k : Text)
    → any (text_eq k) ks ≡ false
    → AllDistinct ks
    → AllDistinct (ks ++ k ∷ [])
AllDistinct-snoc [] k n d = (refl, tt)
AllDistinct-snoc (j ∷ ks) k n (m, d) = (
  ground (arith, any-append (text_eq j) ks (k ∷ []), text_eq_comm j k),
  AllDistinct-snoc ks k (ground arith) d,
)

merge_one-AllDistinct :
    (m : Merged) (p : Text) → AllDistinct m.seen → AllDistinct (merge_one m p).seen
merge_one-AllDistinct m p d =
    merge_one_cases (λ n. AllDistinct n.seen) m p
      (λ e. AllDistinct-snoc m.seen (to_lower (trim p)) (ground arith) d) (λ _. d)

abbrev IsSound : Merged → Type 0
IsSound m = Tracks m × AllDistinct m.seen

merge_list-IsSound : (m : Merged) (ps : List Text) → IsSound m → IsSound (merge_list m ps)
unfolding merge_list
merge_list-IsSound m [] v = v
merge_list-IsSound m (p ∷ ps) (v, d) =
    merge_list-IsSound (merge_one m p) ps (merge_one-Tracks m p v, merge_one-AllDistinct m p d)

merge_lists-IsSound :
    (m : Merged) (lists : List (Option (List Text))) → IsSound m → IsSound (merge_lists m lists)
unfolding merge_lists
merge_lists-IsSound m [] v = v
merge_lists-IsSound m (none ∷ lists) v = merge_lists-IsSound m lists v
merge_lists-IsSound m (some ps ∷ lists) v =
    merge_lists-IsSound (merge_list m ps) lists (merge_list-IsSound m ps v)

-- The merged list names each permission once, in whatever case, and every entry is trimmed.
pub merge_permissions-AllDistinct :
    (lists : List (Option (List Text)))
    → AllDistinct (map to_lower (merge_permissions lists))
      × All (λ q. trim q ≡ q) (merge_permissions lists)
unfolding merge_permissions
merge_permissions-AllDistinct lists =
    let (v, d) =
      merge_lists-IsSound (record { seen = []; out = [] }) lists
        (record { keys = refl; trimmed = tt }, tt) in
    (rw v.keys at d, v.trimmed)
