-- ===== src/Files/Paths.antt =====
-- The way to a path, and to its parent and name.
use cli_server_node.Common.{
  ℕ, Bool, true, false, not, ◌&&◌, none, some, List, [], ◌∷◌, ◌++◌, append-nil, append_assoc, Text,
  codes, text_eq, split_on, split_on_from, starts_with, is_nil, filter, ◌==◌, if◌then◌else◌,
  Bool-cases, not_true, Option-cases, inl, inr, ==_iff, ◌≡◌, refl, sym, ap, subst, ◌∙◌, arith,
}
use cli_server_node.Files.{collapse, strip, normalize, split_last, parent_and_name, parts}

parts_from : Text → Text → List Text
parts_from acc s = filter (λ t. not (is_nil t)) (split_on_from b'/' acc s)

-- A part, unless it is empty.
abbrev with_part : Text → List Text → List Text
with_part acc ps = if not (is_nil acc) then acc ∷ ps else ps

parts_from-slash :
    (acc : Text) (c : ℕ) (s : Text)
    → (c == b'/') ≡ true
    → parts_from acc (c ∷ s) ≡ with_part acc (parts_from [] s)
unfolding parts_from split_on_from
parts_from-slash acc c s e = rw e refl

parts_from_other :
    (acc : Text) (c : ℕ) (s : Text)
    → (c == b'/') ≡ false
    → parts_from acc (c ∷ s) ≡ parts_from (acc ++ c ∷ []) s
unfolding parts_from split_on_from
parts_from_other acc c s e = rw e refl

parts_from_nil : (acc : Text) → parts_from acc [] ≡ with_part acc []
unfolding parts_from split_on_from
parts_from_nil acc = refl

is_nil-nil : (s : Text) → is_nil s ≡ true → s ≡ []
is_nil-nil [] e = refl
is_nil-nil (c ∷ s) e = cc

parts_from-strip : (acc s : Text) → parts_from acc (strip s) ≡ parts_from acc s
unfolding strip
parts_from-strip acc [] = refl
parts_from-strip acc (c ∷ s) = elim (Bool-cases (c == b'/')) [
  | inr n ↦ rw n (
      parts_from_other acc c (strip s) n
      ∙ parts_from-strip (acc ++ c ∷ []) s
      ∙ sym (parts_from_other acc c s n))
  | inl e ↦ elim (Bool-cases (is_nil (strip s))) [
    | inr n ↦
        rw (e, n)
          (parts_from-slash acc c (strip s) e
            ∙ ap (with_part acc) (parts_from-strip [] s)
            ∙ sym (parts_from-slash acc c s e))
    | inl z ↦
        rw (e, z)
          (parts_from_nil acc
            ∙ ap (with_part acc) (
                sym (parts_from_nil [])
                ∙ sym (ap (parts_from []) (is_nil-nil (strip s) z))
                ∙ parts_from-strip [] s)
            ∙ sym (parts_from-slash acc c s e))
  ]
]

parts_from-collapse :
    (s : Text)
    → ((acc : Text) → parts_from acc (collapse false s) ≡ parts_from acc s)
      × (parts_from [] (collapse true s) ≡ parts_from [] s)
unfolding collapse
parts_from-collapse [] = (λ acc. refl, refl)
parts_from-collapse (c ∷ s) =
    let ih = parts_from-collapse s in
    elim (Bool-cases (c == b'/')) [
      | inl e ↦ rw e (
        λ acc.
            parts_from-slash acc c (collapse true s) e
            ∙ ap (with_part acc) ih.1
            ∙ sym (parts_from-slash acc c s e),
        ih.1 ∙ sym (parts_from-slash [] c s e),
      )
      | inr n ↦ rw n (
        λ acc.
            parts_from_other acc c (collapse false s) n
            ∙ ih.0 (acc ++ c ∷ [])
            ∙ sym (parts_from_other acc c s n),
        parts_from_other [] c (collapse false s) n
            ∙ ih.0 (c ∷ [])
            ∙ sym (parts_from_other [] c s n),
      )
    ]

-- Normalizing a path leaves its parts as they are.
pub parts-normalize : (p : Text) → parts (normalize p) ≡ parts p
unfolding normalize parts split_on parts_from
parts-normalize p =
    let n : Text = strip (collapse false p) in
    let same = parts_from-strip [] (collapse false p) ∙ (parts_from-collapse p).0 [] in
    elim (Bool-cases (starts_with n (codes "/"))) [
      | inl e ↦ rw e same
      | inr e ↦ rw e (parts_from-slash [] b'/' n refl ∙ same)
    ]

-- A text that ends with a slash.
abbrev pub ends_slash : Text → Bool
ends_slash [] = false
ends_slash (c ∷ []) = c == b'/'
ends_slash (c ∷ d ∷ s) = ends_slash (d ∷ s)

ends_slash-cons :
    (c : ℕ) (t : Text)
    → (c == b'/' && is_nil t) ≡ false
    → ends_slash t ≡ false
    → ends_slash (c ∷ t) ≡ false
ends_slash-cons c [] e h = ground (arith, e)
ends_slash-cons c (d ∷ t) e h = h

ends_slash-strip : (s : Text) → ends_slash (strip s) ≡ false
unfolding strip
ends_slash-strip [] = refl
ends_slash-strip (c ∷ s) = elim (Bool-cases (c == b'/' && is_nil (strip s))) [
  | inl e ↦ rw e refl
  | inr e ↦ rw e (ends_slash-cons c (strip s) e (ends_slash-strip s))
]

not_root : (n : Text) → text_eq (b'/' ∷ n) (codes "/") ≡ false → (b'/' == b'/' && is_nil n) ≡ false
unfolding text_eq
not_root [] h = absurd (ground (arith, h))
not_root (c ∷ n) h = refl

pub normalize_ends :
    (p : Text) → text_eq (normalize p) (codes "/") ≡ false → ends_slash (normalize p) ≡ false
unfolding normalize
normalize_ends p h =
    let n : Text = strip (collapse false p) in
    elim (Bool-cases (starts_with n (codes "/"))) [
      | inl e ↦ rw e (ends_slash-strip (collapse false p))
      | inr e ↦
          let other : text_eq (b'/' ∷ n) (codes "/") ≡ false = rw e at h in
          rw e (ends_slash-cons b'/' n (not_root n other) (ends_slash-strip (collapse false p)))
    ]

some_injective {ℓ} : {A : Type ℓ} (a b : A) → some a ≡ some b → a ≡ b
some_injective a b e = cc

-- A text is what stands before its last slash, the slash, and what stands after, without a slash.
split_last_lem :
    (s a b : Text) → split_last s ≡ some (a, b) → (s ≡ a ++ b'/' ∷ b) × (split_last b ≡ none)
unfolding split_last
split_last_lem [] a b e = absurd (cc)
split_last_lem (c ∷ s) a b e = elim (Option-cases (split_last s)) [
  | inr ((a', b'), f) ↦
      let got : (c ∷ a', b') ≡ (a, b) = some_injective _ _ (rw (f, split_last) at e) in
      let ih = split_last_lem s a' b' f in
      subst (λ r. (c ∷ s ≡ r.0 ++ b'/' ∷ r.1) × (split_last r.1 ≡ none)) got
        (ap (λ v. c ∷ v) ih.0, ih.1)
  | inl f ↦ elim (Bool-cases (c == b'/')) [
    | inl q ↦
        let got : ([], s) ≡ (a, b) = some_injective _ _ (rw (f, q, split_last) at e) in
        subst (λ r. (c ∷ s ≡ r.0 ++ b'/' ∷ r.1) × (split_last r.1 ≡ none)) got
          (ap (λ v. v ∷ s) ((==_iff c b'/').0 q), f)
    | inr q ↦ let no = rw (f, q, split_last) at e in absurd (none_not_some no)
  ]
]
  where
    none_not_some : {A : Type 0} {x : A} → none ≡ some x → ⊥
    none_not_some e = cc

parts_from_last : (acc b : Text) → split_last b ≡ none → parts_from acc b ≡ with_part (acc ++ b) []
unfolding split_last
parts_from_last acc [] h = parts_from_nil acc ∙ ap (λ v. with_part v []) (sym (append-nil acc))
parts_from_last acc (c ∷ b) h = elim (Option-cases (split_last b)) [
  | inr (r, f) ↦ let no = rw (f, split_last) at h in absurd (some_not_none no)
  | inl f ↦ elim (Bool-cases (c == b'/')) [
    | inl q ↦ let no = rw (f, q, split_last) at h in absurd (some_not_none no)
    | inr q ↦
        parts_from_other acc c b q
        ∙ parts_from_last (acc ++ c ∷ []) b f
        ∙ ap (λ v. with_part v []) (append_assoc acc (c ∷ []) b)
  ]
]
  where
    some_not_none : {A : Type 0} {x : A} → some x ≡ none → ⊥
    some_not_none e = cc

with_part-append :
    (acc : Text) (ps qs : List Text) → with_part acc (ps ++ qs) ≡ with_part acc ps ++ qs
with_part-append [] ps qs = refl
with_part-append (c ∷ acc) ps qs = refl

with_part_snoc : (acc b : Text) → with_part acc (b ∷ []) ≡ with_part acc [] ++ b ∷ []
with_part_snoc [] b = refl
with_part_snoc (c ∷ acc) b = refl

parts_from-append :
    (acc a b : Text)
    → split_last b ≡ none
    → is_nil b ≡ false
    → parts_from acc (a ++ b'/' ∷ b) ≡ parts_from acc a ++ b ∷ []
parts_from-append acc [] b h n =
    parts_from-slash acc b'/' b refl
    ∙ ap (with_part acc) (parts_from_last [] b h ∙ rw n refl)
    ∙ with_part_snoc acc b
    ∙ ap (λ v. v ++ b ∷ []) (sym (parts_from_nil acc))
parts_from-append acc (c ∷ a) b h n = elim (Bool-cases (c == b'/')) [
  | inl e ↦
      parts_from-slash acc c (a ++ b'/' ∷ b) e
      ∙ ap (with_part acc) (parts_from-append [] a b h n)
      ∙ with_part-append acc (parts_from [] a) (b ∷ [])
      ∙ ap (λ v. v ++ b ∷ []) (sym (parts_from-slash acc c a e))
  | inr e ↦
      parts_from_other acc c (a ++ b'/' ∷ b) e
      ∙ parts_from-append (acc ++ c ∷ []) a b h n
      ∙ ap (λ v. v ++ b ∷ []) (sym (parts_from_other acc c a e))
]

split_last-slash : (n : Text) → starts_with n (codes "/") ≡ true → split_last n ≡ none → ⊥
unfolding split_last starts_with
split_last-slash [] h e = ground (arith, h)
split_last-slash (c ∷ n) h e = elim (Option-cases (split_last n)) [
  | inr (r, f) ↦ let no = rw (f, split_last) at e in some_not_none no
  | inl f ↦
      let q : (c == b'/') ≡ true = ground (arith, h) in
      let no = rw (f, q, split_last) at e in some_not_none no
]
  where
    some_not_none : {A : Type 0} {x : A} → some x ≡ none → ⊥
    some_not_none e = cc

ends_slash-append : (a : Text) → ends_slash (a ++ b'/' ∷ []) ≡ true
ends_slash-append [] = refl
ends_slash-append (c ∷ []) = refl
ends_slash-append (c ∷ d ∷ a) = ends_slash-append (d ∷ a)

parts_root : (a : Text) → parts (if is_nil a then codes "/" else a) ≡ parts a
unfolding parts split_on split_on_from
parts_root [] = refl
parts_root (c ∷ a) = refl

-- Where a normalized path is not the root, its parts are those of the parent, and the name.
pub parts-parent_and_name :
    (n : Text)
    → text_eq n (codes "/") ≡ false
    → ends_slash n ≡ false
    → starts_with n (codes "/") ≡ true
    → parts n ≡ parts (parent_and_name n).0 ++ (parent_and_name n).1 ∷ []
unfolding parts split_on parent_and_name parts_from
parts-parent_and_name n h e s = rw h (elim (Option-cases (split_last n)) [
  | inl f ↦ absurd (split_last-slash n s f)
  | inr ((a, b), f) ↦
      let cut = split_last_lem n a b f in
      let named : is_nil b ≡ false = not_true _ (λ z.
        let slash : ends_slash n ≡ true =
          ap ends_slash (cut.0 ∙ ap (λ v. a ++ b'/' ∷ v) (is_nil-nil b z)) ∙ ends_slash-append a in
        absurd (ground (arith, e, slash))) in
      rw f (
        ap parts cut.0
        ∙ parts_from-append [] a b cut.1 named
        ∙ ap (λ v. v ++ b ∷ []) (sym (parts_root a)))
])
