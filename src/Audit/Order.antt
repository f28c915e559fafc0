-- ===== src/Audit/Order.antt =====
-- The order in which the store returns its entries, and its pages.
use cli_server_node.Common.{
  ℕ, zero, suc, ◌+◌, ◌≤◌, ◌<◌, Bool, true, ◌==◌, none, some, List, [], ◌∷◌, ◌++◌, map, Text, ltb,
  leb, if◌then◌else◌, if_intro, take, drop, filter, All, Bool-cases, inl, inr, ◌≡◌, refl, sym, ap,
  ap₂, ◌∙◌, arith,
}
use mathlib.Core.List.{Perm}
use mathlib.Core.List.Perm
use cli_server_node.Audit.Latest.{drop-drop}
use cli_server_node.Audit.{
  AuditEntry, AuditQueryOptions, Stored, InMemoryAuditStore, new_store, shift_to, is_failed_login,
  stored, log, insert, newest_first, first, skip, get_entries, at_or_after, prune, clear, Call,
  logs, prunes, clears, step, run,
}

-- How many of the entries have the number `k`.
abbrev numbered_as : ℕ → List Stored → ℕ
numbered_as k [] = 0
numbered_as k (s ∷ ss) = (if s.seq == k then 1 else 0) + numbered_as k ss

numbered_as-append :
    (k : ℕ) (xs ys : List Stored) → numbered_as k (xs ++ ys) ≡ numbered_as k xs + numbered_as k ys
numbered_as-append k [] ys = omega arith
numbered_as-append k (x ∷ xs) ys = omega (arith, numbered_as-append k xs ys)

numbered_as-filter :
    (k : ℕ) (p : Stored → Bool) (xs : List Stored) → numbered_as k (filter p xs) ≤ numbered_as k xs
numbered_as-filter k p [] = omega arith
numbered_as-filter k p (x ∷ xs) = ground (arith, numbered_as-filter k p xs)

numbered_as-shift_to :
    (k m : ℕ) (xs : List Stored) → numbered_as k (shift_to m xs) ≤ numbered_as k xs
unfolding shift_to
numbered_as-shift_to k m [] = omega arith
numbered_as-shift_to k m (x ∷ xs) = ground (arith, numbered_as-shift_to k m xs)

-- Every number is used at most once, and not yet from `next_seq` on.
record IsNumbered (s : InMemoryAuditStore) : Type 0 where
  once : (k : ℕ) → numbered_as k s.entries + numbered_as k s.failed_logins ≤ 1
  unused : (k : ℕ) → s.next_seq ≤ k → numbered_as k s.entries + numbered_as k s.failed_logins ≡ 0

log-IsNumbered :
    (s : InMemoryAuditStore) (now : ℕ) (new_id : Text) (e : AuditEntry)
    → IsNumbered s
    → IsNumbered (log s now new_id e)
unfolding log
log-IsNumbered s now new_id e w =
    let st : Stored = stored s.next_seq now new_id e in
    let added : (k m : ℕ) (xs : List Stored)
        → numbered_as k (shift_to m (xs ++ st ∷ []))
          ≤ numbered_as k xs + (if s.next_seq == k then 1 else 0) =
      λ k m xs.
        omega
          (arith, numbered_as-shift_to k m (xs ++ st ∷ []), numbered_as-append k xs (st ∷ [])) in
    elim (Bool-cases (is_failed_login e)) [
      | inl b ↦ rw b (record {
        once = λ k.
            ground
              (arith, added k s.max_failed_login_entries s.failed_logins, w.once k, w.unused k);
        unused = λ k h. ground (
          arith,
          added k s.max_failed_login_entries s.failed_logins,
          w.unused k (omega (arith, h)),
        );
      })
      | inr b ↦ rw b (record {
        once = λ k. ground (arith, added k s.max_entries s.entries, w.once k, w.unused k);
        unused =
            λ k h. ground (arith, added k s.max_entries s.entries, w.unused k (omega (arith, h)));
      })
    ]

step-IsNumbered : (s : InMemoryAuditStore) (c : Call) → IsNumbered s → IsNumbered (step s c)
unfolding step prune clear
step-IsNumbered s (logs now new_id e) w = log-IsNumbered s now new_id e w
step-IsNumbered s (prunes before) w =
    let keeps : Stored → Bool = λ t. at_or_after before t.entry in
    record {
      once = λ k. omega (
        arith,
        w.once k,
        numbered_as-filter k keeps s.entries,
        numbered_as-filter k keeps s.failed_logins,
      );
      unused = λ k h. omega (
        arith,
        w.unused k h,
        numbered_as-filter k keeps s.entries,
        numbered_as-filter k keeps s.failed_logins,
      );
    }
step-IsNumbered s clears w = record { once = λ k. omega arith; unused = λ k h. omega arith }

run-IsNumbered :
    (s : InMemoryAuditStore) (calls : List Call) → IsNumbered s → IsNumbered (run s calls)
unfolding run
run-IsNumbered s [] w = w
run-IsNumbered s (c ∷ calls) w = run-IsNumbered (step s c) calls (step-IsNumbered s c w)

-- Each entry was recorded after all that follow it.
abbrev pub IsNewestFirst : List Stored → Type 0
IsNewestFirst [] = Unit
IsNewestFirst (s ∷ ss) = All (λ t. t.seq < s.seq) ss × IsNewestFirst ss

All-trans : (a b : ℕ) (ss : List Stored) → a < b → All (λ t. t.seq < a) ss → All (λ t. t.seq < b) ss
All-trans a b [] h p = tt
All-trans a b (s ∷ ss) h p = (omega (arith, h, p.0), All-trans a b ss h p.1)

insert-All :
    (a : ℕ) (s : Stored) (ss : List Stored)
    → s.seq < a
    → All (λ t. t.seq < a) ss
    → All (λ t. t.seq < a) (insert s ss)
unfolding insert
insert-All a s [] h p = (h, tt)
insert-All a s (t ∷ ss) h p =
    if_intro (All (λ t. t.seq < a)) (leb t.seq s.seq) (h, p) (p.0, insert-All a s ss h p.1)

numbered_as-insert :
    (k : ℕ) (s : Stored) (ss : List Stored) → numbered_as k (insert s ss) ≡ numbered_as k (s ∷ ss)
unfolding insert
numbered_as-insert k s [] = refl
numbered_as-insert k s (t ∷ ss) = ground (arith, numbered_as-insert k s ss)

numbered_as-newest_first :
    (k : ℕ) (ss : List Stored) → numbered_as k (newest_first ss) ≡ numbered_as k ss
unfolding newest_first
numbered_as-newest_first k [] = refl
numbered_as-newest_first k (s ∷ ss) =
    omega (arith, numbered_as-insert k s (newest_first ss), numbered_as-newest_first k ss)

insert-IsNewestFirst :
    (s : Stored) (ss : List Stored)
    → numbered_as s.seq ss ≡ 0
    → IsNewestFirst ss
    → IsNewestFirst (insert s ss)
unfolding insert
insert-IsNewestFirst s [] n w = (tt, tt)
insert-IsNewestFirst s (t ∷ ss) n w = elim (Bool-cases (leb t.seq s.seq)) [
  | inl e ↦
      let less : t.seq < s.seq = ground (arith, n, e) in
      rw e ((less, All-trans t.seq s.seq ss less w.0), w)
  | inr e ↦ rw e (
    insert-All t.seq s ss (ground (arith, e)) w.0,
    insert-IsNewestFirst s ss (ground (arith, n)) w.1,
  )
]

newest_first-IsNewestFirst :
    (ss : List Stored) → ((k : ℕ) → numbered_as k ss ≤ 1) → IsNewestFirst (newest_first ss)
unfolding newest_first
newest_first-IsNewestFirst [] h = tt
newest_first-IsNewestFirst (s ∷ ss) h =
    insert-IsNewestFirst s (newest_first ss)
      (ground (arith, h s.seq, numbered_as-newest_first s.seq ss))
      (newest_first-IsNewestFirst ss (λ k. ground (arith, h k)))

insert-Perm : (s : Stored) (ss : List Stored) → Perm (insert s ss) (s ∷ ss)
unfolding insert
insert-Perm s [] = Perm.refl (s ∷ [])
insert-Perm s (t ∷ ts) =
    if_intro (λ v. Perm v (s ∷ t ∷ ts)) (leb t.seq s.seq) (Perm.refl (s ∷ t ∷ ts))
      (Perm.trans (Perm.cons t (insert-Perm s ts)) (Perm.swap s t ts))

newest_first-Perm : (ss : List Stored) → Perm (newest_first ss) ss
unfolding newest_first
newest_first-Perm [] = Perm.refl []
newest_first-Perm (s ∷ ss) =
    Perm.trans (insert-Perm s (newest_first ss)) (Perm.cons s (newest_first-Perm ss))

abbrev pub no_options : AuditQueryOptions
no_options = record {
  by_event = none;
  by_username = none;
  by_actor = none;
  from = none;
  to = none;
  limit = none;
  offset = none;
}

filter-true : {A : Type 0} (xs : List A) → filter (λ x. true) xs ≡ xs
filter-true [] = refl
filter-true (x ∷ xs) = ap (λ v. x ∷ v) (filter-true xs)

get_entries_all :
    (s : InMemoryAuditStore)
    → get_entries s no_options ≡ map (λ t. t.entry) (newest_first (s.entries ++ s.failed_logins))
unfolding get_entries
get_entries_all s =
    let all : List AuditEntry = map (λ t. t.entry) (newest_first (s.entries ++ s.failed_logins)) in
    let kept : List AuditEntry → List AuditEntry = filter (λ e. true) in
    let again : kept all ≡ all = filter-true all in
    ap (λ v. kept (kept (kept (kept v)))) again
    ∙ ap (λ v. kept (kept (kept v))) again
    ∙ ap (λ v. kept (kept v)) again
    ∙ ap kept again
    ∙ again

-- After any calls on a new store, a query without options returns the stored entries, those of both lists
-- and no others, as often as they are stored, each recorded after all that follow it: they carry the
-- numbers that they are stored with, which fall along the list.
pub get_entries-IsNewestFirst :
    (max_entries max_failed : ℕ) (calls : List Call)
    → let s = run (new_store max_entries max_failed) calls in
      (list : List Stored) × (get_entries s no_options ≡ map (λ t. t.entry) list)
      × Perm list (s.entries ++ s.failed_logins)
      × IsNewestFirst list
get_entries-IsNewestFirst max_entries max_failed calls =
    let s : InMemoryAuditStore = run (new_store max_entries max_failed) calls in
    let w =
      run-IsNumbered (new_store max_entries max_failed) calls
        (record { once = λ k. omega arith; unused = λ k h. omega arith }) in
    (
      newest_first (s.entries ++ s.failed_logins),
      get_entries_all s,
      newest_first-Perm (s.entries ++ s.failed_logins),
      newest_first-IsNewestFirst _
          (λ k. omega (arith, w.once k, numbered_as-append k s.entries s.failed_logins)),
    )

module _ {A : Type 0} where
  take-drop : (m n j : ℕ) (xs : List A) → j ≡ m + n → take m xs ++ take n (drop m xs) ≡ take j xs
  take-drop zero n j xs e = ap (λ i. take i xs) (omega (arith, e))
  take-drop (suc m) n zero xs e = absurd (omega (arith, e))
  take-drop (suc m) zero (suc j) [] e = refl
  take-drop (suc m) (suc n) (suc j) [] e = refl
  take-drop (suc m) n (suc j) (x ∷ xs) e = ap (λ v. x ∷ v) (take-drop m n j xs (omega (arith, e)))

  skip-drop : (a : ℕ) (xs : List A) → skip (some a) xs ≡ drop a xs
  skip-drop zero xs = if_intro (λ v. v ≡ xs) (ltb 0 0) refl refl
  skip-drop (suc a) xs = ground arith

  first-take : (m : ℕ) (xs : List A) → 0 < m → first (some m) xs ≡ take m xs
  first-take m xs h = ground (arith, h)

  page : (a m : ℕ) (xs : List A) → 0 < m → first (some m) (skip (some a) xs) ≡ take m (drop a xs)
  page a m xs h = first-take m (skip (some a) xs) h ∙ ap (take m) (skip-drop a xs)

  pages :
      (a m n : ℕ) (xs : List A)
      → 0 < m
      → 0 < n
      → first (some m) (skip (some a) xs) ++ first (some n) (skip (some (a + m)) xs)
        ≡ first (some (m + n)) (skip (some a) xs)
  pages a m n xs hm hn =
      ap₂ (λ u v. u ++ v) (page a m xs hm)
        (page (a + m) n xs hn ∙ ap (take n) (sym (drop-drop m a (a + m) xs refl)))
      ∙ take-drop m n (m + n) (drop a xs) refl
      ∙ sym (page a (m + n) xs (omega (arith, hm)))

-- Two consecutive pages of a query are one page of both lengths.
pub get_entries_pages :
    (s : InMemoryAuditStore) (o : AuditQueryOptions) (a m n : ℕ)
    → 0 < m
    → 0 < n
    → get_entries s (record o { offset = some a; limit = some m })
        ++ get_entries s (record o { offset = some (a + m); limit = some n })
      ≡ get_entries s (record o { offset = some a; limit = some (m + n) })
unfolding get_entries
get_entries_pages s o a m n hm hn = pages a m n _ hm hn
