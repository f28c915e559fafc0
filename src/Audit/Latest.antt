-- ===== src/Audit/Latest.antt =====
-- What the store keeps of the entries logged.
use cli_server_node.Common.{
  ℕ, zero, suc, ◌+◌, ◌-◌, ◌≤◌, Bool, true, false, not, List, [], ◌∷◌, ◌++◌, Text, leb, length,
  length-append, length-drop, drop, filter, filter-append, append-nil, append_assoc, if_intro,
  Bool-cases, inl, inr, ◌≡◌, refl, sym, ap, subst, ◌∙◌, arith,
}
use cli_server_node.Audit.{
  AuditEntry, Stored, InMemoryAuditStore, new_store, shift_to, is_failed_login, stored, log,
}

-- The last `m` elements.
abbrev pub last {ℓ} : {A : Type ℓ} → ℕ → List A → List A
last m xs = drop (length xs - m) xs

module _ {ℓ} {A : Type ℓ} where
  drop_all : (n : ℕ) (xs : List A) → n ≡ 0 → drop n xs ≡ xs
  drop_all zero xs h = refl
  drop_all (suc n) xs h = absurd (omega (arith, h))

  shift_to-last : (m : ℕ) (xs : List A) → shift_to m xs ≡ last m xs
  unfolding shift_to
  shift_to-last m [] = sym (drop_all (0 - m) [] (omega arith))
  shift_to-last m (x ∷ xs) = elim (Bool-cases (leb (suc (length xs)) m)) [
    | inl e ↦ rw e (sym (drop_all (suc (length xs) - m) (x ∷ xs) (ground arith)))
    | inr n ↦
        let later : suc (length xs) - m ≡ suc (length xs - m) = ground arith in
        rw n (shift_to-last m xs ∙ rw later refl)
  ]

  drop-append : (n : ℕ) (xs ys : List A) → n ≤ length xs → drop n (xs ++ ys) ≡ drop n xs ++ ys
  drop-append zero xs ys h = refl
  drop-append (suc n) [] ys h = absurd (omega (arith, h))
  drop-append (suc n) (x ∷ xs) ys h = drop-append n xs ys (omega (arith, h))

  drop_nil : (n : ℕ) → drop {A = A} n [] ≡ []
  drop_nil zero = refl
  drop_nil (suc n) = refl

  pub drop-drop : (n k j : ℕ) (xs : List A) → j ≡ k + n → drop n (drop k xs) ≡ drop j xs
  drop-drop n zero j xs e = ap (λ i. drop i xs) (omega (arith, e))
  drop-drop n (suc k) zero xs e = absurd (omega (arith, e))
  drop-drop n (suc k) (suc j) [] e = drop_nil n
  drop-drop n (suc k) (suc j) (x ∷ xs) e = drop-drop n k j xs (omega (arith, e))

  -- Adding at the end and shifting keeps the last ones of all that were added.
  shift_to-snoc :
      (m : ℕ) (xs : List A) (x : A) → shift_to m (last m xs ++ x ∷ []) ≡ last m (xs ++ x ∷ [])
  shift_to-snoc m xs x =
      let joined : last m xs ++ x ∷ [] ≡ drop (length xs - m) (xs ++ x ∷ []) =
        sym (drop-append (length xs - m) xs (x ∷ []) (omega arith)) in
      let long : length (drop (length xs - m) (xs ++ x ∷ [])) ≡ suc (length xs) - (length xs - m) =
        length-drop (length xs - m) (xs ++ x ∷ [])
        ∙ ap (λ n. n - (length xs - m)) (omega (arith, length-append xs (x ∷ []))) in
      ap (shift_to m) joined
      ∙ shift_to-last m (drop (length xs - m) (xs ++ x ∷ []))
      ∙ drop-drop _ (length xs - m) (length (xs ++ x ∷ []) - m) (xs ++ x ∷ [])
          (omega (arith, long, length-append xs (x ∷ [])))

-- A call of `log`: the time, the identifier for the entry, and the entry.
abbrev pub Logged : Type 0
Logged = ℕ × Text × AuditEntry

unfoldable pub log_all : InMemoryAuditStore → List Logged → InMemoryAuditStore
log_all s [] = s
log_all s ((now, new_id, e) ∷ calls) = log_all (log s now new_id e) calls

-- The stored entries, numbered in the order of the calls.
unfoldable pub numbered : ℕ → List Logged → List Stored
numbered seq [] = []
numbered seq ((now, new_id, e) ∷ calls) = stored seq now new_id e ∷ numbered (suc seq) calls

abbrev pub is_failed : Stored → Bool
is_failed s = is_failed_login s.entry

abbrev pub is_other : Stored → Bool
is_other s = not (is_failed_login s.entry)

-- A store that holds the last ones of what was added to it.
record HoldsLast (s : InMemoryAuditStore) (before : List Stored) (m f : ℕ) : Type 0 where
  others : s.entries ≡ last m (filter is_other before)
  failed : s.failed_logins ≡ last f (filter is_failed before)
  room : s.max_entries ≡ m
  failed_room : s.max_failed_login_entries ≡ f

-- Adding what passes a test, and what does not.
last_added :
    {A : Type 0} (p : A → Bool) (m k : ℕ) (before ys : List A) (x : A)
    → p x ≡ true
    → k ≡ m
    → ys ≡ last m (filter p before)
    → shift_to k (ys ++ x ∷ []) ≡ last m (filter p (before ++ x ∷ []))
last_added p m k before ys x h ek ey =
    let new : filter p (before ++ x ∷ []) ≡ filter p before ++ x ∷ [] =
      filter-append p before (x ∷ []) ∙ rw h refl in
    rw (ek, ey) (shift_to-snoc m (filter p before) x ∙ ap (last m) (sym new))

last_skipped :
    {A : Type 0} (p : A → Bool) (m : ℕ) (before ys : List A) (x : A)
    → p x ≡ false
    → ys ≡ last m (filter p before)
    → ys ≡ last m (filter p (before ++ x ∷ []))
last_skipped p m before ys x h ey =
    let same : filter p (before ++ x ∷ []) ≡ filter p before =
      filter-append p before (x ∷ []) ∙ rw h (append-nil (filter p before)) in
    ey ∙ ap (last m) (sym same)

log-HoldsLast :
    (s : InMemoryAuditStore) (before : List Stored) (m f now : ℕ) (new_id : Text) (e : AuditEntry)
    → HoldsLast s before m f
    → HoldsLast (log s now new_id e) (before ++ stored s.next_seq now new_id e ∷ []) m f
unfolding log
log-HoldsLast s before m f now new_id e h =
    let st : Stored = stored s.next_seq now new_id e in
    elim (Bool-cases (is_failed_login e)) [
      | inl b ↦ rw b (record {
        others = last_skipped is_other m before s.entries st (ap not b) h.others;
        failed =
            last_added is_failed f s.max_failed_login_entries before s.failed_logins st b
              h.failed_room h.failed;
        room = h.room;
        failed_room = h.failed_room;
      })
      | inr b ↦ rw b (record {
        others = last_added is_other m s.max_entries before s.entries st (ap not b) h.room h.others;
        failed = last_skipped is_failed f before s.failed_logins st b h.failed;
        room = h.room;
        failed_room = h.failed_room;
      })
    ]

log_seq :
    (s : InMemoryAuditStore) (now : ℕ) (new_id : Text) (e : AuditEntry)
    → (log s now new_id e).next_seq ≡ suc s.next_seq
unfolding log
log_seq s now new_id e =
    if_intro (λ v. InMemoryAuditStore.next_seq v ≡ suc s.next_seq) (is_failed_login e) refl refl

log_all-HoldsLast :
    (s : InMemoryAuditStore) (before : List Stored) (m f : ℕ) (calls : List Logged)
    → HoldsLast s before m f
    → HoldsLast (log_all s calls) (before ++ numbered s.next_seq calls) m f
unfolding log_all numbered
log_all-HoldsLast s before m f [] h = rw (append-nil before) h
log_all-HoldsLast s before m f ((now, new_id, e) ∷ calls) h =
    let one = log-HoldsLast s before m f now new_id e h in
    let rest =
      log_all-HoldsLast (log s now new_id e) (before ++ stored s.next_seq now new_id e ∷ []) m f
        calls one in
    subst (λ v. HoldsLast (log_all (log s now new_id e) calls) v m f)
      (append_assoc before (stored s.next_seq now new_id e ∷ [])
          (numbered (log s now new_id e).next_seq calls)
        ∙ ap (λ n. before ++ stored s.next_seq now new_id e ∷ numbered n calls)
            (log_seq s now new_id e))
      rest

-- After any entries logged to a new store, it holds the last `max_entries` of those that are not failed
-- sign-ins, however many failed sign-ins came between, and the last `max_failed_login_entries` of those.
pub log_all-last :
    (max_entries max_failed : ℕ) (calls : List Logged)
    → let s = new_store max_entries max_failed in
      ((log_all s calls).entries ≡ last s.max_entries (filter is_other (numbered 0 calls)))
      × ((log_all s calls).failed_logins
          ≡ last s.max_failed_login_entries (filter is_failed (numbered 0 calls)))
log_all-last max_entries max_failed calls =
    let s : InMemoryAuditStore = new_store max_entries max_failed in
    let h = log_all-HoldsLast s [] s.max_entries s.max_failed_login_entries calls (record {
      others = sym (drop_nil _);
      failed = sym (drop_nil _);
      room = refl;
      failed_room = refl;
    }) in
    (h.others, h.failed)
