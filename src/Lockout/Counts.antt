-- ===== src/Lockout/Counts.antt =====
-- What an entry has counted of the attempts that were granted in a window.
use cli_server_node.Common.{
  ℕ, ◌+◌, ◌≤◌, ◌<◌, Bool, true, false, ◌&&◌, ◌||◌, Option, none, some, Text, ltb, leb,
  if◌then◌else◌, inl, inr, Bool-cases, ◌⊎◌, ◌≡◌, refl, sym, ap, ap₂, subst, ◌∙◌, arith, dec_lt,
  ℕ_discrete,
}
use mathlib.Core.Option
use cli_server_node.Lockout.{LockoutState, Lockouts, is_lockout_expired, fresh, failed_entry}
use cli_server_node.Lockout.Entries.{
  entry, live_entry, reserve_at, reserved_entry, Change, kept, pruned, reserved, failed,
}

abbrev pub in_window : ℕ → ℕ → ℕ → Bool
in_window start window_ms now = leb start now && ltb now (start + window_ms)

module _ (start w m : ℕ) where
  -- An entry that has counted `n` attempts of the window, and stays while it lasts.
  record Holds (n : ℕ) (st : LockoutState) : Type 0 where
    counted : n ≤ st.failures
    recent : start ≤ st.last_attempt
    lock : (st.locked_until ≡ 0) ⊎ (start + w ≤ st.locked_until)

  -- What is known at time `now` after `n` grants in the window.
  pub record Counts (n : ℕ) (o : Option LockoutState) (now : ℕ) : Type 0 where
    pub bound : n ≤ m
    kept_count :
        (n ≡ 0)
        ⊎ ((start ≤ now) × ((start + w ≤ now) ⊎ ((st : LockoutState) × (o ≡ some st) × Holds n st)))

  live_entry-Holds :
      (n now : ℕ) (st : LockoutState)
      → now < start + w
      → Holds n st
      → live_entry w now (some st) ≡ some st
  unfolding is_lockout_expired
  live_entry-Holds n now st h c = elim c.lock [
    | inl z ↦ ground (arith, c.recent)
    | inr z ↦ ground arith
  ]

  live_entry_locked :
      (now : ℕ) (o : Option LockoutState)
      → ((Option.get_or (live_entry w now o) (fresh now)).locked_until ≡ 0)
        ⊎ (now < (Option.get_or (live_entry w now o) (fresh now)).locked_until)
  unfolding is_lockout_expired
  live_entry_locked now none = inl refl
  live_entry_locked now (some st) = elim (ℕ_discrete st.locked_until 0) [
    | yes z ↦ elim (Bool-cases (is_lockout_expired w st now)) [
      | inl e ↦ rw e (inl refl)
      | inr e ↦ rw e (inl z)
    ]
    | no z ↦ elim (dec_lt now st.locked_until) [
      | yes p ↦ inr (ground arith)
      | no p ↦ inl (ground arith)
    ]
  ]

  pub Counts-none : (n now : ℕ) (o : Option LockoutState) → n ≤ m → n ≡ 0 → Counts n o now
  Counts-none n now o b h = record { bound = b; kept_count = inl h }

  Counts-late : (n now : ℕ) (o : Option LockoutState) → n ≤ m → start + w ≤ now → Counts n o now
  Counts-late n now o b h = record { bound = b; kept_count = inr (omega arith, inl h) }

  reserve_at-Counts :
      (n now : ℕ) (st : LockoutState)
      → start ≤ now
      → n ≤ m
      → (n ≡ 0) ⊎ Holds n st
      → (st.locked_until ≡ 0) ⊎ (now < st.locked_until)
      → Counts (n + (if (reserve_at m now st).0 then 1 else 0)) (some (reserve_at m now st).1) now
  reserve_at-Counts n now st s b c k =
      elim (Bool-cases (ltb now st.locked_until || leb m st.failures)) [
        | inl e ↦ rw e (elim c [
          | inl z ↦ Counts-none (n + 0) now (some st) (omega arith) (omega arith)
          | inr d ↦ record {
            bound = omega arith;
            kept_count = inr (
              s,
              inr (
                st,
                refl,
                record { counted = omega (arith, d.counted); recent = d.recent; lock = d.lock },
              ),
            );
          }
        ])
        | inr e ↦ rw e (
            let room : (st.failures < m) × (st.locked_until ≡ 0) = ground arith in
            let few : n ≤ st.failures = elim c [ inl z ↦ omega arith | inr d ↦ d.counted ] in
            record {
              bound = omega arith;
              kept_count = inr (
                s,
                inr (_, refl, record { counted = omega arith; recent = s; lock = inl room.1 }),
              );
            })
      ]

  -- What is counted still stands at a later time, in the entry as it is and as its expiry leaves it.
  pub Counts-later :
      (n from now : ℕ) (o : Option LockoutState) → from ≤ now → Counts n o from → Counts n o now
  Counts-later n from now o h c = record {
    bound = c.bound;
    kept_count = elim c.kept_count [
      | inl z ↦ inl z
      | inr (s, inl late) ↦ inr (omega arith, inl (omega arith))
      | inr (s, inr e) ↦ inr (omega arith, inr e)
    ];
  }

  -- The three ways that a count stands at a time before the window's end.
  Counts-cases :
      (n now : ℕ) (o : Option LockoutState)
      → Counts n o now
      → (n ≡ 0)
        ⊎ ((start ≤ now)
            × ((start + w ≤ now)
                ⊎ ((st : LockoutState) × (o ≡ some st)
                    × (live_entry w now o ≡ some st)
                    × Holds n st)))
  Counts-cases n now o c = elim c.kept_count [
    | inl z ↦ inl z
    | inr (s, inl late) ↦ inr (s, inl late)
    | inr (s, inr (st, e, d)) ↦ elim (dec_lt now (start + w)) [
      | yes p ↦ inr (s, inr (st, e, ap (live_entry w now) e ∙ live_entry-Holds n now st p d, d))
      | no p ↦ inr (s, inl (omega arith))
    ]
  ]

  live_entry-Counts :
      (n now : ℕ) (o : Option LockoutState) → Counts n o now → Counts n (live_entry w now o) now
  live_entry-Counts n now o c = elim (Counts-cases n now o c) [
    | inl z ↦ Counts-none n now _ c.bound z
    | inr (s, inl late) ↦ Counts-late n now _ c.bound late
    | inr (s, inr (st, e, v, d)) ↦ record { bound = c.bound; kept_count = inr (s, inr (st, v, d)) }
  ]

  failed_entry-Counts :
      (l : Lockouts) (n now : ℕ) (o : Option LockoutState)
      → l.lockout_ms ≡ w
      → Counts n o now
      → Counts n (some (failed_entry l now o)) now
  failed_entry-Counts l n now o ew c = elim c.kept_count [
    | inl z ↦ Counts-none n now _ c.bound z
    | inr (s, inl late) ↦ Counts-late n now _ c.bound late
    | inr (s, inr (st, e, d)) ↦ record {
      bound = c.bound;
      kept_count = inr (
        s,
        inr (
          _,
          refl,
          record {
            counted = rw e d.counted;
            recent = s;
            lock = rw e (elim d.lock [ inl z ↦ rw z (ground arith) | inr z ↦ ground arith ]);
          },
        ),
      );
    }
  ]

  -- Outside the window nothing is counted, or all of it is over.
  Counts-outside :
      (n now : ℕ) (o o' : Option LockoutState)
      → in_window start w now ≡ false
      → Counts n o now
      → Counts n o' now
  Counts-outside n now o o' i c = elim c.kept_count [
    | inl z ↦ Counts-none n now o' c.bound z
    | inr (s, e) ↦ Counts-late n now o' c.bound (ground arith)
  ]

  reserved_entry-Counts :
      (n now : ℕ) (o : Option LockoutState)
      → in_window start w now ≡ true
      → Counts n o now
      → Counts
          (n + (if (reserved_entry m w now o).0 then 1 else 0))
          (some (reserved_entry m w now o).1)
          now
  reserved_entry-Counts n now o i c =
      let s : start ≤ now = ground arith in
      let p : now < start + w = ground arith in
      let st : LockoutState = Option.get_or (live_entry w now o) (fresh now) in
      let held : (n ≡ 0) ⊎ Holds n st = elim (Counts-cases n now o c) [
        | inl z ↦ inl z
        | inr (s, inl late) ↦ inl (omega arith)
        | inr (s, inr (st, e, v, d)) ↦
            inr (subst (λ x. Holds n (Option.get_or x (fresh now))) (sym v) d)
      ] in
      reserve_at-Counts n now st s c.bound held (live_entry_locked now o)

  reserved-Counts :
      (n now : ℕ) (granted : Bool) (o o' : Option LockoutState)
      → granted ≡ (reserved_entry m w now o).0
      → o' ≡ some (reserved_entry m w now o).1
      → Counts n o now
      → Counts (n + (if granted && in_window start w now then 1 else 0)) o' now
  reserved-Counts n now granted o o' g e c = elim (Bool-cases (in_window start w now)) [
    | inl i ↦
        let same : n + (if granted && in_window start w now then 1 else 0)
            ≡ n + (if granted then 1 else 0) =
          rw i (ground arith) in
        rw same (
          rw e (
            subst (λ b. Counts (n + (if b then 1 else 0)) (some (reserved_entry m w now o).1) now)
              (sym g) (reserved_entry-Counts n now o i c)))
    | inr i ↦
        let same : n + (if granted && in_window start w now then 1 else 0) ≡ n =
          rw i (ground arith) in
        rw same (Counts-outside n now o o' i c)
  ]

  pub step-Counts :
      (l l' : Lockouts) (key : Text) (n now : ℕ) (granted : Bool)
      → l.lockout_ms ≡ w
      → l.max_login_attempts ≡ m
      → Change l l' key now granted
      → Counts n (entry key l) now
      → Counts (n + (if granted && in_window start w now then 1 else 0)) (entry key l') now
  step-Counts l l' key n now granted ew em (kept g e) c =
      rw (g, e) (subst (λ k. Counts k (entry key l) now) (omega arith) c)
  step-Counts l l' key n now granted ew em (pruned g e) c =
      rw (g, e, ew)
        (subst (λ k. Counts k (live_entry w now (entry key l)) now) (omega arith)
          (live_entry-Counts n now (entry key l) c))
  step-Counts l l' key n now granted ew em (failed g e) c =
      rw (g, e)
        (subst (λ k. Counts k (some (failed_entry l now (entry key l))) now) (omega arith)
          (failed_entry-Counts l n now (entry key l) ew c))
  step-Counts l l' key n now granted ew em (reserved g e) c =
      let reserve : ℕ → ℕ → Bool × LockoutState = λ v k. reserved_entry k v now (entry key l) in
      reserved-Counts n now granted (entry key l) (entry key l')
        (g ∙ ap₂ (λ v k. (reserve v k).0) ew em) (e ∙ ap₂ (λ v k. some (reserve v k).1) ew em) c
