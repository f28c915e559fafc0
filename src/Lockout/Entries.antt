-- ===== src/Lockout/Entries.antt =====
-- The lockout as one key sees it: what each operation does to the entry of a key.
use cli_server_node.Common.{
  ℕ, suc, Bool, true, false, ◌||◌, Option, none, some, Text, text_eq, text_eq_refl, map_get,
  map_get-map_set, map_get-map_delete, map_get-map_update, HasUniqueKeys, map_set-HasUniqueKeys,
  map_delete-HasUniqueKeys, map_update-HasUniqueKeys, ltb, leb, if◌then◌else◌, length, inl, inr,
  Bool-cases, Option-cases, ◌⊎◌, ◌≡◌, refl, sym, ap, ap₂, subst, ◌∙◌,
}
use mathlib.Core.Option
use cli_server_node.Lockout.{
  LockoutState, Lockouts, is_lockout_expired, unexpired, sweep_lockouts, delete_key, fresh,
  open_entry, reserve_in, reserve_attempt, failed_entry, lockout_sweep_threshold,
}

abbrev pub entry : Text → Lockouts → Option LockoutState
entry key l = map_get key l.lockouts

-- The entry once its expiry is looked at.
abbrev pub live_entry : ℕ → ℕ → Option LockoutState → Option LockoutState
live_entry window now o = elim o [ none ↦ none | some st ↦ unexpired window now st ]

-- A reservation, on the entry of its key alone.
abbrev pub reserve_at : ℕ → ℕ → LockoutState → Bool × LockoutState
reserve_at max now st =
    if ltb now st.locked_until || leb max st.failures
    then (false, st)
    else (true, record st { failures = suc st.failures; last_attempt = now })

abbrev pub reserved_entry : ℕ → ℕ → ℕ → Option LockoutState → Bool × LockoutState
reserved_entry max window now o =
    reserve_at max now (Option.get_or (live_entry window now o) (fresh now))

-- The parts of the state that no event changes.
pub record Keeps (l l' : Lockouts) : Type 0 where
  pub max : l'.max_login_attempts ≡ l.max_login_attempts
  pub window : l'.lockout_ms ≡ l.lockout_ms
  pub unique : HasUniqueKeys l'.lockouts

open_entry_self :
    (l : Lockouts) (key : Text) (now : ℕ) → entry key (open_entry l key now) ≡ some (fresh now)
unfolding open_entry
open_entry_self l key now = rw (map_get-map_set, text_eq_refl) refl

open_entry-Keeps :
    (l : Lockouts) (key : Text) (now : ℕ)
    → HasUniqueKeys l.lockouts
    → Keeps l (open_entry l key now)
unfolding open_entry sweep_lockouts
open_entry-Keeps l key now u = elim (Bool-cases (leb lockout_sweep_threshold (length l.lockouts))) [
  | inl e ↦ rw e (record {
    max = refl;
    window = refl;
    unique = map_set-HasUniqueKeys key _ _ (map_update-HasUniqueKeys _ l.lockouts u);
  })
  | inr e ↦ rw e (record { max = refl; window = refl; unique = map_set-HasUniqueKeys key _ _ u })
]

open_entry_other :
    (l : Lockouts) (key k : Text) (now : ℕ)
    → HasUniqueKeys l.lockouts
    → text_eq k key ≡ false
    → (entry key (open_entry l k now) ≡ entry key l)
      ⊎ (entry key (open_entry l k now) ≡ live_entry l.lockout_ms now (entry key l))
unfolding open_entry sweep_lockouts
open_entry_other l key k now u n =
    elim (Bool-cases (leb lockout_sweep_threshold (length l.lockouts))) [
      | inl e ↦ rw e (
          inr (
            rw (map_get-map_set, n)
              (map_get-map_update (unexpired l.lockout_ms now) key l.lockouts u)))
      | inr e ↦ rw e (inl (rw (map_get-map_set, n) refl))
    ]

reserve_in-Keeps :
    (l : Lockouts) (key : Text) (now : ℕ) (st : LockoutState)
    → HasUniqueKeys l.lockouts
    → Keeps l (reserve_in l key now st).1
unfolding reserve_in
reserve_in-Keeps l key now st u =
    elim (Bool-cases (ltb now st.locked_until || leb l.max_login_attempts st.failures)) [
      | inl e ↦ rw e (record { max = refl; window = refl; unique = u })
      | inr e ↦
          rw e (record { max = refl; window = refl; unique = map_set-HasUniqueKeys key _ _ u })
    ]

reserve_in_other :
    (l : Lockouts) (key k : Text) (now : ℕ) (st : LockoutState)
    → text_eq k key ≡ false
    → entry key (reserve_in l k now st).1 ≡ entry key l
unfolding reserve_in
reserve_in_other l key k now st n =
    elim (Bool-cases (ltb now st.locked_until || leb l.max_login_attempts st.failures)) [
      | inl e ↦ rw e refl
      | inr e ↦ rw e (rw (map_get-map_set, n) refl)
    ]

-- A reservation in a map whose entry of the key is known.
pub record ReservedAt (l : Lockouts) (key : Text) (r : Bool × Lockouts) (a : Bool × LockoutState)
    : Type 0 where
  pub answer : r.0 ≡ a.0
  pub left : entry key r.1 ≡ some a.1

reserve_in_self :
    (l : Lockouts) (key : Text) (now m : ℕ) (st : LockoutState)
    → l.max_login_attempts ≡ m
    → entry key l ≡ some st
    → ReservedAt l key (reserve_in l key now st) (reserve_at m now st)
unfolding reserve_in
reserve_in_self l key now m st em e =
    subst (λ v. ReservedAt l key (reserve_in l key now st) (reserve_at v now st)) em
      (elim (Bool-cases (ltb now st.locked_until || leb l.max_login_attempts st.failures)) [
        | inl d ↦ rw d (record { answer = refl; left = e })
        | inr d ↦ rw d (record { answer = refl; left = rw (map_get-map_set, text_eq_refl) refl })
      ])

pub delete_key-Keeps :
    (l : Lockouts) (key : Text) → HasUniqueKeys l.lockouts → Keeps l (delete_key l key)
delete_key-Keeps l key u = record {
  max = refl;
  window = refl;
  unique = map_delete-HasUniqueKeys key l.lockouts u;
}

Keeps-trans : (l l' l'' : Lockouts) → Keeps l l' → Keeps l' l'' → Keeps l l''
Keeps-trans l l' l'' p q = record {
  max = q.max ∙ p.max;
  window = q.window ∙ p.window;
  unique = q.unique;
}

pub delete_key_other :
    (l : Lockouts) (key k : Text) → text_eq k key ≡ false → entry key (delete_key l k) ≡ entry key l
delete_key_other l key k n = rw (map_get-map_delete, n) refl

-- The two ways a reservation goes: in an opened entry, or in the one found.
data Reserving (l : Lockouts) (key : Text) (now : ℕ) : Type 0 where
  opens :
      (m : Lockouts)
      → Keeps l m
      → ((other : Text) → text_eq key other ≡ false → entry other m ≡ entry other l)
      → live_entry l.lockout_ms now (entry key l) ≡ none
      → reserve_attempt l key now ≡ reserve_in (open_entry m key now) key now (fresh now)
      → Reserving l key now
  finds :
      (st : LockoutState)
      → entry key l ≡ some st
      → live_entry l.lockout_ms now (entry key l) ≡ some st
      → reserve_attempt l key now ≡ reserve_in l key now st
      → Reserving l key now

reserve_attempt-Reserving :
    (l : Lockouts) (key : Text) (now : ℕ) → HasUniqueKeys l.lockouts → Reserving l key now
unfolding reserve_attempt
reserve_attempt-Reserving l key now u = elim (Option-cases (map_get key l.lockouts)) [
  | inl e ↦
      opens l (record { max = refl; window = refl; unique = u }) (λ other n. refl) (rw e refl)
        (rw (e, reserve_attempt) refl)
  | inr (st, e) ↦ elim (Bool-cases (is_lockout_expired l.lockout_ms st now)) [
    | inl x ↦
        opens (delete_key l key) (delete_key-Keeps l key u)
          (λ other n. delete_key_other l other key n) (rw e (rw x refl))
          (rw (e, reserve_attempt) (rw x refl))
    | inr x ↦ finds st e (rw e (rw x refl)) (rw (e, reserve_attempt) (rw x refl))
  ]
]

opened-Keeps :
    (l : Lockouts) (key : Text) (now : ℕ)
    → HasUniqueKeys l.lockouts
    → Keeps l (reserve_in (open_entry l key now) key now (fresh now)).1
opened-Keeps l key now u =
    let k = open_entry-Keeps l key now u in
    Keeps-trans l (open_entry l key now) _ k
      (reserve_in-Keeps (open_entry l key now) key now (fresh now) k.unique)

pub reserve_attempt-Keeps :
    (l : Lockouts) (key : Text) (now : ℕ)
    → HasUniqueKeys l.lockouts
    → Keeps l (reserve_attempt l key now).1
reserve_attempt-Keeps l key now u = elim (reserve_attempt-Reserving l key now u) [
  | opens m k o e q ↦ rw q (Keeps-trans l m _ k (opened-Keeps m key now k.unique))
  | finds st e v q ↦ rw q (reserve_in-Keeps l key now st u)
]

-- An attempt of a key is answered by what its own entry says.
pub reserve_attempt_self :
    (l : Lockouts) (key : Text) (now : ℕ)
    → HasUniqueKeys l.lockouts
    → ReservedAt l key
        (reserve_attempt l key now)
        (reserved_entry l.max_login_attempts l.lockout_ms now (entry key l))
reserve_attempt_self l key now u = elim (reserve_attempt-Reserving l key now u) [
  | opens m k o e q ↦
      let k' = open_entry-Keeps m key now k.unique in
      let r =
        reserve_in_self (open_entry m key now) key now l.max_login_attempts (fresh now)
          (k'.max ∙ k.max) (open_entry_self m key now) in
      subst
        (λ v.
          ReservedAt l key (reserve_attempt l key now)
            (reserve_at l.max_login_attempts now (Option.get_or v (fresh now))))
        (sym e)
        (subst (λ v. ReservedAt l key v (reserve_at l.max_login_attempts now (fresh now))) (sym q)
          (record { answer = r.answer; left = r.left }))
  | finds st e v q ↦
      subst
        (λ v.
          ReservedAt l key (reserve_attempt l key now)
            (reserve_at l.max_login_attempts now (Option.get_or v (fresh now))))
        (sym v)
        (subst (λ v. ReservedAt l key v (reserve_at l.max_login_attempts now st)) (sym q)
          (reserve_in_self l key now l.max_login_attempts st refl e))
]

-- What an event does to the entry of a key.
pub data Change (l l' : Lockouts) (key : Text) (now : ℕ) (granted : Bool) : Type 0 where
  kept : granted ≡ false → entry key l' ≡ entry key l → Change l l' key now granted
  pruned :
      granted ≡ false
      → entry key l' ≡ live_entry l.lockout_ms now (entry key l)
      → Change l l' key now granted
  reserved :
      granted ≡ (reserved_entry l.max_login_attempts l.lockout_ms now (entry key l)).0
      → entry key l' ≡ some (reserved_entry l.max_login_attempts l.lockout_ms now (entry key l)).1
      → Change l l' key now granted
  failed :
      granted ≡ false
      → entry key l' ≡ some (failed_entry l now (entry key l))
      → Change l l' key now granted

pub reserve_attempt_other :
    (l : Lockouts) (key k : Text) (now : ℕ)
    → HasUniqueKeys l.lockouts
    → text_eq k key ≡ false
    → Change l (reserve_attempt l k now).1 key now false
reserve_attempt_other l key k now u n = elim (reserve_attempt-Reserving l k now u) [
  | opens m kept_parts o e q ↦
      let same =
        ap (λ v. entry key v.1) q ∙ reserve_in_other (open_entry m k now) key k now (fresh now) n in
      elim (open_entry_other m key k now kept_parts.unique n) [
        | inl e ↦ kept refl (same ∙ e ∙ o key n)
        | inr e ↦
            pruned refl (same ∙ e ∙ ap₂ (λ w o. live_entry w now o) kept_parts.window (o key n))
      ]
  | finds st e v q ↦ kept refl (ap (λ v. entry key v.1) q ∙ reserve_in_other l key k now st n)
]
