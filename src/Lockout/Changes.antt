-- ===== src/Lockout/Changes.antt =====
-- What each event does to the lockouts, and to the entry of one key.
use cli_server_node.Common.{
  ℕ, Bool, false, ◌&&◌, none, some, Text, text_eq, text_eq_iff, map_get, map_get-map_set,
  map_get-map_delete, map_get-map_update, HasUniqueKeys, map_set-HasUniqueKeys,
  map_delete-HasUniqueKeys, map_update-HasUniqueKeys, inl, inr, Bool-cases, Option-cases, ◌≡◌, refl,
  sym, ap, subst,
}
use cli_server_node.Lockout.{
  Lockouts, is_lockout_expired, unexpired, sweep_lockouts, is_key_locked, clear_lockout, user_key,
  reserve_attempt, failed_entry, attempt_failed, attempt_succeeded, Event, reserves, fails,
  succeeds, clears, checks, sweeps, step,
}
use cli_server_node.Lockout.Entries.{
  live_entry, Keeps, Change, kept, pruned, reserved, failed, reserve_attempt-Keeps,
  reserve_attempt_self, reserve_attempt_other, delete_key-Keeps, delete_key_other,
}

-- An event that resets the lockout of the key.
abbrev pub is_reset : Text → Event → Bool
is_reset key (succeeds k) = text_eq k key
is_reset key (clears id) = text_eq (user_key id) key
is_reset key e = false

-- Whether an event grants an attempt of the key.
abbrev pub is_granted : Text → Lockouts → ℕ → Event → Bool
is_granted key l now (reserves k) = text_eq k key && (reserve_attempt l k now).0
is_granted key l now e = false

is_key_locked-Change :
    (l : Lockouts) (key k : Text) (now : ℕ)
    → HasUniqueKeys l.lockouts
    → Change l (is_key_locked l k now).1 key now false × Keeps l (is_key_locked l k now).1
unfolding is_key_locked
is_key_locked-Change l key k now u = elim (Option-cases (map_get k l.lockouts)) [
  | inl e ↦ rw (e, is_key_locked) (kept refl refl, record { max = refl; window = refl; unique = u })
  | inr (st, e) ↦ elim (Bool-cases (is_lockout_expired l.lockout_ms st now)) [
    | inl x ↦
        rw (e, is_key_locked)
          (rw x (
            elim (Bool-cases (text_eq k key)) [
              | inl q ↦ pruned refl (
                  rw (map_get-map_delete, q)
                    (sym (
                      subst (λ j. live_entry l.lockout_ms now (map_get j l.lockouts) ≡ none)
                        ((text_eq_iff k key).0 q) (rw e (rw x refl)))))
              | inr q ↦ kept refl (rw (map_get-map_delete, q) refl)
            ],
            record { max = refl; window = refl; unique = map_delete-HasUniqueKeys k l.lockouts u },
          ))
    | inr x ↦
        rw (e, is_key_locked)
          (rw x (kept refl refl, record { max = refl; window = refl; unique = u }))
  ]
]

reserve_attempt-Change :
    (l : Lockouts) (key k : Text) (now : ℕ)
    → HasUniqueKeys l.lockouts
    → Change l (reserve_attempt l k now).1 key now (text_eq k key && (reserve_attempt l k now).0)
reserve_attempt-Change l key k now u = elim (Bool-cases (text_eq k key)) [
  | inl e ↦ rw e (
      subst (λ j. Change l (reserve_attempt l j now).1 key now (reserve_attempt l j now).0)
        (sym ((text_eq_iff k key).0 e))
        (let r = reserve_attempt_self l key now u in reserved r.answer r.left))
  | inr n ↦ rw n (reserve_attempt_other l key k now u n)
]

attempt_failed-Change :
    (l : Lockouts) (key k : Text) (now : ℕ) → Change l (attempt_failed l k now) key now false
unfolding attempt_failed
attempt_failed-Change l key k now = elim (Bool-cases (text_eq k key)) [
  | inl e ↦ failed refl (
      rw (map_get-map_set, e)
        (ap (λ j. some (failed_entry l now (map_get j l.lockouts))) ((text_eq_iff k key).0 e)))
  | inr n ↦ kept refl (rw (map_get-map_set, n) refl)
]

pub step-Keeps :
    (l : Lockouts) (now : ℕ) (e : Event) → HasUniqueKeys l.lockouts → Keeps l (step l now e)
unfolding step clear_lockout attempt_failed attempt_succeeded sweep_lockouts
step-Keeps l now (reserves k) u = reserve_attempt-Keeps l k now u
step-Keeps l now (fails k) u = record {
  max = refl;
  window = refl;
  unique = map_set-HasUniqueKeys k _ l.lockouts u;
}
step-Keeps l now (succeeds k) u = record {
  max = refl;
  window = refl;
  unique = map_delete-HasUniqueKeys k l.lockouts u;
}
step-Keeps l now (clears id) u = delete_key-Keeps l (user_key id) u
step-Keeps l now (checks k) u = (is_key_locked-Change l k k now u).1
step-Keeps l now sweeps u = record {
  max = refl;
  window = refl;
  unique = map_update-HasUniqueKeys _ l.lockouts u;
}

pub step-Change :
    (l : Lockouts) (key : Text) (now : ℕ) (e : Event)
    → HasUniqueKeys l.lockouts
    → is_reset key e ≡ false
    → Change l (step l now e) key now (is_granted key l now e)
unfolding step clear_lockout attempt_succeeded sweep_lockouts
step-Change l key now (reserves k) u n = reserve_attempt-Change l key k now u
step-Change l key now (fails k) u n = attempt_failed-Change l key k now
step-Change l key now (succeeds k) u n = kept refl (rw (map_get-map_delete, n) refl)
step-Change l key now (clears id) u n = kept refl (delete_key_other l key (user_key id) n)
step-Change l key now (checks k) u n = (is_key_locked-Change l key k now u).0
step-Change l key now sweeps u n =
    pruned refl (map_get-map_update (unexpired l.lockout_ms now) key l.lockouts u)
