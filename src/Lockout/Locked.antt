-- ===== src/Lockout/Locked.antt =====
-- A lock lasts until its time, whatever happens but a success or a reset.
use cli_server_node.Common.{
  ℕ, ◌<◌, Bool, true, false, Option, some, List, [], ◌∷◌, Text, map_get, HasUniqueKeys, ltb, leb,
  ◌||◌, ◌≡◌, refl, ap, ◌∙◌, arith,
}
use cli_server_node.Lockout.{
  LockoutState, Lockouts, is_lockout_expired, is_key_locked, reserve_attempt, Event, step,
}
use cli_server_node.Lockout.Entries.{
  entry, live_entry, reserved_entry, Change, kept, pruned, reserved, failed, reserve_attempt_self,
}
use cli_server_node.Lockout.Bound.{IsHistory}
use cli_server_node.Lockout.Changes.{step-Keeps, step-Change, is_granted}

-- The lockouts after a history.
unfoldable pub run : Lockouts → List (ℕ × Event) → Lockouts
run l [] = l
run l ((now, e) ∷ events) = run (step l now e) events

-- Every event is before a time.
abbrev pub AllBefore : ℕ → List (ℕ × Event) → Type 0
AllBefore until [] = Unit
AllBefore until ((now, e) ∷ events) = (now < until) × AllBefore until events

abbrev pub IsLockedUntil : ℕ → Option LockoutState → Type 0
IsLockedUntil until o = (st : LockoutState) × (o ≡ some st) × (st.locked_until ≡ until)

not_expired :
    (window now until : ℕ) (st : LockoutState)
    → now < until
    → st.locked_until ≡ until
    → is_lockout_expired window st now ≡ false
unfolding is_lockout_expired
not_expired window now until st h e = ground arith

live_entry-IsLockedUntil :
    (window now until : ℕ) (st : LockoutState)
    → now < until
    → st.locked_until ≡ until
    → live_entry window now (some st) ≡ some st
live_entry-IsLockedUntil window now until st h e = rw (not_expired window now until st h e) refl

reserved_entry-IsLockedUntil :
    (m window now until : ℕ) (o : Option LockoutState)
    → now < until
    → IsLockedUntil until o
    → ((reserved_entry m window now o).0 ≡ false)
      × IsLockedUntil until (some (reserved_entry m window now o).1)
reserved_entry-IsLockedUntil m window now until o h (st, e, k) =
    let live = ap (live_entry window now) e ∙ live_entry-IsLockedUntil window now until st h k in
    let full : (ltb now st.locked_until || leb m st.failures) ≡ true = ground arith in
    rw live (rw full (refl, (st, refl, k)))

Change-IsLockedUntil :
    (l l' : Lockouts) (key : Text) (now until : ℕ) (granted : Bool)
    → now < until
    → Change l l' key now granted
    → IsLockedUntil until (entry key l)
    → IsLockedUntil until (entry key l')
Change-IsLockedUntil l l' key now until granted h (kept g e) c = rw e c
Change-IsLockedUntil l l' key now until granted h (pruned g e) (st, q, k) = (
  st,
  e ∙ ap (live_entry l.lockout_ms now) q ∙ live_entry-IsLockedUntil l.lockout_ms now until st h k,
  k,
)
Change-IsLockedUntil l l' key now until granted h (reserved g e) c =
    rw e
      (reserved_entry-IsLockedUntil l.max_login_attempts l.lockout_ms now until (entry key l) h c).1
Change-IsLockedUntil l l' key now until granted h (failed g e) (st, q, k) =
    rw e (_, refl, rw q (ground arith))

run-IsLockedUntil :
    (key : Text) (until : ℕ) (l : Lockouts) (from : ℕ) (events : List (ℕ × Event))
    → HasUniqueKeys l.lockouts
    → IsHistory key from events
    → AllBefore until events
    → IsLockedUntil until (entry key l)
    → IsLockedUntil until (entry key (run l events)) × HasUniqueKeys (run l events).lockouts
unfolding run
run-IsLockedUntil key until l from [] u h b c = (c, u)
run-IsLockedUntil key until l from ((now, e) ∷ events) u h b c =
    run-IsLockedUntil key until (step l now e) now events (step-Keeps l now e u).unique h.2 b.1 (
      Change-IsLockedUntil l (step l now e) key now until (is_granted key l now e) b.0
        (step-Change l key now e u h.1) c)

is_key_locked_answer :
    (l : Lockouts) (key : Text) (now until : ℕ)
    → now < until
    → IsLockedUntil until (entry key l)
    → (is_key_locked l key now).0 ≡ true
unfolding is_key_locked
is_key_locked_answer l key now until h (st, e, k) =
    rw (e, is_key_locked) (rw (not_expired l.lockout_ms now until st h k) (ground arith))

-- Once a key is locked until a time, then before that time, after whatever events but those that reset the
-- key, it is reported as locked and an attempt of it is refused.
pub locked_until_then :
    (key : Text) (until from now : ℕ) (l : Lockouts) (events : List (ℕ × Event))
    → HasUniqueKeys l.lockouts
    → IsLockedUntil until (map_get key l.lockouts)
    → IsHistory key from events
    → AllBefore until events
    → now < until
    → ((is_key_locked (run l events) key now).0 ≡ true)
      × ((reserve_attempt (run l events) key now).0 ≡ false)
locked_until_then key until from now l events u c h b n =
    let r = run-IsLockedUntil key until l from events u h b c in
    let l' = run l events in
    (
      is_key_locked_answer l' key now until n r.0,
      (reserve_attempt_self l' key now r.1).answer
          ∙ (reserved_entry-IsLockedUntil l'.max_login_attempts l'.lockout_ms now until
              (entry key l') n r.0).0,
    )
