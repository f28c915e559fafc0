-- ===== src/Lockout/Bound.antt =====
-- How many attempts of a key get through, whatever is in flight.
use cli_server_node.Common.{
  ℕ, ◌+◌, ◌≤◌, false, ◌&&◌, List, [], ◌∷◌, Text, HasUniqueKeys, if◌then◌else◌, ◌≡◌, refl, ◌∙◌,
  arith,
}
use cli_server_node.Lockout.{Lockouts, Event, step}
use cli_server_node.Lockout.Entries.{entry}
use cli_server_node.Lockout.Changes.{is_reset, is_granted, step-Keeps, step-Change}
use cli_server_node.Lockout.Counts.{in_window, Counts, Counts-none, Counts-later, step-Counts}

-- How many attempts of a key are granted in a window, in the course of a history.
unfoldable pub granted_in : Text → ℕ → ℕ → Lockouts → List (ℕ × Event) → ℕ
granted_in key start window_ms l [] = 0
granted_in key start window_ms l ((now, e) ∷ events) =
    (if is_granted key l now e && in_window start window_ms now then 1 else 0)
    + granted_in key start window_ms (step l now e) events

-- The clock does not go back, and no event resets the key.
abbrev pub IsHistory : Text → ℕ → List (ℕ × Event) → Type 0
IsHistory key from [] = Unit
IsHistory key from ((now, e) ∷ events) =
    (from ≤ now) × (is_reset key e ≡ false) × IsHistory key now events

module _ (start w m : ℕ) where
  granted_bound :
      (key : Text) (l : Lockouts) (n from : ℕ) (events : List (ℕ × Event))
      → l.lockout_ms ≡ w
      → l.max_login_attempts ≡ m
      → HasUniqueKeys l.lockouts
      → IsHistory key from events
      → Counts start w m n (entry key l) from
      → n + granted_in key start w l events ≤ m
  unfolding granted_in
  granted_bound key l n from [] ew em u h c = omega (arith, c.bound)
  granted_bound key l n from ((now, e) ∷ events) ew em u h c =
      let k = step-Keeps l now e u in
      let next =
        step-Counts start w m l (step l now e) key n now (is_granted key l now e) ew em
          (step-Change l key now e u h.1) (Counts-later start w m n from now (entry key l) h.0 c) in
      omega (
        arith,
        granted_bound key (step l now e) _ now events (k.window ∙ ew) (k.max ∙ em) k.unique h.2
            next,
      )

-- From any state of the lockouts with unique keys, whatever is in flight, while the clock does not go
-- back and no event resets the key: at most `max_login_attempts` attempts of a key are let through to the password check in
-- any span of `lockout_ms`, so that parallel requests get no further guesses.
pub granted_in-le_max :
    (key : Text) (start from : ℕ) (l : Lockouts) (events : List (ℕ × Event))
    → HasUniqueKeys l.lockouts
    → IsHistory key from events
    → granted_in key start l.lockout_ms l events ≤ l.max_login_attempts
granted_in-le_max key start from l events u h = omega (
  arith,
  granted_bound start l.lockout_ms l.max_login_attempts key l 0 from events refl refl u h
      (Counts-none start l.lockout_ms l.max_login_attempts 0 from (entry key l) (omega arith) refl),
)
