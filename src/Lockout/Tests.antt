-- ===== src/Lockout/Tests.antt =====
-- Runs of the lockout, and an instance of its bound.
use cli_server_node.Common.{
  ℕ, ◌≤◌, true, false, List, [], ◌∷◌, codes, lower_code, text_eq, map_get, map_set, map_delete,
  map_update, ◌≡◌, refl, arith,
}
use cli_server_node.Lockout.{
  Lockouts, name_key, Event, reserves, fails, sweeps, step, reserve_attempt, reserve_in, open_entry,
  is_lockout_expired, attempt_failed, attempt_succeeded, sweep_lockouts, is_key_locked,
  clear_lockout,
}
use cli_server_node.Lockout.Bound.{granted_in, granted_in-le_max}
use cli_server_node.Lockout.Locked.{run, locked_until_then}

runs : Unit {0}
unfolding step reserve_attempt reserve_in open_entry is_lockout_expired attempt_failed
    attempt_succeeded sweep_lockouts is_key_locked clear_lockout granted_in text_eq map_get map_set
    map_delete map_update lower_code
runs = tt

abbrev two_attempts : Lockouts
two_attempts = record { max_login_attempts = 2; lockout_ms = 10; lockouts = [] }

abbrev root : List ℕ
root = name_key (codes "Root")

-- Three requests at once, whose checks fail later.
abbrev burst : List (ℕ × Event)
burst =
    (1, reserves root)
    ∷ (1, reserves root)
    ∷ (1, reserves root)
    ∷ (2, fails root)
    ∷ (3, fails root)
    ∷ (5, reserves root)
    ∷ (6, sweeps)
    ∷ (13, reserves root)
    ∷ []

burst_test : granted_in root 0 20 two_attempts burst ≡ 3
unfolding runs
burst_test = refl

locked_test :
    (is_key_locked
      (step (step (step two_attempts 1 (reserves root)) 1 (reserves root)) 2 (fails root))
      root
      3).0
    ≡ true
unfolding runs
locked_test = refl

granted_in-le_max_example : granted_in root 1 10 two_attempts burst ≤ 2
granted_in-le_max_example = granted_in-le_max root 1 0 two_attempts burst tt (ground arith)

abbrev locked_root : Lockouts
locked_root = record {
  max_login_attempts = 2;
  lockout_ms = 10;
  lockouts = (root, record { failures = 2; locked_until = 12; last_attempt = 2 }) ∷ [];
}

abbrev later : List (ℕ × Event)
later = (5, reserves root) ∷ (6, fails root) ∷ (7, sweeps) ∷ []

locked_until_then_example :
    ((is_key_locked (run locked_root later) root 11).0 ≡ true)
    × ((reserve_attempt (run locked_root later) root 11).0 ≡ false)
unfolding runs
locked_until_then_example =
    locked_until_then root 12 0 11 locked_root later (refl, tt) (_, refl, refl) (ground arith)
      (omega arith) (omega arith)
