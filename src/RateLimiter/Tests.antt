-- ===== src/RateLimiter/Tests.antt =====
-- Runs of the rate limiter, and instances of its theorems.
use cli_server_node.Common.{
  ℕ, ◌≤◌, true, List, [], ◌∷◌, codes, text_eq, map_get, map_set, map_update, ◌≡◌, refl, arith,
}
use cli_server_node.RateLimiter.{
  RateLimiter, new_rate_limiter, try_acquire, sweep, Event, attempt, sweeps, step,
}
use cli_server_node.RateLimiter.Window.{granted, count_in, granted_le_max}
use cli_server_node.RateLimiter.Sweep.{try_acquire-sweep}

abbrev history : List (ℕ × Event)
history =
    (0, attempt (codes "a"))
    ∷ (5, attempt (codes "a"))
    ∷ (6, attempt (codes "b"))
    ∷ (9, attempt (codes "a"))
    ∷ (10, sweeps)
    ∷ (11, attempt (codes "a"))
    ∷ []

granted_test : granted (codes "a") (new_rate_limiter 2 10) history ≡ 0 ∷ 5 ∷ 11 ∷ []
unfolding granted step text_eq map_get map_set map_update
granted_test = refl

granted_le_max_example : count_in 3 10 (granted (codes "a") (new_rate_limiter 2 10) history) ≤ 2
granted_le_max_example = granted_le_max 2 10 (codes "a") 3 0 history (omega arith)

abbrev full : RateLimiter
full = record { max = 2; window_ms = 10; hits = (codes "a", 0 ∷ 5 ∷ []) ∷ [] }

try_acquire-sweep_example : (try_acquire (sweep full 12) (codes "a") 13).0 ≡ true
unfolding try_acquire text_eq map_get
try_acquire-sweep_example = try_acquire-sweep full (codes "a") 12 13 (refl, tt) (omega arith)
