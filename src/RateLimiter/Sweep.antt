-- ===== src/RateLimiter/Sweep.antt =====
-- A sweep changes no later answer.
use cli_server_node.Common.{
  ℕ, ◌≤◌, not, List, [], Text, map_get, map_get-map_update, HasUniqueKeys, leb, length, filter,
  filter-filter, ◌≡◌, ap, sym, ◌∙◌, arith,
}
use mathlib.Core.Option
use cli_server_node.RateLimiter.{RateLimiter, is_live, hits_of, try_acquire, swept, sweep}
use cli_server_node.RateLimiter.Window.{get_or-swept}

hits_of-sweep :
    (l : RateLimiter) (key : Text) (now : ℕ)
    → HasUniqueKeys l.hits
    → hits_of (sweep l now) key ≡ filter (is_live l.window_ms now) (hits_of l key)
unfolding sweep
hits_of-sweep l key now u =
    ap (λ o. Option.get_or o []) (map_get-map_update (swept l.window_ms now) key l.hits u)
    ∙ get_or-swept l.window_ms now (map_get key l.hits)

try_acquire_fst :
    (l : RateLimiter) (key : Text) (now : ℕ)
    → (try_acquire l key now).0
      ≡ not (leb l.max (length (filter (is_live l.window_ms now) (hits_of l key))))
unfolding try_acquire
try_acquire_fst l key now = ground arith

live_of_live :
    (window_ms swept_at now : ℕ)
    → swept_at ≤ now
    → (ts : List ℕ)
    → filter (is_live window_ms now) (filter (is_live window_ms swept_at) ts)
      ≡ filter (is_live window_ms now) ts
live_of_live window_ms swept_at now h =
    filter-filter (is_live window_ms now) (is_live window_ms swept_at) (λ t p. ground arith)

-- An attempt is answered after a sweep as it would be without it.
pub try_acquire-sweep :
    (l : RateLimiter) (key : Text) (swept_at now : ℕ)
    → HasUniqueKeys l.hits
    → swept_at ≤ now
    → (try_acquire (sweep l swept_at) key now).0 ≡ (try_acquire l key now).0
unfolding sweep
try_acquire-sweep l key swept_at now u h =
    try_acquire_fst (sweep l swept_at) key now
    ∙ (ap (λ ts. not (leb l.max (length (filter (is_live l.window_ms now) ts))))
          (hits_of-sweep l key swept_at u)
        ∙ ap (λ ts. not (leb l.max (length ts)))
            (live_of_live l.window_ms swept_at now h (hits_of l key)))
    ∙ sym (try_acquire_fst l key now)
