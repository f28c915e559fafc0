-- ===== src/RateLimiter.antt =====
-- plugins/users/security.ts, `RateLimiter`: a sliding window of attempts for each key. The clock is
-- an argument of each call; times are milliseconds.
pub mod Window
pub mod Sweep
mod Tests
use cli_server_node.Common.{
  ℕ, ◌+◌, Bool, true, false, Option, none, some, List, [], ◌∷◌, ◌++◌, Text, Map, map_get, map_set,
  map_update, ltb, leb, if◌then◌else◌, length, filter, is_nil,
}
use mathlib.Core.Option

pub record RateLimiter : Type 0 where
  pub max : ℕ
  pub window_ms : ℕ
  pub hits : Map (List ℕ)

abbrev pub new_rate_limiter : ℕ → ℕ → RateLimiter
new_rate_limiter max window_ms = record { max = max; window_ms = window_ms; hits = [] }

-- `now - t < this.windowMs`, also where `t` lies after `now`.
abbrev pub is_live : ℕ → ℕ → ℕ → Bool
is_live window_ms now t = ltb now (t + window_ms)

abbrev pub hits_of : RateLimiter → Text → List ℕ
hits_of l key = Option.get_or (map_get key l.hits) []

unfoldable pub try_acquire : RateLimiter → Text → ℕ → Bool × RateLimiter
try_acquire l key now =
    let list = filter (is_live l.window_ms now) (hits_of l key) in
    if leb l.max (length list)
    then (false, record l { hits = map_set key list l.hits })
    else (true, record l { hits = map_set key (list ++ now ∷ []) l.hits })

-- What becomes of an entry in a sweep.
abbrev pub swept : ℕ → ℕ → List ℕ → Option (List ℕ)
swept window_ms now list =
    let live = filter (is_live window_ms now) list in if is_nil live then none else some live

unfoldable pub sweep : RateLimiter → ℕ → RateLimiter
sweep l now = record l { hits = map_update (swept l.window_ms now) l.hits }

-- A history: attempts and sweeps with their times.
pub data Event : Type 0 where
  attempt : Text → Event
  sweeps : Event

unfoldable pub step : RateLimiter → ℕ × Event → RateLimiter
unfolding try_acquire sweep
step l (now, attempt key) = (try_acquire l key now).1
step l (now, sweeps) = sweep l now
