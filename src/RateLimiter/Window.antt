-- ===== src/RateLimiter/Window.antt =====
-- No window of `windowMs` holds more than `max` granted attempts of a key.
use cli_server_node.Common.{
  ℕ, ◌+◌, ◌≤◌, ◌<◌, Bool, true, false, ◌&&◌, Option, none, some, List, [], ◌∷◌, ◌++◌, Text, text_eq,
  text_eq_iff, text_eq_refl, sym, ap, subst, ◌∙◌, map_get, map_get-map_set, map_get-map_update,
  HasUniqueKeys, map_set-HasUniqueKeys, map_update-HasUniqueKeys, ltb, leb, if◌then◌else◌, length,
  filter, length-filter-le, is_nil, inl, inr, Bool-cases, ◌≡◌, refl, arith, dec_lt,
}
use mathlib.Core.Option
use cli_server_node.RateLimiter.{
  RateLimiter, new_rate_limiter, is_live, hits_of, try_acquire, swept, sweep, Event, attempt,
  sweeps, step,
}

-- The times at which attempts of `key` are granted, in the course of a history.
unfoldable pub granted : Text → RateLimiter → List (ℕ × Event) → List ℕ
granted key l [] = []
granted key l ((now, attempt k) ∷ events) =
    let rest = granted key (step l (now, attempt k)) events in
    if text_eq k key && (try_acquire l k now).0 then now ∷ rest else rest
granted key l ((now, sweeps) ∷ events) = granted key (step l (now, sweeps)) events

-- The clock does not go back.
abbrev pub Ordered : ℕ → List (ℕ × Event) → Type 0
Ordered from [] = Unit
Ordered from ((now, e) ∷ events) = (from ≤ now) × Ordered now events

abbrev pub in_window : ℕ → ℕ → ℕ → Bool
in_window start window_ms t = leb start t && ltb t (start + window_ms)

abbrev pub count_in : ℕ → ℕ → List ℕ → ℕ
count_in start window_ms ts = length (filter (in_window start window_ms) ts)

-- What an event does to the hits of one key.
data Change (l l' : RateLimiter) (key : Text) (now : ℕ) (new : Bool) : Type 0 where
  kept : new ≡ false → hits_of l' key ≡ hits_of l key → Change l l' key now new
  pruned :
      new ≡ false
      → hits_of l' key ≡ filter (is_live l.window_ms now) (hits_of l key)
      → Change l l' key now new
  added :
      new ≡ true
      → hits_of l' key ≡ filter (is_live l.window_ms now) (hits_of l key) ++ now ∷ []
      → length (filter (is_live l.window_ms now) (hits_of l key)) < l.max
      → Change l l' key now new

abbrev granted_now : Text → RateLimiter → ℕ × Event → Bool
granted_now key l (now, attempt k) = text_eq k key && (try_acquire l k now).0
granted_now key l (now, sweeps) = false

try_acquire-Change_self :
    (l : RateLimiter) (key : Text) (now : ℕ)
    → Change l (try_acquire l key now).1 key now (try_acquire l key now).0
unfolding try_acquire
try_acquire-Change_self l key now =
    elim (Bool-cases (leb l.max (length (filter (is_live l.window_ms now) (hits_of l key))))) [
      | inl full ↦ rw full (pruned refl (rw (map_get-map_set, text_eq_refl) refl))
      | inr free ↦ rw free (added refl (rw (map_get-map_set, text_eq_refl) refl) (ground arith))
    ]

try_acquire_other :
    (l : RateLimiter) (key k : Text) (now : ℕ)
    → text_eq k key ≡ false
    → hits_of (try_acquire l k now).1 key ≡ hits_of l key
unfolding try_acquire
try_acquire_other l key k now n =
    elim (Bool-cases (leb l.max (length (filter (is_live l.window_ms now) (hits_of l k))))) [
      | inl full ↦ rw full (rw (map_get-map_set, n) refl)
      | inr free ↦ rw free (rw (map_get-map_set, n) refl)
    ]

try_acquire-Change :
    (l : RateLimiter) (key k : Text) (now : ℕ)
    → Change l (try_acquire l k now).1 key now (text_eq k key && (try_acquire l k now).0)
try_acquire-Change l key k now = elim (Bool-cases (text_eq k key)) [
  | inl e ↦ rw e (
      subst (λ j. Change l (try_acquire l j now).1 key now (try_acquire l j now).0)
        (sym ((text_eq_iff k key).0 e)) (try_acquire-Change_self l key now))
  | inr n ↦ rw n (kept refl (try_acquire_other l key k now n))
]

pub get_or-swept :
    (window_ms now : ℕ) (o : Option (List ℕ))
    → Option.get_or (elim o [ none ↦ none | some v ↦ swept window_ms now v ]) []
      ≡ filter (is_live window_ms now) (Option.get_or o [])
get_or-swept window_ms now none = refl
get_or-swept window_ms now (some v) = swept_lem (filter (is_live window_ms now) v)
  where
    swept_lem : (live : List ℕ) → Option.get_or (if is_nil live then none else some live) [] ≡ live
    swept_lem [] = refl
    swept_lem (t ∷ live) = refl

sweep-Change :
    (l : RateLimiter) (key : Text) (now : ℕ)
    → HasUniqueKeys l.hits
    → Change l (sweep l now) key now false
unfolding sweep
sweep-Change l key now u = pruned refl (
    ap (λ o. Option.get_or o []) (map_get-map_update (swept l.window_ms now) key l.hits u)
    ∙ get_or-swept l.window_ms now (map_get key l.hits))

-- The hits that are not live at `now` lie in no window that reaches beyond `now`.
count_in-live :
    (start window_ms now : ℕ) (ts : List ℕ)
    → now < start + window_ms
    → count_in start window_ms (filter (is_live window_ms now) ts) ≡ count_in start window_ms ts
count_in-live start w now ts h = ap length (filter-comm ts)
  where
    filter-comm :
        (ts : List ℕ)
        → filter (in_window start w) (filter (is_live w now) ts) ≡ filter (in_window start w) ts
    filter-comm [] = refl
    filter-comm (t ∷ ts) = ground (arith, filter-comm ts)

count_in-length : (start w : ℕ) (ts : List ℕ) → count_in start w ts ≤ length ts
count_in-length start w ts = length-filter-le (in_window start w) ts

count_in-snoc :
    (start w t : ℕ) (ts : List ℕ)
    → count_in start w (ts ++ t ∷ []) ≡ count_in start w ts + (if in_window start w t then 1 else 0)
count_in-snoc start w t [] = ground arith
count_in-snoc start w t (x ∷ ts) = ground (arith, count_in-snoc start w t ts)

count_in-filter-le :
    (start w now : ℕ) (ts : List ℕ)
    → count_in start w (filter (is_live w now) ts) ≤ count_in start w ts
count_in-filter-le start w now [] = omega arith
count_in-filter-le start w now (t ∷ ts) = ground (arith, count_in-filter-le start w now ts)

step-Change :
    (l : RateLimiter) (key : Text) (now : ℕ) (e : Event)
    → HasUniqueKeys l.hits
    → Change l (step l (now, e)) key now (granted_now key l (now, e))
unfolding step
step-Change l key now (attempt k) u = try_acquire-Change l key k now
step-Change l key now sweeps u = sweep-Change l key now u

record Keeps (l l' : RateLimiter) : Type 0 where
  max : l'.max ≡ l.max
  window_ms : l'.window_ms ≡ l.window_ms
  unique : HasUniqueKeys l'.hits

try_acquire-Keeps :
    (l : RateLimiter) (k : Text) (now : ℕ) → HasUniqueKeys l.hits → Keeps l (try_acquire l k now).1
unfolding try_acquire
try_acquire-Keeps l k now u =
    elim (Bool-cases (leb l.max (length (filter (is_live l.window_ms now) (hits_of l k))))) [
      | inl full ↦
          rw full
            (record { max = refl; window_ms = refl; unique = map_set-HasUniqueKeys k _ l.hits u })
      | inr free ↦
          rw free
            (record { max = refl; window_ms = refl; unique = map_set-HasUniqueKeys k _ l.hits u })
    ]

step-Keeps :
    (l : RateLimiter) (now : ℕ) (e : Event) → HasUniqueKeys l.hits → Keeps l (step l (now, e))
unfolding step
step-Keeps l now (attempt k) u = try_acquire-Keeps l k now u
step-Keeps l now sweeps u = record {
  max = refl;
  window_ms = refl;
  unique = map_update-HasUniqueKeys _ l.hits u;
}

-- With events from `from` on, a window that ends before holds no grant.
granted_late :
    (key : Text) (start w : ℕ) (l : RateLimiter) (from : ℕ) (events : List (ℕ × Event))
    → start + w ≤ from
    → Ordered from events
    → count_in start w (granted key l events) ≡ 0
unfolding granted
granted_late key start w l from [] h o = refl
granted_late key start w l from ((now, attempt k) ∷ events) h o =
    ground (arith, granted_late key start w (step l (now, attempt k)) now events)
granted_late key start w l from ((now, sweeps) ∷ events) h o =
    granted_late key start w (step l (now, sweeps)) now events (omega arith) o.1

granted_eq :
    (key : Text) (l : RateLimiter) (now : ℕ) (e : Event) (events : List (ℕ × Event))
    → granted key l ((now, e) ∷ events) ≡ (
        if granted_now key l (now, e)
        then now ∷ granted key (step l (now, e)) events
        else granted key (step l (now, e)) events)
unfolding granted
granted_eq key l now (attempt k) events = refl
granted_eq key l now sweeps events = refl

-- One step of the count: the hits before, a grant at `now`, and later grants.
count_step :
    (l l' : RateLimiter) (key : Text) (start now w m : ℕ) (new : Bool) (later : List ℕ)
    → l.window_ms ≡ w
    → l.max ≡ m
    → Change l l' key now new
    → count_in start w (hits_of l key) ≤ m
    → (start + w ≤ now → count_in start w later ≡ 0)
    → (count_in start w (hits_of l' key) ≤ m
        → count_in start w (hits_of l' key) + count_in start w later ≤ m)
    → count_in start w (hits_of l key) + count_in start w (if new then now ∷ later else later) ≤ m
count_step l l' key start now w m new later ew em (kept n e) h late ih =
    let same = ap (count_in start w) e in
    let total = ih (omega (arith, same)) in rw n (omega (arith, same, total))
count_step l l' key start now w m new later ew em (pruned n e) h late ih =
    let same = ap (count_in start w) (e ∙ ap (λ v. filter (is_live v now) (hits_of l key)) ew) in
    let fewer = count_in-filter-le start w now (hits_of l key) in
    let total = ih (omega (arith, same, fewer)) in
    rw n (elim (dec_lt now (start + w)) [
      | yes p ↦ omega (arith, same, total, count_in-live start w now (hits_of l key) p)
      | no p ↦ omega (arith, late (omega arith))
    ])
count_step l l' key start now w m new later ew em (added n e room) h late ih =
    let live = filter (is_live w now) (hits_of l key) in
    let same =
      ap (count_in start w) (e ∙ ap (λ v. filter (is_live v now) (hits_of l key) ++ now ∷ []) ew)
      ∙ count_in-snoc start w now live in
    let fits : length live < m =
      subst (λ v. length (filter (is_live v now) (hits_of l key)) < m) ew (omega arith) in
    let total = ih (ground (arith, same, fits, count_in-length start w live)) in
    rw n (elim (dec_lt now (start + w)) [
      | yes p ↦ ground (arith, same, total, count_in-live start w now (hits_of l key) p)
      | no p ↦ ground (arith, late (omega arith))
    ])

granted_nil : (key : Text) (l : RateLimiter) → granted key l [] ≡ []
unfolding granted
granted_nil key l = refl

no_hits :
    (max window_ms : ℕ) (key : Text) (start : ℕ)
    → count_in start window_ms (hits_of (new_rate_limiter max window_ms) key) ≤ max
unfolding map_get
no_hits max window_ms key start = omega arith

module _ (key : Text) (start w m : ℕ) where
  window_bound :
      (l : RateLimiter) (from : ℕ) (events : List (ℕ × Event))
      → l.window_ms ≡ w
      → l.max ≡ m
      → HasUniqueKeys l.hits
      → Ordered from events
      → count_in start w (hits_of l key) ≤ m
      → count_in start w (hits_of l key) + count_in start w (granted key l events) ≤ m
  window_bound l from [] ew em u o h = rw (granted_nil key l) (omega arith)
  window_bound l from ((now, e) ∷ events) ew em u o h =
      let l' = step l (now, e) in
      let k = step-Keeps l now e u in
      rw (granted_eq key l now e events) (
        count_step l l' key start now w m (granted_now key l (now, e)) (granted key l' events) ew em
          (step-Change l key now e u) h (λ p. granted_late key start w l' now events p o.1)
          (λ q. window_bound l' now events (k.window_ms ∙ ew) (k.max ∙ em) k.unique o.1 q))

-- Whatever the attempts and sweeps, while the clock does not go back: of the attempts of a key that
-- are granted, at most `max` lie in any window `[start, start + window_ms)`.
pub granted_le_max :
    (max window_ms : ℕ) (key : Text) (start from : ℕ) (events : List (ℕ × Event))
    → Ordered from events
    → count_in start window_ms (granted key (new_rate_limiter max window_ms) events) ≤ max
granted_le_max max window_ms key start from events o = omega (
  arith,
  window_bound key start window_ms max (new_rate_limiter max window_ms) from events refl refl tt o
      (no_hits max window_ms key start),
)
