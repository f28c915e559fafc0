-- ===== src/Audit/Pruning.antt =====
-- What `prune` removes.
use cli_server_node.Common.{
  ℕ, suc, ◌+◌, ◌≤◌, ◌<◌, Bool, true, false, none, some, List, [], ◌∷◌, length, filter, leb,
  Bool-cases, Option, some_injective, inl, inr, ◌⊎◌, ◌≡◌, refl, subst, arith,
}
use cli_server_node.Audit.{Stored, InMemoryAuditStore, at_or_after, prune}

-- A list and what is left of it, in its order, when so many entries are removed: those that have no time or
-- one before the time given.
pub data Pruned (before : ℕ) : List Stored → List Stored → ℕ → Type 0 where
  nothing : Pruned before [] [] 0
  keeps :
      {t : Stored} {ts left : List Stored} {removed at : ℕ}
      → t.entry.timestamp ≡ some at
      → before ≤ at
      → Pruned before ts left removed
      → Pruned before (t ∷ ts) (t ∷ left) removed
  removes :
      {t : Stored} {ts left : List Stored} {removed : ℕ}
      → ((at : ℕ) → t.entry.timestamp ≡ some at → at < before)
      → Pruned before ts left removed
      → Pruned before (t ∷ ts) left (suc removed)

abbrev kept_of : ℕ → List Stored → List Stored
kept_of before ts = filter (λ t. at_or_after before t.entry) ts

is_kept : ℕ → Option ℕ → Bool
is_kept before o = elim o [ none ↦ false | some t ↦ leb before t ]

-- What the test says of a time.
is_kept-cases :
    (before : ℕ) (o : Option ℕ)
    → ((is_kept before o ≡ true) × (at : ℕ) × (o ≡ some at) × (before ≤ at))
      ⊎ ((is_kept before o ≡ false) × ((at : ℕ) → o ≡ some at → at < before))
unfolding is_kept
is_kept-cases before none = inr (refl, λ at e. absurd (cc e))
is_kept-cases before (some t) = elim (Bool-cases (leb before t)) [
  | inl h ↦ inl (h, t, refl, ground (arith, h))
  | inr h ↦ inr (h, λ at e. subst (λ x. x < before) (some_injective e) (ground (arith, h)))
]

-- What the filter leaves.
filter-Pruned :
    (before : ℕ) (ts : List Stored)
    → (removed : ℕ) × Pruned before ts (kept_of before ts) removed
      × (removed + length (kept_of before ts) ≡ length ts)
unfolding is_kept
filter-Pruned before [] = (0, nothing, refl)
filter-Pruned before (t ∷ ts) =
    let (removed, rest, exact) = filter-Pruned before ts in
    elim (is_kept-cases before t.entry.timestamp) [
      | inl (e, at, same, h) ↦ rw e (removed, keeps same h rest, omega (arith, exact))
      | inr (e, older) ↦ rw e (suc removed, removes older rest, omega (arith, exact))
    ]

-- Pruning leaves of each list exactly the entries that have a time not before the one given, in their
-- order, and returns how many it removed of both.
pub prune_exact :
    (s : InMemoryAuditStore) (before : ℕ)
    → (older : ℕ) × (failed : ℕ) × Pruned before s.entries (prune s before).1.entries older
      × Pruned before s.failed_logins (prune s before).1.failed_logins failed
      × ((prune s before).0 ≡ older + failed)
unfolding prune
prune_exact s before =
    let (older, left, exact) = filter-Pruned before s.entries in
    let (failed, left', exact') = filter-Pruned before s.failed_logins in
    (older, failed, left, left', omega (arith, exact, exact'))
