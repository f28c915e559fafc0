-- ===== src/Audit.antt =====
-- plugins/audit/in-memory-audit-store.ts, with the entries of packages/abstractions/src/audit. The clock
-- and the random identifier are arguments of `log`.
pub mod Latest
pub mod Order
pub mod Pruning
mod Tests
use cli_server_node.Common.{
  ℕ, suc, ◌+◌, ◌-◌, Bool, true, false, not, Option, none, some, List, [], ◌∷◌, ◌++◌, map, Text,
  codes, text_eq, to_lower, Map, is_nil, ltb, leb, if◌then◌else◌, length, take, drop, filter,
}
use mathlib.Core.Option

pub record AuditEntry : Type 0 where
  pub id : Option Text
  pub timestamp : Option ℕ
  pub event : Text
  pub username : Text
  pub details : Option Text
  pub user_id : Option Text
  pub actor : Option Text
  pub actor_id : Option Text
  pub target : Option Text
  pub properties : Map Text
  pub metadata : Map Text

pub record AuditQueryOptions : Type 0 where
  pub by_event : Option Text
  pub by_username : Option Text
  pub by_actor : Option Text
  pub from : Option ℕ
  pub to : Option ℕ
  pub limit : Option ℕ
  pub offset : Option ℕ

abbrev pub failed_login_event : Text
failed_login_event = codes "login_failed"

abbrev pub default_max_audit_entries : ℕ
default_max_audit_entries = 1000

abbrev pub default_max_failed_login_entries : ℕ
default_max_failed_login_entries = 200

pub record Stored : Type 0 where
  pub seq : ℕ
  pub entry : AuditEntry

pub record InMemoryAuditStore : Type 0 where
  pub entries : List Stored
  pub failed_logins : List Stored
  pub next_seq : ℕ
  pub max_entries : ℕ
  pub max_failed_login_entries : ℕ

abbrev pub new_store : ℕ → ℕ → InMemoryAuditStore
new_store max_entries max_failed = record {
  entries = [];
  failed_logins = [];
  next_seq = 0;
  max_entries = if ltb 0 max_entries then max_entries else default_max_audit_entries;
  max_failed_login_entries =
      if ltb 0 max_failed then max_failed else default_max_failed_login_entries;
}

-- `while (xs.length > max) xs.shift()`.
unfoldable pub shift_to {ℓ} : {A : Type ℓ} → ℕ → List A → List A
shift_to m [] = []
shift_to m (x ∷ xs) = let rest = shift_to m xs in if leb (suc (length xs)) m then x ∷ xs else rest

abbrev pub is_failed_login : AuditEntry → Bool
is_failed_login e = text_eq e.event failed_login_event

abbrev pub stored : ℕ → ℕ → Text → AuditEntry → Stored
stored seq now new_id e = record {
  seq = seq;
  entry = record e {
    id = some (Option.get_or e.id new_id);
    timestamp = some (Option.get_or e.timestamp now);
  };
}

unfoldable pub log : InMemoryAuditStore → ℕ → Text → AuditEntry → InMemoryAuditStore
log s now new_id e =
    let st = stored s.next_seq now new_id e in
    if is_failed_login e
    then record s {
      next_seq = suc s.next_seq;
      failed_logins = shift_to s.max_failed_login_entries (s.failed_logins ++ st ∷ []);
    }
    else record s {
      next_seq = suc s.next_seq;
      entries = shift_to s.max_entries (s.entries ++ st ∷ []);
    }

-- `sort((a, b) => b.seq - a.seq)`, which is stable.
unfoldable pub insert : Stored → List Stored → List Stored
insert s [] = s ∷ []
insert s (t ∷ ts) = if leb t.seq s.seq then s ∷ t ∷ ts else t ∷ insert s ts

unfoldable pub newest_first : List Stored → List Stored
newest_first [] = []
newest_first (s ∷ ss) = insert s (newest_first ss)

-- A test on an optional text, which an empty text leaves out, in whatever case.
abbrev pub text_matches : Option Text → Option Text → Bool
text_matches none value = true
text_matches (some wanted) value =
    if is_nil wanted
    then true
    else elim value [ none ↦ false | some v ↦ text_eq (to_lower v) (to_lower wanted) ]

-- Comparisons of a time, false where there is none.
abbrev pub at_or_after : ℕ → AuditEntry → Bool
at_or_after from e = elim e.timestamp [ none ↦ false | some t ↦ leb from t ]

abbrev pub is_before : ℕ → AuditEntry → Bool
is_before to e = elim e.timestamp [ none ↦ false | some t ↦ ltb t to ]

abbrev pub since : Option ℕ → AuditEntry → Bool
since none e = true
since (some from) e = at_or_after from e

abbrev pub until : Option ℕ → AuditEntry → Bool
until none e = true
until (some to) e = is_before to e

-- `slice(offset)`, and `slice(0, limit)`, each for a positive number.
abbrev pub skip {ℓ} : {A : Type ℓ} → Option ℕ → List A → List A
skip none xs = xs
skip (some n) xs = if ltb 0 n then drop n xs else xs

abbrev pub first {ℓ} : {A : Type ℓ} → Option ℕ → List A → List A
first none xs = xs
first (some n) xs = if ltb 0 n then take n xs else xs

unfoldable pub get_entries : InMemoryAuditStore → AuditQueryOptions → List AuditEntry
get_entries s o =
    let result = map (λ s. s.entry) (newest_first (s.entries ++ s.failed_logins)) in
    let result = filter (λ e. text_matches o.by_event (some e.event)) result in
    let result = filter (λ e. text_matches o.by_username (some e.username)) result in
    let result = filter (λ e. text_matches o.by_actor e.actor) result in
    let result = filter (since o.from) result in
    let result = filter (until o.to) result in first o.limit (skip o.offset result)

unfoldable pub prune : InMemoryAuditStore → ℕ → ℕ × InMemoryAuditStore
prune s before =
    let entries = filter (λ s. at_or_after before s.entry) s.entries in
    let failed_logins = filter (λ s. at_or_after before s.entry) s.failed_logins in
    (
      length s.entries + length s.failed_logins - length entries - length failed_logins,
      record s { entries = entries; failed_logins = failed_logins },
    )

unfoldable pub clear : InMemoryAuditStore → InMemoryAuditStore
clear s = record s { entries = []; failed_logins = [] }

-- A call on the store.
pub data Call : Type 0 where
  logs : ℕ → Text → AuditEntry → Call
  prunes : ℕ → Call
  clears : Call

unfoldable pub step : InMemoryAuditStore → Call → InMemoryAuditStore
step s (logs now new_id e) = log s now new_id e
step s (prunes before) = (prune s before).1
step s clears = clear s

unfoldable pub run : InMemoryAuditStore → List Call → InMemoryAuditStore
run s [] = s
run s (c ∷ calls) = run (step s c) calls
