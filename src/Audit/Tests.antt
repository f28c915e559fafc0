-- ===== src/Audit/Tests.antt =====
-- Runs of the audit store, and instances of its theorems.
use cli_server_node.Common.{
  ℕ, ◌+◌, none, some, List, [], ◌∷◌, ◌++◌, map, length, filter, codes, text_eq, lower_code, String,
  ◌≡◌, refl, arith,
}
use mathlib.Core.List.{Perm}
use cli_server_node.Audit.{
  AuditEntry, Stored, InMemoryAuditStore, new_store, shift_to, log, insert, newest_first,
  get_entries, prune, clear, Call, logs, prunes, step, run,
}
use cli_server_node.Audit.Latest.{
  Logged, log_all, numbered, last, is_other, is_failed, log_all-last,
}
use cli_server_node.Audit.Order.{
  no_options, IsNewestFirst, get_entries-IsNewestFirst, get_entries_pages,
}
use cli_server_node.Audit.Pruning.{Pruned, prune_exact}

runs : Unit {0}
unfolding shift_to log insert newest_first get_entries prune clear step run log_all numbered text_eq
    lower_code
runs = tt

abbrev entry : String → ℕ → AuditEntry
entry event at = record {
  id = none;
  timestamp = some at;
  event = codes event;
  username = codes "Ann";
  details = none;
  user_id = none;
  actor = none;
  actor_id = none;
  target = none;
  properties = [];
  metadata = [];
}

abbrev calls : List Logged
calls =
    (0, [], entry "login" 5)
    ∷ (0, [], entry "login_failed" 6)
    ∷ (0, [], entry "login_failed" 7)
    ∷ (0, [], entry "user_created" 8)
    ∷ []

abbrev small : InMemoryAuditStore
small = log_all (new_store 2 1) calls

kept_test : map (λ s. s.seq) (newest_first (small.entries ++ small.failed_logins)) ≡ 3 ∷ 2 ∷ 0 ∷ []
unfolding runs
kept_test = refl

query_test :
    length
      (get_entries small (record no_options { by_event = some (codes "LOGIN"); from = some 5 }))
    ≡ 1
unfolding runs
query_test = refl

log_all-last_example :
    (small.entries ≡ last 2 (filter is_other (numbered 0 calls)))
    × (small.failed_logins ≡ last 1 (filter is_failed (numbered 0 calls)))
log_all-last_example = log_all-last 2 1 calls

abbrev history : List Call
history =
    logs 1 [] (entry "login" 5)
    ∷ logs 2 [] (entry "login_failed" 6)
    ∷ prunes 6
    ∷ logs 3 [] (entry "login" 7)
    ∷ []

get_entries-IsNewestFirst_example :
    (list : List Stored) × (get_entries (run (new_store 2 1) history) no_options
      ≡ map (λ t. t.entry) list)
    × Perm list
        ((run (new_store 2 1) history).entries ++ (run (new_store 2 1) history).failed_logins)
    × IsNewestFirst list
get_entries-IsNewestFirst_example = get_entries-IsNewestFirst 2 1 history

get_entries_pages_example :
    get_entries small (record no_options { offset = some 0; limit = some 1 })
      ++ get_entries small (record no_options { offset = some (0 + 1); limit = some 2 })
    ≡ get_entries small (record no_options { offset = some 0; limit = some (1 + 2) })
get_entries_pages_example = get_entries_pages small no_options 0 1 2 (omega arith) (omega arith)

prune_exact_example :
    (older : ℕ) × (failed : ℕ) × Pruned 7 small.entries (prune small 7).1.entries older
    × Pruned 7 small.failed_logins (prune small 7).1.failed_logins failed
    × ((prune small 7).0 ≡ older + failed)
prune_exact_example = prune_exact small 7
