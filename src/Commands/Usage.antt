-- ===== src/Commands/Usage.antt =====
-- src/services/cli-command-usage-stats.ts: how often each command ran, failed, and when.
use cli_server_node.Common.{
  ℕ, suc, ◌+◌, Bool, false, not, Option, none, some, List, [], ◌∷◌, Text, text_eq, text_eq_iff,
  is_space, trim, to_lower, is_nil, is_some, ◌==◌, ◌&&◌, Map, map_get, map_set, map_get-map_set,
  if◌then◌else◌, Bool-cases, not_true, inl, inr, ◌≡◌, refl, ap, ◌∙◌, arith,
}
use mathlib.Core.Option
use cli_server_node.Commands.{CliProcessCommand, CliStructuredResponse, find_processor}
use cli_server_node.Commands.Execution.{CliCommandExecutorService, run}

pub record Counter : Type 0 where
  pub known : Bool
  pub executions : ℕ
  pub failures : ℕ
  pub total_duration : ℕ
  pub last_executed_at : Option ℕ
  pub last_failed_at : Option ℕ

abbrev pub CliCommandUsageStats : Type 0
CliCommandUsageStats = Map Counter

-- The text before the first white space.
unfoldable pub first_word : Text → Text
first_word [] = []
first_word (c ∷ s) = if is_space c then [] else c ∷ first_word s

unfoldable pub key_of : Text → Text
key_of command = to_lower (first_word (trim command))

abbrev pub new_counter : Bool → Counter
new_counter known = record {
  known = known;
  executions = 0;
  failures = 0;
  total_duration = 0;
  last_executed_at = none;
  last_failed_at = none;
}

abbrev pub counted : Counter → Bool → ℕ → Bool → ℕ → Counter
counted counter known duration failed at = record {
  known = known;
  executions = suc counter.executions;
  failures = if failed then suc counter.failures else counter.failures;
  total_duration = counter.total_duration + duration;
  last_executed_at = some at;
  last_failed_at = if failed then some at else counter.last_failed_at;
}

unfoldable pub record_execution :
    CliCommandUsageStats → Text → Bool → ℕ → Bool → ℕ → CliCommandUsageStats
record_execution stats command known duration failed at =
    let key = key_of command in
    if is_nil key
    then stats
    else map_set key
        (counted (Option.get_or (map_get key stats) (new_counter known)) known duration failed at)
        stats

-- `executeAsync`, with the time it takes: the response, and the execution recorded.
unfoldable pub execute :
    CliCommandExecutorService
    → CliCommandUsageStats
    → CliProcessCommand
    → ℕ
    → ℕ
    → CliStructuredResponse × CliCommandUsageStats
execute s stats command duration at =
    let response = run s command in
    let known = is_some (find_processor s.registry command.command []) in
    (
      response,
      record_execution stats command.command known duration (not (response.exit_code == 0)) at,
    )

-- One call of `record`.
pub record Call : Type 0 where
  pub command : Text
  pub known : Bool
  pub duration : ℕ
  pub failed : Bool
  pub at : ℕ

unfoldable pub record_all : CliCommandUsageStats → List Call → CliCommandUsageStats
record_all stats [] = stats
record_all stats (c ∷ calls) =
    record_all (record_execution stats c.command c.known c.duration c.failed c.at) calls

abbrev pub executions_of : Text → CliCommandUsageStats → ℕ
executions_of key stats = (Option.get_or (map_get key stats) (new_counter false)).executions

abbrev pub failures_of : Text → CliCommandUsageStats → ℕ
failures_of key stats = (Option.get_or (map_get key stats) (new_counter false)).failures

-- How many calls are of a command, and how many of them failed.
unfoldable pub calls_of : Text → List Call → ℕ
calls_of key [] = 0
calls_of key (c ∷ calls) = (if text_eq (key_of c.command) key then 1 else 0) + calls_of key calls

unfoldable pub failed_calls_of : Text → List Call → ℕ
failed_calls_of key [] = 0
failed_calls_of key (c ∷ calls) =
    (if text_eq (key_of c.command) key && c.failed then 1 else 0) + failed_calls_of key calls

get_or_new :
    (o : Option Counter) (known : Bool)
    → ((Option.get_or o (new_counter known)).executions
        ≡ (Option.get_or o (new_counter false)).executions)
      × ((Option.get_or o (new_counter known)).failures
          ≡ (Option.get_or o (new_counter false)).failures)
get_or_new none known = (refl, refl)
get_or_new (some c) known = (refl, refl)

-- What setting the counter of `k` does to the counts of `key`.
set_counts :
    (stats : CliCommandUsageStats) (key k : Text) (known : Bool) (duration : ℕ) (failed : Bool)
    (at : ℕ)
    → let stats' =
        map_set k
          (counted (Option.get_or (map_get k stats) (new_counter known)) known duration failed at)
          stats in
      (executions_of key stats' ≡ executions_of key stats + (if text_eq k key then 1 else 0))
      × (failures_of key stats'
          ≡ failures_of key stats + (if text_eq k key && failed then 1 else 0))
set_counts stats key k known duration failed at =
    let new : Text → Counter =
      λ j. counted (Option.get_or (map_get j stats) (new_counter known)) known duration failed at in
    let got : map_get key (map_set k (new k) stats)
        ≡ (if text_eq k key then some (new k) else map_get key stats) =
      map_get-map_set key k (new k) stats in
    elim (Bool-cases (text_eq k key)) [
      | inl e ↦
          let same = get_or_new (map_get key stats) known in
          let self : map_get key (map_set k (new k) stats) ≡ some (new key) =
            got ∙ rw e (ap (λ j. some (new j)) ((text_eq_iff k key).0 e)) in
          rw e (
            omega (arith, same.0, ap (λ o. (Option.get_or o (new_counter false)).executions) self),
            ap (λ o. (Option.get_or o (new_counter false)).failures) self ∙ ground (arith, same.1),
          )
      | inr n ↦
          let other : map_get key (map_set k (new k) stats) ≡ map_get key stats = got ∙ rw n refl in
          rw n (
            omega (arith, ap (λ o. (Option.get_or o (new_counter false)).executions) other),
            omega (arith, ap (λ o. (Option.get_or o (new_counter false)).failures) other),
          )
    ]

record_execution-counts :
    (stats : CliCommandUsageStats) (key : Text) (c : Call)
    → is_nil key ≡ false
    → let stats' = record_execution stats c.command c.known c.duration c.failed c.at in
      (executions_of key stats'
        ≡ executions_of key stats + (if text_eq (key_of c.command) key then 1 else 0))
      × (failures_of key stats'
          ≡ failures_of key stats + (if text_eq (key_of c.command) key && c.failed then 1 else 0))
unfolding record_execution
record_execution-counts stats key c k = elim (Bool-cases (is_nil (key_of c.command))) [
  | inl e ↦
      let other : text_eq (key_of c.command) key ≡ false = not_true _ (λ t.
        let filled = ap is_nil ((text_eq_iff (key_of c.command) key).0 t) ∙ k in
        absurd (ground (arith, e, filled))) in
      rw (e, other) (omega arith, omega arith)
  | inr e ↦ rw e (set_counts stats key (key_of c.command) c.known c.duration c.failed c.at)
]

record_all-counts :
    (stats : CliCommandUsageStats) (calls : List Call) (key : Text)
    → is_nil key ≡ false
    → (executions_of key (record_all stats calls) ≡ executions_of key stats + calls_of key calls)
      × (failures_of key (record_all stats calls)
          ≡ failures_of key stats + failed_calls_of key calls)
unfolding record_all calls_of failed_calls_of
record_all-counts stats [] key k = (omega arith, omega arith)
record_all-counts stats (c ∷ calls) key k =
    let one = record_execution-counts stats key c k in
    let rest =
      record_all-counts (record_execution stats c.command c.known c.duration c.failed c.at) calls
        key k in
    (omega (arith, one.0, rest.0), omega (arith, one.1, rest.1))

-- After any calls of `record` on new statistics, the counter of a key, which is not empty, has as many
-- executions as there were calls with that key, and as many failures as there were failed ones.
pub counters_exact :
    (calls : List Call) (key : Text)
    → is_nil key ≡ false
    → (executions_of key (record_all [] calls) ≡ calls_of key calls)
      × (failures_of key (record_all [] calls) ≡ failed_calls_of key calls)
unfolding map_get
counters_exact calls key k =
    let r = record_all-counts [] calls key k in (omega (arith, r.0), omega (arith, r.1))
