-- ===== src/Jobs/Slots.antt =====
-- plugins/jobs/cli-job-scheduler.ts: the run slots of a job.
use cli_server_node.Common.{
  ℕ, suc, Bool, true, false, not, Option, none, some, List, [], ◌∷◌, ◌++◌, map, leb, if◌then◌else◌,
  length, is_some,
}
use mathlib.Core.Option
use cli_server_node.Jobs.Registration.{
  OverlapPolicy, skip, queue, cancel, JobRun, saving_start, JobRegistration, max_concurrent_runs_of,
  find_run, remove_run, set_run,
}

unfoldable pub newest_execution : List JobRun → Option ℕ
newest_execution [] = none
newest_execution (r ∷ runs) = elim (newest_execution runs) [
  | some e ↦ some e
  | none ↦ r.execution_id
]

-- `currentExecutionId`: the newest run that has an execution.
unfoldable pub sync_current : JobRegistration → JobRegistration
sync_current reg = record reg { current_execution_id = newest_execution reg.runs }

-- The synchronous beginning of an attempt: the run gets a new execution.
unfoldable pub begin_attempt : JobRegistration → JobRun → ℕ → JobRegistration
begin_attempt reg run attempt = sync_current (record reg {
  runs =
      set_run
        (record run {
          execution_id = some reg.next_id;
          timed_out = false;
          retry_attempt = attempt;
          phase = saving_start;
        })
        reg.runs;
  next_id = suc reg.next_id;
})

abbrev pub new_run : ℕ → JobRun
new_run id = record {
  id = id;
  execution_id = none;
  aborted = false;
  timed_out = false;
  retry_attempt = 0;
  phase = saving_start;
}

-- A run in a new slot, up to the first `await` of its first attempt.
unfoldable pub start_run : JobRegistration → JobRegistration
start_run reg =
    let run = new_run reg.next_id in
    begin_attempt
      (sync_current (record reg { runs = reg.runs ++ run ∷ []; next_id = suc reg.next_id })) run 0

pub data Attempt : Type 0 where
  started queued skipped : Attempt

-- `reg.runs.size >= maxConcurrentRunsOf(reg.options)`
abbrev pub is_full : JobRegistration → Bool
is_full reg = leb (max_concurrent_runs_of reg.options) (length reg.runs)

-- The oldest run that is not aborted yet is aborted.
unfoldable pub abort_oldest : List JobRun → List JobRun
abort_oldest [] = []
abort_oldest (r ∷ runs) =
    if r.aborted then r ∷ abort_oldest runs else record r { aborted = true } ∷ runs

abbrev pub enqueue : JobRegistration → OverlapPolicy → JobRegistration × Attempt
enqueue reg skip = (reg, skipped)
enqueue reg queue = (record reg { queued = true }, queued)
enqueue reg cancel = (
  record reg { runs = if reg.queued then reg.runs else abort_oldest reg.runs; queued = true },
  queued,
)

unfoldable pub try_start : JobRegistration → JobRegistration × Attempt
try_start reg =
    if is_full reg
    then enqueue reg (Option.get_or reg.options.overlap_policy skip)
    else (start_run reg, started)

unfoldable pub release_slot : JobRegistration → ℕ → JobRegistration
release_slot reg id =
    if is_some (find_run id reg.runs)
    then sync_current (record reg { runs = remove_run id reg.runs })
    else reg

unfoldable pub drain_queue : JobRegistration → JobRegistration
drain_queue reg =
    if not reg.queued
    then reg
    else if is_full reg
    then reg
    else start_run (record reg { queued = false })

abbrev abort : JobRun → JobRun
abort r = record r { aborted = true }

unfoldable pub cancel_all : JobRegistration → JobRegistration
cancel_all reg = record reg { queued = false; runs = map abort reg.runs }

-- The `finally` of a run: its slot is released and a queued run starts.
unfoldable pub finish_run : JobRegistration → ℕ → JobRegistration
finish_run reg id = drain_queue (release_slot reg id)
