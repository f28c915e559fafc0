-- ===== src/Jobs/Attempts.antt =====
-- plugins/jobs/cli-job-scheduler.ts: a run with its attempts and retries, as steps between the points
-- where the source awaits. The job's code, the store and the timers choose which step comes next.
use cli_server_node.Common.{
  ℕ, suc, ◌+◌, ◌*◌, Bool, true, false, ◌||◌, none, some, codes, leb, if◌then◌else◌,
}
use Prim.Native.Nat.{◌^◌}
use mathlib.Core.Option
use cli_server_node.Jobs.Registration.{
  fixed, linear, exponential, ExecutionStatus, completed, failed, cancelled, timed_out, JobOptions,
  JobRun, Phase, saving_start, executing, saving_end, persisting, delaying, JobRegistration,
  job_started, job_finished, job_retrying, publish, persist_state, find_run, set_run,
}
use cli_server_node.Jobs.Interval.{parse_interval}
use cli_server_node.Jobs.Slots.{sync_current, begin_attempt, finish_run}

-- The delay before the attempt after `attempt`.
unfoldable pub retry_delay_of : JobOptions → ℕ → ℕ
retry_delay_of options attempt =
    let base =
      Option.get_or (parse_interval (Option.get_or options.retry_delay (codes "5s"))) 5000 in
    elim (Option.get_or options.retry_strategy exponential) [
      | fixed ↦ base
      | linear ↦ base * (attempt + 1)
      | exponential ↦ base * 2 ^ attempt
    ]

abbrev pub max_retries_of : JobOptions → ℕ
max_retries_of options = Option.get_or options.max_retries 1

-- How the job's code ended.
pub data Ending : Type 0 where
  returned threw : Ending

-- `finalStatus`
unfoldable pub final_status : JobRun → Ending → ExecutionStatus
final_status run ending =
    if run.aborted || run.timed_out
    then (if run.timed_out then timed_out else cancelled)
    else (elim ending [ returned ↦ completed | threw ↦ failed ])

pub data RunEvent : Type 0 where
  start_saved start_failed timeout_fired : RunEvent
  code_ended : Ending → RunEvent
  end_saved : ℕ → RunEvent
  end_failed delay_over : RunEvent
  state_persisted : Bool → RunEvent

abbrev pub is_failed : ExecutionStatus → Bool
is_failed failed = true
is_failed _ = false

abbrev pub in_phase : JobRegistration → JobRun → Phase → JobRegistration
in_phase reg run p = record reg { runs = set_run (record run { phase = p }) reg.runs }

-- The execution is saved: the run executes no more, and the last run is recorded.
unfoldable pub end_execution : JobRegistration → JobRun → ExecutionStatus → ℕ → JobRegistration
end_execution reg run status started_at =
    record (sync_current (in_phase reg (record run { execution_id = none }) (persisting status))) {
      last_run_at = some started_at;
      last_run_status = some status;
    }

-- After an attempt: another one when it failed and retries are left, unless the run is aborted.
unfoldable pub after_attempt : JobRegistration → JobRun → ExecutionStatus → JobRegistration
after_attempt reg run status =
    if is_failed status
    then (if run.aborted
        then finish_run reg run.id
        else if leb (max_retries_of reg.options) run.retry_attempt
        then finish_run reg run.id
        else publish
            (job_retrying (run.retry_attempt + 1) (max_retries_of reg.options)
              (retry_delay_of reg.options run.retry_attempt))
            (in_phase reg run delaying))
    else finish_run reg run.id

-- `state_persisted` says whether the store took the state: a failure is only logged. A timer of
-- `options.timeout` is one of the timers that choose. An event of a run in a phase that does not await it changes nothing.
unfoldable pub run_step : JobRegistration → JobRun → Phase → RunEvent → JobRegistration
run_step reg run saving_start start_saved = publish job_started (in_phase reg run executing)
run_step reg run saving_start start_failed = finish_run reg run.id
run_step reg run executing timeout_fired = record reg {
  runs = set_run (record run { timed_out = true }) reg.runs;
}
run_step reg run executing (code_ended ending) =
    in_phase reg run (saving_end (final_status run ending))
run_step reg run (saving_end status) (end_saved started_at) =
    end_execution reg run status started_at
run_step reg run (saving_end status) end_failed = finish_run reg run.id
run_step reg run (persisting status) (state_persisted stored) =
    after_attempt (publish (job_finished status) (if stored then persist_state reg else reg)) run
      status
run_step reg run delaying delay_over =
    if run.aborted then finish_run reg run.id else begin_attempt reg run (suc run.retry_attempt)
run_step reg run _ _ = reg

unfoldable pub on_run : JobRegistration → ℕ → RunEvent → JobRegistration
on_run reg id event = elim (find_run id reg.runs) [
  | none ↦ reg
  | some run ↦ run_step reg run run.phase event
]
