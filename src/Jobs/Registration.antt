-- ===== src/Jobs/Registration.antt =====
-- plugins/jobs/cli-job-scheduler.ts: a job's registration, its options and its runs. Run and execution
-- ids (random UUIDs in the source) are numbers from a counter; times are milliseconds.
use cli_server_node.Common.{ℕ, Bool, Option, none, some, List, [], ◌∷◌, Text, ◌==◌, if◌then◌else◌}
use mathlib.Core.Option

pub data OverlapPolicy : Type 0 where
  skip queue cancel : OverlapPolicy

pub data RetryStrategy : Type 0 where
  fixed linear exponential : RetryStrategy

pub data JobStatus : Type 0 where
  active paused stopped : JobStatus

pub data ExecutionStatus : Type 0 where
  running completed failed cancelled timed_out : ExecutionStatus

pub data TimerType : Type 0 where
  cron interval : TimerType

pub record JobOptions : Type 0 where
  pub description : Option Text
  pub group : Option Text
  pub schedule : Option Text
  pub interval : Option Text
  pub max_retries : Option ℕ
  pub retry_delay : Option Text
  pub retry_strategy : Option RetryStrategy
  pub timeout : Option Text
  pub overlap_policy : Option OverlapPolicy
  pub max_concurrent_runs : Option ℕ

-- What the asynchronous function of a run waits for: the first save of the attempt's execution, the
-- job's own code, the save of the finished execution, the save of the job's state, or the retry delay.
pub data Phase : Type 0 where
  saving_start executing delaying : Phase
  saving_end persisting : ExecutionStatus → Phase

-- `aborted` is the run's controller, `timed_out` the flag of its current attempt.
pub record JobRun : Type 0 where
  pub id : ℕ
  pub execution_id : Option ℕ
  pub aborted : Bool
  pub timed_out : Bool
  pub retry_attempt : ℕ
  pub phase : Phase

-- `JobState`, as the store keeps it.
pub record JobState : Type 0 where
  pub status : JobStatus
  pub last_run_at : Option ℕ

-- The types of the events that the scheduler publishes of a job.
pub data JobEvent : Type 0 where
  job_started job_paused job_resumed job_stopped : JobEvent
  job_finished : ExecutionStatus → JobEvent
  job_retrying : (attempt max_retries delay_ms : ℕ) → JobEvent

-- With the job's state in the store and the events published so far.
pub record JobRegistration : Type 0 where
  pub options : JobOptions
  pub status : JobStatus
  pub runs : List JobRun
  pub queued : Bool
  pub current_execution_id : Option ℕ
  pub timer : Option TimerType
  pub next_run_at : Option ℕ
  pub last_run_at : Option ℕ
  pub last_run_status : Option ExecutionStatus
  pub next_id : ℕ
  pub saved_state : Option JobState
  pub published : List JobEvent

abbrev pub publish : JobEvent → JobRegistration → JobRegistration
publish e reg = record reg { published = e ∷ reg.published }

abbrev pub persist_state : JobRegistration → JobRegistration
persist_state reg = record reg {
  saved_state = some (record { status = reg.status; last_run_at = reg.last_run_at });
}

unfoldable pub max_concurrent_runs_of : JobOptions → ℕ
max_concurrent_runs_of options = Option.get_or options.max_concurrent_runs 1

-- `reg.runs.get(id)`, `reg.runs.delete(id)`, and a change of a run in its place.
unfoldable pub find_run : ℕ → List JobRun → Option JobRun
find_run id [] = none
find_run id (r ∷ runs) = if r.id == id then some r else find_run id runs

unfoldable pub remove_run : ℕ → List JobRun → List JobRun
remove_run id [] = []
remove_run id (r ∷ runs) = if r.id == id then runs else r ∷ remove_run id runs

unfoldable pub set_run : JobRun → List JobRun → List JobRun
set_run run [] = []
set_run run (r ∷ runs) = if r.id == run.id then run ∷ runs else r ∷ set_run run runs
