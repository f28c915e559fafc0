-- ===== src/Jobs/Actions/Tests.antt =====
-- Runs of a job through its slots, and instances of the theorems on them.
use cli_server_node.Common.{
  ℕ, ◌≤◌, max, Bool, true, false, Option, none, some, List, [], ◌∷◌, Text, length, ◌≡◌, refl,
}
use cli_server_node.Jobs.Registration.{
  queue, active, JobOptions, JobRegistration, max_concurrent_runs_of, find_run, remove_run, set_run,
}
use cli_server_node.Jobs.Slots.{
  newest_execution, sync_current, begin_attempt, start_run, abort_oldest, try_start, release_slot,
  drain_queue, cancel_all, finish_run,
}
use cli_server_node.Jobs.Interval.{parse_from, parse_interval, unit_to_ms}
use cli_server_node.Jobs.Attempts.{
  returned, threw, start_saved, code_ended, end_saved, state_persisted, delay_over, retry_delay_of,
  final_status, end_execution, after_attempt, run_step, on_run,
}
use cli_server_node.Jobs.Control.{
  Action, triggers, run_event, trigger, update_options, update_options_record, check_update,
  job_step,
}
use cli_server_node.Jobs.Timers.{stop_timer, start_timer}
use cli_server_node.Jobs.Actions.{steps, peak_limit, runs-le-peak_limit, queued-full}

slots : Unit {0}
unfolding newest_execution sync_current begin_attempt start_run abort_oldest try_start release_slot
    drain_queue cancel_all finish_run max_concurrent_runs_of find_run remove_run set_run
slots = tt

jobs : Unit {0}
unfolding slots final_status end_execution after_attempt run_step on_run trigger update_options
    update_options_record check_update job_step steps peak_limit stop_timer start_timer
    retry_delay_of parse_interval parse_from unit_to_ms
jobs = tt

abbrev options : JobOptions
options = record {
  description = none;
  group = none;
  schedule = none;
  interval = none;
  max_retries = some 1;
  retry_delay = none;
  retry_strategy = none;
  timeout = none;
  overlap_policy = some queue;
  max_concurrent_runs = none;
}

abbrev idle_job : JobRegistration
idle_job = record {
  options = options;
  status = active;
  runs = [];
  queued = false;
  current_execution_id = none;
  timer = none;
  next_run_at = none;
  last_run_at = none;
  last_run_status = none;
  next_id = 0;
  saved_state = none;
  published = [];
}

abbrev no_cron : Text → ℕ → Option ℕ
no_cron schedule now = none

abbrev no_valid : Text → Bool
no_valid schedule = false

-- The first run fails once, is retried and completes; the second trigger waits for its slot.
abbrev history : List Action
history =
    triggers
    ∷ triggers
    ∷ run_event 0 start_saved
    ∷ run_event 0 (code_ended threw)
    ∷ run_event 0 (end_saved 5)
    ∷ run_event 0 (state_persisted true)
    ∷ run_event 0 delay_over
    ∷ []

abbrev later : List Action
later =
    run_event 0 start_saved
    ∷ run_event 0 (code_ended returned)
    ∷ run_event 0 (end_saved 9)
    ∷ run_event 0 (state_persisted true)
    ∷ []

abbrev retried : JobRegistration
retried = steps no_cron no_valid true idle_job history

retry_tests :
    (length retried.runs ≡ 1)
    × (retried.queued ≡ true)
    × (retried.current_execution_id ≡ some 2)
    × ((steps no_cron no_valid true retried later).queued ≡ false)
    × ((steps no_cron no_valid true retried later).current_execution_id ≡ some 4)
    × (retry_delay_of options 2 ≡ 20000)
unfolding jobs
retry_tests = (refl, refl, refl, refl, refl, refl)

runs-le-peak_limit_example :
    length (steps no_cron no_valid true idle_job history).runs
    ≤ max 0 (peak_limit no_cron no_valid true idle_job history)
runs-le-peak_limit_example = runs-le-peak_limit no_cron no_valid true idle_job history

queued-full_example :
    max_concurrent_runs_of (steps no_cron no_valid true idle_job history).options
    ≤ length (steps no_cron no_valid true idle_job history).runs
unfolding jobs
queued-full_example = queued-full no_cron no_valid true idle_job history (λ e. cc) refl
