-- ===== src/Jobs/Control.antt =====
-- plugins/jobs/cli-job-scheduler.ts: the actions on a registered job. An action answers with an error
-- of the jobs API and leaves the job as it was, or with the job after it.
use cli_server_node.Common.{
  ℕ, Bool, true, false, not, ◌&&◌, Option, none, some, Text, Map, map_get, map_set, leb,
  if◌then◌else◌, is_nil, is_some,
}
use cli_server_node.Jobs.Registration.{
  OverlapPolicy, RetryStrategy, JobStatus, active, paused, stopped, JobOptions, JobRegistration,
  job_paused, job_resumed, job_stopped, publish, persist_state,
}
use cli_server_node.Jobs.Interval.{parse_interval}
use cli_server_node.Jobs.Slots.{
  Attempt, started, queued, skipped, try_start, cancel_all, drain_queue,
}
use cli_server_node.Jobs.Timers.{is_active, stop_timer, start_timer, cron_fires, interval_fires}
use cli_server_node.Jobs.Attempts.{RunEvent, on_run}

pub data JobError : Type 0 where
  job_not_found job_already_running job_already_paused job_not_paused job_not_running : JobError
  schedule_conflict invalid_schedule invalid_interval invalid_value : JobError

pub data Result {ℓ} (A : Type ℓ) : Type ℓ where
  ok : A → Result A
  err : JobError → Result A

-- `statusCode` of the error.
unfoldable pub status_code : JobError → ℕ
status_code job_not_found = 404
status_code job_already_running = 409
status_code job_already_paused = 409
status_code job_not_paused = 409
status_code job_not_running = 409
status_code schedule_conflict = 400
status_code invalid_schedule = 400
status_code invalid_interval = 400
status_code invalid_value = 400

abbrev pub is_paused : JobStatus → Bool
is_paused paused = true
is_paused _ = false

-- `triggerAsync`: whether the run was queued, and the job.
abbrev pub trigger_answer : JobRegistration → Attempt → Result (Bool × JobRegistration)
trigger_answer reg skipped = err job_already_running
trigger_answer reg started = ok (false, reg)
trigger_answer reg queued = ok (true, reg)

unfoldable pub trigger : JobRegistration → Result (Bool × JobRegistration)
trigger reg = trigger_answer (try_start reg).0 (try_start reg).1

unfoldable pub pause : JobRegistration → Result JobRegistration
pause reg =
    if is_paused reg.status
    then err job_already_paused
    else ok (publish job_paused (persist_state (stop_timer (record reg { status = paused }))))

unfoldable pub stop_job : JobRegistration → Result JobRegistration
stop_job reg = ok (
    publish job_stopped (persist_state (cancel_all (stop_timer (record reg { status = stopped })))))

unfoldable pub cancel_current : JobRegistration → Result JobRegistration
cancel_current reg =
    if is_nil reg.runs && not reg.queued then err job_not_running else ok (cancel_all reg)

-- A field of an update: left out, `null`, or a value.
pub data Change {ℓ} (A : Type ℓ) : Type ℓ where
  keep clear : Change A
  set_to : A → Change A

pub record JobOptionsUpdate : Type 0 where
  pub description : Option Text
  pub group : Option Text
  pub schedule : Change Text
  pub interval : Change Text
  pub max_retries : Option ℕ
  pub retry_delay : Option Text
  pub retry_strategy : Option RetryStrategy
  pub timeout : Option Text
  pub overlap_policy : Option OverlapPolicy
  pub max_concurrent_runs : Option ℕ

abbrev pub or_else {ℓ} : {A : Type ℓ} → Option A → Option A → Option A
or_else none b = b
or_else (some a) b = some a

abbrev pub both_set : Change Text → Change Text → Bool
both_set (set_to a) (set_to b) = true
both_set _ _ = false

abbrev pub is_bad : (Text → Bool) → Change Text → Bool
is_bad valid (set_to t) = not (valid t)
is_bad valid _ = false

-- The checks of `updateOptionsAsync`, in their order.
unfoldable pub check_update : (Text → Bool) → JobOptionsUpdate → Option JobError
check_update cron_valid u = elim (both_set u.schedule u.interval) [
  | true ↦ some schedule_conflict
  | false ↦ elim (is_bad cron_valid u.schedule) [
    | true ↦ some invalid_schedule
    | false ↦ elim (is_bad (λ t. is_some (parse_interval t)) u.interval) [
      | true ↦ some invalid_interval
      | false ↦ elim u.max_concurrent_runs [
        | none ↦ none
        | some n ↦ if leb 1 n then none else some invalid_value
      ]
    ]
  ]
]

-- Setting a schedule clears the interval, and the other way round.
abbrev pub with_schedule : Change Text → JobOptions → JobOptions
with_schedule keep o = o
with_schedule clear o = record o { schedule = none }
with_schedule (set_to t) o = record o { schedule = some t; interval = none }

abbrev pub with_interval : Change Text → JobOptions → JobOptions
with_interval keep o = o
with_interval clear o = record o { interval = none }
with_interval (set_to t) o = record o { interval = some t; schedule = none }

unfoldable pub update_options_record : JobOptionsUpdate → JobOptions → JobOptions
update_options_record u o = with_interval u.interval (
    with_schedule u.schedule (record o {
      description = or_else u.description o.description;
      group = or_else u.group o.group;
      max_retries = or_else u.max_retries o.max_retries;
      retry_delay = or_else u.retry_delay o.retry_delay;
      retry_strategy = or_else u.retry_strategy o.retry_strategy;
      timeout = or_else u.timeout o.timeout;
      overlap_policy = or_else u.overlap_policy o.overlap_policy;
      max_concurrent_runs = or_else u.max_concurrent_runs o.max_concurrent_runs;
    }))

module _ (cron_next : Text → ℕ → Option ℕ) (cron_valid : Text → Bool) (running : Bool) where
  unfoldable pub resume : JobRegistration → ℕ → Result JobRegistration
  resume reg now =
      if not (is_paused reg.status)
      then err job_not_paused
      else ok (
          publish job_resumed (
            persist_state
              (start_timer cron_next running (record reg { status = active }) false now)))

  unfoldable pub update_options : JobRegistration → JobOptionsUpdate → ℕ → Result JobRegistration
  update_options reg u now = elim (check_update cron_valid u) [
    | some e ↦ err e
    | none ↦
        let reg' = record reg { options = update_options_record u reg.options } in
        ok (
          drain_queue (
            if is_active reg.status
            then start_timer cron_next running (stop_timer reg') false now
            else reg'))
  ]

-- An action on the job of an id, in the scheduler's map of registrations.
unfoldable pub on_job :
    Map JobRegistration
    → Text
    → (JobRegistration → Result JobRegistration)
    → Result (Map JobRegistration)
on_job jobs id action = elim (map_get id jobs) [
  | none ↦ err job_not_found
  | some reg ↦ elim (action reg) [ err e ↦ err e | ok reg' ↦ ok (map_set id reg' jobs) ]
]

-- Everything that happens to a job.
pub data Action : Type 0 where
  triggers pauses stops cancels : Action
  cron_fired : Text → ℕ → ℕ → Action
  interval_fired : ℕ → ℕ → Action
  run_event : ℕ → RunEvent → Action
  resumes : ℕ → Action
  updates : JobOptionsUpdate → ℕ → Action

-- An action that fails leaves the job as it was.
abbrev pub after : JobRegistration → Result JobRegistration → JobRegistration
after reg (ok reg') = reg'
after reg (err e) = reg

abbrev pub after_trigger : JobRegistration → Result (Bool × JobRegistration) → JobRegistration
after_trigger reg (ok (_, reg')) = reg'
after_trigger reg (err e) = reg

module _ (cron_next : Text → ℕ → Option ℕ) (cron_valid : Text → Bool) (running : Bool) where
  unfoldable pub job_step : JobRegistration → Action → JobRegistration
  job_step reg triggers = after_trigger reg (trigger reg)
  job_step reg pauses = after reg (pause reg)
  job_step reg stops = after reg (stop_job reg)
  job_step reg cancels = after reg (cancel_current reg)
  job_step reg (cron_fired schedule next now) = cron_fires cron_next running reg schedule next now
  job_step reg (interval_fired ms now) = interval_fires cron_next running reg ms now
  job_step reg (run_event id e) = on_run reg id e
  job_step reg (resumes now) = after reg (resume cron_next cron_valid running reg now)
  job_step reg (updates u now) = after reg (update_options cron_next cron_valid running reg u now)
