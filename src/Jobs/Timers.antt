-- ===== src/Jobs/Timers.antt =====
-- plugins/jobs/cli-job-scheduler.ts: the timers of a job's schedule. The cron parser is a library: the
-- next occurrence after a time, or nothing where the expression is invalid, is a parameter.
use cli_server_node.Common.{
  ℕ, ◌+◌, Bool, true, false, not, ◌||◌, Option, none, some, Text, leb, ltb, if◌then◌else◌,
}
use cli_server_node.Jobs.Registration.{JobStatus, active, cron, interval, JobRegistration}
use cli_server_node.Jobs.Interval.{parse_interval}
use cli_server_node.Jobs.Slots.{try_start}

abbrev pub is_active : JobStatus → Bool
is_active active = true
is_active _ = false

-- `_stopTimer`
unfoldable pub stop_timer : JobRegistration → JobRegistration
stop_timer reg = record reg { timer = none; next_run_at = none }

-- `_handleTimerFire`
unfoldable pub handle_timer_fire : JobRegistration → JobRegistration
handle_timer_fire reg = (try_start reg).0

-- When an interval job is due: one interval after its last run, and not in the past.
unfoldable pub interval_due : Option ℕ → ℕ → Bool → ℕ → ℕ
interval_due last_run_at ms run_now now =
    let due : ℕ = elim last_run_at [ none ↦ now + ms | some last_run ↦ last_run + ms ] in
    if leb due now || run_now then now else due

module _ (cron_next : Text → ℕ → Option ℕ) where
  unfoldable pub next_cron_occurrence : Text → Option ℕ → ℕ → Option ℕ
  next_cron_occurrence schedule none now = cron_next schedule now
  next_cron_occurrence schedule (some fired) now = elim (cron_next schedule fired) [
    | none ↦ none
    | some next ↦ if ltb now next then some next else cron_next schedule now
  ]

  module _ (running : Bool) where
    -- `scheduleNext` of `_startCronTimer`
    unfoldable pub start_cron_timer : JobRegistration → Text → Option ℕ → ℕ → JobRegistration
    start_cron_timer reg schedule fired now =
        if not running || not (is_active reg.status)
        then reg
        else (elim (next_cron_occurrence schedule fired now) [
          | none ↦ reg
          | some next ↦ record reg { next_run_at = some next; timer = some cron }
        ])

    unfoldable pub start_interval_timer : JobRegistration → Text → Bool → ℕ → JobRegistration
    start_interval_timer reg text run_now now = elim (parse_interval text) [
      | none ↦ reg
      | some ms ↦ record reg {
        next_run_at = some (interval_due reg.last_run_at ms run_now now);
        timer = some cron;
      }
    ]

    -- `_startTimer`
    unfoldable pub start_timer : JobRegistration → Bool → ℕ → JobRegistration
    start_timer reg run_now now = elim reg.options.schedule [
      | some schedule ↦ start_cron_timer reg schedule none now
      | none ↦ elim reg.options.interval [
        | some text ↦ start_interval_timer reg text run_now now
        | none ↦ reg
      ]
    ]

    -- The timer of a cron job fires at its occurrence `next`.
    unfoldable pub cron_fires : JobRegistration → Text → ℕ → ℕ → JobRegistration
    cron_fires reg schedule next now =
        if not (is_active reg.status) || not running
        then reg
        else handle_timer_fire (start_cron_timer reg schedule (some next) now)

    -- The timer of an interval job fires: the first time it becomes a repeating timer of `ms`.
    unfoldable pub interval_fires : JobRegistration → ℕ → ℕ → JobRegistration
    interval_fires reg ms now =
        if not (is_active reg.status) || not running
        then reg
        else handle_timer_fire (record reg { timer = some interval; next_run_at = some (now + ms) })
