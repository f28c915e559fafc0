-- ===== src/Jobs/Actions.antt =====
-- The run slots of a job through every action on it.
mod Tests
use cli_server_node.Common.{
  ℕ, suc, ◌≤◌, max, Bool, true, false, not, ◌&&◌, ◌||◌, Option, none, some, List, [], ◌∷◌, is_nil,
  Text, if◌then◌else◌, if_intro, leb, length, inl, inr, Bool-cases, Option-cases, ◌⊎◌, ◌≡◌, refl,
  sym, subst, ◌∙◌, ap, arith,
}
use cli_server_node.Jobs.Registration.{
  JobRun, Phase, saving_start, executing, delaying, saving_end, persisting, ExecutionStatus,
  JobRegistration, stopped, max_concurrent_runs_of, find_run, set_run,
}
use cli_server_node.Jobs.Slots.{
  sync_current, begin_attempt, finish_run, Attempt, started, queued, skipped, try_start,
  drain_queue,
}
use cli_server_node.Jobs.Attempts.{
  RunEvent, start_saved, start_failed, timeout_fired, code_ended, end_saved, end_failed,
  state_persisted, delay_over, is_failed, max_retries_of, in_phase, end_execution, after_attempt,
  run_step, on_run,
}
use cli_server_node.Jobs.Timers.{
  is_active, stop_timer, handle_timer_fire, start_cron_timer, start_interval_timer, start_timer,
  cron_fires, interval_fires,
}
use cli_server_node.Jobs.Control.{
  Action, triggers, pauses, stops, cancels, cron_fired, interval_fired, run_event, resumes, updates,
  trigger, pause, stop_job, cancel_current, resume, update_options, after, after_trigger,
  trigger_answer, is_paused, check_update, JobOptionsUpdate, job_step,
}
use cli_server_node.Jobs.Limit.{
  View, view, Fits, Fits-refl, Fits-of_eq, finish_run-Fits, try_start-Fits, cancel_all-Fits,
  drain_queue-Fits, length-set_run, view-begin_attempt,
}

-- The slots see of a changed run nothing.
set_run-Fits :
    (reg : JobRegistration) (run : JobRun)
    → Fits (view reg) (view (record reg { runs = set_run run reg.runs }))
set_run-Fits reg run = Fits-of_eq (
    ap (λ n. record { count = n; limit = max_concurrent_runs_of reg.options; waits = reg.queued })
      (length-set_run run reg.runs))

after_attempt-Fits :
    (reg : JobRegistration) (run : JobRun) (status : ExecutionStatus)
    → Fits (view reg) (view (after_attempt reg run status))
unfolding after_attempt
after_attempt-Fits reg run status =
    let P = λ (r : JobRegistration). Fits (view reg) (view r) in
    let finished = finish_run-Fits reg run.id in
    if_intro P (is_failed status)
      (if_intro P run.aborted finished (
        if_intro P (leb (max_retries_of reg.options) run.retry_attempt) finished
          (set_run-Fits reg _)))
      finished

run_step-Fits :
    (reg : JobRegistration) (run : JobRun) (p : Phase) (e : RunEvent)
    → Fits (view reg) (view (run_step reg run p e))
unfolding run_step end_execution sync_current
run_step-Fits reg run saving_start start_saved = set_run-Fits reg _
run_step-Fits reg run saving_start start_failed = finish_run-Fits reg run.id
run_step-Fits reg run executing timeout_fired = set_run-Fits reg _
run_step-Fits reg run executing (code_ended ending) = set_run-Fits reg _
run_step-Fits reg run (saving_end status) (end_saved t) = set_run-Fits reg _
run_step-Fits reg run (saving_end status) end_failed = finish_run-Fits reg run.id
run_step-Fits reg run (persisting status) (state_persisted true) = after_attempt-Fits _ run status
run_step-Fits reg run (persisting status) (state_persisted false) = after_attempt-Fits _ run status
run_step-Fits reg run delaying delay_over =
    if_intro (λ r. Fits (view reg) (view r)) run.aborted (finish_run-Fits reg run.id)
      (Fits-of_eq (view-begin_attempt reg run (suc run.retry_attempt)))
run_step-Fits reg run _ _ = Fits-refl (view reg)

on_run-Fits :
    (reg : JobRegistration) (id : ℕ) (e : RunEvent) → Fits (view reg) (view (on_run reg id e))
unfolding on_run
on_run-Fits reg id e = elim (Option-cases (find_run id reg.runs)) [
  | inl none_found ↦ rw (none_found, on_run) (Fits-refl (view reg))
  | inr (run, found) ↦ rw (found, on_run) (run_step-Fits reg run run.phase e)
]

trigger-Fits :
    (reg reg' : JobRegistration) (a : Attempt)
    → Fits (view reg) (view reg')
    → Fits (view reg) (view (after_trigger reg (trigger_answer reg' a)))
trigger-Fits reg reg' skipped h = Fits-refl (view reg)
trigger-Fits reg reg' started h = h
trigger-Fits reg reg' queued h = h

update_drain-Fits :
    (reg reg' : JobRegistration)
    → length reg'.runs ≡ length reg.runs
    → Fits (view reg) (view (drain_queue reg'))
update_drain-Fits reg reg' e = drain_queue-Fits reg' (view reg) (sym e)

-- Timers leave the slots alone.
module _ (cron_next : Text → ℕ → Option ℕ) (cron_valid : Text → Bool) (running : Bool) where
  start_cron_timer-view :
      (reg : JobRegistration) (schedule : Text) (fired : Option ℕ) (now : ℕ)
      → view (start_cron_timer cron_next running reg schedule fired now) ≡ view reg
  unfolding start_cron_timer
  start_cron_timer-view reg schedule fired now = ground arith

  start_timer-view :
      (reg : JobRegistration) (run_now : Bool) (now : ℕ)
      → view (start_timer cron_next running reg run_now now) ≡ view reg
  unfolding start_timer start_cron_timer start_interval_timer
  start_timer-view reg run_now now = ground arith

  cron_fires-Fits :
      (reg : JobRegistration) (schedule : Text) (next now : ℕ)
      → Fits (view reg) (view (cron_fires cron_next running reg schedule next now))
  unfolding cron_fires handle_timer_fire
  cron_fires-Fits reg schedule next now =
      if_intro (λ r. Fits (view reg) (view r)) (not (is_active reg.status) || not running)
        (Fits-refl (view reg))
        (subst
          (λ v.
            Fits v (
              view (try_start (start_cron_timer cron_next running reg schedule (some next) now)).0))
          (start_cron_timer-view reg schedule (some next) now) (try_start-Fits _))

  interval_fires-Fits :
      (reg : JobRegistration) (ms now : ℕ)
      → Fits (view reg) (view (interval_fires cron_next running reg ms now))
  unfolding interval_fires handle_timer_fire
  interval_fires-Fits reg ms now =
      if_intro (λ r. Fits (view reg) (view r)) (not (is_active reg.status) || not running)
        (Fits-refl (view reg)) (try_start-Fits _)

  update_options-Fits :
      (reg : JobRegistration) (u : JobOptionsUpdate) (now : ℕ)
      → Fits (view reg) (view (after reg (update_options cron_next cron_valid running reg u now)))
  unfolding update_options stop_timer
  update_options-Fits reg u now = elim (Option-cases (check_update cron_valid u)) [
    | inr (e, bad) ↦ rw (bad, update_options) (Fits-refl (view reg))
    | inl fine ↦
        rw (fine, update_options)
          (update_drain-Fits reg _ (
            if_intro (λ (r : JobRegistration). length r.runs ≡ length reg.runs)
              (is_active reg.status) (ap (λ (v : View). v.count) (start_timer-view _ false now))
              refl))
  ]

  -- An action on a job starts runs in free slots only, and leaves a queued run waiting only while
  -- every slot is taken.
  job_step-Fits :
      (reg : JobRegistration) (a : Action)
      → Fits (view reg) (view (job_step cron_next cron_valid running reg a))
  unfolding job_step trigger pause stop_job cancel_current resume stop_timer
  job_step-Fits reg triggers = trigger-Fits reg _ _ (try_start-Fits reg)
  job_step-Fits reg pauses =
      if_intro (λ r. Fits (view reg) (view (after reg r))) (is_paused reg.status)
        (Fits-refl (view reg)) (Fits-refl (view reg))
  job_step-Fits reg stops = cancel_all-Fits (stop_timer (record reg { status = stopped }))
  job_step-Fits reg cancels =
      if_intro (λ r. Fits (view reg) (view (after reg r))) (is_nil reg.runs && not reg.queued)
        (Fits-refl (view reg)) (cancel_all-Fits reg)
  job_step-Fits reg (cron_fired schedule next now) = cron_fires-Fits reg schedule next now
  job_step-Fits reg (interval_fired ms now) = interval_fires-Fits reg ms now
  job_step-Fits reg (run_event id e) = on_run-Fits reg id e
  job_step-Fits reg (resumes now) =
      if_intro (λ r. Fits (view reg) (view (after reg r))) (not (is_paused reg.status))
        (Fits-refl (view reg)) (Fits-of_eq (start_timer-view _ false now))
  job_step-Fits reg (updates u now) = update_options-Fits reg u now

  -- A history of a job.
  unfoldable pub steps : JobRegistration → List Action → JobRegistration
  steps reg [] = reg
  steps reg (a ∷ actions) = steps (job_step cron_next cron_valid running reg a) actions

  -- The largest limit that the options had in the course of a history.
  unfoldable pub peak_limit : JobRegistration → List Action → ℕ
  peak_limit reg [] = max_concurrent_runs_of reg.options
  peak_limit reg (a ∷ actions) =
      max (max_concurrent_runs_of reg.options)
        (peak_limit (job_step cron_next cron_valid running reg a) actions)

  limit-le-peak_limit :
      (reg : JobRegistration) (actions : List Action)
      → max_concurrent_runs_of reg.options ≤ peak_limit reg actions
  unfolding peak_limit
  limit-le-peak_limit reg [] = omega arith
  limit-le-peak_limit reg (a ∷ actions) = omega arith

  -- Whatever happens to a job, there are never more runs than there were at first, or than the largest
  -- `maxConcurrentRuns` set along the way allows.
  pub runs-le-peak_limit :
      (reg : JobRegistration) (actions : List Action)
      → length (steps reg actions).runs ≤ max (length reg.runs) (peak_limit reg actions)
  unfolding steps peak_limit
  runs-le-peak_limit reg [] = omega arith
  runs-le-peak_limit reg (a ∷ actions) =
      let reg' = job_step cron_next cron_valid running reg a in
      omega (
        arith,
        (job_step-Fits reg a).bounded,
        runs-le-peak_limit reg' actions,
        limit-le-peak_limit reg' actions,
      )

  -- No wake-up is lost: if a queued run waits only while every slot is taken, then so it is after any
  -- history.
  pub queued-full :
      (reg : JobRegistration) (actions : List Action)
      → (reg.queued ≡ true → max_concurrent_runs_of reg.options ≤ length reg.runs)
      → (steps reg actions).queued ≡ true
      → max_concurrent_runs_of (steps reg actions).options ≤ length (steps reg actions).runs
  unfolding steps
  queued-full reg [] h = h
  queued-full reg (a ∷ actions) h =
      queued-full (job_step cron_next cron_valid running reg a) actions
        ((job_step-Fits reg a).taken h)
