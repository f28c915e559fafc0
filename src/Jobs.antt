-- ===== src/Jobs.antt =====
-- plugins/jobs: the job scheduler. `Registration` has the state of a job, `Interval` the parser of
-- intervals, `Slots` the run slots, `Attempts` a run with its retries, `Timers` the schedule, and
-- `Control` the actions on a job; `Limit` and `Actions` prove their properties.
pub mod Registration
pub mod Interval
pub mod Slots
pub mod Attempts
pub mod Timers
pub mod Control
pub mod Limit
pub mod Actions
