-- ===== src/Jobs/Runner.antt =====
-- packages/core/src/jobs/runner.ts: what the runner does with the queue.
pub mod Attempts
use wallet_bot.Base.{ℕ, ◌+◌, Bool, true, false, List, [], ◌∷◌, not, if◌then◌else◌}
use wallet_bot.Base.Text.{Text}
use wallet_bot.Jobs.Queue.{
  JobRow, Jobs, enqueue_job, claim_jobs, complete_job, fail_job, exhaust_job, reclaim_stuck_jobs,
}

-- How the handler of a job ends: there is none for its type, it ends well, or it throws, a timeout
-- included.
pub data Outcome : Type 0 where
  no_handler : Text → Outcome
  completed : Outcome
  threw : Bool → Text → Outcome

-- The end of `runOne`. The delay of the next attempt is random, so a parameter.
unfoldable pub run_one : JobRow → Outcome → ℕ → ℕ → Jobs → Jobs
run_one job (no_handler message) delay now jobs = fail_job job.id message 0 now jobs
run_one job completed delay now jobs = complete_job job.id now jobs
run_one job (threw retryable message) delay now jobs =
    if not retryable
    then fail_job job.id message 0 now (exhaust_job job.id jobs)
    else fail_job job.id message delay now jobs

-- What happens to the queue, by any number of workers: jobs of a batch run at the same time, so the
-- ends of handlers come in any order, and also after the lease of their job.
pub data Event : Type 0 where
  enqueued : JobRow → Event
  claimed : Text → ℕ → ℕ → Text → ℕ → Event
  finished : JobRow → Outcome → ℕ → ℕ → Event
  reclaimed : ℕ → ℕ → Event

abbrev pub step : Event → Jobs → Jobs
step (enqueued job) jobs = enqueue_job job jobs
step (claimed worker limit lease queue now) jobs = (claim_jobs worker limit lease queue now jobs).1
step (finished job outcome delay now) jobs = run_one job outcome delay now jobs
step (reclaimed grace now) jobs = reclaim_stuck_jobs grace now jobs

-- The rows that the event hands to a worker.
abbrev pub handed : Event → Jobs → Jobs
handed (enqueued job) jobs = []
handed (claimed worker limit lease queue now) jobs =
    (claim_jobs worker limit lease queue now jobs).0
handed (finished job outcome delay now) jobs = []
handed (reclaimed grace now) jobs = []

abbrev pub run_events : List Event → Jobs → Jobs
run_events [] jobs = jobs
run_events (e ∷ events) jobs = run_events events (step e jobs)
