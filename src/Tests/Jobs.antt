-- ===== src/Tests/Jobs.antt =====
-- The queue of jobs on concrete inputs.
use wallet_bot.Base.{◌≤◌, ◌≡◌, refl, true, List, [], ◌∷◌, some, All}
use wallet_bot.Base.Text.{codes}
use wallet_bot.Jobs.Queue.{JobRow, Jobs, new_job, enqueue_job}
use wallet_bot.Jobs.Runner.{threw, Event, claimed, finished, reclaimed}
use wallet_bot.Jobs.Runner.Attempts.{runs, is_other, runs-le-max_attempts}

abbrev job : JobRow
job = new_job (codes "j1") (codes "chain.scan") 100 (some (codes "scan:w1")) (codes "default") 100 2

-- A worker that is lost, two claims after it, of which the second fails for good.
abbrev events : List Event
events =
    claimed (codes "a") 5 120 (codes "default") 200
    ∷ reclaimed 0 900
    ∷ claimed (codes "b") 5 120 (codes "default") 1000
    ∷ finished job (threw true (codes "timeout")) 2000 1100
    ∷ claimed (codes "b") 5 120 (codes "default") 9000
    ∷ []

runs_twice : runs (codes "j1") events (enqueue_job job []) ≡ 2
unfolding enqueue_job wallet_bot.Jobs.Queue.claim_jobs wallet_bot.Jobs.Queue.reclaim_stuck_jobs
    wallet_bot.Jobs.Runner.run_one wallet_bot.Jobs.Queue.fail_job
runs_twice = refl

events-is_other : All (λ e. is_other (codes "j1") e ≡ true) events
events-is_other = (refl, (refl, (refl, (refl, (refl, tt)))))

runs-le-max_attempts_example : runs (codes "j1") events (enqueue_job job []) ≤ 2
runs-le-max_attempts_example = runs-le-max_attempts job events [] refl refl refl events-is_other
