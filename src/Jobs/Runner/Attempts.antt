-- ===== src/Jobs/Runner/Attempts.antt =====
-- How often a job is run: packages/core/src/jobs/runner.ts.
use wallet_bot.Base.{
  ℕ, ◌+◌, ◌-◌, ◌≤◌, ◌≡◌, refl, Bool, true, false, List, [], ◌∷◌, ◌++◌, Option, ltb, ◌&&◌, ◌||◌, not,
  arith, if◌then◌else◌, All,
}
use wallet_bot.Base.Text.{Text, eq_text}
use wallet_bot.Jobs.Queue.{
  JobRow, Jobs, is_queued, enqueue_job, bring_forward, claim_chosen, has_job, claim_jobs,
  complete_job, fail_job, exhaust_job, reclaim_stuck_jobs,
}
use wallet_bot.Jobs.Runner.{
  Outcome, no_handler, completed, threw, run_one, Event, enqueued, claimed, finished, reclaimed,
  step, handed,
}

-- A job in the queue has an attempt left.
abbrev pub has_attempt : JobRow → Bool
has_attempt r = not (is_queued r.status) || ltb r.attempts r.max_attempts

abbrev pub all_have : Jobs → Bool
all_have [] = true
all_have (r ∷ jobs) = has_attempt r && all_have jobs

-- The attempts that the rows with the identity have left.
abbrev pub left : Text → Jobs → ℕ
left id [] = 0
left id (r ∷ jobs) = (if eq_text r.id id then r.max_attempts - r.attempts else 0) + left id jobs

-- The number of rows with the identity.
abbrev pub count : Text → Jobs → ℕ
count id [] = 0
count id (r ∷ jobs) = (if eq_text r.id id then 1 else 0) + count id jobs

-- How often the events hand the job to a worker.
abbrev pub runs : Text → List Event → Jobs → ℕ
runs id [] jobs = 0
runs id (e ∷ events) jobs = count id (handed e jobs) + runs id events (step e jobs)

chosen_left :
    (id : Text) (chosen : Jobs) (worker : Text) (lease : ℕ) (queue : Text) (now : ℕ) (jobs : Jobs)
    → all_have jobs ≡ true
    → count id (claim_chosen chosen worker lease queue now jobs).0
        + left id (claim_chosen chosen worker lease queue now jobs).1
      ≡ left id jobs
chosen_left id chosen worker lease queue now [] h = refl
chosen_left id chosen worker lease queue now (r ∷ jobs) h =
    ground (arith, chosen_left id chosen worker lease queue now jobs)

chosen_have :
    (chosen : Jobs) (worker : Text) (lease : ℕ) (queue : Text) (now : ℕ) (jobs : Jobs)
    → all_have jobs ≡ true
    → all_have (claim_chosen chosen worker lease queue now jobs).1 ≡ true
chosen_have chosen worker lease queue now [] h = refl
chosen_have chosen worker lease queue now (r ∷ jobs) h =
    ground (arith, chosen_have chosen worker lease queue now jobs)

fail_left :
    (id key error : Text) (delay now : ℕ) (jobs : Jobs)
    → left id (fail_job key error delay now jobs) ≡ left id jobs
unfolding fail_job
fail_left id key error delay now [] = refl
fail_left id key error delay now (r ∷ jobs) = ground (arith, fail_left id key error delay now jobs)

fail_have :
    (key error : Text) (delay now : ℕ) (jobs : Jobs)
    → all_have jobs ≡ true
    → all_have (fail_job key error delay now jobs) ≡ true
unfolding fail_job
fail_have key error delay now [] h = refl
fail_have key error delay now (r ∷ jobs) h = ground (arith, fail_have key error delay now jobs)

complete_left :
    (id key : Text) (now : ℕ) (jobs : Jobs) → left id (complete_job key now jobs) ≡ left id jobs
unfolding complete_job
complete_left id key now [] = refl
complete_left id key now (r ∷ jobs) = ground (arith, complete_left id key now jobs)

complete_have :
    (key : Text) (now : ℕ) (jobs : Jobs)
    → all_have jobs ≡ true
    → all_have (complete_job key now jobs) ≡ true
unfolding complete_job
complete_have key now [] h = refl
complete_have key now (r ∷ jobs) h = ground (arith, complete_have key now jobs)

-- A row with no attempt left does not go back to the queue.
exhaust_left : (id key : Text) (jobs : Jobs) → left id (exhaust_job key jobs) ≤ left id jobs
unfolding exhaust_job
exhaust_left id key [] = omega arith
exhaust_left id key (r ∷ jobs) = ground (arith, exhaust_left id key jobs)

refuse_have :
    (key error : Text) (delay now : ℕ) (jobs : Jobs)
    → all_have jobs ≡ true
    → all_have (fail_job key error delay now (exhaust_job key jobs)) ≡ true
unfolding fail_job exhaust_job
refuse_have key error delay now [] h = refl
refuse_have key error delay now (r ∷ jobs) h = ground (arith, refuse_have key error delay now jobs)

reclaim_left :
    (id : Text) (grace now : ℕ) (jobs : Jobs)
    → left id (reclaim_stuck_jobs grace now jobs) ≡ left id jobs
unfolding reclaim_stuck_jobs
reclaim_left id grace now [] = refl
reclaim_left id grace now (r ∷ jobs) = ground (arith, reclaim_left id grace now jobs)

reclaim_have :
    (grace now : ℕ) (jobs : Jobs)
    → all_have jobs ≡ true
    → all_have (reclaim_stuck_jobs grace now jobs) ≡ true
unfolding reclaim_stuck_jobs
reclaim_have grace now [] h = refl
reclaim_have grace now (r ∷ jobs) h = ground (arith, reclaim_have grace now jobs)

forward_left :
    (id : Text) (key : Option Text) (run_at : ℕ) (jobs : Jobs)
    → left id (bring_forward key run_at jobs) ≡ left id jobs
forward_left id key run_at [] = refl
forward_left id key run_at (r ∷ jobs) = ground (arith, forward_left id key run_at jobs)

forward_have :
    (key : Option Text) (run_at : ℕ) (jobs : Jobs)
    → all_have jobs ≡ true
    → all_have (bring_forward key run_at jobs) ≡ true
forward_have key run_at [] h = refl
forward_have key run_at (r ∷ jobs) h = ground (arith, forward_have key run_at jobs)

append_left :
    (id : Text) (job : JobRow) (jobs : Jobs)
    → eq_text job.id id ≡ false
    → left id (jobs ++ (job ∷ [])) ≡ left id jobs
append_left id job [] h = rw h refl
append_left id job (r ∷ jobs) h = ground (arith, append_left id job jobs h)

append_have :
    (job : JobRow) (jobs : Jobs)
    → has_attempt job ≡ true
    → all_have jobs ≡ true
    → all_have (jobs ++ (job ∷ [])) ≡ true
append_have job [] h hs = rw h refl
append_have job (r ∷ jobs) h hs = ground (arith, append_have job jobs h)

-- An event is of another job, and what it adds to the queue has an attempt left: a new row has an
-- identity of its own, and the constraint jobs_attempts.
abbrev pub is_other : Text → Event → Bool
is_other id (enqueued job) = not (eq_text job.id id) && has_attempt job
is_other id _ = true

enqueue_left :
    (id : Text) (job : JobRow) (jobs : Jobs)
    → eq_text job.id id ≡ false
    → left id (enqueue_job job jobs) ≡ left id jobs
unfolding enqueue_job
enqueue_left id job jobs h =
    ground (arith, forward_left id job.dedupe_key job.run_at jobs, append_left id job jobs h)

enqueue_have :
    (job : JobRow) (jobs : Jobs)
    → has_attempt job ≡ true
    → all_have jobs ≡ true
    → all_have (enqueue_job job jobs) ≡ true
unfolding enqueue_job
enqueue_have job jobs h hs =
    ground (arith, forward_have job.dedupe_key job.run_at jobs hs, append_have job jobs h hs)

run_left :
    (id : Text) (job : JobRow) (outcome : Outcome) (delay now : ℕ) (jobs : Jobs)
    → left id (run_one job outcome delay now jobs) ≤ left id jobs
unfolding run_one
run_left id job (no_handler m) delay now jobs = omega (arith, fail_left id job.id m 0 now jobs)
run_left id job completed delay now jobs = omega (arith, complete_left id job.id now jobs)
run_left id job (threw true m) delay now jobs = omega (arith, fail_left id job.id m delay now jobs)
run_left id job (threw false m) delay now jobs =
    omega
      (arith, exhaust_left id job.id jobs, fail_left id job.id m 0 now (exhaust_job job.id jobs))

run_have :
    (job : JobRow) (outcome : Outcome) (delay now : ℕ) (jobs : Jobs)
    → all_have jobs ≡ true
    → all_have (run_one job outcome delay now jobs) ≡ true
unfolding run_one
run_have job (no_handler m) delay now jobs h = fail_have job.id m 0 now jobs h
run_have job completed delay now jobs h = complete_have job.id now jobs h
run_have job (threw true m) delay now jobs h = fail_have job.id m delay now jobs h
run_have job (threw false m) delay now jobs h = refuse_have job.id m 0 now jobs h

left_after :
    (id : Text) (e : Event) (jobs : Jobs)
    → is_other id e ≡ true
    → all_have jobs ≡ true
    → count id (handed e jobs) + left id (step e jobs) ≤ left id jobs
unfolding claim_jobs
left_after id (enqueued job) jobs o h = ground (arith, enqueue_left id job jobs)
left_after id (claimed worker limit lease queue now) jobs o h =
    omega (arith, chosen_left id _ worker lease queue now jobs h)
left_after id (finished job outcome delay now) jobs o h =
    omega (arith, run_left id job outcome delay now jobs)
left_after id (reclaimed grace now) jobs o h = omega (arith, reclaim_left id grace now jobs)

step_have :
    (id : Text) (e : Event) (jobs : Jobs)
    → is_other id e ≡ true
    → all_have jobs ≡ true
    → all_have (step e jobs) ≡ true
unfolding claim_jobs
step_have id (enqueued job) jobs o h = ground (arith, enqueue_have job jobs)
step_have id (claimed worker limit lease queue now) jobs o h =
    chosen_have _ worker lease queue now jobs h
step_have id (finished job outcome delay now) jobs o h = run_have job outcome delay now jobs h
step_have id (reclaimed grace now) jobs o h = reclaim_have grace now jobs h

-- A job is handed to workers at most as often as it has attempts left, so at most `max_attempts`
-- times when it is new, whatever enqueues, claims, ends of handlers and reclaims follow each other,
-- if the rows in the queue have an attempt left and no other row gets its identity.
pub runs-le-left :
    (id : Text) (events : List Event) (jobs : Jobs)
    → All (λ e. is_other id e ≡ true) events
    → all_have jobs ≡ true
    → runs id events jobs ≤ left id jobs
runs-le-left id [] jobs others h = omega arith
runs-le-left id (e ∷ events) jobs others h = omega (
  arith,
  left_after id e jobs others.0 h,
  runs-le-left id events (step e jobs) others.1 (step_have id e jobs others.0 h),
)

absent_left : (id : Text) (jobs : Jobs) → has_job id jobs ≡ false → left id jobs ≡ 0
absent_left id [] h = refl
absent_left id (r ∷ jobs) h = ground (arith, absent_left id jobs)

new_left :
    (job : JobRow) (jobs : Jobs)
    → has_job job.id jobs ≡ false
    → left job.id (jobs ++ (job ∷ [])) ≤ job.max_attempts
new_left job [] h = ground arith
new_left job (r ∷ jobs) h = ground (arith, new_left job jobs)

added_left :
    (job : JobRow) (jobs : Jobs)
    → has_job job.id jobs ≡ false
    → left job.id (enqueue_job job jobs) ≤ job.max_attempts
unfolding enqueue_job
added_left job jobs h = ground (
  arith,
  new_left job jobs h,
  absent_left job.id jobs h,
  forward_left job.id job.dedupe_key job.run_at jobs,
)

-- A job with an attempt left that is added to the queue is handed to workers at most `max_attempts`
-- times, whatever enqueues, claims, ends of handlers and reclaims follow each other, if no other row
-- has or gets its identity, and what is in the queue or gets into it has an attempt left.
pub runs-le-max_attempts :
    (job : JobRow) (events : List Event) (jobs : Jobs)
    → has_attempt job ≡ true
    → has_job job.id jobs ≡ false
    → all_have jobs ≡ true
    → All (λ e. is_other job.id e ≡ true) events
    → runs job.id events (enqueue_job job jobs) ≤ job.max_attempts
runs-le-max_attempts job events jobs new fresh have others = omega (
  arith,
  added_left job jobs fresh,
  runs-le-left job.id events (enqueue_job job jobs) others (enqueue_have job jobs new have),
)
