-- ===== src/Jobs/Queue.antt =====
-- The table of jobs: packages/db/src/repositories/ops.ts and the functions app.enqueue_job,
-- app.claim_jobs and app.reclaim_stuck_jobs of supabase/migrations/0006_functions.sql. Times are
-- milliseconds; payloads are left out.
use wallet_bot.Base.{
  ℕ, ◌+◌, Bool, true, false, List, [], ◌∷◌, ◌++◌, Option, none, some, ltb, leb, ◌==◌, ◌&&◌, ◌||◌,
  if◌then◌else◌, take, min,
}
use wallet_bot.Base.Text.{Text, eq_text, codes}

-- `failed` is a status that no statement here sets.
pub data JobStatus : Type 0 where
  queued running succeeded failed dead : JobStatus

pub record JobRow : Type 0 where
  pub id : Text
  pub type : Text
  pub queue : Text
  pub status : JobStatus
  pub priority : ℕ
  pub run_at : ℕ
  pub attempts : ℕ
  pub max_attempts : ℕ
  pub locked_by : Option Text
  pub locked_until : Option ℕ
  pub last_error : Option Text
  pub dedupe_key : Option Text
  pub started_at : Option ℕ
  pub finished_at : Option ℕ

abbrev pub Jobs : Type 0
Jobs = List JobRow

abbrev pub is_queued : JobStatus → Bool
is_queued JobStatus.queued = true
is_queued _ = false

abbrev pub is_running : JobStatus → Bool
is_running JobStatus.running = true
is_running _ = false

abbrev same_key : Option Text → Option Text → Bool
same_key (some k) (some l) = eq_text k l
same_key _ _ = false

-- The partial unique index on the keys of the jobs that are queued or running.
abbrev pub is_pending_with : Option Text → JobRow → Bool
is_pending_with key r = same_key key r.dedupe_key && (is_queued r.status || is_running r.status)

abbrev pub has_pending : Option Text → Jobs → Bool
has_pending key [] = false
has_pending key (r ∷ jobs) = is_pending_with key r || has_pending key jobs

abbrev pub bring_forward : Option Text → ℕ → Jobs → Jobs
bring_forward key run_at [] = []
bring_forward key run_at (r ∷ jobs) =
    let rest = bring_forward key run_at jobs in
    if is_pending_with key r then record r { run_at = min r.run_at run_at } ∷ rest else r ∷ rest

abbrev pub new_job : Text → Text → ℕ → Option Text → Text → ℕ → ℕ → JobRow
new_job id type run_at dedupe_key queue priority max_attempts = record {
  id = id;
  type = type;
  queue = queue;
  status = JobStatus.queued;
  priority = priority;
  run_at = run_at;
  attempts = 0;
  max_attempts = max_attempts;
  locked_by = none;
  locked_until = none;
  last_error = none;
  dedupe_key = dedupe_key;
  started_at = none;
  finished_at = none;
}

-- The database gives the identity.
unfoldable pub enqueue_job : JobRow → Jobs → Jobs
enqueue_job job jobs =
    if has_pending job.dedupe_key jobs
    then bring_forward job.dedupe_key job.run_at jobs
    else jobs ++ (job ∷ [])

abbrev pub is_claimable : Text → ℕ → JobRow → Bool
is_claimable queue now r = eq_text r.queue queue && is_queued r.status && leb r.run_at now

-- `ORDER BY priority ASC, run_at ASC`.
abbrev comes_first : JobRow → JobRow → Bool
comes_first r q = ltb r.priority q.priority || (r.priority == q.priority && leb r.run_at q.run_at)

abbrev insert_by_priority : JobRow → Jobs → Jobs
insert_by_priority r [] = r ∷ []
insert_by_priority r (q ∷ jobs) =
    let rest = insert_by_priority r jobs in if comes_first r q then r ∷ q ∷ jobs else q ∷ rest

abbrev claimable_jobs : Text → ℕ → Jobs → Jobs
claimable_jobs queue now [] = []
claimable_jobs queue now (r ∷ jobs) =
    let rest = claimable_jobs queue now jobs in
    if is_claimable queue now r then insert_by_priority r rest else rest

abbrev pub has_job : Text → Jobs → Bool
has_job id [] = false
has_job id (r ∷ jobs) = eq_text r.id id || has_job id jobs

abbrev pub claimed_job : Text → ℕ → ℕ → JobRow → JobRow
claimed_job worker lease now r = record r {
  status = JobStatus.running;
  attempts = r.attempts + 1;
  locked_by = some worker;
  locked_until = some (now + lease);
  started_at = some now;
}

-- The rows that are returned, and the table after the update of the rows that were chosen: those
-- that can be claimed and have the identity, the primary key, of a chosen one.
abbrev pub claim_chosen : Jobs → Text → ℕ → Text → ℕ → Jobs → Jobs × Jobs
claim_chosen chosen worker lease queue now [] = ([], [])
claim_chosen chosen worker lease queue now (r ∷ jobs) =
    let (claimed, jobs') = claim_chosen chosen worker lease queue now jobs in
    if is_claimable queue now r && has_job r.id chosen
    then (claimed_job worker lease now r ∷ claimed, claimed_job worker lease now r ∷ jobs')
    else (claimed, r ∷ jobs')

unfoldable pub claim_jobs : Text → ℕ → ℕ → Text → ℕ → Jobs → Jobs × Jobs
claim_jobs worker limit lease queue now jobs =
    claim_chosen (take limit (claimable_jobs queue now jobs)) worker lease queue now jobs

unfoldable pub complete_job : Text → ℕ → Jobs → Jobs
complete_job id now [] = []
complete_job id now (r ∷ jobs) =
    let rest = complete_job id now jobs in
    if eq_text r.id id
    then record r {
      status = JobStatus.succeeded;
      finished_at = some now;
      locked_by = none;
      locked_until = none;
      last_error = none;
    }
      ∷ rest
    else r ∷ rest

-- `CASE WHEN attempts >= max_attempts THEN 'dead' ELSE 'queued' END`.
abbrev pub dead_or_queued : JobRow → JobStatus
dead_or_queued r = if leb r.max_attempts r.attempts then JobStatus.dead else JobStatus.queued

abbrev pub end_of : JobRow → ℕ → Option ℕ
end_of r now = if leb r.max_attempts r.attempts then some now else none

abbrev pub failed_job : Text → ℕ → ℕ → JobRow → JobRow
failed_job error delay now r = record r {
  status = dead_or_queued r;
  run_at = now + delay;
  locked_by = none;
  locked_until = none;
  last_error = some (take 2000 error);
  finished_at = end_of r now;
}

unfoldable pub fail_job : Text → Text → ℕ → ℕ → Jobs → Jobs
fail_job id error delay now [] = []
fail_job id error delay now (r ∷ jobs) =
    let rest = fail_job id error delay now jobs in
    if eq_text r.id id then failed_job error delay now r ∷ rest else r ∷ rest

-- `UPDATE jobs SET attempts = max_attempts`.
unfoldable pub exhaust_job : Text → Jobs → Jobs
exhaust_job id [] = []
exhaust_job id (r ∷ jobs) =
    let rest = exhaust_job id jobs in
    if eq_text r.id id then record r { attempts = r.max_attempts } ∷ rest else r ∷ rest

abbrev has_expired : Option ℕ → ℕ → ℕ → Bool
has_expired none grace now = false
has_expired (some until) grace now = ltb (until + grace) now

abbrev pub is_stuck : ℕ → ℕ → JobRow → Bool
is_stuck grace now r = is_running r.status && has_expired r.locked_until grace now

abbrev or_expired : Option Text → Option Text
or_expired none = some (codes "lease expired")
or_expired (some error) = some error

abbrev pub reclaimed_job : ℕ → JobRow → JobRow
reclaimed_job now r = record r {
  status = dead_or_queued r;
  locked_by = none;
  locked_until = none;
  last_error = or_expired r.last_error;
  finished_at = end_of r now;
}

unfoldable pub reclaim_stuck_jobs : ℕ → ℕ → Jobs → Jobs
reclaim_stuck_jobs grace now [] = []
reclaim_stuck_jobs grace now (r ∷ jobs) =
    let rest = reclaim_stuck_jobs grace now jobs in
    if is_stuck grace now r then reclaimed_job now r ∷ rest else r ∷ rest
