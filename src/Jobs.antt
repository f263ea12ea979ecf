-- ===== src/Jobs.antt =====
-- Background jobs: the queue in the database and the runner of packages/core/src/jobs.
pub mod Queue
pub mod Runner
