-- ===== src/Hosted/Execution.antt =====
-- storage/postgres_execution.py: `PostgresExecution`, with the billing of the hosted repository.
use kenkui_server.Prelude.{
  ℕ, ◌+◌, Bool, ◌||◌, Option, none, some, List, ◌∷◌, ◌==◌, leb, if◌then◌else◌, modify, is_some,
}
use kenkui_server.Prelude.Transaction.{Transaction, pure, ◌>>=◌, ◌>>◌, gets, execute}
use kenkui_server.Jobs.Models.{Identifier, Job, JobStatus, is_terminal, EventType, DispatchStatus}
use kenkui_server.Storage.Tables.{
  Database, ExecutionLease, JobFailure, find_job, find_lease, find_failure, next_sequence,
  insert_event,
}
use kenkui_server.Storage.Execution.{
  job_of_dispatch, active_count, worker_lost, lost_status, grant, is_live, is_exhausted,
  renew_execution as renew_local, release_execution as release_local,
}
use kenkui_server.Hosted.Repositories.{Hosted, on_db, end_job}

-- `INSERT INTO job_failures … ON CONFLICT(job_id) DO NOTHING`
unfoldable pub keep_failure : JobFailure → List JobFailure → List JobFailure
keep_failure f fs = if is_some (find_failure f.job_id fs) then fs else f ∷ fs

-- `INSERT INTO job_events SELECT … FROM jobs WHERE id=%s`
unfoldable pub log_loss : EventType → Option Job → Transaction Database (Unit {0})
log_loss type none = pure tt
log_loss type (some row) = do
  sequence ← gets (λ db. next_sequence row.id db.job_events)
  insert_event
      (record { job_id = row.id; sequence = sequence; event_type = type; progress = row.progress })

-- The writes that give a job up, on the job tables: `job` is the row that the claim read first, and
-- the row that is written may be a later one.
unfoldable pub give_up_rows : Identifier → Job → Transaction Database (Unit {0})
unfolding lost_status keep_failure log_loss
give_up_rows dispatch_id job = do
  let decision : JobStatus × EventType = lost_status job.status
  execute (λ db. record db {
    jobs =
        modify (λ j. j.id == job.id)
          (λ j. record j { status = decision.0; version = j.version + 1 }) db.jobs;
    dispatches =
        modify (λ d. d.id == dispatch_id)
          (λ d. record d { status = DispatchStatus.done; version = d.version + 1 }) db.dispatches;
    job_failures = keep_failure (record { job_id = job.id; failure = worker_lost }) db.job_failures;
  })
  row ← gets (λ db. find_job job.id db.jobs)
  log_loss decision.1 row

-- The writes of `claim_execution` that give a job up. The status is cancelled or failed, so the
-- authorization is released.
unfoldable pub give_up : ℕ → Identifier → Identifier → Job → Transaction Hosted (Option Identifier)
give_up db_now entry_uuid dispatch_id job = do
  on_db (give_up_rows dispatch_id job)
  end_job db_now entry_uuid job.id (lost_status job.status).0
  pure none

unfoldable pub claim_job :
    ℕ
    → ℕ
    → Identifier
    → Identifier
    → ℕ
    → ℕ
    → ℕ
    → Identifier
    → Job
    → Option ExecutionLease
    → Transaction Hosted (Option Identifier)
claim_job now db_now entry_uuid dispatch_id limit ttl max_attempts token job previous h =
    if is_terminal job.status || is_live now previous || leb limit (active_count now h.db)
    then pure none h
    else if is_exhausted max_attempts previous
    then give_up db_now entry_uuid dispatch_id job h
    else on_db (grant now dispatch_id token ttl previous) h

-- `claim_execution` from its first query on, which reads the row of the job without a lock: other
-- transactions may commit before the statements that follow, which see the state `h`.
unfoldable pub claim_seen :
    ℕ
    → ℕ
    → Identifier
    → Identifier
    → ℕ
    → ℕ
    → ℕ
    → Identifier
    → Option Job
    → Transaction Hosted (Option Identifier)
claim_seen now db_now entry_uuid dispatch_id limit ttl max_attempts token seen h = elim seen [
  | none ↦ pure none h
  | some job ↦
      claim_job now db_now entry_uuid dispatch_id limit ttl max_attempts token job
        (find_lease dispatch_id h.db.execution_leases) h
]

-- `claim_execution` when nothing is committed after its first query.
unfoldable pub claim_execution :
    ℕ
    → ℕ
    → Identifier
    → Identifier
    → ℕ
    → ℕ
    → ℕ
    → Identifier
    → Transaction Hosted (Option Identifier)
unfolding claim_seen
claim_execution now db_now entry_uuid dispatch_id limit ttl max_attempts token h =
    claim_seen now db_now entry_uuid dispatch_id limit ttl max_attempts token
      (job_of_dispatch dispatch_id h.db) h

-- `renew_execution`: the clock is read for the new expiry, and again for the test.
unfoldable pub renew_execution : ℕ → ℕ → Identifier → Identifier → ℕ → Transaction Hosted Bool
renew_execution first now dispatch_id token ttl =
    on_db (renew_local first now dispatch_id token ttl)

-- `release_execution`
unfoldable pub release_execution : Identifier → Identifier → Transaction Hosted (Unit {0})
release_execution dispatch_id token = on_db (release_local dispatch_id token)
