-- ===== src/Storage/Execution.antt =====
-- storage/repositories.py: execution leases. `now` is the `time.time()` that the method reads and
-- `token` its new `uuid4`.
use kenkui_server.Prelude.{
  ℕ, ◌+◌, Bool, false, not, ◌&&◌, ◌||◌, Option, none, some, List, ◌∷◌, codes, ◌==◌, ltb, leb, count,
  keep, modify, if◌then◌else◌,
}
use kenkui_server.Prelude.Sorting.{sort_by}
use kenkui_server.Prelude.Transaction.{Transaction, pure, ◌>>=◌, ◌>>◌, gets, execute}
use kenkui_server.Jobs.Models.{
  Identifier, JobStatus, is_terminal, Job, EventType, Dispatch, DispatchStatus,
}
use kenkui_server.Storage.Tables.{
  ExecutionLease, Failure, Database, find_job, find_dispatch, find_lease, next_sequence,
  insert_event, replace_failure,
}

-- The job of a dispatch: `FROM dispatches d JOIN jobs j ON j.id = d.job_id WHERE d.id = ?`
unfoldable pub job_of_dispatch : Identifier → Database → Option Job
job_of_dispatch dispatch_id db = elim (find_dispatch dispatch_id db.dispatches) [
  | none ↦ none
  | some d ↦ find_job d.job_id db.jobs
]

unfoldable pub is_open : Option Job → Bool
is_open none = false
is_open (some job) = not (is_terminal job.status)

-- A lease that is counted: `l.expires_at > now`, of a job that is not terminal.
unfoldable pub is_active : ℕ → Database → ExecutionLease → Bool
unfolding job_of_dispatch is_open
is_active now db l = ltb now l.expires_at && is_open (job_of_dispatch l.dispatch_id db)

unfoldable pub active_count : ℕ → Database → ℕ
unfolding is_active
active_count now db = count (is_active now db) db.execution_leases

unfoldable pub worker_lost : Failure
worker_lost = record {
  code = codes "worker_lost";
  message = codes "The worker repeatedly stopped. Please retry the job.";
}

-- The status of a job whose worker was lost too often, and the type of its event.
unfoldable pub lost_status : JobStatus → JobStatus × EventType
lost_status JobStatus.cancel_requested = (JobStatus.cancelled, EventType.cancelled)
lost_status _ = (JobStatus.failed, EventType.failed)

-- The writes of `claim_execution` that give a job up.
unfoldable pub terminalize : Identifier → Job → Transaction Database (Option Identifier)
unfolding lost_status
terminalize dispatch_id job = do
  let decision : JobStatus × EventType = lost_status job.status
  execute (λ db. record db {
    jobs =
        modify (λ j. j.id == job.id)
          (λ j. record j { status = decision.0; version = j.version + 1 }) db.jobs;
    dispatches =
        modify (λ d. d.id == dispatch_id)
          (λ d. record d { status = DispatchStatus.done; version = d.version + 1 }) db.dispatches;
    job_failures =
        replace_failure (record { job_id = job.id; failure = worker_lost }) db.job_failures;
  })
  sequence ← gets (λ db. next_sequence job.id db.job_events)
  insert_event (record {
    job_id = job.id;
    sequence = sequence;
    event_type = decision.1;
    progress = job.progress;
  })
  pure none

-- `INSERT INTO execution_leases … ON CONFLICT(dispatch_id) DO UPDATE`
unfoldable pub grant_lease :
    Identifier → Identifier → ℕ → Option ExecutionLease → List ExecutionLease → List ExecutionLease
grant_lease dispatch_id token expires_at none ls =
    record { dispatch_id = dispatch_id; token = token; expires_at = expires_at; attempts = 1 } ∷ ls
grant_lease dispatch_id token expires_at (some previous) ls =
    modify (λ l. l.dispatch_id == dispatch_id)
      (λ l. record l { token = token; expires_at = expires_at; attempts = l.attempts + 1 }) ls

unfoldable pub grant :
    ℕ
    → Identifier
    → Identifier
    → ℕ
    → Option ExecutionLease
    → Transaction Database (Option Identifier)
unfolding grant_lease
grant now dispatch_id token ttl previous = do
  execute (λ db. record db {
    execution_leases = grant_lease dispatch_id token (now + ttl) previous db.execution_leases;
    dispatches =
        modify (λ d. d.id == dispatch_id)
          (λ d. record d { status = DispatchStatus.pending; version = d.version + 1 })
          db.dispatches;
  })
  pure (some token)

abbrev pub is_live : ℕ → Option ExecutionLease → Bool
is_live now none = false
is_live now (some l) = ltb now l.expires_at

abbrev pub is_exhausted : ℕ → Option ExecutionLease → Bool
is_exhausted max_attempts none = false
is_exhausted max_attempts (some l) = leb max_attempts l.attempts

unfoldable pub claim_job :
    ℕ
    → Identifier
    → ℕ
    → ℕ
    → ℕ
    → Identifier
    → Job
    → Option ExecutionLease
    → Transaction Database (Option Identifier)
claim_job now dispatch_id limit ttl max_attempts token job previous db =
    if is_terminal job.status || is_live now previous || leb limit (active_count now db)
    then pure none db
    else if is_exhausted max_attempts previous
    then terminalize dispatch_id job db
    else grant now dispatch_id token ttl previous db

-- `Repositories.claim_execution`
unfoldable pub claim_execution :
    ℕ → Identifier → ℕ → ℕ → ℕ → Identifier → Transaction Database (Option Identifier)
claim_execution now dispatch_id limit ttl max_attempts token db =
    elim (job_of_dispatch dispatch_id db) [
      | none ↦ pure none db
      | some job ↦
          claim_job now dispatch_id limit ttl max_attempts token job
            (find_lease dispatch_id db.execution_leases) db
    ]

-- The row that `renew_execution` updates.
abbrev pub renewable : ℕ → Identifier → Identifier → ExecutionLease → Bool
renewable now dispatch_id token l =
    l.dispatch_id == dispatch_id && l.token == token && ltb now l.expires_at

-- `Repositories.renew_execution`: the clock is read for the new expiry, and again for the test.
unfoldable pub renew_execution : ℕ → ℕ → Identifier → Identifier → ℕ → Transaction Database Bool
renew_execution first now dispatch_id token ttl db =
    pure (count (renewable now dispatch_id token) db.execution_leases == 1) (record db {
      execution_leases =
          modify (renewable now dispatch_id token) (λ l. record l { expires_at = first + ttl })
            db.execution_leases;
    })

-- `Repositories.release_execution`
unfoldable pub release_execution : Identifier → Identifier → Transaction Database (Unit {0})
release_execution dispatch_id token db = pure tt (record db {
  execution_leases =
      modify (λ l. l.dispatch_id == dispatch_id && l.token == token)
        (λ l. record l { expires_at = 0 }) db.execution_leases;
})

-- `DispatchRepository.list_incomplete`
unfoldable pub list_incomplete : Database → List Dispatch
unfolding is_open
list_incomplete db =
    sort_by (λ d. d.id) (keep (λ d. is_open (find_job d.job_id db.jobs)) db.dispatches)
