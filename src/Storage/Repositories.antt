-- ===== src/Storage/Repositories.antt =====
-- storage/repositories.py: the compound writes of `Repositories`. `now` is what `time.time()`
-- returns in the call.
use kenkui_server.Prelude.{
  ℕ, ◌+◌, Bool, true, false, not, ◌&&◌, ◌||◌, Option, none, some, ◌==◌, leb, count, modify,
  if◌then◌else◌,
}
use kenkui_server.Prelude.Result.{
  stale_write, key_error, invalid_job_version, invalid_dispatch_version, immutable_job_spec,
  invalid_completion_artifact, orphaned_idempotency_key, idempotency_conflict,
}
use kenkui_server.Prelude.Transaction.{
  Transaction, pure, ◌>>=◌, ◌>>◌, gets, raise_if, or_raise, execute,
}
use kenkui_server.Jobs.Models.{
  Identifier, spec_eq, JobStatus, is_terminal, Job, EventType, JobEvent, Dispatch, DispatchStatus,
  Artifact,
}
use kenkui_server.Storage.Tables.{
  Idempotency, Failure, Database, find_job, find_dispatch, find_dispatch_for_job, find_lease,
  find_key, next_sequence, insert_job, insert_dispatch, insert_key, insert_event, insert_artifact,
  insert_failure, job_at, dispatch_at, set_job, set_dispatch,
}

abbrev pub Lease : Type 0
Lease = Identifier × Identifier

-- `JobRepository.get`
unfoldable pub get_job : Identifier → Transaction Database Job
get_job id db = or_raise (find_job id db.jobs) key_error db

-- `DispatchRepository.get`
unfoldable pub get_dispatch : Identifier → Transaction Database Dispatch
get_dispatch id db = or_raise (find_dispatch id db.dispatches) key_error db

-- `DispatchRepository.update`
unfoldable pub update_dispatch : Dispatch → ℕ → Transaction Database (Unit {0})
update_dispatch d expected_version = do
  raise_if (not (d.version == expected_version + 1)) invalid_dispatch_version
  rows ← gets (λ db. count (dispatch_at d.id expected_version) db.dispatches)
  raise_if (not (rows == 1)) stale_write
  execute (λ db. record db {
    dispatches =
        modify (dispatch_at d.id expected_version) (set_dispatch d.status d.version) db.dispatches;
  })

-- The lookup of `create_job_and_dispatch` under an idempotency key.
unfoldable pub replay_job : Option Identifier → Database → Option Idempotency
replay_job none db = none
replay_job (some key) db = find_key key db.job_idempotency

unfoldable pub record_key : Option Identifier → Identifier → Transaction Database (Unit {0})
record_key none job_id = pure tt
record_key (some key) job_id = insert_key (record { key = key; job_id = job_id })

unfoldable pub admit_new : Job → Dispatch → Option Identifier → Transaction Database Job
unfolding record_key
admit_new job dispatch idempotency_key = do
  insert_job job
  insert_dispatch dispatch
  record_key idempotency_key job.id
  pure job

unfoldable pub admit_again : Job → Idempotency → Transaction Database Job
admit_again job existing = do
  row ← gets (λ db. find_job existing.job_id db.jobs)
  existing_job ← or_raise row orphaned_idempotency_key
  raise_if (not (spec_eq existing_job.spec job.spec)) idempotency_conflict
  pure existing_job

-- `Repositories.create_job_and_dispatch`
unfoldable pub create_job_and_dispatch :
    Job → Dispatch → Option Identifier → Transaction Database Job
create_job_and_dispatch job dispatch idempotency_key db = elim (replay_job idempotency_key db) [
  | none ↦ admit_new job dispatch idempotency_key db
  | some existing ↦ admit_again job existing db
]

-- The test of `check_lease`.
unfoldable pub lease_held : ℕ → Lease → Database → Bool
lease_held now lease db = elim (find_lease lease.0 db.execution_leases) [
  | none ↦ false
  | some row ↦ row.token == lease.1 && not (leb row.expires_at now)
]

-- `Repositories.check_lease`
unfoldable pub check_lease : ℕ → Option Lease → Transaction Database (Unit {0})
unfolding lease_held
check_lease now none db = pure tt db
check_lease now (some lease) db = raise_if (not (lease_held now lease db)) stale_write db

-- `stored_spec is not None and stored_spec != job.spec`
unfoldable pub spec_changed : Job → Option Job → Bool
spec_changed job none = false
spec_changed job (some stored) = not (spec_eq stored.spec job.spec)

unfoldable pub record_failure : Identifier → Option Failure → Transaction Database (Unit {0})
record_failure id none = pure tt
record_failure id (some failure) = insert_failure (record { job_id = id; failure = failure })

abbrev pub is_succeeded : JobStatus → Bool
is_succeeded JobStatus.succeeded = true
is_succeeded _ = false

unfoldable pub record_artifact : Job → Option Artifact → Transaction Database (Unit {0})
record_artifact job none = pure tt
record_artifact job (some artifact) = do
  raise_if (not (is_succeeded job.status) || not (artifact.job_id == job.id))
      invalid_completion_artifact
  insert_artifact artifact

-- The optimistic `UPDATE jobs`, with the event that records it.
unfoldable pub commit_snapshot : Job → ℕ → EventType → Transaction Database JobEvent
commit_snapshot job expected_version event_type = do
  rows ← gets (λ db. count (job_at job.id expected_version) db.jobs)
  raise_if (not (rows == 1)) stale_write
  execute (λ db. record db {
    jobs =
        modify (job_at job.id expected_version) (set_job job.status job.version job.progress)
          db.jobs;
  })
  sequence ← gets (λ db. next_sequence job.id db.job_events)
  let event : JobEvent = record {
    job_id = job.id;
    sequence = sequence;
    event_type = event_type;
    progress = job.progress;
  }
  insert_event event
  pure event

-- `Repositories.update_job_and_append_event`
unfoldable pub update_job_and_append_event :
    ℕ
    → Job
    → ℕ
    → EventType
    → Option Artifact
    → Option Lease
    → Option Failure
    → Transaction Database JobEvent
update_job_and_append_event now job expected_version event_type artifact lease failure = do
  raise_if (not (job.version == expected_version + 1)) invalid_job_version
  check_lease now lease
  stored ← gets (λ db. find_job job.id db.jobs)
  raise_if (spec_changed job stored) immutable_job_spec
  event ← commit_snapshot job expected_version event_type
  record_failure job.id failure
  record_artifact job artifact
  pure event

-- `dispatch is not None and dispatch[0] not in {"pending", "running"}`
unfoldable pub is_finished : Option Dispatch → Bool
is_finished none = false
is_finished (some d) = elim d.status [
  | DispatchStatus.pending ↦ false
  | DispatchStatus.running ↦ false
  | _ ↦ true
]

-- The status that a cancellation gives to a job that is queued or running.
unfoldable pub cancellation_of : JobStatus → Option Dispatch → JobStatus × EventType
unfolding is_finished
cancellation_of JobStatus.queued dispatch = (JobStatus.cancelled, EventType.cancelled)
cancellation_of _ dispatch =
    if is_finished dispatch
    then (JobStatus.cancelled, EventType.cancelled)
    else (JobStatus.cancel_requested, EventType.cancel_requested)

-- `current.status.is_terminal or current.status is JobStatus.CANCEL_REQUESTED`
abbrev pub is_settled : JobStatus → Bool
is_settled JobStatus.cancel_requested = true
is_settled s = is_terminal s

unfoldable pub cancelled_snapshot : Job → JobStatus → Job
cancelled_snapshot current status = record current {
  status = status;
  version = current.version + 1;
}

unfoldable pub cancel_open : Job → Transaction Database Job
cancel_open current = do
  dispatch ← gets (λ db. find_dispatch_for_job current.id db.dispatches)
  let decision : JobStatus × EventType = cancellation_of current.status dispatch
  let job : Job = cancelled_snapshot current decision.0
  commit_snapshot job current.version decision.1 >> pure job

-- `Repositories.request_cancellation`
unfoldable pub request_cancellation : Identifier → Transaction Database Job
request_cancellation job_id = do
  current ← get_job job_id
  if is_settled current.status then pure current else cancel_open current

-- `Repositories.finish_dispatch_if_not_cancellation_requested`
unfoldable pub finish_dispatch : ℕ → Dispatch → Option Lease → Transaction Database Bool
finish_dispatch now dispatch lease = do
  check_lease now lease
  job ← get_job dispatch.job_id
  elim job.status [
    | JobStatus.cancel_requested ↦ pure false
    | status ↦
        raise_if (not (is_terminal status)) stale_write
        >> gets (λ db. count (dispatch_at dispatch.id dispatch.version) db.dispatches)
        >>= λ rows.
            raise_if (not (rows == 1)) stale_write
            >> execute (λ db. record db {
              dispatches =
                  modify (dispatch_at dispatch.id dispatch.version)
                    (set_dispatch DispatchStatus.done (dispatch.version + 1)) db.dispatches;
            })
            >> pure true
  ]
