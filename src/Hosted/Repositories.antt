-- ===== src/Hosted/Repositories.antt =====
-- storage/postgres.py: `PostgresHostedRepository`, whose transactions write the job tables and the
-- billing tables together. The statements on the job tables are those of storage/repositories.py,
-- but for the owner of a job, the time of its end, and one dispatch and one artifact for each job.
-- `now` is what `time.time()` returns, `db_now` is `now()` in the database.
use kenkui_server.Prelude.{
  ℕ, Bool, false, not, ◌&&◌, Option, none, some, List, ◌∷◌, Text, text_eq, ◌==◌, leb, count, exists,
  if◌then◌else◌,
}
use kenkui_server.Prelude.Result.{
  ok, err, integrity_error, key_error, invalid_credit_amount, active_job_limit, source_expired,
}
use kenkui_server.Prelude.Transaction.{
  Transaction, pure, raise, ◌>>=◌, ◌>>◌, gets, raise_if, execute,
}
use kenkui_server.Jobs.Models.{
  Identifier, Job, JobStatus, is_terminal, JobEvent, EventType, Dispatch, Artifact,
}
use kenkui_server.Billing.Models.{AuthorizationStatus, lookup}
use kenkui_server.Storage.Tables.{Database, Failure, find_job, insert_job, insert_dispatch}
use kenkui_server.Storage.Repositories.{
  Lease, check_lease, commit_snapshot, record_failure, record_artifact, is_succeeded, is_settled,
  cancel_open, finish_dispatch as finish_local, replay_job, admit_again, record_key,
}
use kenkui_server.Hosted.Tables.{Books}
use kenkui_server.Hosted.Billing.{finalize, hold}

-- The job tables, the billing tables, and the columns `jobs.owner_id`, `jobs.terminal_at` and
-- `assets.deleted_at`: the assets that have one.
pub record Hosted : Type 0 where
  pub db : Database
  pub books : Books
  pub owners : List (Identifier × Identifier)
  pub terminal_at : List (Identifier × ℕ)
  pub deleted : List Text

abbrev pub on_db : {A : Type 0} → Transaction Database A → Transaction Hosted A
on_db m h = elim (m h.db) [ err e ↦ err e | ok (a, db) ↦ ok (a, record h { db = db }) ]

abbrev pub on_books : {A : Type 0} → Transaction Books A → Transaction Hosted A
on_books m h = elim (m h.books) [
  | err e ↦ err e
  | ok (a, books) ↦ ok (a, record h { books = books })
]

-- `PostgresDispatchRepository.create`: `dispatches_one_per_job` allows one dispatch for a job.
unfoldable pub create_dispatch : Dispatch → Transaction Database (Unit {0})
create_dispatch d db =
    (raise_if (exists (λ o. o.job_id == d.job_id) db.dispatches) integrity_error
        >> insert_dispatch d)
      db

-- The row of a job with its owner.
unfoldable pub insert_owned_job : Job → Identifier → Transaction Hosted (Unit {0})
insert_owned_job job owner_id = do
  on_db (insert_job job)
  execute (λ h. record h { owners = (job.id, owner_id) ∷ h.owners })

-- `owner_id=%s AND status NOT IN ('succeeded','failed','cancelled')`
abbrev pub is_active_of : Identifier → List (Identifier × Identifier) → Job → Bool
is_active_of owner_id owners j =
    (elim (lookup j.id owners) [ none ↦ false | some o ↦ o == owner_id ])
    && not (is_terminal j.status)

unfoldable pub active_jobs : Identifier → Hosted → ℕ
active_jobs owner_id h = count (is_active_of owner_id h.owners) h.db.jobs

-- `source is not None and source["deleted_at"] is not None`
unfoldable pub is_expired : Text → Hosted → Bool
is_expired source_id h = exists (text_eq source_id) h.deleted

-- `admit` of a new job.
unfoldable pub admit_fresh :
    Identifier
    → Identifier
    → Job
    → Dispatch
    → Identifier
    → Identifier
    → ℕ
    → Option Identifier
    → Transaction Hosted Job
admit_fresh uuid entry_uuid job dispatch account_id owner_id credits idempotency_key = do
  active ← gets (active_jobs owner_id)
  raise_if (leb 3 active) active_job_limit
  expired ← gets (is_expired job.spec.source_id)
  raise_if expired source_expired
  on_books (hold uuid entry_uuid job.id account_id credits)
  insert_owned_job job owner_id
  on_db (create_dispatch dispatch)
  on_db (record_key idempotency_key job.id)
  pure job

-- `admit`
unfoldable pub admit :
    Identifier
    → Identifier
    → Job
    → Dispatch
    → Identifier
    → Identifier
    → ℕ
    → Option Identifier
    → Transaction Hosted Job
admit uuid entry_uuid job dispatch account_id owner_id credits idempotency_key h =
    if credits == 0 then raise invalid_credit_amount h else elim (replay_job idempotency_key h.db) [
      | some existing ↦ on_db (admit_again job existing) h
      | none ↦
          admit_fresh uuid entry_uuid job dispatch account_id owner_id credits idempotency_key h
    ]

-- `SETTLED if job.status is JobStatus.SUCCEEDED else RELEASED`
abbrev pub final_for : JobStatus → AuthorizationStatus
final_for JobStatus.succeeded = AuthorizationStatus.settled
final_for _ = AuthorizationStatus.released

-- The end of a job: its time, and the final call of its authorization.
unfoldable pub end_job : ℕ → Identifier → Identifier → JobStatus → Transaction Hosted (Unit {0})
end_job db_now entry_uuid job_id status =
    if is_terminal status
    then execute (λ h. record h { terminal_at = (job_id, db_now) ∷ h.terminal_at })
      >> on_books (finalize entry_uuid job_id (final_for status))
      >> pure tt
    else pure tt

-- The artifact of a completion: `artifacts_one_per_job` allows one for a job.
unfoldable pub publish_artifact : Job → Option Artifact → Transaction Database (Unit {0})
publish_artifact job none db = pure tt db
publish_artifact job (some artifact) db =
    (raise_if
          (is_succeeded job.status
            && artifact.job_id == job.id
            && exists (λ o. o.job_id == artifact.job_id) db.artifacts)
          integrity_error
        >> record_artifact job (some artifact))
      db

-- `update_job_and_append_event`
unfoldable pub update_job_and_append_event :
    ℕ
    → ℕ
    → Identifier
    → Job
    → ℕ
    → EventType
    → Option Artifact
    → Option Lease
    → Option Failure
    → Transaction Hosted JobEvent
update_job_and_append_event now db_now entry_uuid job expected_version event_type artifact lease
      failure =
    do
      on_db (check_lease now lease)
      event ← on_db (commit_snapshot job expected_version event_type)
      on_db (publish_artifact job artifact)
      on_db (record_failure job.id failure)
      end_job db_now entry_uuid job.id job.status
      pure event

-- `request_cancellation` of a job that is queued or running.
unfoldable pub cancel_hosted : ℕ → Identifier → Job → Transaction Hosted Job
cancel_hosted db_now entry_uuid current = do
  cancelled ← on_db (cancel_open current)
  end_job db_now entry_uuid cancelled.id cancelled.status
  pure cancelled

-- `request_cancellation`
unfoldable pub request_cancellation : ℕ → Identifier → Identifier → Transaction Hosted Job
request_cancellation db_now entry_uuid job_id h = elim (find_job job_id h.db.jobs) [
  | none ↦ raise key_error h
  | some current ↦
      if is_settled current.status
      then pure current h
      else cancel_hosted db_now entry_uuid current h
]

-- `finish_dispatch_if_not_cancellation_requested`
unfoldable pub finish_dispatch : ℕ → Dispatch → Option Lease → Transaction Hosted Bool
finish_dispatch now dispatch lease = on_db (finish_local now dispatch lease)
