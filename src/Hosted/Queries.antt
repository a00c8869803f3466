-- ===== src/Hosted/Queries.antt =====
-- storage/postgres.py: the hosted repositories of single tables. The queries are those of
-- storage/repositories.py.
use kenkui_server.Prelude.{ℕ, ◌+◌, not, Option, none, some, List, ◌==◌, exists, keep, count, modify}
use kenkui_server.Prelude.Sorting.{sort_by}
use kenkui_server.Prelude.Result.{
  key_error, stale_write, invalid_job_version, invalid_dispatch_version,
}
use kenkui_server.Prelude.Transaction.{Transaction, ◌>>=◌, ◌>>◌, gets, raise_if, or_raise, execute}
use kenkui_server.Jobs.Models.{Identifier, Job, JobEvent, Dispatch, Artifact}
use kenkui_server.Billing.Models.{lookup}
use kenkui_server.Storage.Tables.{
  Failure, Database, find_job, find_dispatch_for_job, find_dispatch, find_failure, insert_event,
  insert_artifact, job_at, dispatch_at, set_job, set_dispatch,
}
use kenkui_server.Storage.Execution.{is_open}
use kenkui_server.Storage.Queries.{is_pending}
use kenkui_server.Hosted.Repositories.{Hosted}

-- `PostgresJobRepository.get`
unfoldable pub get_job : Identifier → Transaction Database Job
get_job id db = or_raise (find_job id db.jobs) key_error db

-- `PostgresJobRepository.list`
unfoldable pub list_jobs : Database → List Job
list_jobs db = sort_by (λ j. j.id) db.jobs

-- `PostgresJobRepository.update`, which leaves the stored spec and does not look at the new one.
unfoldable pub update_job : Job → ℕ → Transaction Database (Unit {0})
update_job job expected_version = do
  raise_if (not (job.version == expected_version + 1)) invalid_job_version
  rows ← gets (λ db. count (job_at job.id expected_version) db.jobs)
  raise_if (not (rows == 1)) stale_write
  execute (λ db. record db {
    jobs =
        modify (job_at job.id expected_version) (set_job job.status job.version job.progress)
          db.jobs;
  })

-- `PostgresJobRepository.owner_id`
unfoldable pub owner_id : Identifier → Transaction Hosted Identifier
owner_id job_id h = or_raise (lookup job_id h.owners) key_error h

-- `PostgresJobEventRepository.append`
unfoldable pub append_event : JobEvent → Transaction Database (Unit {0})
append_event event = insert_event event

-- `PostgresJobEventRepository.list_for_job`
unfoldable pub list_events : Identifier → List JobEvent → List JobEvent
list_events job_id events = sort_by (λ e. e.sequence) (keep (λ e. e.job_id == job_id) events)

-- `PostgresDispatchRepository.update`
unfoldable pub update_dispatch : Dispatch → ℕ → Transaction Database (Unit {0})
update_dispatch d expected_version = do
  raise_if (not (d.version == expected_version + 1)) invalid_dispatch_version
  rows ← gets (λ db. count (dispatch_at d.id expected_version) db.dispatches)
  raise_if (not (rows == 1)) stale_write
  execute (λ db. record db {
    dispatches =
        modify (dispatch_at d.id expected_version) (set_dispatch d.status d.version) db.dispatches;
  })

-- `PostgresDispatchRepository.get`
unfoldable pub get_dispatch : Identifier → Transaction Database Dispatch
get_dispatch id db = or_raise (find_dispatch id db.dispatches) key_error db

-- `PostgresDispatchRepository.get_for_job`
unfoldable pub get_dispatch_for_job : Identifier → Transaction Database Dispatch
get_dispatch_for_job job_id db = or_raise (find_dispatch_for_job job_id db.dispatches) key_error db

-- `PostgresDispatchRepository.list_pending`
unfoldable pub list_pending : Database → List Dispatch
list_pending db = sort_by (λ d. d.id) (keep (λ d. is_pending d.status) db.dispatches)

-- `PostgresDispatchRepository.list_incomplete`
unfoldable pub list_incomplete : Database → List Dispatch
list_incomplete db =
    sort_by (λ d. d.id) (keep (λ d. is_open (find_job d.job_id db.jobs)) db.dispatches)

-- `PostgresArtifactRepository.put`: `ON CONFLICT (job_id) DO NOTHING` inserts no row.
unfoldable pub put_artifact : Artifact → Transaction Database (Unit {0})
put_artifact artifact db =
    (raise_if (exists (λ a. a.job_id == artifact.job_id) db.artifacts) stale_write
        >> insert_artifact artifact)
      db

-- `PostgresArtifactRepository.list_for_job`
unfoldable pub list_artifacts : Identifier → Database → List Artifact
list_artifacts job_id db = sort_by (λ a. a.id) (keep (λ a. a.job_id == job_id) db.artifacts)

-- `PostgresExecution.failure_for_job`
unfoldable pub failure_for_job : Identifier → Database → Option Failure
failure_for_job job_id db = elim (find_failure job_id db.job_failures) [
  | none ↦ none
  | some row ↦ some row.failure
]
