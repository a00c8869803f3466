-- ===== src/Storage/Queries.antt =====
-- storage/repositories.py: the repositories of single tables. An identifier is the number of its
-- text in the order of `str`, which `ORDER BY` follows.
pub mod History
mod Tests
use kenkui_server.Prelude.{
  ℕ, ◌+◌, Bool, true, false, not, ◌&&◌, ◌||◌, Option, none, some, List, [], ◌∷◌, Text, text_eq,
  ◌==◌, find, exists, keep, count, modify, is_some, if◌then◌else◌,
}
use kenkui_server.Prelude.Sorting.{sort_by}
use kenkui_server.Prelude.Result.{
  integrity_error, key_error, stale_write, invalid_job_version, immutable_job_spec,
  duplicate_event_sequence,
}
use kenkui_server.Prelude.Transaction.{
  Transaction, pure, ◌>>=◌, ◌>>◌, gets, raise_if, or_raise, execute,
}
use kenkui_server.Jobs.Models.{
  Identifier, Job, JobEvent, Dispatch, DispatchStatus, Artifact, Asset, Inspection,
}
use kenkui_server.Storage.Tables.{
  Failure, JobFailure, Database, find_job, find_dispatch_for_job, find_failure, insert_job,
  insert_dispatch, insert_event, insert_artifact, job_at,
}
use kenkui_server.Storage.Repositories.{spec_changed}

-- `AssetRepository.put`
unfoldable pub put_asset : Asset → Transaction Database (Unit {0})
put_asset asset db =
    (raise_if (exists (λ a. text_eq a.id asset.id) db.assets) integrity_error
        >> execute (λ db. record db { assets = asset ∷ db.assets }))
      db

-- `AssetRepository.get`
unfoldable pub get_asset : Text → Transaction Database Asset
get_asset asset_id db = or_raise (find (λ a. text_eq a.id asset_id) db.assets) key_error db

-- `InspectionRepository.put`
unfoldable pub put_inspection : Inspection → Transaction Database (Unit {0})
put_inspection inspection db =
    (raise_if
          (exists (λ i. text_eq i.source_id inspection.source_id) db.inspections
            || not (exists (λ a. text_eq a.id inspection.source_id) db.assets))
          integrity_error
        >> execute (λ db. record db { inspections = inspection ∷ db.inspections }))
      db

-- `InspectionRepository.get`
unfoldable pub get_inspection : Text → Transaction Database Inspection
get_inspection source_id db =
    or_raise (find (λ i. text_eq i.source_id source_id) db.inspections) key_error db

-- `JobRepository.create`
unfoldable pub create_job : Job → Transaction Database (Unit {0})
create_job job = insert_job job

-- `JobRepository.list`
unfoldable pub list_jobs : Database → List Job
list_jobs db = sort_by (λ j. j.id) db.jobs

-- `JobRepository.update`
unfoldable pub update_job : Job → ℕ → Transaction Database (Unit {0})
update_job job expected_version = do
  raise_if (not (job.version == expected_version + 1)) invalid_job_version
  stored ← gets (λ db. find_job job.id db.jobs)
  raise_if (spec_changed job stored) immutable_job_spec
  rows ← gets (λ db. count (job_at job.id expected_version) db.jobs)
  raise_if (not (rows == 1)) stale_write
  execute (λ db. record db { jobs = modify (job_at job.id expected_version) (λ _. job) db.jobs })

-- `JobEventRepository.append`: a primary key that is taken has an error of its own, after the check
-- of the sequence.
unfoldable pub append_event : JobEvent → Transaction Database (Unit {0})
append_event event db =
    (raise_if (event.sequence == 0) integrity_error
        >> raise_if
            (exists (λ o. o.job_id == event.job_id && o.sequence == event.sequence) db.job_events)
            duplicate_event_sequence
        >> insert_event event)
      db

-- `JobEventRepository.list_for_job`
unfoldable pub list_events : Identifier → List JobEvent → List JobEvent
list_events job_id events = sort_by (λ e. e.sequence) (keep (λ e. e.job_id == job_id) events)

-- `DispatchRepository.create`
unfoldable pub create_dispatch : Dispatch → Transaction Database (Unit {0})
create_dispatch dispatch = insert_dispatch dispatch

-- `DispatchRepository.get_for_job`
unfoldable pub get_dispatch_for_job : Identifier → Transaction Database Dispatch
get_dispatch_for_job job_id db = or_raise (find_dispatch_for_job job_id db.dispatches) key_error db

abbrev pub is_pending : DispatchStatus → Bool
is_pending DispatchStatus.pending = true
is_pending _ = false

-- `DispatchRepository.list_pending`
unfoldable pub list_pending : Database → List Dispatch
list_pending db = sort_by (λ d. d.id) (keep (λ d. is_pending d.status) db.dispatches)

-- `ArtifactRepository.put`
unfoldable pub put_artifact : Artifact → Transaction Database (Unit {0})
put_artifact artifact = insert_artifact artifact

-- `ArtifactRepository.list_for_job`
unfoldable pub list_artifacts : Identifier → Database → List Artifact
list_artifacts job_id db = sort_by (λ a. a.id) (keep (λ a. a.job_id == job_id) db.artifacts)

-- `Repositories.failure_for_job`
unfoldable pub failure_for_job : Identifier → Database → Option Failure
failure_for_job job_id db = elim (find_failure job_id db.job_failures) [
  | none ↦ none
  | some row ↦ some row.failure
]
