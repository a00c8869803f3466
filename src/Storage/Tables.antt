-- ===== src/Storage/Tables.antt =====
-- The rows of the SQLite schema (storage/migrations) and the statements on them. A table is the
-- list of its rows, newest first. A job row holds the decoded snapshot. A statement that a primary
-- key or a foreign key refuses raises `integrity_error`. Times are numbers of clock ticks.
pub mod Rows
use kenkui_server.Prelude.{
  ℕ, ◌+◌, Bool, not, ◌&&◌, ◌||◌, Option, List, [], ◌∷◌, Text, ◌==◌, ltb, if◌then◌else◌, find,
  exists, keep, is_some,
}
use kenkui_server.Prelude.Result.{integrity_error}
use kenkui_server.Prelude.Transaction.{Transaction, ◌>>◌, raise_if, execute}
use kenkui_server.Jobs.Models.{
  Identifier, Job, JobStatus, JobEvent, Progress, Dispatch, DispatchStatus, Artifact, Asset,
  Inspection,
}

pub record Idempotency : Type 0 where
  pub key : Identifier
  pub job_id : Identifier

pub record ExecutionLease : Type 0 where
  pub dispatch_id : Identifier
  pub token : Identifier
  pub expires_at : ℕ
  pub attempts : ℕ

pub record Failure : Type 0 where
  pub code : Text
  pub message : Text

pub record JobFailure : Type 0 where
  pub job_id : Identifier
  pub failure : Failure

pub record Database : Type 0 where
  pub assets : List Asset
  pub inspections : List Inspection
  pub jobs : List Job
  pub job_events : List JobEvent
  pub dispatches : List Dispatch
  pub artifacts : List Artifact
  pub job_idempotency : List Idempotency
  pub execution_leases : List ExecutionLease
  pub job_failures : List JobFailure

abbrev pub empty : Database
empty = record {
  assets = [];
  inspections = [];
  jobs = [];
  job_events = [];
  dispatches = [];
  artifacts = [];
  job_idempotency = [];
  execution_leases = [];
  job_failures = [];
}

-- Selections by a key.
unfoldable pub find_job : Identifier → List Job → Option Job
find_job id = find (λ j. j.id == id)

unfoldable pub find_dispatch : Identifier → List Dispatch → Option Dispatch
find_dispatch id = find (λ d. d.id == id)

unfoldable pub find_dispatch_for_job : Identifier → List Dispatch → Option Dispatch
find_dispatch_for_job id = find (λ d. d.job_id == id)

unfoldable pub find_lease : Identifier → List ExecutionLease → Option ExecutionLease
find_lease id = find (λ l. l.dispatch_id == id)

unfoldable pub find_key : Identifier → List Idempotency → Option Idempotency
find_key key = find (λ r. r.key == key)

unfoldable pub find_failure : Identifier → List JobFailure → Option JobFailure
find_failure id = find (λ f. f.job_id == id)

-- `SELECT COALESCE(MAX(sequence), 0) + 1 FROM job_events WHERE job_id = ?`
unfoldable pub max_sequence : Identifier → List JobEvent → ℕ
max_sequence id [] = 0
max_sequence id (e ∷ es) =
    let rest = max_sequence id es in
    if e.job_id == id && ltb rest e.sequence then e.sequence else rest

unfoldable pub next_sequence : Identifier → List JobEvent → ℕ
unfolding max_sequence
next_sequence id es = max_sequence id es + 1

-- `INSERT INTO jobs`
unfoldable pub insert_job : Job → Transaction Database (Unit {0})
unfolding find_job
insert_job job db =
    (raise_if (is_some (find_job job.id db.jobs)) integrity_error
        >> execute (λ db. record db { jobs = job ∷ db.jobs }))
      db

-- `INSERT INTO dispatches`
unfoldable pub insert_dispatch : Dispatch → Transaction Database (Unit {0})
unfolding find_job find_dispatch
insert_dispatch d db =
    (raise_if
          (is_some (find_dispatch d.id db.dispatches) || not (is_some (find_job d.job_id db.jobs)))
          integrity_error
        >> execute (λ db. record db { dispatches = d ∷ db.dispatches }))
      db

-- `INSERT INTO job_idempotency`
unfoldable pub insert_key : Idempotency → Transaction Database (Unit {0})
unfolding find_job find_key
insert_key r db =
    (raise_if
          (is_some (find_key r.key db.job_idempotency) || not (is_some (find_job r.job_id db.jobs)))
          integrity_error
        >> execute (λ db. record db { job_idempotency = r ∷ db.job_idempotency }))
      db

-- `INSERT INTO job_events`
unfoldable pub insert_event : JobEvent → Transaction Database (Unit {0})
unfolding find_job
insert_event e db =
    (raise_if
          (exists (λ o. o.job_id == e.job_id && o.sequence == e.sequence) db.job_events
            || e.sequence == 0
            || not (is_some (find_job e.job_id db.jobs)))
          integrity_error
        >> execute (λ db. record db { job_events = e ∷ db.job_events }))
      db

-- `INSERT INTO artifacts`
unfoldable pub insert_artifact : Artifact → Transaction Database (Unit {0})
unfolding find_job
insert_artifact a db =
    (raise_if (exists (λ o. o.id == a.id) db.artifacts || not (is_some (find_job a.job_id db.jobs)))
          integrity_error
        >> execute (λ db. record db { artifacts = a ∷ db.artifacts }))
      db

-- `INSERT INTO job_failures`
unfoldable pub insert_failure : JobFailure → Transaction Database (Unit {0})
unfolding find_job find_failure
insert_failure f db =
    (raise_if
          (is_some (find_failure f.job_id db.job_failures)
            || not (is_some (find_job f.job_id db.jobs)))
          integrity_error
        >> execute (λ db. record db { job_failures = f ∷ db.job_failures }))
      db

-- `INSERT OR REPLACE INTO job_failures`
unfoldable pub replace_failure : JobFailure → List JobFailure → List JobFailure
replace_failure f fs = f ∷ keep (λ o. not (o.job_id == f.job_id)) fs

-- The rows of `UPDATE … WHERE id = ? AND version = ?`.
abbrev pub job_at : Identifier → ℕ → Job → Bool
job_at id version j = j.id == id && j.version == version

abbrev pub dispatch_at : Identifier → ℕ → Dispatch → Bool
dispatch_at id version d = d.id == id && d.version == version

-- `UPDATE jobs SET status = ?, version = ?, progress_json = ?`
abbrev pub set_job : JobStatus → ℕ → Progress → Job → Job
set_job status version progress j = record j {
  status = status;
  version = version;
  progress = progress;
}

-- `UPDATE dispatches SET status = ?, version = ?`
abbrev pub set_dispatch : DispatchStatus → ℕ → Dispatch → Dispatch
set_dispatch status version d = record d { status = status; version = version }
