-- ===== src/Storage/Changes/Updates.antt =====
-- `update_job_and_append_event`, taken apart: its guards, and the write in its middle.
use kenkui_server.Prelude.{ℕ, ◌+◌, ◌≡◌, true, false, Option, none, some, arith}
use kenkui_server.Prelude.Result.{ok, raised, returned, outcome}
use kenkui_server.Prelude.Transaction.{Transaction, ◌>>◌, pure}
use kenkui_server.Jobs.Models.{Identifier, Job, EventType, JobEvent, Artifact}
use kenkui_server.Storage.Tables.{Database, Failure, find_job, insert_failure, insert_artifact}
use kenkui_server.Storage.Repositories.{
  Lease, lease_held, check_lease, spec_changed, record_failure, record_artifact, commit_snapshot,
  update_job_and_append_event,
}

-- A call without a lease is not fenced.
abbrev pub IsHeld : ℕ → Option Lease → Database → Type 0
IsHeld now none db = Unit {0}
IsHeld now (some lease) db = lease_held now lease db ≡ true

pub check_lease-IsHeld :
    (now : ℕ) (lease : Option Lease) (db after : Database) (u : Unit {0})
    → check_lease now lease db ≡ ok (u, after)
    → IsHeld now lease db × (after ≡ db)
unfolding check_lease
check_lease-IsHeld now none db after u h = ground arith
check_lease-IsHeld now (some lease) db after u h = ground arith

-- What a write outside the job tables leaves alone.
pub record SameJobs (before after : Database) : Type 0 where
  pub jobs : after.jobs ≡ before.jobs
  pub events : after.job_events ≡ before.job_events
  pub dispatches : after.dispatches ≡ before.dispatches
  pub leases : after.execution_leases ≡ before.execution_leases

pub record_failure-SameJobs :
    (id : Identifier) (failure : Option Failure) (db after : Database) (u : Unit {0})
    → record_failure id failure db ≡ ok (u, after)
    → SameJobs db after
unfolding record_failure insert_failure
record_failure-SameJobs id none db after u h = ground arith
record_failure-SameJobs id (some failure) db after u h = ground arith

pub record_artifact-SameJobs :
    (job : Job) (artifact : Option Artifact) (db after : Database) (u : Unit {0})
    → record_artifact job artifact db ≡ ok (u, after)
    → SameJobs db after
unfolding record_artifact insert_artifact
record_artifact-SameJobs job none db after u h = ground arith
record_artifact-SameJobs job (some artifact) db after u h = ground arith

-- The writes that follow the commit.
abbrev write_rest :
    Job → Option Artifact → Option Failure → JobEvent → Transaction Database JobEvent
write_rest job artifact failure e = do
  record_failure job.id failure
  record_artifact job artifact
  pure e

write_rest-SameJobs :
    (job : Job) (artifact : Option Artifact) (failure : Option Failure) (e e' : JobEvent)
    (db after : Database)
    → write_rest job artifact failure e db ≡ ok (e', after)
    → (e' ≡ e) × SameJobs db after
write_rest-SameJobs job artifact failure e e' db after h =
    elim (outcome (record_failure job.id failure db)) [
      | raised x c ↦ absurd (ground arith)
      | returned (u, db₁) c ↦ elim (outcome (record_artifact job artifact db₁)) [
        | raised x m ↦ absurd (ground arith)
        | returned (w, db₂) m ↦ (
          ground arith,
          ground (
            arith,
            record_failure-SameJobs job.id failure db db₁ u c,
            record_artifact-SameJobs job artifact db₁ db₂ w m,
          ),
        )
      ]
    ]

-- A committed update: it held its lease, it kept the spec, and its middle is one commit.
pub record Updated (now : ℕ) (job : Job) (v : ℕ) (type : EventType) (lease : Option Lease)
    (db : Database) (e : JobEvent) (after : Database) : Type 0 where
  pub next : job.version ≡ v + 1
  pub held : IsHeld now lease db
  pub spec : spec_changed job (find_job job.id db.jobs) ≡ false
  pub middle : Database
  pub commit : commit_snapshot job v type db ≡ ok (e, middle)
  pub rest : SameJobs middle after

pub update-Updated :
    (now : ℕ) (job : Job) (v : ℕ) (type : EventType) (artifact : Option Artifact)
    (lease : Option Lease) (failure : Option Failure) (db : Database) (e : JobEvent)
    (after : Database)
    → update_job_and_append_event now job v type artifact lease failure db ≡ ok (e, after)
    → Updated now job v type lease db e after
unfolding update_job_and_append_event
update-Updated now job v type artifact lease failure db e after h =
    elim (outcome (check_lease now lease db)) [
      | raised x c ↦ absurd (ground arith)
      | returned (u, db₁) c ↦
          let (held, same) = check_lease-IsHeld now lease db db₁ u c in
          elim (outcome (commit_snapshot job v type db)) [
            | raised x m ↦ absurd (ground arith)
            | returned (e₁, middle) m ↦
                let (same_event, rest) =
                  write_rest-SameJobs job artifact failure e₁ e middle after (ground arith) in
                record {
                  next = ground arith;
                  held = held;
                  spec = ground arith;
                  middle = middle;
                  commit = ground arith;
                  rest = rest;
                }
          ]
    ]
