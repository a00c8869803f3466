-- ===== src/Storage/Changes/Calls.antt =====
-- Each call of the repositories as a change of the job tables.
use kenkui_server.Prelude.{ℕ, ◌≡◌, ◌<◌, ◌⊎◌, ap, subst, inl, inr, Option, some, arith, Option-cases}
use kenkui_server.Prelude.Result.{ok}
use kenkui_server.Jobs.Models.{Identifier, JobStatus, Job, EventType, JobEvent, Artifact, Dispatch}
use kenkui_server.Jobs.Transitions.{TransitionEvent, transition}
use kenkui_server.Jobs.Transitions.Graph.{transition-Advances}
use kenkui_server.Storage.Tables.{
  Idempotency, Database, Failure, find_job, insert_job, insert_dispatch, insert_key, set_job,
}
use kenkui_server.Storage.Repositories.{
  Lease, replay_job, record_key, admit_new, admit_again, create_job_and_dispatch,
  update_job_and_append_event,
}
use kenkui_server.Storage.Changes.{
  ◌↝◌, along, Written, Change, same, admitted, written, IsConsistent,
}
use kenkui_server.Storage.Changes.Commits.{commit_snapshot_stored, commit_snapshot-Written}
use kenkui_server.Storage.Changes.Updates.{SameJobs, update-Updated}

-- A snapshot that was read at some time: the stored row is the same, or has a later version.
pub record IsSnapshot (h : Job) (db : Database) : Type 0 where
  pub row : Job
  pub stored : find_job h.id db.jobs ≡ some row
  pub age : (h ≡ row) ⊎ (h.version < row.version)

pub Written-SameJobs :
    {before middle after : Database} {r r' : Job} {e : JobEvent}
    → SameJobs middle after
    → Written before middle r r' e
    → Written before after r r' e
Written-SameJobs s w = record {
  stored = w.stored;
  follows = w.follows;
  unique = λ u. rw s.jobs (w.unique u);
  rows = λ k. rw s.jobs (w.rows k);
  test = w.test;
  change = w.change;
  table = rw s.jobs w.table;
  tested = w.tested;
  changed = w.changed;
  logged = rw s.events w.logged;
  owner = w.owner;
  number = w.number;
  shown = w.shown;
}

-- The optimistic check lets only the stored row through.
pub snapshot_stored :
    (h r : Job) (db : Database)
    → IsSnapshot h db
    → find_job h.id db.jobs ≡ some r
    → r.version ≡ h.version
    → h ≡ r
snapshot_stored h r db s found at = elim s.age [
  | inl e ↦ ground (arith, s.stored)
  | inr later ↦ absurd (ground (arith, s.stored))
]

-- A worker's write from a snapshot, however old: if it commits, it is a transition of the stored
-- row.
pub update-Change :
    (now : ℕ) (h next : Job) (event : TransitionEvent) (type : EventType)
    (artifact : Option Artifact) (lease : Option Lease) (failure : Option Failure) (db : Database)
    (e : JobEvent) (after : Database)
    → IsConsistent db
    → IsSnapshot h db
    → transition h event ≡ ok next
    → update_job_and_append_event now next h.version type artifact lease failure db ≡ ok (e, after)
    → Change db after
update-Change now h next event type artifact lease failure db e after c s t w =
    let u = update-Updated now next h.version type artifact lease failure db e after w in
    let a = transition-Advances h next event t in
    let (r, found, at) =
      commit_snapshot_stored next h.version type db u.middle e u.commit c.unique in
    let current : h ≡ r = snapshot_stored h r db s (simp (← a.id) found) at in
    written r (set_job next.status next.version next.progress r) e (
      Written-SameJobs u.rest (
        commit_snapshot-Written next h.version type db u.middle e u.commit r found at
          (subst (λ (j : Job). j.status ↝ next.status) current (along a.edge)) u.next))

module _ (job : Job) (dispatch : Dispatch) (key : Option Identifier) (db : Database) (j : Job)
    (after : Database) where
  admit_new-Change :
      job.version ≡ 0
      → job.status ≡ JobStatus.queued
      → admit_new job dispatch key db ≡ ok (j, after)
      → Change db after
  unfolding admit_new insert_job insert_dispatch record_key insert_key
  admit_new-Change v q h = admitted job (ground arith) v q (ground arith) (ground arith)

  admit_again-same : (x : Idempotency) → admit_again job x db ≡ ok (j, after) → after ≡ db
  unfolding admit_again
  admit_again-same x h = ground arith

  -- An admission adds its job, or finds the job of an earlier call.
  pub create_job_and_dispatch-Change :
      job.version ≡ 0
      → job.status ≡ JobStatus.queued
      → create_job_and_dispatch job dispatch key db ≡ ok (j, after)
      → Change db after
  unfolding create_job_and_dispatch
  create_job_and_dispatch-Change v q h = elim (Option-cases (replay_job key db)) [
    | inl new ↦ admit_new-Change v q (rw (new, create_job_and_dispatch) at h)
    | inr (x, again) ↦
        let e : after ≡ db = admit_again-same x (rw (again, create_job_and_dispatch) at h) in
        same (ap (λ (d : Database). d.jobs) e) (ap (λ (d : Database). d.job_events) e)
  ]
