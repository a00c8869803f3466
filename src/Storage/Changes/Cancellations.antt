-- ===== src/Storage/Changes/Cancellations.antt =====
-- `request_cancellation` and `claim_execution` as changes of the job tables.
use kenkui_server.Prelude.{
  ℕ, ◌+◌, ◌≡◌, refl, sym, subst, inl, inr, false, ◌||◌, Option, some, arith, ◌==◌, ==_iff, modify,
  leb, Option-cases, Bool-cases,
}
use kenkui_server.Prelude.Result.{ok, raised, returned, outcome}
use kenkui_server.Jobs.Models.{Identifier, JobStatus, is_terminal, Job, JobEvent, Dispatch}
use kenkui_server.Jobs.Transitions.Graph.{withdraw, ask, fail, acknowledge}
use kenkui_server.Storage.Tables.{
  Database, ExecutionLease, find_job, find_dispatch, find_dispatch_for_job, find_lease,
  insert_event, next_sequence, set_job,
}
use kenkui_server.Storage.Tables.Rows.{id-find_job, find_job-modify_one, modify-IsUnique}
use kenkui_server.Storage.Repositories.{
  get_job, commit_snapshot, is_finished, cancellation_of, is_settled, cancelled_snapshot,
  cancel_open, request_cancellation,
}
use kenkui_server.Storage.Execution.{
  job_of_dispatch, lost_status, terminalize, grant, claim_job, claim_execution, is_live,
  is_exhausted, active_count,
}
use kenkui_server.Storage.Changes.{◌↝◌, along, give_up, stop, Change, same, written}
use kenkui_server.Storage.Changes.Commits.{commit_snapshot-Written}

-- The decision of a cancellation follows the lifecycle.
pub cancellation_edge :
    (s : JobStatus) (d : Option Dispatch) → is_settled s ≡ false → s ↝ (cancellation_of s d).0
unfolding cancellation_of
cancellation_edge JobStatus.queued d h = along withdraw
cancellation_edge JobStatus.running d h = elim (Bool-cases (is_finished d)) [
  | inl done ↦ rw done stop
  | inr open_still ↦ rw open_still (along ask)
]
cancellation_edge JobStatus.cancel_requested d h = cc
cancellation_edge JobStatus.succeeded d h = cc
cancellation_edge JobStatus.failed d h = cc
cancellation_edge JobStatus.cancelled d h = cc

cancel_open-Change :
    (current : Job) (db : Database) (j : Job) (after : Database)
    → find_job current.id db.jobs ≡ some current
    → is_settled current.status ≡ false
    → cancel_open current db ≡ ok (j, after)
    → Change db after
unfolding cancel_open cancelled_snapshot
cancel_open-Change current db j after stored unsettled h =
    let dispatch = find_dispatch_for_job current.id db.dispatches in
    let decision = cancellation_of current.status dispatch in
    let job = cancelled_snapshot current decision.0 in
    elim (outcome (commit_snapshot job current.version decision.1 db)) [
      | raised x e ↦ absurd (ground arith)
      | returned (e, middle) c ↦
          let end : after ≡ middle = ground arith in
          subst (Change db) (sym end) (
            written current (set_job job.status job.version job.progress current) e (
              commit_snapshot-Written job current.version decision.1 db middle e c current stored
                refl (cancellation_edge current.status dispatch unsettled) refl))
    ]

-- A cancellation changes nothing, or takes the job along the lifecycle.
pub request_cancellation-Change :
    (id : Identifier) (db : Database) (j : Job) (after : Database)
    → request_cancellation id db ≡ ok (j, after)
    → Change db after
unfolding request_cancellation get_job
request_cancellation-Change id db j after h = elim (Option-cases (find_job id db.jobs)) [
  | inl missing ↦ absurd (ground arith)
  | inr (current, found) ↦ elim (Bool-cases (is_settled current.status)) [
    | inl settled ↦ same (ground arith) (ground arith)
    | inr unsettled ↦
        cancel_open-Change current db j after (simp (id-find_job id db.jobs current found) found)
          unsettled (ground arith)
  ]
]

pub lost_edge : (s : JobStatus) → is_terminal s ≡ false → s ↝ (lost_status s).0
unfolding lost_status
lost_edge JobStatus.queued h = give_up
lost_edge JobStatus.running h = along fail
lost_edge JobStatus.cancel_requested h = along acknowledge
lost_edge JobStatus.succeeded h = cc
lost_edge JobStatus.failed h = cc
lost_edge JobStatus.cancelled h = cc

abbrev pub lost_row : Job → Job
lost_row job = record job { status = (lost_status job.status).0; version = job.version + 1 }

abbrev pub lost_event : Job → Database → JobEvent
lost_event job db = record {
  job_id = job.id;
  sequence = next_sequence job.id db.job_events;
  event_type = (lost_status job.status).1;
  progress = job.progress;
}

terminalize-Change :
    (id : Identifier) (job : Job) (db : Database) (token : Option Identifier) (after : Database)
    → find_job job.id db.jobs ≡ some job
    → is_terminal job.status ≡ false
    → terminalize id job db ≡ ok (token, after)
    → Change db after
unfolding terminalize insert_event
terminalize-Change id job db token after stored unsettled h =
    let rows : after.jobs
        ≡ modify (λ j. j.id == job.id)
            (λ j. record j { status = (lost_status job.status).0; version = j.version + 1 })
            db.jobs =
      ground arith in
    written job (lost_row job) (lost_event job db) (record {
      stored = stored;
      follows = record {
        edge = lost_edge job.status unsettled;
        version = refl;
        id = refl;
        spec = refl;
      };
      unique = λ u. rw rows (modify-IsUnique _ _ db.jobs (λ j. refl) u);
      rows = λ k. rw rows (
          find_job-modify_one k (λ j. j.id == job.id) _ db.jobs job (λ j. refl)
            (λ j hit. ground arith) stored (ground arith));
      test = λ j. j.id == job.id;
      change = λ j. record j { status = (lost_status job.status).0; version = j.version + 1 };
      table = rows;
      tested = λ j hit. (==_iff j.id job.id).0 hit;
      changed = λ j. (refl, refl);
      logged = ground arith;
      owner = refl;
      number = refl;
      shown = refl;
    })

claim_job-Change :
    (now id limit ttl max_attempts token : ℕ) (job : Job) (previous : Option ExecutionLease)
    (db : Database) (t : Option Identifier) (after : Database)
    → find_job job.id db.jobs ≡ some job
    → claim_job now id limit ttl max_attempts token job previous db ≡ ok (t, after)
    → Change db after
unfolding claim_job grant
claim_job-Change now id limit ttl max_attempts token job previous db t after stored h =
    elim (Bool-cases
      (is_terminal job.status || is_live now previous || leb limit (active_count now db))) [
        | inl refused ↦ same (ground arith) (ground arith)
        | inr open_still ↦ elim (Bool-cases (is_exhausted max_attempts previous)) [
          | inl lost ↦ terminalize-Change id job db t after stored (ground arith) (ground arith)
          | inr granted ↦ same (ground arith) (ground arith)
        ]
      ]

-- A claim leaves the job rows alone, or gives one job up.
pub claim_execution-Change :
    (now id limit ttl max_attempts token : ℕ) (db : Database) (t : Option Identifier)
    (after : Database)
    → claim_execution now id limit ttl max_attempts token db ≡ ok (t, after)
    → Change db after
unfolding claim_execution job_of_dispatch
claim_execution-Change now id limit ttl max_attempts token db t after h =
    elim (Option-cases (find_dispatch id db.dispatches)) [
      | inl missing ↦ same (ground arith) (ground arith)
      | inr (d, found) ↦ elim (Option-cases (find_job d.job_id db.jobs)) [
        | inl missing ↦ same (ground arith) (ground arith)
        | inr (job, stored) ↦
            claim_job-Change now id limit ttl max_attempts token job
              (find_lease id db.execution_leases) db t after
              (simp (id-find_job d.job_id db.jobs job stored) stored) (ground arith)
      ]
    ]
