-- ===== src/Hosted/Changes/Updates.antt =====
-- `update_job_and_append_event` and `request_cancellation` of the hosted repository.
use kenkui_server.Prelude.{
  ℕ, ◌≡◌, refl, false, Option, none, some, arith, ◌∙◌, sym, subst, Bool-cases, inl, inr,
  Option-cases,
}
use kenkui_server.Prelude.Result.{ok, outcome, raised, returned}
use kenkui_server.Jobs.Models.{Identifier, Job, JobEvent, EventType, Artifact}
use kenkui_server.Jobs.Transitions.{TransitionEvent, transition}
use kenkui_server.Jobs.Transitions.Graph.{transition-Advances}
use kenkui_server.Storage.Tables.{Database, Failure, find_job, set_job, find_dispatch_for_job}
use kenkui_server.Storage.Tables.Rows.{IsUnique, id-find_job}
use kenkui_server.Storage.Repositories.{
  Lease, check_lease, commit_snapshot, record_failure, cancel_open, cancelled_snapshot,
  cancellation_of, is_settled,
}
use kenkui_server.Storage.Changes.{◌↝◌, along, IsConsistent}
use kenkui_server.Storage.Changes.Commits.{commit_snapshot_stored, commit_snapshot-Written}
use kenkui_server.Storage.Changes.Updates.{
  SameJobs, check_lease-IsHeld, record_failure-SameJobs, record_artifact-SameJobs,
}
use kenkui_server.Storage.Changes.Calls.{IsSnapshot, snapshot_stored, Written-SameJobs}
use kenkui_server.Storage.Changes.Cancellations.{cancellation_edge}
use kenkui_server.Hosted.Balance.{IsBacked}
use kenkui_server.Hosted.Repositories.{
  Hosted, end_job, publish_artifact, update_job_and_append_event, request_cancellation,
  cancel_hosted,
}
use kenkui_server.Hosted.Changes.{IsBilled, Kept, quiet-Kept, Written-Kept}

publish_artifact-SameJobs :
    (job : Job) (artifact : Option Artifact) (db after : Database) (u : Unit {0})
    → publish_artifact job artifact db ≡ ok (u, after)
    → SameJobs db after
unfolding publish_artifact
publish_artifact-SameJobs job none db after u h = ground (arith, h)
publish_artifact-SameJobs job (some artifact) db after u h =
    record_artifact-SameJobs job (some artifact) db after u (ground (arith, h))

SameJobs-trans : {a b c : Database} → SameJobs a b → SameJobs b c → SameJobs a c
SameJobs-trans s t = record {
  jobs = t.jobs ∙ s.jobs;
  events = t.events ∙ s.events;
  dispatches = t.dispatches ∙ s.dispatches;
  leases = t.leases ∙ s.leases;
}

-- A committed update: one commit, writes elsewhere, and the end of the job.
record Updated (db_now entry_uuid : ℕ) (job : Job) (v : ℕ) (type : EventType) (h : Hosted)
    (e : JobEvent) (after : Hosted) : Type 0 where
  pub committed : Database
  pub commit : commit_snapshot job v type h.db ≡ ok (e, committed)
  pub published : Database
  pub rest : SameJobs committed published
  pub u : Unit {0}
  pub ended :
      end_job db_now entry_uuid job.id job.status (record h { db = published }) ≡ ok (u, after)

module _ (now db_now entry_uuid : ℕ) (job : Job) (v : ℕ) (type : EventType)
    (artifact : Option Artifact) (lease : Option Lease) (failure : Option Failure) (h : Hosted)
    (e : JobEvent) (after : Hosted) where
  update-Updated :
      update_job_and_append_event now db_now entry_uuid job v type artifact lease failure h
        ≡ ok (e, after)
      → Updated db_now entry_uuid job v type h e after
  unfolding update_job_and_append_event
  update-Updated x = elim (outcome (check_lease now lease h.db)) [
    | raised c y ↦ absurd (ground (arith, x, y))
    | returned (u1, db1) x1 ↦
        let (held, same) = check_lease-IsHeld now lease h.db db1 u1 x1 in
        elim (outcome (commit_snapshot job v type h.db)) [
          | raised c y ↦ absurd (ground (arith, x, x1, same, y))
          | returned (e2, db2) x2 ↦ elim (outcome (publish_artifact job artifact db2)) [
            | raised c y ↦ absurd (ground (arith, x, x1, same, x2, y))
            | returned (u3, db3) x3 ↦ elim (outcome (record_failure job.id failure db3)) [
              | raised c y ↦ absurd (ground (arith, x, x1, same, x2, x3, y))
              | returned (u4, db4) x4 ↦
                  elim (outcome
                    (end_job db_now entry_uuid job.id job.status (record h { db = db4 }))) [
                      | raised c y ↦ absurd (ground (arith, x, x1, same, x2, x3, x4, y))
                      | returned (u5, h5) x5 ↦ record {
                        committed = db2;
                        commit = ground (arith, x, x1, same, x2, x3, x4, x5);
                        published = db4;
                        rest =
                            SameJobs-trans (publish_artifact-SameJobs job artifact db2 db3 u3 x3)
                              (record_failure-SameJobs job.id failure db3 db4 u4 x4);
                        u = u5;
                        ended = ground (arith, x, x1, same, x2, x3, x4, x5);
                      }
                    ]
            ]
          ]
        ]
  ]

-- A worker's write from a snapshot, however old: if it commits, it is a transition of the stored
-- row, and the authorization of the job follows.
pub update-Kept :
    (now db_now entry_uuid : ℕ) (held next : Job) (event : TransitionEvent) (type : EventType)
    (artifact : Option Artifact) (lease : Option Lease) (failure : Option Failure) (h : Hosted)
    (e : JobEvent) (after : Hosted)
    → IsConsistent h.db
    → IsBacked h.books
    → IsBilled h
    → IsSnapshot held h.db
    → transition held event ≡ ok next
    → update_job_and_append_event now db_now entry_uuid next held.version type artifact lease
        failure h
      ≡ ok (e, after)
    → Kept h after
update-Kept now db_now entry_uuid held next event type artifact lease failure h e after c b s snap t
      x =
    let u =
      update-Updated now db_now entry_uuid next held.version type artifact lease failure h e after
        x in
    let a = transition-Advances held next event t in
    let (r, found, at) =
      commit_snapshot_stored next held.version type h.db u.committed e u.commit c.unique in
    let current : held ≡ r = snapshot_stored held r h.db snap (simp (← a.id) found) at in
    let edge = subst (λ (j : Job). j.status ↝ next.status) current (along a.edge) in
    let w =
      commit_snapshot-Written next held.version type h.db u.committed e u.commit r found at edge
        a.version in
    let same_id : r.id ≡ next.id = id-find_job next.id h.db.jobs r found in
    Written-Kept h (record h { db = u.published }) after r
      (set_job next.status next.version next.progress r) e db_now entry_uuid u.u b s
      (Written-SameJobs u.rest w) refl refl c.unique (rw same_id u.ended)

module _ (db_now entry_uuid : ℕ) (h after : Hosted) (b : IsBacked h.books) (s : IsBilled h)
    (unique : IsUnique h.db.jobs) where
  cancel_hosted-Kept :
      (current j : Job)
      → find_job current.id h.db.jobs ≡ some current
      → is_settled current.status ≡ false
      → cancel_hosted db_now entry_uuid current h ≡ ok (j, after)
      → Kept h after
  unfolding cancel_hosted cancel_open cancelled_snapshot
  cancel_hosted-Kept current j stored unsettled x =
      let decision =
        cancellation_of current.status (find_dispatch_for_job current.id h.db.dispatches) in
      let job = cancelled_snapshot current decision.0 in
      elim (outcome (commit_snapshot job current.version decision.1 h.db)) [
        | raised c y ↦ absurd (ground (arith, x, y))
        | returned (e, db1) x1 ↦
            elim (outcome
              (end_job db_now entry_uuid current.id decision.0 (record h { db = db1 }))) [
                | raised c y ↦ absurd (ground (arith, x, x1, y))
                | returned (u, h2) x2 ↦
                    let end : h2 ≡ after = ground (arith, x, x1, x2) in
                    subst (Kept h) end (
                      Written-Kept h (record h { db = db1 }) h2 current
                        (set_job job.status job.version job.progress current) e db_now entry_uuid u
                        b s
                        (commit_snapshot-Written job current.version decision.1 h.db db1 e x1
                          current stored refl
                          (cancellation_edge current.status
                            (find_dispatch_for_job current.id h.db.dispatches) unsettled)
                          refl)
                        refl refl unique x2)
              ]
      ]

  request_cancellation_open :
      (id : Identifier) (current : Job)
      → find_job id h.db.jobs ≡ some current
      → is_settled current.status ≡ false
      → request_cancellation db_now entry_uuid id h ≡ cancel_hosted db_now entry_uuid current h
  unfolding request_cancellation
  request_cancellation_open id current found unsettled =
      rw (request_cancellation, found, unsettled) refl

  pub request_cancellation-Kept :
      (id : Identifier) (j : Job)
      → request_cancellation db_now entry_uuid id h ≡ ok (j, after)
      → Kept h after
  unfolding request_cancellation
  request_cancellation-Kept id j x = elim (Option-cases (find_job id h.db.jobs)) [
    | inl missing ↦ absurd (ground (arith, x, missing))
    | inr (current, found) ↦ elim (Bool-cases (is_settled current.status)) [
      | inl settled ↦
          let same : after ≡ h = ground (arith, x, found, settled) in
          rw same (quiet-Kept h h b s refl refl refl refl)
      | inr unsettled ↦
          cancel_hosted-Kept current j (simp (id-find_job id h.db.jobs current found) found)
            unsettled (sym (request_cancellation_open id current found unsettled) ∙ x)
    ]
  ]
