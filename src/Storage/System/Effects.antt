-- ===== src/Storage/System/Effects.antt =====
-- The dispatches and the leases after each call.
use kenkui_server.Prelude.{
  ℕ, ◌+◌, ◌≤◌, ◌≡◌, refl, ap, ◌∙◌, inl, inr, Bool, true, false, ◌&&◌, ◌||◌, Option, none, some,
  arith, ◌==◌, leb, modify, Option-cases, Bool-cases, subst, sym,
}
use kenkui_server.Prelude.Result.{ok, outcome, raised, returned}
use kenkui_server.Jobs.Models.{
  Identifier, Job, is_terminal, Dispatch, DispatchStatus, EventType, JobEvent, Artifact,
}
use kenkui_server.Storage.Tables.{
  Database, Failure, find_lease, find_job, find_dispatch_for_job, insert_job, insert_dispatch,
  insert_key, insert_event, dispatch_at, set_dispatch,
}
use kenkui_server.Storage.Repositories.{
  Lease, get_job, create_job_and_dispatch, replay_job, admit_new, admit_again, record_key,
  commit_snapshot, update_job_and_append_event, request_cancellation, cancel_open,
  cancelled_snapshot, cancellation_of, is_settled, update_dispatch, finish_dispatch, check_lease,
}
use kenkui_server.Storage.Execution.{
  job_of_dispatch, active_count, claim_execution, claim_job, terminalize, grant, renew_execution,
  release_execution, renewable, is_exhausted, is_live,
}
use kenkui_server.Storage.Changes.Updates.{update-Updated}
use kenkui_server.Storage.System.Routing.{Routing, kept, added, restated}
use kenkui_server.Storage.System.Slots.{Leasing, untouched, granted, retimed}

-- Neither table changes.
record Apart (before after : Database) : Type 0 where
  pub dispatches : after.dispatches ≡ before.dispatches
  pub leases : after.execution_leases ≡ before.execution_leases

commit_snapshot-Apart :
    (job : Job) (v : ℕ) (type : EventType) (e : JobEvent) (before after : Database)
    → commit_snapshot job v type before ≡ ok (e, after)
    → Apart before after
unfolding commit_snapshot insert_event
commit_snapshot-Apart job v type e before after h = record {
  dispatches = ground arith;
  leases = ground arith;
}

-- What a call does to both tables.
pub record Effect (limit clock : ℕ) (before after : Database) : Type 0 where
  pub routing : Routing before after
  pub leasing : Leasing limit clock before after

module _ (limit clock : ℕ) (before after : Database) where
  apart : Apart before after → Effect limit clock before after
  apart a = record { routing = kept a.dispatches; leasing = untouched a.leases }

  pub unchanged : after ≡ before → Effect limit clock before after
  unchanged e = apart (record {
    dispatches = ap (λ (d : Database). d.dispatches) e;
    leases = ap (λ (d : Database). d.execution_leases) e;
  })

  pub update-Effect :
      (now : ℕ) (job : Job) (v : ℕ) (type : EventType) (artifact : Option Artifact)
      (lease : Option Lease) (failure : Option Failure) (e : JobEvent)
      → update_job_and_append_event now job v type artifact lease failure before ≡ ok (e, after)
      → Effect limit clock before after
  update-Effect now job v type artifact lease failure e h =
      let u = update-Updated now job v type artifact lease failure before e after h in
      let a = commit_snapshot-Apart job v type e before u.middle u.commit in
      apart (record {
        dispatches = u.rest.dispatches ∙ a.dispatches;
        leases = u.rest.leases ∙ a.leases;
      })

  pub admission-Effect :
      (job : Job) (dispatch : Dispatch) (key : Option Identifier) (j : Job)
      → create_job_and_dispatch job dispatch key before ≡ ok (j, after)
      → Effect limit clock before after
  unfolding create_job_and_dispatch admit_new admit_again insert_job insert_dispatch record_key
      insert_key
  admission-Effect job dispatch key j h = elim (Option-cases (replay_job key before)) [
    | inl new ↦ record {
      routing = added dispatch (ground arith) (ground arith);
      leasing = untouched (ground arith);
    }
    | inr (x, again) ↦ unchanged (ground arith)
  ]

  pub cancellation-Effect :
      (id : Identifier) (j : Job)
      → request_cancellation id before ≡ ok (j, after)
      → Effect limit clock before after
  unfolding request_cancellation get_job cancel_open
  cancellation-Effect id j h = elim (Option-cases (find_job id before.jobs)) [
    | inl missing ↦ absurd (ground arith)
    | inr (job, found) ↦ elim (Bool-cases (is_settled job.status)) [
      | inl settled ↦ unchanged (ground arith)
      | inr unsettled ↦
          let decision =
            cancellation_of job.status (find_dispatch_for_job job.id before.dispatches) in
          elim (outcome
            (commit_snapshot (cancelled_snapshot job decision.0) job.version decision.1 before)) [
              | raised code e ↦ absurd (ground arith)
              | returned (event, middle) e ↦
                  let a =
                    commit_snapshot-Apart (cancelled_snapshot job decision.0) job.version decision.1
                      event before middle e in
                  let end : after ≡ middle = ground arith in
                  subst (Effect limit clock before) (sym end)
                    (record { routing = kept a.dispatches; leasing = untouched a.leases })
            ]
    ]
  ]

  pub redispatch-Effect :
      (d : Dispatch) (v : ℕ) (u : Unit {0})
      → update_dispatch d v before ≡ ok (u, after)
      → Effect limit clock before after
  unfolding update_dispatch
  redispatch-Effect d v u h = record {
    routing =
        restated (dispatch_at d.id v) (set_dispatch d.status d.version) (λ x. refl) (λ x. refl)
          (ground arith);
    leasing = untouched (ground arith);
  }

  concluded :
      (now : ℕ) (d : Dispatch) (lease : Option Lease) (b : Bool)
      → finish_dispatch now d lease before ≡ ok (b, after)
      → b ≡ true
      → (after.dispatches
          ≡ modify
              (dispatch_at d.id d.version)
              (set_dispatch DispatchStatus.done (d.version + 1))
              before.dispatches)
        × (after.execution_leases ≡ before.execution_leases)
  unfolding finish_dispatch get_job check_lease
  concluded now d none b h e = (ground arith, ground arith)
  concluded now d (some l) b h e = (ground arith, ground arith)

  postponed :
      (now : ℕ) (d : Dispatch) (lease : Option Lease) (b : Bool)
      → finish_dispatch now d lease before ≡ ok (b, after)
      → b ≡ false
      → after ≡ before
  unfolding finish_dispatch get_job check_lease
  postponed now d none b h e = ground arith
  postponed now d (some l) b h e = ground arith

  pub conclusion-Effect :
      (now : ℕ) (d : Dispatch) (lease : Option Lease) (b : Bool)
      → finish_dispatch now d lease before ≡ ok (b, after)
      → Effect limit clock before after
  conclusion-Effect now d lease b h = elim (Bool-cases b) [
    | inl done ↦ record {
      routing =
          restated (dispatch_at d.id d.version) (set_dispatch DispatchStatus.done (d.version + 1))
            (λ x. refl) (λ x. refl) (concluded now d lease b h done).0;
      leasing = untouched (concluded now d lease b h done).1;
    }
    | inr put_off ↦ unchanged (postponed now d lease b h put_off)
  ]

  terminalize-Effect :
      (id : Identifier) (job : Job) (t : Option Identifier)
      → terminalize id job before ≡ ok (t, after)
      → Effect limit clock before after
  unfolding terminalize insert_event
  terminalize-Effect id job t h = record {
    routing =
        restated (λ d. d.id == id)
          (λ d. record d { status = DispatchStatus.done; version = d.version + 1 }) (λ x. refl)
          (λ x. refl) (ground arith);
    leasing = untouched (ground arith);
  }

  pub claim-Effect :
      (now id ttl max_attempts token : ℕ) (t : Option Identifier)
      → now ≤ clock
      → claim_execution now id limit ttl max_attempts token before ≡ ok (t, after)
      → Effect limit clock before after
  unfolding claim_execution claim_job grant
  claim-Effect now id ttl max_attempts token t past h =
      elim (Option-cases (job_of_dispatch id before)) [
        | inl missing ↦ unchanged (ground arith)
        | inr (job, found) ↦
            let previous = find_lease id before.execution_leases in
            elim (Bool-cases (
              is_terminal job.status
              || is_live now previous
              || leb limit (active_count now before))) [
                | inl refused ↦ unchanged (ground arith)
                | inr free ↦ elim (Bool-cases (is_exhausted max_attempts previous)) [
                  | inl lost ↦ terminalize-Effect id job t (ground arith)
                  | inr left ↦ record {
                    routing =
                        restated (λ d. d.id == id)
                          (λ d. record d {
                            status = DispatchStatus.pending;
                            version = d.version + 1;
                          })
                          (λ x. refl) (λ x. refl) (ground arith);
                    leasing =
                        granted now id token (now + ttl) past (ground arith) (ground arith)
                          (ground arith);
                  }
                ]
              ]
      ]

  pub renewal-Effect :
      (first id token ttl : ℕ) (b : Bool)
      → renew_execution first clock id token ttl before ≡ ok (b, after)
      → Effect limit clock before after
  unfolding renew_execution
  renewal-Effect first id token ttl b h = record {
    routing = kept (ground arith);
    leasing =
        retimed (renewable clock id token) (λ l. record l { expires_at = first + ttl }) (λ l. refl)
          (λ l hit live. ground arith) (ground arith);
  }

  pub release-Effect :
      (id token : Identifier) (u : Unit {0})
      → release_execution id token before ≡ ok (u, after)
      → Effect limit clock before after
  unfolding release_execution
  release-Effect id token u h = record {
    routing = kept (ground arith);
    leasing =
        retimed (λ l. l.dispatch_id == id && l.token == token) (λ l. record l { expires_at = 0 })
          (λ l. refl) (λ l hit live. ground arith) (ground arith);
  }
