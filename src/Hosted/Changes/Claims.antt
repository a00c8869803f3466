-- ===== src/Hosted/Changes/Claims.antt =====
-- `claim_execution` of the hosted repository.
use kenkui_server.Prelude.{
  ℕ, ◌+◌, ◌≡◌, refl, ◌∙◌, false, Option, some, ◌==◌, ==_iff, arith, subst, Bool-cases, inl, inr,
  Option-cases, modify, ◌||◌, leb,
}
use kenkui_server.Prelude.Result.{ok, outcome, raised, returned}
use kenkui_server.Jobs.Models.{Identifier, Job, is_terminal}
use kenkui_server.Storage.Tables.{
  Database, ExecutionLease, find_job, find_dispatch, find_lease, insert_event,
}
use kenkui_server.Storage.Tables.Rows.{IsUnique, id-find_job, find_job-modify_one, modify-IsUnique}
use kenkui_server.Storage.Execution.{
  job_of_dispatch, lost_status, grant, is_live, is_exhausted, active_count,
}
use kenkui_server.Storage.Changes.{Written}
use kenkui_server.Storage.Changes.Cancellations.{lost_edge, lost_row, lost_event}
use kenkui_server.Hosted.Balance.{IsBacked}
use kenkui_server.Hosted.Repositories.{Hosted, end_job}
use kenkui_server.Hosted.Execution.{
  log_loss, claim_seen, give_up_rows, give_up, claim_job, claim_execution,
}
use kenkui_server.Hosted.Changes.{IsBilled, Kept, quiet-Kept, Written-Kept}

give_up_rows-Written :
    (id : Identifier) (job : Job) (db after : Database) (u : Unit {0})
    → find_job job.id db.jobs ≡ some job
    → is_terminal job.status ≡ false
    → give_up_rows id job db ≡ ok (u, after)
    → Written db after job (lost_row job) (lost_event job db)
unfolding give_up_rows insert_event log_loss
give_up_rows-Written id job db after u stored unsettled h =
    let change : Job → Job =
      λ j. record j { status = (lost_status job.status).0; version = j.version + 1 } in
    let given : find_job job.id (modify (λ j. j.id == job.id) change db.jobs)
        ≡ some (lost_row job) =
      find_job-modify_one job.id (λ j. j.id == job.id) change db.jobs job (λ j. refl)
        (λ j hit. ground (arith, hit)) stored (ground arith)
      ∙ ground arith in
    let rows : after.jobs
        ≡ modify (λ j. j.id == job.id)
            (λ j. record j { status = (lost_status job.status).0; version = j.version + 1 })
            db.jobs =
      ground (arith, h, given) in
    record {
      stored = stored;
      follows = record {
        edge = lost_edge job.status unsettled;
        version = refl;
        id = refl;
        spec = refl;
      };
      unique = λ v. rw rows (modify-IsUnique _ _ db.jobs (λ j. refl) v);
      rows = λ k. rw rows (
          find_job-modify_one k (λ j. j.id == job.id) _ db.jobs job (λ j. refl)
            (λ j hit. ground (arith, hit)) stored (ground arith));
      test = λ j. j.id == job.id;
      change = λ j. record j { status = (lost_status job.status).0; version = j.version + 1 };
      table = rows;
      tested = λ j hit. (==_iff j.id job.id).0 hit;
      changed = λ j. (refl, refl);
      logged = ground (arith, h, given);
      owner = refl;
      number = refl;
      shown = refl;
    }

module _ (now db_now entry_uuid id limit ttl max_attempts token : ℕ) (h after : Hosted)
    (t : Option Identifier) (b : IsBacked h.books) (s : IsBilled h)
    (unique : IsUnique h.db.jobs) where
  give_up-Kept :
      (job : Job)
      → find_job job.id h.db.jobs ≡ some job
      → is_terminal job.status ≡ false
      → give_up db_now entry_uuid id job h ≡ ok (t, after)
      → Kept h after
  unfolding give_up
  give_up-Kept job stored unsettled x = elim (outcome (give_up_rows id job h.db)) [
    | raised c y ↦ absurd (ground (arith, x, y))
    | returned (u1, db1) x1 ↦
        elim (outcome
          (end_job db_now entry_uuid job.id (lost_status job.status).0 (record h { db = db1 }))) [
            | raised c y ↦ absurd (ground (arith, x, x1, y))
            | returned (u2, h2) x2 ↦
                let end : h2 ≡ after = ground (arith, x, x1, x2) in
                subst (Kept h) end (
                  Written-Kept h (record h { db = db1 }) h2 job (lost_row job) (lost_event job h.db)
                    db_now entry_uuid u2 b s
                    (give_up_rows-Written id job h.db db1 u1 stored unsettled x1) refl refl unique
                    x2)
          ]
  ]

  claim_job-Kept :
      (job : Job) (previous : Option ExecutionLease)
      → find_job job.id h.db.jobs ≡ some job
      → claim_job now db_now entry_uuid id limit ttl max_attempts token job previous h
        ≡ ok (t, after)
      → Kept h after
  unfolding claim_job grant
  claim_job-Kept job previous stored x =
      elim (Bool-cases
        (is_terminal job.status || is_live now previous || leb limit (active_count now h.db))) [
          | inl refused ↦
              let same : after ≡ h = ground (arith, x, refused) in
              rw same (quiet-Kept h h b s refl refl refl refl)
          | inr open_still ↦ elim (Bool-cases (is_exhausted max_attempts previous)) [
            | inl lost ↦
                give_up-Kept job stored (ground (arith, open_still))
                  (ground (arith, x, open_still, lost))
            | inr granted ↦
                quiet-Kept h after b s (ground (arith, x, open_still, granted))
                  (ground (arith, x, open_still, granted)) (ground (arith, x, open_still, granted))
                  (ground (arith, x, open_still, granted))
          ]
        ]

  pub claim_execution-Kept :
      claim_execution now db_now entry_uuid id limit ttl max_attempts token h ≡ ok (t, after)
      → Kept h after
  unfolding claim_execution claim_seen job_of_dispatch
  claim_execution-Kept x = elim (Option-cases (find_dispatch id h.db.dispatches)) [
    | inl missing ↦
        let same : after ≡ h = ground (arith, x, missing) in
        rw same (quiet-Kept h h b s refl refl refl refl)
    | inr (d, found) ↦ elim (Option-cases (find_job d.job_id h.db.jobs)) [
      | inl missing ↦
          let same : after ≡ h = ground (arith, x, found, missing) in
          rw same (quiet-Kept h h b s refl refl refl refl)
      | inr (job, stored) ↦
          claim_job-Kept job (find_lease id h.db.execution_leases)
            (simp (id-find_job d.job_id h.db.jobs job stored) stored)
            (ground (arith, x, found, stored))
    ]
  ]
