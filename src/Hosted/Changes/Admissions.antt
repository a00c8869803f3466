-- ===== src/Hosted/Changes/Admissions.antt =====
-- `admit` of the hosted repository.
use kenkui_server.Prelude.{
  ℕ, ◌≤◌, ==_iff, count, ◌≡◌, ◌<◌, refl, true, false, Option, none, some, ◌∷◌, ◌==◌, arith, ap, sym,
  subst, Bool-cases, inl, inr, Option-cases, leb,
}
use kenkui_server.Prelude.Result.{ok, outcome, raised, returned}
use kenkui_server.Jobs.Models.{Identifier, Job, JobStatus, Dispatch, spec_eq}
use kenkui_server.Billing.Models.{CreditAuthorization}
use kenkui_server.Storage.Tables.{
  Database, Idempotency, find_job, insert_job, insert_dispatch, insert_key,
}
use kenkui_server.Storage.Repositories.{replay_job, record_key, admit_again}
use kenkui_server.Storage.Changes.{admitted}
use kenkui_server.Hosted.Billing.{hold}
use kenkui_server.Hosted.Balance.{IsBacked}
use kenkui_server.Hosted.Balance.Reservations.{hold-IsBacked}
use kenkui_server.Hosted.Statuses.{status_for-hold}
use kenkui_server.Hosted.Repositories.{
  Hosted, is_active_of, on_db, create_dispatch, insert_owned_job, active_jobs, is_expired,
  admit_fresh, admit,
}
use kenkui_server.Hosted.Slots.{count_added}
use kenkui_server.Hosted.Changes.{IsBilled, bill_of, Kept, quiet-Kept}

-- The rows that an admission adds.
pub record Added (job : Job) (dispatch : Dispatch) (db after : Database) : Type 0 where
  pub new : find_job job.id db.jobs ≡ none
  pub jobs : after.jobs ≡ job ∷ db.jobs
  pub events : after.job_events ≡ db.job_events
  pub dispatches : after.dispatches ≡ dispatch ∷ db.dispatches

module _ (job : Job) (dispatch : Dispatch) (key : Option Identifier) (db db1 db2 after : Database)
    (u v w : Unit {0}) where
  rows-Added :
      insert_job job db ≡ ok (u, db1)
      → create_dispatch dispatch db1 ≡ ok (v, db2)
      → record_key key job.id db2 ≡ ok (w, after)
      → Added job dispatch db after
  unfolding insert_job create_dispatch insert_dispatch record_key insert_key
  rows-Added x y z = record {
    new = ground (arith, x);
    jobs = ground (arith, x, y, z);
    events = ground (arith, x, y, z);
    dispatches = ground (arith, x, y, z);
  }

-- An admission that returned a new job: its guards, its reservation and its rows.
pub record Entered (uuid entry_uuid : ℕ) (job : Job) (dispatch : Dispatch)
    (account_id owner_id n : ℕ) (key : Option Identifier) (h after : Hosted) : Type 0 where
  pub slots : active_jobs owner_id h < 3
  pub alive : is_expired job.spec.source_id h ≡ false
  pub a : CreditAuthorization
  pub reserve : hold uuid entry_uuid job.id account_id n h.books ≡ ok (a, after.books)
  pub added : Added job dispatch h.db after.db
  pub owners : after.owners ≡ (job.id, owner_id) ∷ h.owners

module _ (uuid entry_uuid : ℕ) (job : Job) (dispatch : Dispatch) (account_id owner_id n : ℕ)
    (key : Option Identifier) (h : Hosted) (j : Job) (after : Hosted) where
  pub admit_fresh-Entered :
      admit_fresh uuid entry_uuid job dispatch account_id owner_id n key h ≡ ok (j, after)
      → (j ≡ job) × Entered uuid entry_uuid job dispatch account_id owner_id n key h after
  unfolding admit_fresh insert_owned_job
  admit_fresh-Entered x = elim (Bool-cases (leb 3 (active_jobs owner_id h))) [
    | inl full ↦ absurd (ground (arith, x, full))
    | inr room ↦ elim (Bool-cases (is_expired job.spec.source_id h)) [
      | inl gone ↦ absurd (ground (arith, x, room, gone))
      | inr alive ↦ elim (outcome (hold uuid entry_uuid job.id account_id n h.books)) [
        | raised c y ↦ absurd (ground (arith, x, room, alive, y))
        | returned (a, books) x1 ↦ elim (outcome (insert_job job h.db)) [
          | raised c y ↦ absurd (ground (arith, x, room, alive, x1, y))
          | returned (u1, db1) x2 ↦ elim (outcome (create_dispatch dispatch db1)) [
            | raised c y ↦ absurd (ground (arith, x, room, alive, x1, x2, y))
            | returned (u2, db2) x3 ↦ elim (outcome (record_key key job.id db2)) [
              | raised c y ↦ absurd (ground (arith, x, room, alive, x1, x2, x3, y))
              | returned (u3, db3) x4 ↦
                  let end : (j ≡ job)
                      × (after ≡ record h {
                        db = db3;
                        books = books;
                        owners = (job.id, owner_id) ∷ h.owners;
                      }) =
                    ground (arith, x, room, alive, x1, x2, x3, x4) in
                  (
                    end.0,
                    subst (Entered uuid entry_uuid job dispatch account_id owner_id n key h)
                        (sym end.1)
                        (record {
                          slots = ground (arith, room);
                          alive = alive;
                          a = a;
                          reserve = x1;
                          added = rows-Added job dispatch key h.db db1 db2 db3 u1 u2 u3 x2 x3 x4;
                          owners = refl;
                        }),
                  )
            ]
          ]
        ]
      ]
    ]
  ]

  -- Credits are asked for, and a key that was used gives the job of the earlier call.
  pub data Admitted : Type 0 where
    again :
        (x : Idempotency) (row : Job)
        → replay_job key h.db ≡ some x
        → find_job x.job_id h.db.jobs ≡ some row
        → spec_eq row.spec job.spec ≡ true
        → j ≡ row
        → after ≡ h
        → Admitted
    entered :
        replay_job key h.db ≡ none
        → j ≡ job
        → Entered uuid entry_uuid job dispatch account_id owner_id n key h after
        → Admitted

  again-Admitted :
      (x : Idempotency)
      → replay_job key h.db ≡ some x
      → on_db (admit_again job x) h ≡ ok (j, after)
      → Admitted
  unfolding admit_again
  again-Admitted x seen y = elim (Option-cases (find_job x.job_id h.db.jobs)) [
    | inl missing ↦ absurd (ground (arith, y, missing))
    | inr (row, found) ↦ elim (Bool-cases (spec_eq row.spec job.spec)) [
      | inl alike ↦
          again x row seen found alike (ground (arith, y, found, alike))
            (ground (arith, y, found, alike))
      | inr unlike ↦ absurd (ground (arith, y, found, unlike))
    ]
  ]

  pub admit-Admitted :
      admit uuid entry_uuid job dispatch account_id owner_id n key h ≡ ok (j, after) → Admitted
  unfolding admit
  admit-Admitted x = elim (Bool-cases (n == 0)) [
    | inl zero ↦ absurd (ground (arith, x, zero))
    | inr some_credits ↦ elim (Option-cases (replay_job key h.db)) [
      | inl new ↦
          let (one, e) = admit_fresh-Entered (ground (arith, x, some_credits, new)) in
          entered new one e
      | inr (r, seen) ↦ again-Admitted r seen (ground (arith, x, some_credits, seen))
    ]
  ]

  Entered-slots :
      Entered uuid entry_uuid job dispatch account_id owner_id n key h after
      → (k : Identifier) → active_jobs k h ≤ 3
      → active_jobs k after ≤ 3
  unfolding active_jobs
  Entered-slots e k few =
      let free = λ (own : (owner_id == k) ≡ true).
        subst (λ o. active_jobs o h < 3) ((==_iff owner_id k).0 own) e.slots in
      subst (λ owners. count (is_active_of k owners) after.db.jobs ≤ 3) (sym e.owners)
        (subst (λ jobs. count (is_active_of k ((job.id, owner_id) ∷ h.owners)) jobs ≤ 3)
          (sym e.added.jobs) (count_added k h.owners job owner_id h.db.jobs e.added.new free few))

  Entered-Kept :
      IsBacked h.books
      → IsBilled h
      → job.version ≡ 0
      → job.status ≡ JobStatus.queued
      → Entered uuid entry_uuid job dispatch account_id owner_id n key h after
      → Kept h after
  unfolding find_job
  Entered-Kept b s v q e = record {
    slots = Entered-slots e;
    change = admitted job e.added.new v q e.added.jobs e.added.events;
    backed = hold-IsBacked uuid entry_uuid job.id account_id n h.books after.books e.a b e.reserve;
    billed = λ k.
        let (fresh, held) =
          status_for-hold uuid entry_uuid job.id account_id n h.books after.books e.a b e.reserve in
        ground (arith, held k, s k, ap (λ js. bill_of (find_job k js)) e.added.jobs, q);
  }

  -- An admission enters one job with a reserved authorization, or changes nothing.
  pub admit-Kept :
      IsBacked h.books
      → IsBilled h
      → job.version ≡ 0
      → job.status ≡ JobStatus.queued
      → admit uuid entry_uuid job dispatch account_id owner_id n key h ≡ ok (j, after)
      → Kept h after
  admit-Kept b s v q x = elim (admit-Admitted x) [
    | again r row seen found alike one same_state ↦
        rw same_state (quiet-Kept h h b s refl refl refl refl)
    | entered new one e ↦ Entered-Kept b s v q e
  ]
