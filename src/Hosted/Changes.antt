-- ===== src/Hosted/Changes.antt =====
-- What a committed hosted call does to the job rows, to the events, and to the authorization of
-- each job.
pub mod Updates
pub mod Local
pub mod Claims
pub mod Admissions
use kenkui_server.Prelude.{
  ◌≤◌, ℕ, ◌+◌, ◌≡◌, refl, Bool, true, false, not, Option, none, some, List, [], ◌∷◌, ◌==◌,
  if◌then◌else◌, arith, ap, ◌∙◌, sym, subst, Bool-cases, inl, inr, ==_iff,
}
use kenkui_server.Prelude.Result.{ok, err, outcome, raised, returned}
use kenkui_server.Jobs.Models.{Identifier, Job, JobStatus, is_terminal, JobEvent}
use kenkui_server.Billing.Models.{AuthorizationStatus, CreditAuthorization}
use kenkui_server.Storage.Tables.{Database, find_job}
use kenkui_server.Storage.Changes.{Change, same, written, Written}
use kenkui_server.Storage.System.Jobs.{terminal_has_no_edge}
use kenkui_server.Hosted.Tables.{Books}
use kenkui_server.Hosted.Billing.{finalize}
use kenkui_server.Hosted.Balance.{IsBacked}
use kenkui_server.Hosted.Balance.Finals.{finalize-IsBacked}
use kenkui_server.Storage.Tables.Rows.{IsUnique}
use kenkui_server.Hosted.Slots.{count-Written}
use kenkui_server.Hosted.Statuses.{status_for, status_for-finalize}
use kenkui_server.Hosted.Repositories.{active_jobs, Hosted, on_db, on_books, final_for, end_job}

-- The status that the authorization of a job has by the status of the job.
abbrev pub bill_for : JobStatus → AuthorizationStatus
bill_for JobStatus.queued = AuthorizationStatus.reserved
bill_for JobStatus.running = AuthorizationStatus.reserved
bill_for JobStatus.cancel_requested = AuthorizationStatus.reserved
bill_for JobStatus.succeeded = AuthorizationStatus.settled
bill_for JobStatus.failed = AuthorizationStatus.released
bill_for JobStatus.cancelled = AuthorizationStatus.released

abbrev pub bill_of : Option Job → Option AuthorizationStatus
bill_of none = none
bill_of (some j) = some (bill_for j.status)

-- Each job has an authorization: reserved while the job is open, settled when it has succeeded, and
-- released when it has failed or was cancelled.
abbrev pub IsBilled : Hosted → Type 0
IsBilled h = (k : Identifier) → status_for k h.books ≡ bill_of (find_job k h.db.jobs)

-- A call on a hosted state whose books are in order.
pub record Kept (before after : Hosted) : Type 0 where
  pub change : Change before.db after.db
  pub slots : (o : Identifier) → active_jobs o before ≤ 3 → active_jobs o after ≤ 3
  pub backed : IsBacked after.books
  pub billed : IsBilled after

-- A call that leaves the job rows and the books alone.
pub quiet-Kept :
    (before after : Hosted)
    → IsBacked before.books
    → IsBilled before
    → after.db.jobs ≡ before.db.jobs
    → after.db.job_events ≡ before.db.job_events
    → after.books ≡ before.books
    → after.owners ≡ before.owners
    → Kept before after
unfolding active_jobs
quiet-Kept before after b s jobs events books owners = record {
  change = same jobs events;
  slots = λ o h. rw (jobs, owners) h;
  backed = rw books b;
  billed = λ k. ap (status_for k) books ∙ s k ∙ ap (λ js. bill_of (find_job k js)) (sym jobs);
}

final_for-bill_for : (s : JobStatus) → is_terminal s ≡ true → final_for s ≡ bill_for s
final_for-bill_for JobStatus.queued h = cc
final_for-bill_for JobStatus.running h = cc
final_for-bill_for JobStatus.cancel_requested h = cc
final_for-bill_for JobStatus.succeeded h = refl
final_for-bill_for JobStatus.failed h = refl
final_for-bill_for JobStatus.cancelled h = refl

bill_for_open : (s : JobStatus) → is_terminal s ≡ false → bill_for s ≡ AuthorizationStatus.reserved
bill_for_open JobStatus.queued h = refl
bill_for_open JobStatus.running h = refl
bill_for_open JobStatus.cancel_requested h = refl
bill_for_open JobStatus.succeeded h = cc
bill_for_open JobStatus.failed h = cc
bill_for_open JobStatus.cancelled h = cc

pub end_job-db :
    (db_now entry_uuid k : ℕ) (s : JobStatus) (middle after : Hosted) (u : Unit {0})
    → end_job db_now entry_uuid k s middle ≡ ok (u, after)
    → after.db ≡ middle.db
unfolding end_job
end_job-db db_now entry_uuid k s middle after u h = ground (arith, h)

end_job-owners :
    (db_now entry_uuid k : ℕ) (s : JobStatus) (middle after : Hosted) (u : Unit {0})
    → end_job db_now entry_uuid k s middle ≡ ok (u, after)
    → after.owners ≡ middle.owners
unfolding end_job
end_job-owners db_now entry_uuid k s middle after u h = ground (arith, h)

end_job_open :
    (db_now entry_uuid k : ℕ) (s : JobStatus) (middle after : Hosted) (u : Unit {0})
    → is_terminal s ≡ false
    → end_job db_now entry_uuid k s middle ≡ ok (u, after)
    → after.books ≡ middle.books
unfolding end_job
end_job_open db_now entry_uuid k s middle after u still h = ground (arith, h, still)

end_job_final :
    (db_now entry_uuid k : ℕ) (s : JobStatus) (middle after : Hosted) (u : Unit {0})
    → is_terminal s ≡ true
    → end_job db_now entry_uuid k s middle ≡ ok (u, after)
    → (r : CreditAuthorization) × (finalize entry_uuid k (final_for s) middle.books
        ≡ ok (r, after.books))
unfolding end_job
end_job_final db_now entry_uuid k s middle after u ended h =
    elim (outcome (finalize entry_uuid k (final_for s) middle.books)) [
      | raised e x ↦ absurd (ground (arith, h, ended, x))
      | returned (r, books) x ↦
          let same_books : books ≡ after.books = ground (arith, h, ended, x) in
          (r, x ∙ ap (λ (b : Books). ok (r, b)) same_books)
    ]

-- One write of a row, and the end of its job: the authorization follows the status.
module _ (before middle after : Hosted) (r r' : Job) (e : JobEvent) (db_now entry_uuid : ℕ)
    (u : Unit {0}) (b : IsBacked before.books) (s : IsBilled before)
    (w : Written before.db middle.db r r' e) (books : middle.books ≡ before.books)
    (owners : middle.owners ≡ before.owners) (unique : IsUnique before.db.jobs)
    (h : end_job db_now entry_uuid r.id r'.status middle ≡ ok (u, after)) where
  was_open : is_terminal r.status ≡ false
  was_open = elim (Bool-cases (is_terminal r.status)) [
    | inl ended ↦ absurd (terminal_has_no_edge ended w.follows.edge)
    | inr still ↦ still
  ]

  was_reserved : status_for r.id before.books ≡ some AuthorizationStatus.reserved
  was_reserved = s r.id ∙ ap bill_of w.stored ∙ ap some (bill_for_open r.status was_open)

  jobs_after :
      (k : Identifier)
      → find_job k after.db.jobs ≡ (if r.id == k then some r' else find_job k before.db.jobs)
  jobs_after k =
      ap (λ (d : Database). find_job k d.jobs)
        (end_job-db db_now entry_uuid r.id r'.status middle after u h)
      ∙ w.rows k

  Written-Change : Change before.db after.db
  Written-Change =
      subst (λ (d : Database). Change before.db d)
        (sym (end_job-db db_now entry_uuid r.id r'.status middle after u h)) (written r r' e w)

  slots_after : (o : Identifier) → active_jobs o before ≤ 3 → active_jobs o after ≤ 3
  unfolding active_jobs
  slots_after o few =
      let same_owners : after.owners ≡ before.owners =
        end_job-owners db_now entry_uuid r.id r'.status middle after u h ∙ owners in
      let rows = end_job-db db_now entry_uuid r.id r'.status middle after u h in
      rw (same_owners, rows)
        (omega (arith, few, count-Written o before.owners before.db middle.db r r' e unique w))

  pub Written-Kept : Kept before after
  Written-Kept = elim (Bool-cases (is_terminal r'.status)) [
    | inl ended ↦
        let (a, f) = end_job_final db_now entry_uuid r.id r'.status middle after u ended h in
        let backed_middle : IsBacked middle.books = rw books b in
        let reserved_middle = ap (status_for r.id) books ∙ was_reserved in
        record {
          change = Written-Change;
          slots = slots_after;
          backed =
              finalize-IsBacked entry_uuid r.id (final_for r'.status) middle.books after.books a
                backed_middle f;
          billed = λ k. ground (
            arith,
            final_for-bill_for r'.status ended,
            jobs_after k,
            s k,
            ap (status_for k) books,
            status_for-finalize entry_uuid r.id (final_for r'.status) middle.books after.books a
                backed_middle reserved_middle f k,
          );
        }
    | inr still ↦
        let kept_books : after.books ≡ before.books =
          end_job_open db_now entry_uuid r.id r'.status middle after u still h ∙ books in
        record {
          change = Written-Change;
          slots = slots_after;
          backed = rw kept_books b;
          billed = λ k. elim (Bool-cases (r.id == k)) [
            | inl own ↦
                let open_still =
                  subst (λ i. status_for i before.books ≡ some AuthorizationStatus.reserved)
                    ((==_iff r.id k).0 own) was_reserved in
                ground (
                  arith,
                  bill_for_open r'.status still,
                  jobs_after k,
                  ap (status_for k) kept_books,
                  own,
                  open_still,
                )
            | inr other ↦ ground (arith, jobs_after k, ap (status_for k) kept_books, other, s k)
          ];
        }
  ]
