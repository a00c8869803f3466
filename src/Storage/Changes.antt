-- ===== src/Storage/Changes.antt =====
-- What one call does to the job rows and to the event log: nothing, the admission of a job, or
-- one write of a row together with the event that records it.
pub mod Commits
pub mod Updates
pub mod Calls
pub mod Cancellations
use kenkui_server.Prelude.{
  ℕ, ◌+◌, ◌≡◌, ◌≤◌, ◌<◌, ◌⊎◌, inl, inr, refl, ap, Bool, true, Option, none, some, ◌∷◌, arith, ◌==◌,
  if◌then◌else◌, Bool-cases, subst, modify,
}
use kenkui_server.Jobs.Models.{Identifier, JobStatus, Job, JobEvent, Progress}
use kenkui_server.Jobs.Transitions.Graph.{◌⟶◌}
use kenkui_server.Storage.Tables.{Database, find_job, next_sequence}
use kenkui_server.Storage.Tables.Rows.{
  IsUnique, id-find_job, events_of, IsNumbered, next_sequence-eq-events_of,
}

-- The status changes of a stored job: the transitions of a job, and what the storage adds. A job
-- whose worker was lost too often fails from the queue as well, and a cancellation that finds the
-- dispatch finished takes a running job to its end at once.
infix 40 ◌↝◌
pub data ◌↝◌ : JobStatus → JobStatus → Type 0 where
  along : {s t : JobStatus} → s ⟶ t → s ↝ t
  give_up : JobStatus.queued ↝ JobStatus.failed
  stop : JobStatus.running ↝ JobStatus.cancelled

-- A later row of the same job.
pub record Follows (r r' : Job) : Type 0 where
  pub edge : r.status ↝ r'.status
  pub version : r'.version ≡ r.version + 1
  pub id : r'.id ≡ r.id
  pub spec : r'.spec ≡ r.spec

pub record Written (before after : Database) (r r' : Job) (e : JobEvent) : Type 0 where
  pub stored : find_job r.id before.jobs ≡ some r
  pub follows : Follows r r'
  pub unique : IsUnique before.jobs → IsUnique after.jobs
  pub rows :
      (k : Identifier)
      → find_job k after.jobs ≡ (if r.id == k then some r' else find_job k before.jobs)
  pub test : Job → Bool
  pub change : Job → Job
  pub table : after.jobs ≡ modify test change before.jobs
  pub tested : (j : Job) → test j ≡ true → j.id ≡ r.id
  pub changed : (j : Job) → ((change j).id ≡ j.id) × ((change j).status ≡ r'.status)
  pub logged : after.job_events ≡ e ∷ before.job_events
  pub owner : e.job_id ≡ r.id
  pub number : e.sequence ≡ next_sequence r.id before.job_events
  pub shown : e.progress ≡ r'.progress

pub data Change (before after : Database) : Type 0 where
  same : after.jobs ≡ before.jobs → after.job_events ≡ before.job_events → Change before after
  admitted :
      (j : Job)
      → find_job j.id before.jobs ≡ none
      → j.version ≡ 0
      → j.status ≡ JobStatus.queued
      → after.jobs ≡ j ∷ before.jobs
      → after.job_events ≡ before.job_events
      → Change before after
  written : (r r' : Job) (e : JobEvent) → Written before after r r' e → Change before after

abbrev pub version_of : Option Job → ℕ
version_of none = 0
version_of (some j) = j.version

-- One row for each job, events numbered without gaps, and as many events as the version says.
pub record IsConsistent (db : Database) : Type 0 where
  pub unique : IsUnique db.jobs
  pub numbered : IsNumbered db.job_events
  pub counted : (k : Identifier) → events_of k db.job_events ≡ version_of (find_job k db.jobs)

Written-IsConsistent :
    (before after : Database) (r r' : Job) (e : JobEvent)
    → Written before after r r' e
    → IsConsistent before
    → IsConsistent after
Written-IsConsistent before after r r' e w c = record {
  unique = w.unique c.unique;
  numbered = rw w.logged (
    rw (w.owner, w.number) (next_sequence-eq-events_of r.id before.job_events c.numbered),
    c.numbered,
  );
  counted = λ k.
      rw (w.logged, w.rows k) (ground (arith, w.owner, c.counted k, w.stored, w.follows.version));
}

admitted-counted :
    (before after : Database) (j : Job) (k : Identifier)
    → find_job j.id before.jobs ≡ none
    → j.version ≡ 0
    → events_of k before.job_events ≡ version_of (find_job k before.jobs)
    → events_of k before.job_events ≡ version_of (find_job k (j ∷ before.jobs))
unfolding find_job
admitted-counted before after j k fresh v h = ground arith

-- Every change keeps the database consistent.
pub Change-IsConsistent :
    (before after : Database) → Change before after → IsConsistent before → IsConsistent after
Change-IsConsistent before after (same j e) c = record {
  unique = rw j c.unique;
  numbered = rw e c.numbered;
  counted = λ k. rw (j, e) (c.counted k);
}
Change-IsConsistent before after (admitted j fresh v q rows e) c = record {
  unique = rw rows (fresh, c.unique);
  numbered = rw e c.numbered;
  counted = λ k. rw (rows, e) (admitted-counted before after j k fresh v (c.counted k));
}
Change-IsConsistent before after (written r r' e w) c = Written-IsConsistent before after r r' e w c

-- The row of a job after a change: the same, or a later one.
abbrev pub Later : Option Job → Job → Type 0
Later o r = (o ≡ some r) ⊎ ((r' : Job) × (o ≡ some r') × Follows r r')

find_job-cons :
    (k : Identifier) (j : Job) (db : Database) (r : Job)
    → find_job j.id db.jobs ≡ none
    → find_job k db.jobs ≡ some r
    → find_job k (j ∷ db.jobs) ≡ some r
unfolding find_job
find_job-cons k j db r fresh found = ground arith

-- A stored job stays, with the same row or a later one.
pub Change-Later :
    (before after : Database) (k : Identifier) (r : Job)
    → Change before after
    → find_job k before.jobs ≡ some r
    → Later (find_job k after.jobs) r
Change-Later before after k r (same j e) found = inl (rw j found)
Change-Later before after k r (admitted j fresh v q rows e) found =
    inl (rw rows (find_job-cons k j before r fresh found))
Change-Later before after k r (written s s' e w) found = elim (Bool-cases (s.id == k)) [
  | inl hit ↦ inr (s', rw (w.rows k, hit) refl, subst (λ j. Follows j s') (one hit) w.follows)
  | inr miss ↦ inl (rw (w.rows k, miss) found)
]
  where
    one : (s.id == k) ≡ true → s ≡ r
    one hit = ground (arith, w.stored)
