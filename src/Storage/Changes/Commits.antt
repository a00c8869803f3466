-- ===== src/Storage/Changes/Commits.antt =====
-- The optimistic write of `commit_snapshot` as a change of one row.
use kenkui_server.Prelude.{
  ℕ, ◌+◌, ◌≡◌, refl, inl, inr, some, ◌∷◌, arith, count, modify, Option-cases,
}
use kenkui_server.Prelude.Result.{ok}
use kenkui_server.Jobs.Models.{Job, EventType, JobEvent}
use kenkui_server.Storage.Tables.{Database, find_job, next_sequence, insert_event, job_at, set_job}
use kenkui_server.Storage.Tables.Rows.{
  IsUnique, count-job_at, id-find_job, find_job-modify_one, modify-IsUnique,
}
use kenkui_server.Storage.Repositories.{commit_snapshot}
use kenkui_server.Storage.Changes.{◌↝◌, Written}

module _ (job : Job) (v : ℕ) (type : EventType) (db after : Database) (e : JobEvent)
    (h : commit_snapshot job v type db ≡ ok (e, after)) where
  commit_snapshot-count : count (job_at job.id v) db.jobs ≡ 1
  unfolding commit_snapshot insert_event
  commit_snapshot-count = ground arith

  commit_snapshot-jobs :
      after.jobs ≡ modify (job_at job.id v) (set_job job.status job.version job.progress) db.jobs
  unfolding commit_snapshot insert_event
  commit_snapshot-jobs = ground arith

  commit_snapshot-events : after.job_events ≡ e ∷ db.job_events
  unfolding commit_snapshot insert_event
  commit_snapshot-events = ground arith

  commit_snapshot-event :
      (e.job_id ≡ job.id)
      × (e.sequence ≡ next_sequence job.id db.job_events)
      × (e.progress ≡ job.progress)
      × (e.event_type ≡ type)
  unfolding commit_snapshot insert_event
  commit_snapshot-event = ground arith

  -- The row that the write replaces has the expected version.
  pub commit_snapshot_stored :
      IsUnique db.jobs → (r : Job) × (find_job job.id db.jobs ≡ some r) × (r.version ≡ v)
  commit_snapshot_stored u = elim (Option-cases (find_job job.id db.jobs)) [
    | inl missing ↦ absurd (ground (arith, count-job_at job.id v db.jobs u, commit_snapshot-count))
    | inr (r, found) ↦
        (r, found, ground (arith, count-job_at job.id v db.jobs u, commit_snapshot-count))
  ]

  pub commit_snapshot-Written :
      (r : Job)
      → find_job job.id db.jobs ≡ some r
      → r.version ≡ v
      → r.status ↝ job.status
      → job.version ≡ v + 1
      → Written db after r (set_job job.status job.version job.progress r) e
  commit_snapshot-Written r found at edge next =
      let (owner, number, shown, _) = commit_snapshot-event in
      let same : r.id ≡ job.id = id-find_job job.id db.jobs r found in
      record {
        stored = simp same found;
        follows = record { edge = edge; version = ground arith; id = refl; spec = refl };
        unique = λ u. rw commit_snapshot-jobs (modify-IsUnique _ _ db.jobs (λ j. refl) u);
        rows = λ k. rw commit_snapshot-jobs (
            find_job-modify_one k (job_at job.id v) _ db.jobs r (λ j. refl) (λ j hit. ground arith)
              (simp same found) (ground arith));
        test = job_at job.id v;
        change = set_job job.status job.version job.progress;
        table = commit_snapshot-jobs;
        tested = λ j hit. ground (arith, hit, same);
        changed = λ j. (refl, refl);
        logged = commit_snapshot-events;
        owner = ground arith;
        number = simp same number;
        shown = shown;
      }
