-- ===== src/Hosted/Changes/Local.antt =====
-- A hosted update is a local one.
use kenkui_server.Prelude.{ℕ, ◌+◌, ◌≡◌, false, Option, none, some, arith, ap, ◌∙◌, sym}
use kenkui_server.Prelude.Result.{ok, outcome, raised, returned}
use kenkui_server.Prelude.Transaction.{◌>>◌}
use kenkui_server.Jobs.Models.{Job, JobEvent, EventType, Artifact}
use kenkui_server.Storage.Tables.{Database, Failure, find_job, insert_failure, insert_artifact}
use kenkui_server.Storage.Repositories.{
  Lease, check_lease, commit_snapshot, record_failure, record_artifact, spec_changed,
  update_job_and_append_event as update_local,
}
use kenkui_server.Storage.Changes.Updates.{check_lease-IsHeld}
use kenkui_server.Hosted.Changes.{end_job-db}
use kenkui_server.Hosted.Repositories.{
  Hosted, end_job, publish_artifact, update_job_and_append_event,
}

-- The two writes that follow the commit, in either order.
rest_local :
    (job : Job) (artifact : Option Artifact) (failure : Option Failure) (db mid after : Database)
    (u v : Unit {0})
    → publish_artifact job artifact db ≡ ok (u, mid)
    → record_failure job.id failure mid ≡ ok (v, after)
    → (record_failure job.id failure >> record_artifact job artifact) db ≡ ok (tt, after)
unfolding publish_artifact record_failure record_artifact insert_failure insert_artifact
rest_local job none none db mid after u v x y = ground (arith, x, y)
rest_local job none (some f) db mid after u v x y = ground (arith, x, y)
rest_local job (some a) none db mid after u v x y = ground (arith, x, y)
rest_local job (some a) (some f) db mid after u v x y = ground (arith, x, y)

module _ (now db_now entry_uuid : ℕ) (job : Job) (v : ℕ) (type : EventType)
    (artifact : Option Artifact) (lease : Option Lease) (failure : Option Failure) where
  -- The local call, from its statements.
  local_made :
      (db committed db1 after : Database) (u : Unit {0}) (e : JobEvent)
      → job.version ≡ v + 1
      → spec_changed job (find_job job.id db.jobs) ≡ false
      → check_lease now lease db ≡ ok (u, db1)
      → db1 ≡ db
      → commit_snapshot job v type db ≡ ok (e, committed)
      → (record_failure job.id failure >> record_artifact job artifact) committed ≡ ok (tt, after)
      → update_local now job v type artifact lease failure db ≡ ok (e, after)
  unfolding update_local
  local_made db committed db1 after u e next spec held same commit rest =
      ground (arith, next, spec, held, same, commit, rest)

  -- What the hosted repository commits for a snapshot that is the next version of its job, with the
  -- spec of the stored row, the local repository commits on the same job tables: the same event, and
  -- the same tables after it, whatever the artifact, the lease and the failure.
  pub update-update_local :
      (h after : Hosted) (e : JobEvent)
      → job.version ≡ v + 1
      → spec_changed job (find_job job.id h.db.jobs) ≡ false
      → update_job_and_append_event now db_now entry_uuid job v type artifact lease failure h
        ≡ ok (e, after)
      → update_local now job v type artifact lease failure h.db ≡ ok (e, after.db)
  unfolding update_job_and_append_event
  update-update_local h after e next spec x = elim (outcome (check_lease now lease h.db)) [
    | raised c y ↦ absurd (ground (arith, x, y))
    | returned (u1, db1) x1 ↦
        let (held, same) = check_lease-IsHeld now lease h.db db1 u1 x1 in
        elim (outcome (commit_snapshot job v type h.db)) [
          | raised c y ↦ absurd (ground (arith, x, x1, same, y))
          | returned (e2, db2) x2 ↦ elim (outcome (publish_artifact job artifact db2)) [
            | raised c y ↦ absurd (ground (arith, x, x1, same, x2, y))
            | returned (u3, db3) x3 ↦ elim (outcome (record_failure job.id failure db3)) [
              | raised c y ↦ absurd (ground (arith, x, x1, same, x2, x3, y))
              | returned (u4, db4) x4 ↦
                  elim (outcome
                    (end_job db_now entry_uuid job.id job.status (record h { db = db4 }))) [
                      | raised c y ↦ absurd (ground (arith, x, x1, same, x2, x3, x4, y))
                      | returned (u5, h5) x5 ↦
                          let rows =
                            end_job-db db_now entry_uuid job.id job.status (record h { db = db4 })
                              h5 u5 x5 in
                          let end : (e2 ≡ e) × (h5 ≡ after) =
                            ground (arith, x, x1, same, x2, x3, x4, x5) in
                          local_made h.db db2 db1 db4 u1 e2 next spec x1 same x2
                            (rest_local job artifact failure db2 db3 db4 u3 u4 x3 x4)
                          ∙ ap (λ (e : JobEvent). ok (e, db4)) end.0
                          ∙ ap (λ (d : Database). ok (e, d))
                              (sym rows ∙ ap (λ (s : Hosted). s.db) end.1)
                    ]
            ]
          ]
        ]
  ]
