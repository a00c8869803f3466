-- ===== src/Dispatcher.antt =====
-- jobs/dispatcher.py: `Dispatcher`. The process runner is a parameter of the program: the model
-- keeps the dispatches that it was asked to start, newest first.
mod Tests
use kenkui_server.Prelude.{
  ℕ, ◌≡◌, ◌≢◌, refl, inl, inr, Bool, true, false, not, Option, none, some, List, [], ◌∷◌, ◌++◌, map,
  arith, ◌==◌, ==_iff, if◌then◌else◌, keep, Option-cases, Bool-cases, ap, ◌∙◌, sym,
}
use kenkui_server.Prelude.Result.{Result, ok, err, outcome, raised, returned}
use kenkui_server.Jobs.Models.{
  Identifier, JobSpec, spec_eq, spec_eq_iff, Job, new_job, Dispatch, is_terminal,
}
use kenkui_server.Storage.Tables.{
  Database, Idempotency, find_job, find_key, find_dispatch, insert_job, insert_dispatch, insert_key,
}
use kenkui_server.Storage.Tables.Rows.{id-find_job}
use kenkui_server.Storage.Repositories.{
  create_job_and_dispatch, replay_job, admit_new, admit_again, record_key,
}
use kenkui_server.Storage.Execution.{list_incomplete, is_open}
use kenkui_server.Storage.System.{new_dispatch}

pub record Server : Type 0 where
  pub db : Database
  pub started : List Identifier

abbrev pub start_if : Bool → Identifier → List Identifier → List Identifier
start_if true dispatch_id started = dispatch_id ∷ started
start_if false dispatch_id started = started

-- `submit`, where `id` and `dispatch_id` are the new `uuid4`s.
unfoldable pub submit :
    Identifier → Identifier → JobSpec → Option Identifier → Server → Result Job × Server
submit id dispatch_id spec key s =
    elim (create_job_and_dispatch (new_job id spec) (new_dispatch dispatch_id id) key s.db) [
      | err code ↦ (err code, s)
      | ok (admitted, db) ↦ (
        ok admitted,
        record { db = db; started = start_if (admitted.id == id) dispatch_id s.started },
      )
    ]

-- The loop of `recover`, which reads each job again.
unfoldable pub start_open : Database → List Dispatch → List Identifier → List Identifier
unfolding is_open
start_open db [] started = started
start_open db (d ∷ ds) started =
    start_open db ds (start_if (is_open (find_job d.job_id db.jobs)) d.id started)

-- `recover`: every listed dispatch has a job.
unfoldable pub recover : Server → Server
unfolding start_open
recover s = record s { started = start_open s.db (list_incomplete s.db) s.started }

-- What a call that carried a key leaves for the next one.
record Remembered (key : Identifier) (spec : JobSpec) (j : Job) (db : Database) : Type 0 where
  pub keyed : find_key key db.job_idempotency ≡ some (record { key = key; job_id = j.id })
  pub stored : find_job j.id db.jobs ≡ some j
  pub same_spec : spec_eq j.spec spec ≡ true

spec_eq_refl : (spec : JobSpec) → spec_eq spec spec ≡ true
spec_eq_refl spec = (spec_eq_iff spec spec).1 refl

find_key-key :
    (key : Identifier) (rows : List Idempotency) (r : Idempotency)
    → find_key key rows ≡ some r
    → r.key ≡ key
unfolding find_key
find_key-key key [] r h = cc
find_key-key key (x ∷ rows) r h = ground (arith, find_key-key key rows r)

admitted-Remembered :
    (id dispatch_id key : Identifier) (spec : JobSpec) (db after : Database) (j : Job)
    → admit_new (new_job id spec) (new_dispatch dispatch_id id) (some key) db ≡ ok (j, after)
    → Remembered key spec j after
unfolding admit_new insert_job insert_dispatch record_key insert_key find_key find_job new_job
admitted-Remembered id dispatch_id key spec db after j h = record {
  keyed = ground arith;
  stored = ground arith;
  same_spec = ground (arith, spec_eq_refl spec);
}

replayed-Remembered :
    (id key : Identifier) (spec : JobSpec) (db after : Database) (j : Job) (row : Idempotency)
    → find_key key db.job_idempotency ≡ some row
    → admit_again (new_job id spec) row db ≡ ok (j, after)
    → Remembered key spec j after
unfolding admit_again new_job
replayed-Remembered id key spec db after j row known h =
    let end : after ≡ db = ground arith in
    let found : find_job row.job_id db.jobs ≡ some j = ground arith in
    let owner = id-find_job row.job_id db.jobs j found in
    let held = find_key-key key db.job_idempotency row known in
    record {
      keyed = ground (arith, owner, held);
      stored = ground (arith, owner);
      same_spec = ground arith;
    }

create-Remembered :
    (id dispatch_id key : Identifier) (spec : JobSpec) (db after : Database) (j : Job)
    → create_job_and_dispatch (new_job id spec) (new_dispatch dispatch_id id) (some key) db
      ≡ ok (j, after)
    → Remembered key spec j after
unfolding create_job_and_dispatch replay_job
create-Remembered id dispatch_id key spec db after j h =
    elim (Option-cases (find_key key db.job_idempotency)) [
      | inl new ↦ admitted-Remembered id dispatch_id key spec db after j (ground arith)
      | inr (row, known) ↦ replayed-Remembered id key spec db after j row known (ground arith)
    ]

replays :
    (key : Identifier) (spec : JobSpec) (s : Server) (j : Job) (id dispatch_id : Identifier)
    → Remembered key spec j s.db
    → id ≢ j.id
    → submit id dispatch_id spec (some key) s ≡ (ok j, s)
unfolding submit create_job_and_dispatch replay_job admit_again new_job
replays key spec s j id dispatch_id m other = ground (arith, m.keyed, m.stored, m.same_spec, other)

submit_stored :
    (id dispatch_id key : Identifier) (spec : JobSpec) (s after : Server) (j : Job)
    → submit id dispatch_id spec (some key) s ≡ (ok j, after)
    → create_job_and_dispatch (new_job id spec) (new_dispatch dispatch_id id) (some key) s.db
      ≡ ok (j, after.db)
unfolding submit
submit_stored id dispatch_id key spec s after j h = ground arith

-- A job that is submitted again under its key, with the same spec, is answered with the same job:
-- nothing is stored, and nothing is started, however the new ids are chosen.
pub submit-submit :
    (id dispatch_id key : Identifier) (spec : JobSpec) (s after : Server) (j : Job)
    → submit id dispatch_id spec (some key) s ≡ (ok j, after)
    → (id' dispatch_id' : Identifier) → id' ≢ j.id
    → submit id' dispatch_id' spec (some key) after ≡ (ok j, after)
submit-submit id dispatch_id key spec s after j h id' dispatch_id' other =
    replays key spec after j id' dispatch_id'
      (create-Remembered id dispatch_id key spec s.db after.db j
        (submit_stored id dispatch_id key spec s after j h))
      other
