-- ===== src/Storage/System.antt =====
-- The local server as a system of interleaved calls: API requests, workers and the supervisor
-- share one database, and act on snapshots that they read at any earlier time. Every constructor
-- of `Step` is one committed transaction; a call that raises leaves the world as it is.
pub mod Jobs
pub mod Routing
pub mod Slots
pub mod Effects
pub mod Bound
use kenkui_server.Prelude.{ℕ, ◌≤◌, ◌≡◌, Bool, Option, List, [], ◌∷◌}
use kenkui_server.Prelude.Result.{ok}
use kenkui_server.Jobs.Models.{
  Identifier, JobSpec, Job, new_job, EventType, JobEvent, Artifact, Dispatch, DispatchStatus,
}
use kenkui_server.Jobs.Transitions.{TransitionEvent, transition}
use kenkui_server.Prelude.{Memᴰ}
use kenkui_server.Storage.Tables.{Database, Failure, empty}
use kenkui_server.Storage.Repositories.{
  Lease, get_job, create_job_and_dispatch, update_job_and_append_event, request_cancellation,
  update_dispatch, finish_dispatch,
}
use kenkui_server.Storage.Execution.{claim_execution, renew_execution, release_execution}

-- The database, the clock, and the job snapshots that callers hold.
pub record World : Type 0 where
  pub db : Database
  pub clock : ℕ
  pub held : List Job

abbrev pub initial : World
initial = record { db = empty; clock = 0; held = [] }

-- `Dispatcher.submit`: the dispatch that goes with a new job.
unfoldable pub new_dispatch : Identifier → Identifier → Dispatch
new_dispatch id job_id = record {
  id = id;
  job_id = job_id;
  status = DispatchStatus.pending;
  version = 0;
}

-- Only the database changes.
pub record Writes (w v : World) : Type 0 where
  pub clock : v.clock ≡ w.clock
  pub held : v.held ≡ w.held

pub data Step (limit : ℕ) (w v : World) : Type 0 where
  wait : w.clock ≤ v.clock → v.db ≡ w.db → v.held ≡ w.held → Step limit w v
  read :
      (id : Identifier) (j : Job)
      → get_job id w.db ≡ ok (j, v.db)
      → v.clock ≡ w.clock
      → v.held ≡ j ∷ w.held
      → Step limit w v
  submit :
      (id dispatch_id : Identifier) (spec : JobSpec) (key : Option Identifier) (j : Job)
      → create_job_and_dispatch (new_job id spec) (new_dispatch dispatch_id id) key w.db
        ≡ ok (j, v.db)
      → Writes w v
      → Step limit w v
  advance :
      (h next : Job) (event : TransitionEvent) (type : EventType) (artifact : Option Artifact)
      (lease : Option Lease) (failure : Option Failure) (e : JobEvent)
      → Memᴰ h w.held
      → transition h event ≡ ok next
      → update_job_and_append_event w.clock next h.version type artifact lease failure w.db
        ≡ ok (e, v.db)
      → Writes w v
      → Step limit w v
  cancel :
      (id : Identifier) (j : Job)
      → request_cancellation id w.db ≡ ok (j, v.db)
      → Writes w v
      → Step limit w v
  redispatch :
      (d : Dispatch) (expected : ℕ) (u : Unit {0})
      → update_dispatch d expected w.db ≡ ok (u, v.db)
      → Writes w v
      → Step limit w v
  conclude :
      (d : Dispatch) (lease : Option Lease) (b : Bool)
      → finish_dispatch w.clock d lease w.db ≡ ok (b, v.db)
      → Writes w v
      → Step limit w v
  claim :
      (now dispatch_id ttl max_attempts token : ℕ) (t : Option Identifier)
      → now ≤ w.clock
      → claim_execution now dispatch_id limit ttl max_attempts token w.db ≡ ok (t, v.db)
      → Writes w v
      → Step limit w v
  renew :
      (first dispatch_id token ttl : ℕ) (b : Bool)
      → first ≤ w.clock
      → renew_execution first w.clock dispatch_id token ttl w.db ≡ ok (b, v.db)
      → Writes w v
      → Step limit w v
  release :
      (dispatch_id token : Identifier) (u : Unit {0})
      → release_execution dispatch_id token w.db ≡ ok (u, v.db)
      → Writes w v
      → Step limit w v

pub data Reach (limit : ℕ) (w : World) : World → Type 0 where
  here : Reach limit w w
  next : {u v : World} → Reach limit w u → Step limit u v → Reach limit w v
