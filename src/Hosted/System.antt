-- ===== src/Hosted/System.antt =====
-- The hosted server as a system of interleaved calls: API requests, webhooks, workers and the
-- supervisor share one PostgreSQL database, and act on job snapshots that they read at any earlier
-- time. Every constructor of `Step` is one committed transaction that nothing interrupts; a call that
-- raises leaves the world as it is. `PostgresHostedRepository.admit` is the only way in for a job.
-- The transactions run at READ COMMITTED: `Runs` adds the claim whose first query, which takes no
-- lock, was made at an earlier time.
pub mod Billed
pub mod Reached
pub mod Runs
use kenkui_server.Prelude.{
  ℕ, ◌+◌, ◌≡◌, ◌≤◌, refl, Bool, true, false, Option, none, some, List, [], ◌∷◌, Memᴰ, Text, arith,
  ap, ◌∙◌, sym, subst, All, inl, inr,
}
use kenkui_server.Prelude.Result.{ok}
use kenkui_server.Jobs.Models.{
  Identifier, JobSpec, Job, new_job, EventType, JobEvent, Artifact, Dispatch, is_terminal,
}
use kenkui_server.Jobs.Transitions.{TransitionEvent, transition}
use kenkui_server.Billing.Models.{CreditAccount, LotKind}
use kenkui_server.Storage.Tables.{Database, Failure, empty, find_job}
use kenkui_server.Storage.Tables.Rows.{id-find_job}
use kenkui_server.Storage.Repositories.{Lease, update_dispatch}
use kenkui_server.Storage.Changes.{Change, IsConsistent, Change-IsConsistent, Change-Later}
use kenkui_server.Storage.Changes.Calls.{IsSnapshot}
use kenkui_server.Storage.System.{new_dispatch}
use kenkui_server.Storage.System.Jobs.{snapshots_Change, All-Memᴰ}
use kenkui_server.Hosted.Tables.{Books}
use kenkui_server.Hosted.Billing.{grant, process_payment_event}
use kenkui_server.Hosted.Balance.{IsBacked}
use kenkui_server.Hosted.Repositories.{
  Hosted, on_db, on_books, admit, update_job_and_append_event, request_cancellation,
  finish_dispatch,
}
use kenkui_server.Hosted.Execution.{claim_execution, renew_execution, release_execution}

-- The hosted state, the clock, and the job snapshots that callers hold.
pub record HostedWorld : Type 0 where
  pub state : Hosted
  pub clock : ℕ
  pub held : List Job

-- Only the state changes.
pub record Only (w v : HostedWorld) : Type 0 where
  pub clock : v.clock ≡ w.clock
  pub held : v.held ≡ w.held

pub data Step (limit : ℕ) (w v : HostedWorld) : Type 0 where
  wait : w.clock ≤ v.clock → v.state ≡ w.state → v.held ≡ w.held → Step limit w v
  read :
      (id : Identifier) (j : Job)
      → find_job id w.state.db.jobs ≡ some j
      → v.state ≡ w.state
      → v.clock ≡ w.clock
      → v.held ≡ j ∷ w.held
      → Step limit w v
  fund :
      (now lot_uuid entry_uuid account_id credits : ℕ) (reference : Text) (a : CreditAccount)
      → on_books (grant now lot_uuid entry_uuid account_id credits reference) w.state
        ≡ ok (a, v.state)
      → Only w v
      → Step limit w v
  pay :
      (now lot_uuid entry_uuid : ℕ) (provider event : Text) (account_id credits : ℕ)
      (a : CreditAccount)
      → on_books
          (process_payment_event now lot_uuid entry_uuid provider event account_id credits)
          w.state
        ≡ ok (a, v.state)
      → Only w v
      → Step limit w v
  submit :
      (uuid entry_uuid id dispatch_id : Identifier) (spec : JobSpec)
      (account_id owner_id credits : ℕ) (key : Option Identifier) (j : Job)
      → admit uuid entry_uuid
          (new_job id spec)
          (new_dispatch dispatch_id id)
          account_id
          owner_id
          credits
          key
          w.state
        ≡ ok (j, v.state)
      → Only w v
      → Step limit w v
  advance :
      (db_now entry_uuid : ℕ) (h next : Job) (event : TransitionEvent) (type : EventType)
      (artifact : Option Artifact) (lease : Option Lease) (failure : Option Failure) (e : JobEvent)
      → Memᴰ h w.held
      → transition h event ≡ ok next
      → update_job_and_append_event w.clock db_now entry_uuid next h.version type artifact lease
          failure w.state
        ≡ ok (e, v.state)
      → Only w v
      → Step limit w v
  cancel :
      (db_now entry_uuid id : ℕ) (j : Job)
      → request_cancellation db_now entry_uuid id w.state ≡ ok (j, v.state)
      → Only w v
      → Step limit w v
  redispatch :
      (d : Dispatch) (expected : ℕ) (u : Unit {0})
      → on_db (update_dispatch d expected) w.state ≡ ok (u, v.state)
      → Only w v
      → Step limit w v
  conclude :
      (d : Dispatch) (lease : Option Lease) (b : Bool)
      → finish_dispatch w.clock d lease w.state ≡ ok (b, v.state)
      → Only w v
      → Step limit w v
  claim :
      (now db_now entry_uuid dispatch_id ttl max_attempts token : ℕ) (t : Option Identifier)
      → now ≤ w.clock
      → claim_execution now db_now entry_uuid dispatch_id limit ttl max_attempts token w.state
        ≡ ok (t, v.state)
      → Only w v
      → Step limit w v
  renew :
      (first dispatch_id token ttl : ℕ) (b : Bool)
      → first ≤ w.clock
      → renew_execution first w.clock dispatch_id token ttl w.state ≡ ok (b, v.state)
      → Only w v
      → Step limit w v
  release :
      (dispatch_id token : Identifier) (u : Unit {0})
      → release_execution dispatch_id token w.state ≡ ok (u, v.state)
      → Only w v
      → Step limit w v

pub data Reach (limit : ℕ) (w : HostedWorld) : HostedWorld → Type 0 where
  here : Reach limit w w
  next : {u v : HostedWorld} → Reach limit w u → Step limit u v → Reach limit w v
