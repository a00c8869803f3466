-- ===== src/Hosted/System/Runs.antt =====
-- The hosted server at READ COMMITTED: `claim_execution` reads the row of the job without a lock, so
-- that other transactions may commit between that query and its writes.
use kenkui_server.Prelude.{ℕ, ◌≤◌, ◌≡◌, true, Option, some, Memᴰ, ap, ◌∙◌, arith}
use kenkui_server.Prelude.Result.{ok}
use kenkui_server.Jobs.Models.{Identifier, Job, Dispatch, is_terminal}
use kenkui_server.Storage.Tables.{find_job, find_dispatch}
use kenkui_server.Storage.Execution.{job_of_dispatch}
use kenkui_server.Hosted.Statuses.{status_for}
use kenkui_server.Hosted.Execution.{claim_execution, claim_seen}
use kenkui_server.Hosted.Changes.{bill_for}
use kenkui_server.Hosted.System.{HostedWorld, Only, Step, claim, Reach, here, next}
use kenkui_server.Hosted.System.Billed.{IsOrderly}
use kenkui_server.Hosted.System.Reached.{Reach-IsOrderly, Reach_frozen}

-- A transaction, or the rest of a claim whose first query gave a row that is still held.
pub data Move (limit : ℕ) (w v : HostedWorld) : Type 0 where
  step : Step limit w v → Move limit w v
  late_claim :
      (now db_now entry_uuid dispatch_id ttl max_attempts token : ℕ) (seen : Job) (d : Dispatch)
      (t : Option Identifier)
      → now ≤ w.clock
      → Memᴰ seen w.held
      → find_dispatch dispatch_id w.state.db.dispatches ≡ some d
      → d.job_id ≡ seen.id
      → claim_seen now db_now entry_uuid dispatch_id limit ttl max_attempts token
          (some seen)
          w.state
        ≡ ok (t, v.state)
      → Only w v
      → Move limit w v

pub data Run (limit : ℕ) (w : HostedWorld) : HostedWorld → Type 0 where
  start : Run limit w w
  then_move : {u v : HostedWorld} → Run limit w u → Move limit u v → Run limit w v

-- No transaction has written the row of the job between the first query of a claim and its writes.
abbrev pub IsUnracedMove : {limit : ℕ} {w v : HostedWorld} → Move limit w v → Type 0
IsUnracedMove (step s) = Unit {0}
IsUnracedMove {w = w} (late_claim now at e did ttl max token seen d t c m f i r o) =
    find_job seen.id w.state.db.jobs ≡ some seen

abbrev pub IsUnraced : {limit : ℕ} {w v : HostedWorld} → Run limit w v → Type 0
IsUnraced start = Unit {0}
IsUnraced (then_move r m) = IsUnraced r × IsUnracedMove m

-- A claim that was not raced is one that nothing interrupts.
claim_at_once :
    (now db_now entry_uuid dispatch_id limit ttl max_attempts token : ℕ) (seen : Job) (d : Dispatch)
    (w v : HostedWorld) (t : Option Identifier)
    → find_dispatch dispatch_id w.state.db.dispatches ≡ some d
    → d.job_id ≡ seen.id
    → find_job seen.id w.state.db.jobs ≡ some seen
    → claim_seen now db_now entry_uuid dispatch_id limit ttl max_attempts token (some seen) w.state
      ≡ ok (t, v.state)
    → claim_execution now db_now entry_uuid dispatch_id limit ttl max_attempts token w.state
      ≡ ok (t, v.state)
unfolding claim_execution job_of_dispatch
claim_at_once now at e did limit ttl max token seen d w v t found own kept r =
    let still = ap (λ i. find_job i w.state.db.jobs) own ∙ kept in
    let read_now : job_of_dispatch did w.state.db ≡ some seen = ground (arith, found, still) in
    ap (λ x. claim_seen now at e did limit ttl max token x w.state) read_now ∙ r

Move-Step : (limit : ℕ) (w v : HostedWorld) (m : Move limit w v) → IsUnracedMove m → Step limit w v
Move-Step limit w v (step s) u = s
Move-Step limit w v (late_claim now at e did ttl max token seen d t c m f i r o) u =
    claim now at e did ttl max token t c
      (claim_at_once now at e did limit ttl max token seen d w v t f i u r) o

Run-Reach : (limit : ℕ) (w v : HostedWorld) (r : Run limit w v) → IsUnraced r → Reach limit w v
Run-Reach limit w v start u = here
Run-Reach limit w v (then_move {u = middle} r m) u =
    next (Run-Reach limit w middle r u.0) (Move-Step limit middle v m u.1)

-- However admissions, worker writes, cancellations, claims, grants and payments are interleaved,
-- and however old the snapshots that they write from, as long as no transaction writes the row of a
-- job between the first query of a claim of that job and the writes of the claim, every state that
-- is reached from an orderly one is orderly: every job has an authorization, which is reserved while
-- the job is open, settled when it has succeeded, and released when it has failed or was cancelled;
-- the credits of every account are what its lots have available; the job rows are consistent with
-- the event log, and no snapshot is ahead of its row.
pub Run-IsOrderly :
    (limit : ℕ) (w v : HostedWorld) → IsOrderly w → (r : Run limit w v) → IsUnraced r → IsOrderly v
Run-IsOrderly limit w v o r u = Reach-IsOrderly limit w v o (Run-Reach limit w v r u)

-- Once a hosted job has ended, its row is never written again, and its charge is final: settled if
-- it has succeeded, released if it has failed or was cancelled; as long as no transaction writes the
-- row of a job between the first query of a claim of that job and the writes of the claim.
pub charge_frozen :
    (limit : ℕ) (w v : HostedWorld) (k : Identifier) (j : Job)
    → IsOrderly w
    → (r : Run limit w v) → IsUnraced r
    → find_job k w.state.db.jobs ≡ some j
    → is_terminal j.status ≡ true
    → (find_job k v.state.db.jobs ≡ some j)
      × (status_for k v.state.books ≡ some (bill_for j.status))
charge_frozen limit w v k j o r u found end =
    Reach_frozen limit w v k j o (Run-Reach limit w v r u) found end
