-- ===== src/Hosted/System/Reached.antt =====
-- Every state that the hosted server reaches.
use kenkui_server.Prelude.{ℕ, ◌≤◌, ◌≡◌, refl, true, some, arith, ap, ◌∙◌, All, inl, inr}
use kenkui_server.Jobs.Models.{Identifier, Job, is_terminal}
use kenkui_server.Storage.Tables.{Database, find_job}
use kenkui_server.Storage.Tables.Rows.{id-find_job}
use kenkui_server.Storage.Changes.{Change-IsConsistent, Change-Later}
use kenkui_server.Storage.Changes.Calls.{IsSnapshot}
use kenkui_server.Storage.System.Jobs.{snapshots_Change, terminal_has_no_edge}
use kenkui_server.Hosted.Statuses.{status_for}
use kenkui_server.Hosted.Repositories.{Hosted, active_jobs}
use kenkui_server.Hosted.Changes.{bill_for}
use kenkui_server.Hosted.System.{
  HostedWorld, Step, wait, read, fund, pay, submit, advance, cancel, redispatch, conclude, claim,
  renew, release, Reach, here, next,
}
use kenkui_server.Hosted.System.Billed.{IsOrderly, Step-Kept}

find_job-IsSnapshot :
    (id : Identifier) (db : Database) (j : Job) → find_job id db.jobs ≡ some j → IsSnapshot j db
find_job-IsSnapshot id db j found = record {
  row = j;
  stored = simp (id-find_job id db.jobs j found) found;
  age = inl refl;
}

-- The snapshots that a step leaves held: the old ones, and what it read.
Step-held :
    (limit : ℕ) (w v : HostedWorld)
    → Step limit w v
    → All (λ h. IsSnapshot h v.state.db) w.held
    → All (λ h. IsSnapshot h v.state.db) v.held
Step-held limit w v (wait c s h) a = rw h a
Step-held limit w v (read id j f s c h) a =
    let found = ap (λ (x : Hosted). find_job id x.db.jobs) s ∙ f in
    rw h (find_job-IsSnapshot id v.state.db j found, a)
Step-held limit w v (fund now l e k n reference b h x) a = rw x.held a
Step-held limit w v (pay now l e provider event k n b h x) a = rw x.held a
Step-held limit w v (submit uuid e id did spec account owner n key j r x) a = rw x.held a
Step-held limit w v (advance at e h n event type artifact lease failure j m t r x) a = rw x.held a
Step-held limit w v (cancel at e id j r x) a = rw x.held a
Step-held limit w v (redispatch d n u r x) a = rw x.held a
Step-held limit w v (conclude d lease y r x) a = rw x.held a
Step-held limit w v (claim now at e did ttl max token t c r x) a = rw x.held a
Step-held limit w v (renew f did token ttl y c r x) a = rw x.held a
Step-held limit w v (release did token u r x) a = rw x.held a

Step-IsOrderly : (limit : ℕ) (w v : HostedWorld) → IsOrderly w → Step limit w v → IsOrderly v
Step-IsOrderly limit w v o st =
    let k = Step-Kept limit w v o st in
    record {
      consistent = Change-IsConsistent w.state.db v.state.db k.change o.consistent;
      snapshots =
          Step-held limit w v st
            (snapshots_Change w.held w.state.db v.state.db k.change o.snapshots);
      backed = k.backed;
      billed = k.billed;
    }

-- Steps that nothing interrupts keep the hosted state orderly.
pub Reach-IsOrderly : (limit : ℕ) (w v : HostedWorld) → IsOrderly w → Reach limit w v → IsOrderly v
Reach-IsOrderly limit w v o here = o
Reach-IsOrderly limit w v o (next {u} r st) =
    Step-IsOrderly limit u v (Reach-IsOrderly limit w u o r) st

row_frozen :
    (limit : ℕ) (w v : HostedWorld) (k : Identifier) (j : Job)
    → IsOrderly w
    → Reach limit w v
    → find_job k w.state.db.jobs ≡ some j
    → is_terminal j.status ≡ true
    → find_job k v.state.db.jobs ≡ some j
row_frozen limit w v k j o here found end = found
row_frozen limit w v k j o (next {u} r st) found end =
    elim (Change-Later u.state.db v.state.db k j
      (Step-Kept limit u v (Reach-IsOrderly limit w u o r) st).change
      (row_frozen limit w u k j o r found end)) [
        | inl kept ↦ kept
        | inr (y, later, f) ↦ absurd (terminal_has_no_edge end f.edge)
      ]

-- Steps that nothing interrupts keep the row and the charge of a job that has ended.
pub Reach_frozen :
    (limit : ℕ) (w v : HostedWorld) (k : Identifier) (j : Job)
    → IsOrderly w
    → Reach limit w v
    → find_job k w.state.db.jobs ≡ some j
    → is_terminal j.status ≡ true
    → (find_job k v.state.db.jobs ≡ some j)
      × (status_for k v.state.books ≡ some (bill_for j.status))
Reach_frozen limit w v k j o r found end =
    let kept = row_frozen limit w v k j o r found end in
    (kept, ground (arith, (Reach-IsOrderly limit w v o r).billed k, kept))

-- If no owner has more than three jobs that have not ended, no owner ever has, in any reachable
-- state, whatever is interleaved with the admissions.
pub Reach-IsLimited :
    (limit : ℕ) (w v : HostedWorld)
    → IsOrderly w
    → Reach limit w v
    → (o : Identifier) → active_jobs o w.state ≤ 3
    → active_jobs o v.state ≤ 3
Reach-IsLimited limit w v s here o few = few
Reach-IsLimited limit w v s (next {u} r st) o few =
    (Step-Kept limit u v (Reach-IsOrderly limit w u s r) st).slots o
      (Reach-IsLimited limit w u s r o few)
