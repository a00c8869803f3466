-- ===== src/Storage/System/Jobs.antt =====
-- What holds of the jobs under every interleaving.
use kenkui_server.Prelude.{
  ℕ, ◌≤◌, ◌≡◌, refl, sym, subst, ap, ◌∙◌, inl, inr, Bool, true, Option, none, some, List, [], ◌∷◌,
  Memᴰ, arith, All,
}
use kenkui_server.Prelude.Result.{ok}
use kenkui_server.Jobs.Models.{Identifier, Job, JobStatus, is_terminal, Dispatch, new_job}
use kenkui_server.Jobs.Transitions.Graph.{start, withdraw, report, finish, fail, ask, acknowledge}
use kenkui_server.Storage.Tables.{Database, find_job}
use kenkui_server.Storage.Tables.Rows.{id-find_job}
use kenkui_server.Storage.Repositories.{
  Lease, get_job, update_dispatch, finish_dispatch, check_lease,
}
use kenkui_server.Storage.Execution.{renew_execution, release_execution}
use kenkui_server.Storage.Changes.{
  ◌↝◌, along, give_up, stop, Change, same, IsConsistent, Change-IsConsistent, Change-Later,
}
use kenkui_server.Storage.Changes.Calls.{IsSnapshot, update-Change, create_job_and_dispatch-Change}
use kenkui_server.Storage.Changes.Cancellations.{
  request_cancellation-Change, claim_execution-Change,
}
use kenkui_server.Storage.System.{
  World, initial, new_dispatch, Step, wait, read, submit, advance, cancel, redispatch, conclude,
  claim, renew, release, Reach, here, next,
}

-- The tables agree with one another, and no held snapshot is ahead of its row.
pub record IsSound (w : World) : Type 0 where
  pub consistent : IsConsistent w.db
  pub snapshots : All (λ h. IsSnapshot h w.db) w.held

pub All-Memᴰ {ℓ κ} :
    {A : Type ℓ} (P : A → Type κ) (xs : List A) (x : A) → All P xs → Memᴰ x xs → P x
All-Memᴰ P [] x a m = elim m [ ]
All-Memᴰ P (y ∷ ys) x a (Memᴰ.head e) = subst P (sym e) a.0
All-Memᴰ P (y ∷ ys) x a (Memᴰ.tail m) = All-Memᴰ P ys x a.1 m

pub get_job_same :
    (id : Identifier) (db after : Database) (j : Job) → get_job id db ≡ ok (j, after) → after ≡ db
unfolding get_job
get_job_same id db after j h = ground arith

pub update_dispatch-Change :
    (d : Dispatch) (v : ℕ) (db after : Database) (u : Unit {0})
    → update_dispatch d v db ≡ ok (u, after)
    → Change db after
unfolding update_dispatch
update_dispatch-Change d v db after u h = same (ground arith) (ground arith)

pub finish_dispatch-Change :
    (now : ℕ) (d : Dispatch) (lease : Option Lease) (db after : Database) (b : Bool)
    → finish_dispatch now d lease db ≡ ok (b, after)
    → Change db after
unfolding finish_dispatch check_lease get_job
finish_dispatch-Change now d none db after b h = same (ground arith) (ground arith)
finish_dispatch-Change now d (some l) db after b h = same (ground arith) (ground arith)

-- One step is one change of the job tables.
pub Step-Change : (limit : ℕ) (w v : World) → IsSound w → Step limit w v → Change w.db v.db
unfolding renew_execution release_execution new_job
Step-Change limit w v s (wait c d h) =
    same (ap (λ (d : Database). d.jobs) d) (ap (λ (d : Database). d.job_events) d)
Step-Change limit w v s (read id j r c h) =
    let e = get_job_same id w.db v.db j r in
    same (ap (λ (d : Database). d.jobs) e) (ap (λ (d : Database). d.job_events) e)
Step-Change limit w v s (submit id did spec key j r x) =
    create_job_and_dispatch-Change (new_job id spec) (new_dispatch did id) key w.db j v.db refl refl
      r
Step-Change limit w v s (advance h n event type artifact lease failure e m t r x) =
    update-Change w.clock h n event type artifact lease failure w.db e v.db s.consistent
      (All-Memᴰ _ w.held h s.snapshots m) t r
Step-Change limit w v s (cancel id j r x) = request_cancellation-Change id w.db j v.db r
Step-Change limit w v s (redispatch d n u r x) = update_dispatch-Change d n w.db v.db u r
Step-Change limit w v s (conclude d lease b r x) =
    finish_dispatch-Change w.clock d lease w.db v.db b r
Step-Change limit w v s (claim now did ttl max token t c r x) =
    claim_execution-Change now did limit ttl max token w.db t v.db r
Step-Change limit w v s (renew f did token ttl b c r x) = same (ground arith) (ground arith)
Step-Change limit w v s (release did token u r x) = same (ground arith) (ground arith)

-- A snapshot stays one under every change: its row is kept or gets a later version.
IsSnapshot-Change :
    (h : Job) (before after : Database)
    → Change before after
    → IsSnapshot h before
    → IsSnapshot h after
IsSnapshot-Change h before after c s = elim (Change-Later before after h.id s.row c s.stored) [
  | inl kept ↦ record { row = s.row; stored = kept; age = s.age }
  | inr (r, found, f) ↦ record {
    row = r;
    stored = found;
    age = inr (ground (arith, s.age, f.version));
  }
]

pub snapshots_Change :
    (hs : List Job) (before after : Database)
    → Change before after
    → All (λ h. IsSnapshot h before) hs
    → All (λ h. IsSnapshot h after) hs
snapshots_Change [] before after c s = tt
snapshots_Change (h ∷ hs) before after c s =
    (IsSnapshot-Change h before after c s.0, snapshots_Change hs before after c s.1)

pub get_job-IsSnapshot :
    (id : Identifier) (db after : Database) (j : Job)
    → get_job id db ≡ ok (j, after)
    → IsSnapshot j after
unfolding get_job
get_job-IsSnapshot id db after j h =
    let found : find_job id after.jobs ≡ some j = ground arith in
    record { row = j; stored = simp (id-find_job id after.jobs j found) found; age = inl refl }

-- The snapshots that a step leaves held: the old ones, and what it read.
Step-snapshots :
    (limit : ℕ) (w v : World)
    → Step limit w v
    → All (λ h. IsSnapshot h v.db) w.held
    → All (λ h. IsSnapshot h v.db) v.held
Step-snapshots limit w v (wait c d h) s = rw h s
Step-snapshots limit w v (read id j r c h) s = rw h (get_job-IsSnapshot id w.db v.db j r, s)
Step-snapshots limit w v (submit id did spec key j r x) s = rw x.held s
Step-snapshots limit w v (advance h n event type artifact lease failure e m t r x) s = rw x.held s
Step-snapshots limit w v (cancel id j r x) s = rw x.held s
Step-snapshots limit w v (redispatch d n u r x) s = rw x.held s
Step-snapshots limit w v (conclude d lease b r x) s = rw x.held s
Step-snapshots limit w v (claim now did ttl max token t c r x) s = rw x.held s
Step-snapshots limit w v (renew f did token ttl b c r x) s = rw x.held s
Step-snapshots limit w v (release did token u r x) s = rw x.held s

-- Every committed call keeps the world sound.
pub Step-IsSound : (limit : ℕ) (w v : World) → IsSound w → Step limit w v → IsSound v
Step-IsSound limit w v s st =
    let c = Step-Change limit w v s st in
    record {
      consistent = Change-IsConsistent w.db v.db c s.consistent;
      snapshots = Step-snapshots limit w v st (snapshots_Change w.held w.db v.db c s.snapshots);
    }

pub initial-IsSound : IsSound initial
unfolding find_job
initial-IsSound = record {
  consistent = record { unique = tt; numbered = tt; counted = λ k. refl };
  snapshots = tt;
}

-- From a sound world, every reachable world is sound: each job id has one row, the events of a job
-- are numbered without gaps, the version of a job is the number of its events, and no held
-- snapshot is ahead of its row.
pub Reach-IsSound : (limit : ℕ) (w v : World) → IsSound w → Reach limit w v → IsSound v
Reach-IsSound limit w v s here = s
Reach-IsSound limit w v s (next {u} r st) = Step-IsSound limit u v (Reach-IsSound limit w u s r) st

infix 40 ◌↝*◌
pub data ◌↝*◌ (s : JobStatus) : JobStatus → Type 0 where
  stay : s ↝* s
  then : {t u : JobStatus} → s ↝* t → t ↝ u → s ↝* u

-- A later version of a row, along the lifecycle.
pub record Descends (r r' : Job) : Type 0 where
  pub path : r.status ↝* r'.status
  pub version : r.version ≤ r'.version
  pub id : r'.id ≡ r.id
  pub spec : r'.spec ≡ r.spec

-- Whatever calls are interleaved, and however old the snapshots that they write from, a stored
-- job is never lost, its status moves along the lifecycle, its version never falls, and its spec
-- never changes.
pub Reach-Descends :
    (limit : ℕ) (w v : World) (k : Identifier) (j : Job)
    → IsSound w
    → Reach limit w v
    → find_job k w.db.jobs ≡ some j
    → (j' : Job) × (find_job k v.db.jobs ≡ some j') × Descends j j'
Reach-Descends limit w v k j s here found =
    (j, found, record { path = stay; version = omega arith; id = refl; spec = refl })
Reach-Descends limit w v k j s (next {u} r st) found =
    let (x, stored, d) = Reach-Descends limit w u k j s r found in
    elim (Change-Later u.db v.db k x (Step-Change limit u v (Reach-IsSound limit w u s r) st)
      stored) [
        | inl kept ↦ (x, kept, d)
        | inr (y, later, f) ↦ (
          y,
          later,
          record {
            path = then d.path f.edge;
            version = omega arith;
            id = f.id ∙ d.id;
            spec = f.spec ∙ d.spec;
          },
        )
      ]

pub terminal_has_no_edge : {s t : JobStatus} → is_terminal s ≡ true → s ↝ t → ⊥
terminal_has_no_edge h (along start) = cc
terminal_has_no_edge h (along withdraw) = cc
terminal_has_no_edge h (along report) = cc
terminal_has_no_edge h (along finish) = cc
terminal_has_no_edge h (along fail) = cc
terminal_has_no_edge h (along ask) = cc
terminal_has_no_edge h (along acknowledge) = cc
terminal_has_no_edge h give_up = cc
terminal_has_no_edge h stop = cc

-- A job that has succeeded, failed or been cancelled keeps its row for good.
pub terminal_frozen :
    (limit : ℕ) (w v : World) (k : Identifier) (j : Job)
    → IsSound w
    → Reach limit w v
    → find_job k w.db.jobs ≡ some j
    → is_terminal j.status ≡ true
    → find_job k v.db.jobs ≡ some j
terminal_frozen limit w v k j s here found end = found
terminal_frozen limit w v k j s (next {u} r st) found end =
    elim (Change-Later u.db v.db k j (Step-Change limit u v (Reach-IsSound limit w u s r) st)
      (terminal_frozen limit w u k j s r found end)) [
        | inl kept ↦ kept
        | inr (y, later, f) ↦ absurd (terminal_has_no_edge end f.edge)
      ]
