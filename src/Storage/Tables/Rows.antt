-- ===== src/Storage/Tables/Rows.antt =====
-- The rows of the tables under the selections and updates by key.
use kenkui_server.Prelude.{
  ℕ, ◌+◌, ◌≡◌, refl, inl, inr, Bool, true, Option, none, some, List, [], ◌∷◌, arith, ◌==◌,
  if◌then◌else◌, count, modify, Option-cases,
}
use kenkui_server.Jobs.Models.{Identifier, Job, JobEvent}
use kenkui_server.Storage.Tables.{find_job, max_sequence, next_sequence, job_at}

-- No two rows of the table have one id.
abbrev pub IsUnique : List Job → Type 0
IsUnique [] = Unit {0}
IsUnique (j ∷ js) = (find_job j.id js ≡ none) × IsUnique js

-- A row that is selected has the id that was asked for.
pub id-find_job : (k : Identifier) (js : List Job) (j : Job) → find_job k js ≡ some j → j.id ≡ k
unfolding find_job
id-find_job k [] j h = cc
id-find_job k (x ∷ js) j h = ground (arith, id-find_job k js j)

-- `f` where the test holds.
abbrev pub apply_if : (Job → Bool) → (Job → Job) → Option Job → Option Job
apply_if p f none = none
apply_if p f (some j) = some (if p j then f j else j)

pub find_job-modify :
    (k : Identifier) (p : Job → Bool) (f : Job → Job) (js : List Job)
    → ((j : Job) → (f j).id ≡ j.id)
    → find_job k (modify p f js) ≡ apply_if p f (find_job k js)
unfolding find_job
find_job-modify k p f [] same = refl
find_job-modify k p f (x ∷ js) same = ground (arith, same x, find_job-modify k p f js same)

-- An update of one row, as every selection sees it.
pub find_job-modify_one :
    (k : Identifier) (p : Job → Bool) (f : Job → Job) (js : List Job) (r : Job)
    → ((j : Job) → (f j).id ≡ j.id)
    → ((j : Job) → p j ≡ true → j.id ≡ r.id)
    → find_job r.id js ≡ some r
    → p r ≡ true
    → find_job k (modify p f js) ≡ (if r.id == k then some (f r) else find_job k js)
find_job-modify_one k p f js r same only stored hit =
    rw (find_job-modify k p f js same) (elim (Option-cases (find_job k js)) [
      | inl missing ↦ ground arith
      | inr (x, found) ↦ ground (arith, only x, id-find_job k js x found)
    ])

pub modify-IsUnique :
    (p : Job → Bool) (f : Job → Job) (js : List Job)
    → ((j : Job) → (f j).id ≡ j.id)
    → IsUnique js
    → IsUnique (modify p f js)
modify-IsUnique p f [] same u = tt
modify-IsUnique p f (x ∷ js) same u =
    (ground (arith, same x, find_job-modify x.id p f js same), modify-IsUnique p f js same u.1)

-- How many rows an optimistic update matches.
abbrev pub matches_of : ℕ → Option Job → ℕ
matches_of v none = 0
matches_of v (some j) = if j.version == v then 1 else 0

pub count-job_at :
    (k : Identifier) (v : ℕ) (js : List Job)
    → IsUnique js
    → count (job_at k v) js ≡ matches_of v (find_job k js)
unfolding find_job
count-job_at k v [] u = refl
count-job_at k v (x ∷ js) u = ground (arith, count-job_at k v js u.1)

abbrev pub events_of : Identifier → List JobEvent → ℕ
events_of k = count (λ e. e.job_id == k)

-- Every event has the number of its job's events before it, plus one.
abbrev pub IsNumbered : List JobEvent → Type 0
IsNumbered [] = Unit {0}
IsNumbered (e ∷ es) = (e.sequence ≡ events_of e.job_id es + 1) × IsNumbered es

pub max_sequence-eq-events_of :
    (k : Identifier) (es : List JobEvent) → IsNumbered es → max_sequence k es ≡ events_of k es
unfolding max_sequence
max_sequence-eq-events_of k [] n = refl
max_sequence-eq-events_of k (e ∷ es) n = ground (arith, max_sequence-eq-events_of k es n.1)

pub next_sequence-eq-events_of :
    (k : Identifier) (es : List JobEvent) → IsNumbered es → next_sequence k es ≡ events_of k es + 1
unfolding next_sequence
next_sequence-eq-events_of k es n = ground (arith, max_sequence-eq-events_of k es n)
