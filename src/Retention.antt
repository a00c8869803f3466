-- ===== src/Retention.antt =====
-- storage/retention.py: `RetentionWorker` over `InMemoryRetentionRepository`. An identifier is the
-- number of its text in the order of `str`, and times are numbers of hours.
pub mod Sweep
mod Tests
use kenkui_server.Prelude.{
  ℕ, ◌+◌, ◌≡◌, refl, ap, ◌∙◌, sym, inl, inr, Bool, true, false, not, ◌&&◌, ◌||◌, List, [], ◌∷◌, map,
  arith, ◌==◌, leb, if◌then◌else◌, keep, exists, every, Bool-cases, All, subst,
}
use kenkui_server.Jobs.Models.{Identifier}

pub data RetentionKind : Type 0 where
  temporary source artifact : RetentionKind

pub record RetentionRecord : Type 0 where
  pub identifier : Identifier
  pub kind : RetentionKind
  pub terminal_at : ℕ
  pub all_dependent_jobs_terminal : Bool

-- The durations of `RetentionWorker`, in hours.
abbrev pub duration : RetentionKind → ℕ
duration RetentionKind.temporary = 24
duration RetentionKind.source = 24
duration RetentionKind.artifact = 720

abbrev pub is_source : RetentionKind → Bool
is_source RetentionKind.source = true
is_source _ = false

-- `_expired`
unfoldable pub expired : ℕ → RetentionRecord → Bool
expired now item =
    not (is_source item.kind && not item.all_dependent_jobs_terminal)
    && leb (item.terminal_at + duration item.kind) now

-- The dictionary of records and the set of deleted identifiers.
pub record Store : Type 0 where
  pub records : List RetentionRecord
  pub deleted : List Identifier

-- `delete`
unfoldable pub delete : RetentionRecord → Store → Store
delete r st = record {
  records = keep (λ x. not (x.identifier == r.identifier)) st.records;
  deleted = r.identifier ∷ st.deleted;
}

-- `_add`
unfoldable pub add : RetentionRecord → Store → Store
add r st = record st { records = r ∷ keep (λ x. not (x.identifier == r.identifier)) st.records }

-- `sorted(…, key=lambda item: item.identifier)`
unfoldable pub insert : RetentionRecord → List RetentionRecord → List RetentionRecord
insert r [] = r ∷ []
insert r (x ∷ xs) =
    let rest = insert r xs in if leb r.identifier x.identifier then r ∷ x ∷ xs else x ∷ rest

unfoldable pub sorted : List RetentionRecord → List RetentionRecord
unfolding insert
sorted [] = []
sorted (x ∷ xs) = insert x (sorted xs)

-- The loop of `run`.
unfoldable pub sweep : ℕ → List RetentionRecord → Store → List Identifier × Store
sweep now [] st = ([], st)
sweep now (r ∷ rs) st =
    let swept = sweep now rs (delete r st) in
    let left = sweep now rs st in if expired now r then (r.identifier ∷ swept.0, swept.1) else left

-- `run`
unfoldable pub run : ℕ → Store → List Identifier × Store
unfolding sweep
run now st = sweep now (sorted st.records) st
