-- ===== src/Storage/Leases.antt =====
-- What a lease of a dispatch is worth: a granted claim, and every write with an older lease.
use kenkui_server.Prelude.{
  ℕ, ◌+◌, ◌≡◌, ◌<◌, ◌≢◌, inl, inr, refl, true, false, Option, none, some, List, [], ◌∷◌, arith,
  ◌==◌, if◌then◌else◌, Option-cases, sym, ◌∙◌,
}
use kenkui_server.Prelude.Result.{ok, err, stale_write, invalid_job_version}
use kenkui_server.Jobs.Models.{Identifier, Job, EventType, Artifact, Dispatch}
use kenkui_server.Storage.Tables.{Database, Failure, ExecutionLease, find_lease}
use kenkui_server.Storage.Repositories.{
  lease_held, check_lease, update_job_and_append_event, finish_dispatch,
}
use kenkui_server.Storage.Execution.{
  job_of_dispatch, is_open, active_count, is_live, grant_lease, grant, terminalize, claim_job,
  claim_execution,
}

-- The lease of a dispatch after a grant.
abbrev granted_row : Identifier → Identifier → ℕ → Option ExecutionLease → ExecutionLease
granted_row dispatch_id token expires_at none = record {
  dispatch_id = dispatch_id;
  token = token;
  expires_at = expires_at;
  attempts = 1;
}
granted_row dispatch_id token expires_at (some l) = record l {
  token = token;
  expires_at = expires_at;
  attempts = l.attempts + 1;
}

find_lease-modify :
    (id token expires_at : ℕ) (ls : List ExecutionLease) (l : ExecutionLease)
    → find_lease id ls ≡ some l
    → find_lease id (grant_lease id token expires_at (some l) ls)
      ≡ some (granted_row id token expires_at (some l))
unfolding find_lease grant_lease
find_lease-modify id token expires_at [] l h = cc
find_lease-modify id token expires_at (x ∷ ls) l h =
    ground (arith, find_lease-modify id token expires_at ls l)

find_lease-grant_lease :
    (id token expires_at : ℕ) (ls : List ExecutionLease)
    → find_lease id (grant_lease id token expires_at (find_lease id ls) ls)
      ≡ some (granted_row id token expires_at (find_lease id ls))
unfolding find_lease grant_lease
find_lease-grant_lease id token expires_at ls = elim (Option-cases (find_lease id ls)) [
  | inl fresh ↦ rw fresh (ground arith)
  | inr (l, found) ↦ rw found (find_lease-modify id token expires_at ls l found)
]

abbrev attempts_of : Option ExecutionLease → ℕ
attempts_of none = 0
attempts_of (some l) = l.attempts

-- A claim that was granted.
pub record IsGranted (now id limit ttl max_attempts token : ℕ) (before after : Database)
    : Type 0 where
  pub unfinished : is_open (job_of_dispatch id before) ≡ true
  pub expired : is_live now (find_lease id before.execution_leases) ≡ false
  pub below : active_count now before < limit
  pub bounded :
      (l : ExecutionLease)
      → find_lease id before.execution_leases ≡ some l
      → l.attempts < max_attempts
  pub row :
      find_lease id after.execution_leases
      ≡ some (granted_row id token (now + ttl) (find_lease id before.execution_leases))

terminalize_none :
    (id : Identifier) (job : Job) (db after : Database) (t : Identifier)
    → terminalize id job db ≡ ok (some t, after)
    → ⊥
unfolding terminalize
terminalize_none id job db after t h = ground arith

-- A claim returns a token only for a job that is not over, whose last lease has expired and was not
-- the last attempt allowed, while fewer jobs than the limit are active; the dispatch then has a
-- lease with this token that lasts until `ttl` from now, and one attempt more.
pub claim_execution-IsGranted :
    (now id limit ttl max_attempts token : ℕ) (before after : Database) (t : Identifier)
    → claim_execution now id limit ttl max_attempts token before ≡ ok (some t, after)
    → (t ≡ token) × IsGranted now id limit ttl max_attempts token before after
unfolding claim_execution claim_job grant is_open
claim_execution-IsGranted now id limit ttl max_attempts token before after t h =
    elim (Option-cases (job_of_dispatch id before)) [
      | inl missing ↦ absurd (ground arith)
      | inr (job, found) ↦
          let previous = find_lease id before.execution_leases in
          let never = terminalize_none id job before after t in
          (
            ground (arith, never),
            record {
              unfinished = ground (arith, never);
              expired = ground (arith, never);
              below = ground (arith, never);
              bounded = λ l e. ground (arith, never);
              row = ground (
                arith,
                never,
                find_lease-grant_lease id token (now + ttl) before.execution_leases,
              );
            },
          )
    ]

-- A lease whose token is not the one stored is refused.
stale_lease :
    (now id old : ℕ) (db : Database) (row : ExecutionLease)
    → find_lease id db.execution_leases ≡ some row
    → row.token ≢ old
    → lease_held now (id, old) db ≡ false
unfolding lease_held
stale_lease now id old db row stored other = ground (arith, other)

token-granted_row :
    (id token expires_at : ℕ) (o : Option ExecutionLease)
    → (granted_row id token expires_at o).token ≡ token
token-granted_row id token expires_at none = refl
token-granted_row id token expires_at (some l) = refl

-- A later claim fences the earlier holder: while the new lease is stored, every update of the job
-- and every end of a dispatch that shows an older token for it raises, and so writes nothing.
pub claim_execution-fences :
    (now id limit ttl max_attempts token : ℕ) (before after : Database) (t old : Identifier)
    → claim_execution now id limit ttl max_attempts token before ≡ ok (some t, after)
    → old ≢ t
    → (at : ℕ) (job : Job) (version : ℕ) (type : EventType) (artifact : Option Artifact)
      (failure : Option Failure) (d : Dispatch)
    → (update_job_and_append_event at job version type artifact (some (id, old)) failure after
        ≡ err (if job.version == version + 1 then stale_write else invalid_job_version))
      × (finish_dispatch at d (some (id, old)) after ≡ err stale_write)
unfolding update_job_and_append_event finish_dispatch check_lease
claim_execution-fences now id limit ttl max_attempts token before after t old h other at job version
      type artifact failure d =
    let (same, g) =
      claim_execution-IsGranted now id limit ttl max_attempts token before after t h in
    let previous = find_lease id before.execution_leases in
    let refused =
      stale_lease at id old after (granted_row id token (now + ttl) previous) g.row
        (λ e. other (sym e ∙ token-granted_row id token (now + ttl) previous ∙ sym same)) in
    (ground arith, ground arith)
