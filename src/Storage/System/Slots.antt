-- ===== src/Storage/System/Slots.antt =====
-- The number of active leases under every interleaving of calls.
use kenkui_server.Prelude.{
  ℕ, ◌+◌, ◌≤◌, ◌<◌, ◌≡◌, refl, inl, inr, Bool, true, none, some, List, [], ◌∷◌, arith, ◌==◌, ltb,
  modify, count, All, is_some, Bool-cases, ==_iff, subst, sym,
}
use kenkui_server.Jobs.Models.{Identifier}
use kenkui_server.Storage.Tables.{Database, ExecutionLease, find_lease}
use kenkui_server.Storage.Execution.{job_of_dispatch, is_active, active_count, grant_lease}
use kenkui_server.Storage.Changes.{Change}
use kenkui_server.Storage.System.Routing.{Routing, Carried, Routing-Carried}

-- No two leases of one dispatch.
abbrev pub IsSingle : List ExecutionLease → Type 0
IsSingle [] = Unit {0}
IsSingle (l ∷ ls) = (find_lease l.dispatch_id ls ≡ none) × IsSingle ls

-- The dispatch of a lease exists, with its job.
abbrev pub Backed : Database → ExecutionLease → Type 0
Backed db l = is_some (job_of_dispatch l.dispatch_id db) ≡ true

-- What a call does to the leases, where `clock` is the time at which it commits.
pub data Leasing (limit clock : ℕ) (before after : Database) : Type 0 where
  untouched : after.execution_leases ≡ before.execution_leases → Leasing limit clock before after
  granted :
      (now id token expires_at : ℕ)
      → now ≤ clock
      → active_count now before < limit
      → is_some (job_of_dispatch id before) ≡ true
      → after.execution_leases
        ≡ grant_lease id token expires_at
            (find_lease id before.execution_leases)
            before.execution_leases
      → Leasing limit clock before after
  retimed :
      (p : ExecutionLease → Bool) (f : ExecutionLease → ExecutionLease)
      → ((l : ExecutionLease) → (f l).dispatch_id ≡ l.dispatch_id)
      → ((l : ExecutionLease)
          → p l ≡ true
          → ltb clock (f l).expires_at ≡ true
          → ltb clock l.expires_at ≡ true)
      → after.execution_leases ≡ modify p f before.execution_leases
      → Leasing limit clock before after

module _ (before after : Database) (c : Change before after) (r : Routing before after) where
  carried : (l : ExecutionLease) → Backed before l → Carried l.dispatch_id before after
  carried l b = Routing-Carried before after l.dispatch_id c r b

  pub carried-All : (ls : List ExecutionLease) → All (Backed before) ls → All (Backed after) ls
  carried-All [] b = tt
  carried-All (l ∷ ls) b = ((carried l b.0).stays, carried-All ls b.1)

  pub carried_modify :
      (p : ExecutionLease → Bool) (f : ExecutionLease → ExecutionLease)
      → ((l : ExecutionLease) → (f l).dispatch_id ≡ l.dispatch_id)
      → (ls : List ExecutionLease) → All (Backed before) ls
      → All (Backed after) (modify p f ls)
  carried_modify p f same [] b = tt
  carried_modify p f same (l ∷ ls) b = (
    elim (Bool-cases (p l)) [
      | inl hit ↦ rw hit (
          subst (λ k. is_some (job_of_dispatch k after) ≡ true) (sym (same l))
            (carried l b.0).stays)
      | inr miss ↦ rw miss (carried l b.0).stays
    ],
    carried_modify p f same ls b.1,
  )

  -- Fewer leases are active later.
  pub active_mono :
      (now clock : ℕ) (ls : List ExecutionLease)
      → now ≤ clock
      → All (Backed before) ls
      → count (is_active clock after) ls ≤ count (is_active now before) ls
  unfolding is_active
  active_mono now clock [] t b = omega arith
  active_mono now clock (l ∷ ls) t b =
      ground (arith, (carried l b.0).opens, active_mono now clock ls t b.1)

  pub active_retimed :
      (clock : ℕ) (p : ExecutionLease → Bool) (f : ExecutionLease → ExecutionLease)
      → ((l : ExecutionLease) → (f l).dispatch_id ≡ l.dispatch_id)
      → ((l : ExecutionLease)
          → p l ≡ true
          → ltb clock (f l).expires_at ≡ true
          → ltb clock l.expires_at ≡ true)
      → (ls : List ExecutionLease) → All (Backed before) ls
      → count (is_active clock after) (modify p f ls) ≤ count (is_active clock before) ls
  unfolding is_active
  active_retimed clock p f same late [] b = omega arith
  active_retimed clock p f same late (l ∷ ls) b =
      ground
        (arith, same l, late l, (carried l b.0).opens, active_retimed clock p f same late ls b.1)

  -- A grant makes at most one lease more active.
  active_other :
      (id token expires_at now clock : ℕ) (l : ExecutionLease) (ls : List ExecutionLease)
      → now ≤ clock
      → find_lease id ls ≡ none
      → All (Backed before) ls
      → count (is_active clock after) (grant_lease id token expires_at (some l) ls)
        ≤ count (is_active now before) ls
  unfolding is_active grant_lease find_lease
  active_other id token expires_at now clock l [] t n b = omega arith
  active_other id token expires_at now clock l (x ∷ ls) t n b =
      ground (arith, (carried x b.0).opens, active_other id token expires_at now clock l ls t)

  pub active_granted :
      (id token expires_at now clock : ℕ) (l : ExecutionLease) (ls : List ExecutionLease)
      → now ≤ clock
      → IsSingle ls
      → All (Backed before) ls
      → count (is_active clock after) (grant_lease id token expires_at (some l) ls)
        ≤ count (is_active now before) ls + 1
  unfolding is_active grant_lease
  active_granted id token expires_at now clock l [] t s b = omega arith
  active_granted id token expires_at now clock l (x ∷ ls) t s b =
      elim (Bool-cases (x.dispatch_id == id)) [
        | inl own ↦
            let none_left : find_lease id ls ≡ none =
              subst (λ k. find_lease k ls ≡ none) ((==_iff x.dispatch_id id).0 own) s.0 in
            ground (
              arith,
              (carried x b.0).opens,
              active_other id token expires_at now clock l ls t none_left b.1,
            )
        | inr other ↦ ground (
          arith,
          (carried x b.0).opens,
          active_granted id token expires_at now clock l ls t s.1 b.1,
        )
      ]

find_lease-modify-none :
    (id : Identifier) (p : ExecutionLease → Bool) (f : ExecutionLease → ExecutionLease)
    (ls : List ExecutionLease)
    → ((l : ExecutionLease) → (f l).dispatch_id ≡ l.dispatch_id)
    → find_lease id ls ≡ none
    → find_lease id (modify p f ls) ≡ none
unfolding find_lease
find_lease-modify-none id p f [] same n = refl
find_lease-modify-none id p f (l ∷ ls) same n =
    ground (arith, same l, find_lease-modify-none id p f ls same)

pub modify-IsSingle :
    (p : ExecutionLease → Bool) (f : ExecutionLease → ExecutionLease) (ls : List ExecutionLease)
    → ((l : ExecutionLease) → (f l).dispatch_id ≡ l.dispatch_id)
    → IsSingle ls
    → IsSingle (modify p f ls)
modify-IsSingle p f [] same s = tt
modify-IsSingle p f (l ∷ ls) same s = (
  elim (Bool-cases (p l)) [
    | inl hit ↦ rw hit (
        subst (λ k. find_lease k (modify p f ls) ≡ none) (sym (same l))
          (find_lease-modify-none l.dispatch_id p f ls same s.0))
    | inr miss ↦ rw miss (find_lease-modify-none l.dispatch_id p f ls same s.0)
  ],
  modify-IsSingle p f ls same s.1,
)

-- The leases of a database at a time: one for each dispatch, each of a job that is there, and no
-- more active ones than the limit.
pub record IsManned (limit clock : ℕ) (db : Database) : Type 0 where
  pub single : IsSingle db.execution_leases
  pub backed : All (Backed db) db.execution_leases
  pub bounded : active_count clock db ≤ limit
