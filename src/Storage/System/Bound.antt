-- ===== src/Storage/System/Bound.antt =====
-- The limit on active jobs holds under every interleaving.
use kenkui_server.Prelude.{
  ℕ, ◌≤◌, ◌<◌, ◌≡◌, refl, true, Option, none, some, List, arith, count, All, is_some, subst, sym,
}
use kenkui_server.Jobs.Models.{new_job}
use kenkui_server.Storage.Tables.{Database, ExecutionLease, find_lease}
use kenkui_server.Storage.Execution.{job_of_dispatch, is_active, active_count, grant_lease}
use kenkui_server.Storage.Changes.{Change, same}
use kenkui_server.Storage.System.{
  World, initial, new_dispatch, Step, wait, read, submit, advance, cancel, redispatch, conclude,
  claim, renew, release, Reach, here, next,
}
use kenkui_server.Storage.System.Jobs.{IsSound, get_job_same, Step-Change, Reach-IsSound}
use kenkui_server.Storage.System.Effects.{
  Effect, unchanged, update-Effect, admission-Effect, cancellation-Effect, redispatch-Effect,
  conclusion-Effect, claim-Effect, renewal-Effect, release-Effect,
}
use kenkui_server.Storage.System.Routing.{Routing, kept, Routing-Carried}
use kenkui_server.Storage.System.Slots.{
  IsSingle, Backed, Leasing, untouched, granted, retimed, IsManned, carried-All, carried_modify,
  active_mono, active_retimed, active_granted, modify-IsSingle,
}

-- Time passes: fewer leases are active.
later-IsManned :
    (limit earlier clock : ℕ) (db : Database)
    → earlier ≤ clock
    → IsManned limit earlier db
    → IsManned limit clock db
unfolding active_count
later-IsManned limit earlier clock db t m = record {
  single = m.single;
  backed = m.backed;
  bounded = omega (
    arith,
    m.bounded,
    active_mono db db (same refl refl) (kept refl) earlier clock db.execution_leases t m.backed,
  );
}

module _ (limit clock : ℕ) (before after : Database) (c : Change before after)
    (r : Routing before after) (m : IsManned limit clock before) where
  -- What the leases are after the call.
  manned :
      (ls : List ExecutionLease)
      → after.execution_leases ≡ ls
      → IsSingle ls
      → All (Backed after) ls
      → count (is_active clock after) ls ≤ limit
      → IsManned limit clock after
  unfolding active_count
  manned ls e s b n = record {
    single = subst IsSingle (sym e) s;
    backed = subst (All (Backed after)) (sym e) b;
    bounded = subst (λ ls. count (is_active clock after) ls ≤ limit) (sym e) n;
  }

  granted-IsManned :
      (now id token past : ℕ) (o : Option ExecutionLease)
      → find_lease id before.execution_leases ≡ o
      → now ≤ clock
      → active_count now before < limit
      → is_some (job_of_dispatch id before) ≡ true
      → after.execution_leases ≡ grant_lease id token past o before.execution_leases
      → IsManned limit clock after
  unfolding active_count grant_lease
  granted-IsManned now id token past none fresh t free known e =
      manned _ e (fresh, m.single)
        ((Routing-Carried before after id c r known).stays, carried-All before after c r _ m.backed)
        (ground (arith, active_mono before after c r now clock before.execution_leases t m.backed))
  granted-IsManned now id token past (some l) found t free known e =
      manned _ e (modify-IsSingle _ _ _ (λ l. refl) m.single)
        (carried_modify before after c r _ _ (λ l. refl) _ m.backed)
        (omega (
          arith,
          free,
          active_granted before after c r id token past now clock l before.execution_leases t
              m.single m.backed,
        ))

  -- A call keeps the leases within the limit.
  Leasing-IsManned : Leasing limit clock before after → IsManned limit clock after
  unfolding active_count
  Leasing-IsManned (untouched e) = manned _ e m.single (carried-All before after c r _ m.backed) (
      omega (
        arith,
        m.bounded,
        active_mono before after c r clock clock before.execution_leases (omega arith) m.backed,
      ))
  Leasing-IsManned (retimed p f keeps late e) =
      manned _ e (modify-IsSingle p f _ keeps m.single)
        (carried_modify before after c r p f keeps _ m.backed)
        (omega (
          arith,
          m.bounded,
          active_retimed before after c r clock p f keeps late before.execution_leases m.backed,
        ))
  Leasing-IsManned (granted now id token past t free known e) =
      granted-IsManned now id token past _ refl t free known e

-- The effect of a committed call, and the time that it takes.
Step-Effect : (limit : ℕ) (w v : World) → Step limit w v → Effect limit w.clock w.db v.db
Step-Effect limit w v (wait c d h) = unchanged limit w.clock w.db v.db d
Step-Effect limit w v (read id j r c h) =
    unchanged limit w.clock w.db v.db (get_job_same id w.db v.db j r)
Step-Effect limit w v (submit id did spec key j r x) =
    admission-Effect limit w.clock w.db v.db (new_job id spec) (new_dispatch did id) key j r
Step-Effect limit w v (advance h n event type artifact lease failure e m t r x) =
    update-Effect limit w.clock w.db v.db w.clock n h.version type artifact lease failure e r
Step-Effect limit w v (cancel id j r x) = cancellation-Effect limit w.clock w.db v.db id j r
Step-Effect limit w v (redispatch d n u r x) = redispatch-Effect limit w.clock w.db v.db d n u r
Step-Effect limit w v (conclude d lease b r x) =
    conclusion-Effect limit w.clock w.db v.db w.clock d lease b r
Step-Effect limit w v (claim now did ttl max token t c r x) =
    claim-Effect limit w.clock w.db v.db now did ttl max token t c r
Step-Effect limit w v (renew first did token ttl b c r x) =
    renewal-Effect limit w.clock w.db v.db first did token ttl b r
Step-Effect limit w v (release did token u r x) =
    release-Effect limit w.clock w.db v.db did token u r

Step-clock : (limit : ℕ) (w v : World) → Step limit w v → w.clock ≤ v.clock
Step-clock limit w v (wait c d h) = c
Step-clock limit w v (read id j r c h) = omega (arith, c)
Step-clock limit w v (submit id did spec key j r x) = omega (arith, x.clock)
Step-clock limit w v (advance h n event type artifact lease failure e m t r x) =
    omega (arith, x.clock)
Step-clock limit w v (cancel id j r x) = omega (arith, x.clock)
Step-clock limit w v (redispatch d n u r x) = omega (arith, x.clock)
Step-clock limit w v (conclude d lease b r x) = omega (arith, x.clock)
Step-clock limit w v (claim now did ttl max token t c r x) = omega (arith, x.clock)
Step-clock limit w v (renew first did token ttl b c r x) = omega (arith, x.clock)
Step-clock limit w v (release did token u r x) = omega (arith, x.clock)

Step-IsManned :
    (limit : ℕ) (w v : World)
    → IsSound w
    → IsManned limit w.clock w.db
    → Step limit w v
    → IsManned limit v.clock v.db
Step-IsManned limit w v s m st =
    let e = Step-Effect limit w v st in
    later-IsManned limit w.clock v.clock v.db (Step-clock limit w v st)
      (Leasing-IsManned limit w.clock w.db v.db (Step-Change limit w v s st) e.routing m e.leasing)

pub initial-IsManned : (limit : ℕ) → IsManned limit 0 initial.db
unfolding active_count
initial-IsManned limit = record { single = tt; backed = tt; bounded = omega arith }

-- Whatever calls are interleaved, and also when a claim decides by a clock that it read earlier, at
-- no time are more jobs active than the limit of the claims allows; every dispatch has one lease at
-- most, and every lease a dispatch and a job.
pub Reach-IsManned :
    (limit : ℕ) (w v : World)
    → IsSound w
    → IsManned limit w.clock w.db
    → Reach limit w v
    → IsManned limit v.clock v.db
Reach-IsManned limit w v s m here = m
Reach-IsManned limit w v s m (next {u} r st) =
    Step-IsManned limit u v (Reach-IsSound limit w u s r) (Reach-IsManned limit w u s m r) st
