-- ===== src/Jobs/Transitions/Graph.antt =====
-- The lifecycle of a job as a relation on statuses, and `transition` against it.
use kenkui_server.Prelude.{codes, ◌+◌, ◌≡◌, refl, arith}
use kenkui_server.Prelude.Int.{pos}
use kenkui_server.Prelude.Result.{Result, ok, err}
use kenkui_server.Jobs.Models.{JobStatus, Job, make_progress}
use kenkui_server.Jobs.Transitions.{
  TransitionEvent, dispatch_requested, cancel_requested, cancelled, completed, failed,
  progress_reported, transition_from, transition,
}

infix 40 ◌⟶◌
pub data ◌⟶◌ : JobStatus → JobStatus → Type 0 where
  start : JobStatus.queued ⟶ JobStatus.running
  withdraw : JobStatus.queued ⟶ JobStatus.cancelled
  report : JobStatus.running ⟶ JobStatus.running
  finish : JobStatus.running ⟶ JobStatus.succeeded
  fail : JobStatus.running ⟶ JobStatus.failed
  ask : JobStatus.running ⟶ JobStatus.cancel_requested
  acknowledge : JobStatus.cancel_requested ⟶ JobStatus.cancelled

pub ruleset edges = (start, withdraw, report, finish, fail, ask, acknowledge)

-- What an accepted event makes of a job: one version more, along an edge, the same identity.
pub record Advances (job next : Job) : Type 0 where
  pub edge : job.status ⟶ next.status
  pub version : next.version ≡ job.version + 1
  pub id : next.id ≡ job.id
  pub spec : next.spec ≡ job.spec

transition-edge :
    (job next : Job) (event : TransitionEvent)
    → transition job event ≡ ok next
    → job.status ⟶ next.status
unfolding transition make_progress
transition-edge job next event h = grind (arith, edges)

-- Every accepted event takes the job along one edge of the lifecycle, raises its version by one,
-- and leaves its identity and its spec alone.
pub transition-Advances :
    (job next : Job) (event : TransitionEvent) → transition job event ≡ ok next → Advances job next
unfolding transition make_progress
transition-Advances job next event h = record {
  edge = transition-edge job next event h;
  version = ground arith;
  id = ground arith;
  spec = ground arith;
}

-- The event that takes a job along an edge.
abbrev pub event_of : {s t : JobStatus} → s ⟶ t → TransitionEvent
event_of start = dispatch_requested
event_of withdraw = cancel_requested
event_of report = progress_reported (codes "retrying") (pos 0) (pos 0)
event_of finish = completed
event_of fail = failed
event_of ask = cancel_requested
event_of acknowledge = cancelled

-- A result that is a job with this status.
abbrev pub Yields : JobStatus → Result Job → Type 0
Yields s (ok job) = job.status ≡ s
Yields s (err _) = ⊥

-- Every edge of the lifecycle is open: from a job at its start some event is accepted and leads to
-- its end.
pub event_of-Yields :
    {s t : JobStatus} (edge : s ⟶ t) (job : Job)
    → job.status ≡ s
    → Yields t (transition job (event_of edge))
unfolding transition make_progress
event_of-Yields start job h = rw (h, transition_from) refl
event_of-Yields withdraw job h = rw (h, transition_from) refl
event_of-Yields report job h = rw (h, transition_from) refl
event_of-Yields finish job h = rw (h, transition_from) refl
event_of-Yields fail job h = rw (h, transition_from) refl
event_of-Yields ask job h = rw (h, transition_from) refl
event_of-Yields acknowledge job h = rw (h, transition_from) refl
