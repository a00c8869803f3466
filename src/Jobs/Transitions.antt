-- ===== src/Jobs/Transitions.antt =====
-- jobs/transitions.py: the pure transitions over job snapshots.
pub mod Graph
use kenkui_server.Prelude.{ℕ, suc, Text, codes, Option, none, some, ◌+◌}
use kenkui_server.Prelude.Int.{ℤ, pos}
use kenkui_server.Prelude.Result.{Result, ok, err, ◌>>=◌, invalid_transition}
use kenkui_server.Jobs.Models.{JobStatus, Progress, make_progress, Job}

pub data TransitionEvent : Type 0 where
  dispatch_requested cancel_requested cancelled completed failed : TransitionEvent
  progress_reported : Text → ℤ → ℤ → TransitionEvent

-- `_next`: an argument that is `None` keeps the job's value.
unfoldable pub next : Job → Option JobStatus → Option Progress → Job
next job status progress = record job {
  status = elim status [ none ↦ job.status | some s ↦ s ];
  version = job.version + 1;
  progress = elim progress [ none ↦ job.progress | some p ↦ p ];
}

-- `Progress("running", 0, 0)`
unfoldable pub running_progress : Progress
running_progress = record { stage = codes "running"; completed = pos 0; total = pos 0 }

-- The tests of `transition`, on the event and the status. The last clause is the final `raise`.
unfoldable pub transition_from : TransitionEvent → JobStatus → Job → Result Job
unfolding next
transition_from cancel_requested JobStatus.queued job =
    ok (next job (some JobStatus.cancelled) none)
transition_from cancel_requested JobStatus.running job =
    ok (next job (some JobStatus.cancel_requested) none)
transition_from cancelled JobStatus.cancel_requested job =
    ok (next job (some JobStatus.cancelled) none)
transition_from dispatch_requested JobStatus.queued job =
    ok (next job (some JobStatus.running) (some running_progress))
transition_from completed JobStatus.running job = ok (next job (some JobStatus.succeeded) none)
transition_from failed JobStatus.running job = ok (next job (some JobStatus.failed) none)
transition_from (progress_reported stage done total) JobStatus.running job =
    make_progress stage done total >>= λ p. ok (next job none (some p))
transition_from _ _ job = err invalid_transition

unfoldable pub transition : Job → TransitionEvent → Result Job
unfolding transition_from
transition job event = transition_from event job.status job
