-- ===== src/Worker/Tests.antt =====
-- The progress callback of worker.py on a job that runs.
use kenkui_server.Prelude.{◌≡◌, ◌≢◌, refl, codes, some, none, lstrip, strip, arith, inl}
use kenkui_server.Prelude.Int.{pos}
use kenkui_server.Prelude.Result.{invalid_progress, ok, err}
use kenkui_server.Jobs.Models.{Job, JobStatus, make_progress, required}
use kenkui_server.Jobs.Tests.{clean_spec}
use kenkui_server.Jobs.Transitions.{transition, transition_from, next}
use kenkui_server.Worker.{
  ExecutionEvent, publish, cancel, ignore, attribute, is_outdated, report, report_event, react,
  on_event, Reports, on_event-Reports, on_event_settles,
}

abbrev running_job : Job
running_job = record {
  id = 7;
  spec = clean_spec;
  status = JobStatus.running;
  version = 3;
  progress = record { stage = codes "render"; completed = pos 1; total = pos 4 };
}

abbrev second_chapter : ExecutionEvent
second_chapter = record { completed = some (pos 2); total = none; stage = some (codes "render") }

abbrev further_job : Job
further_job = record running_job {
  version = 4;
  progress = record { stage = codes "render"; completed = pos 2; total = pos 4 };
}

on_event-Reports_example : Reports second_chapter running_job further_job
unfolding on_event react report_event report is_outdated attribute transition transition_from next
    make_progress required strip lstrip
on_event-Reports_example = on_event-Reports second_chapter running_job further_job refl

on_event_settles_example : on_event second_chapter running_job ≢ err invalid_progress
unfolding attribute strip lstrip
on_event_settles_example =
    on_event_settles second_chapter running_job invalid_progress (inl refl) (λ h. ground arith)
      (λ done same. ground arith)

-- A count that goes back within the stage is dropped, and so is an event without a count.
gone_back : on_event (record second_chapter { completed = some (pos 0) }) running_job ≡ ok ignore
unfolding on_event react report_event report is_outdated attribute
gone_back = refl

no_count : on_event (record second_chapter { completed = none }) running_job ≡ ok ignore
unfolding on_event react report_event
no_count = refl

-- A cancelled render is told so.
stopped :
    on_event second_chapter (record running_job { status = JobStatus.cancel_requested }) ≡ ok cancel
unfolding on_event react
stopped = refl

-- A stage with a blank before it passes the test as another stage, and is stored as the same one.
blank_before :
    on_event
      (record { completed = some (pos 0); total = none; stage = some (codes " render") })
      running_job
    ≡ ok (
        publish (record running_job {
          version = 4;
          progress = record { stage = codes "render"; completed = pos 0; total = pos 4 };
        }))
unfolding on_event react report_event report is_outdated attribute transition transition_from next
    make_progress required strip lstrip
blank_before = refl
