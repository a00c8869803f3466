-- ===== src/Storage/Tests.antt =====
-- Runs of the storage on concrete databases, and each theorem at an input that meets its
-- hypotheses.
use kenkui_server.Prelude.{map}
use kenkui_server.Storage.Changes.{version_of}
use kenkui_server.Storage.Queries.{list_events}
use kenkui_server.Storage.Queries.History.{upto, Reach-list_events}
use kenkui_server.Prelude.{◌≡◌, refl, codes, none, some, [], ◌∷◌, true, false, arith}
use kenkui_server.Prelude.Int.{pos}
use kenkui_server.Prelude.Result.{err, stale_write}
use kenkui_server.Prelude.Transaction.{after}
use kenkui_server.Jobs.Models.{Job, JobStatus, JobSpec, Casting, new_job, EventType, Identifier}
use kenkui_server.Jobs.Transitions.{
  dispatch_requested, transition, next as next_job, running_progress,
}
use kenkui_server.Jobs.Transitions.Graph.{
  Advances, start, Yields, event_of, transition-Advances, event_of-Yields,
}
use kenkui_server.Storage.Tables.{
  empty, find_job, find_key, insert_key, next_sequence, insert_job, insert_dispatch, insert_event,
  find_dispatch, find_lease,
}
use kenkui_server.Storage.Repositories.{
  create_job_and_dispatch, replay_job, admit_new, record_key, request_cancellation, get_job,
  cancel_open, commit_snapshot, cancellation_of, cancelled_snapshot, update_job_and_append_event,
  finish_dispatch,
}
use kenkui_server.Storage.Execution.{
  claim_execution, job_of_dispatch, claim_job, active_count, grant, grant_lease,
}
use kenkui_server.Storage.Leases.{IsGranted, claim_execution-IsGranted, claim_execution-fences}
use kenkui_server.Storage.System.{
  World, initial, new_dispatch, submit, cancel, wait, claim, Reach, here, next,
}
use kenkui_server.Storage.System.Bound.{initial-IsManned, Reach-IsManned}
use kenkui_server.Storage.System.Slots.{IsManned}
use kenkui_server.Storage.System.Jobs.{
  IsSound, initial-IsSound, Reach-IsSound, Reach-Descends, Descends, terminal_frozen,
}

abbrev sample_spec : JobSpec
sample_spec = record {
  source_id = codes "source";
  chapters = codes "chapter" ∷ [];
  casting = Casting.single (record { voice_id = codes "narrator" });
  tts = record {
    normalize_text = true;
    chapter_pauses = false;
    prepare_numbers = false;
    pronunciation_corrections = false;
    stutter_handling = false;
    chapter_pause_ms = none;
    heading_before_pause_ms = pos 0;
    heading_after_pause_ms = pos 0;
    paragraph_pause_ms = pos 0;
    line_pause_ms = pos 0;
    scene_pause_ms = pos 0;
    speak_chapter_titles = false;
    chapter_title_pause_ms = pos 750;
    chapter_title_overrides = [];
  };
  output = record { path = codes "out.m4b"; title = none; author = none; source_cover = true };
}

abbrev sample_job : Job
sample_job = new_job 7 sample_spec

abbrev started_job : Job
started_job = next_job sample_job (some JobStatus.running) (some running_progress)

abbrev submitted : World
submitted = record initial {
  db = after empty (create_job_and_dispatch sample_job (new_dispatch 8 7) (some 9) empty);
}

submitted-Reach : Reach 2 initial submitted
unfolding create_job_and_dispatch replay_job admit_new record_key insert_job insert_dispatch
    new_dispatch find_job find_key new_job insert_key
submitted-Reach =
    next here
      (submit 7 8 sample_spec (some 9) sample_job refl (record { clock = refl; held = refl }))

abbrev withdrawn : World
withdrawn = record submitted { db = after submitted.db (request_cancellation 7 submitted.db) }

abbrev withdrawn_job : Job
withdrawn_job = record sample_job { status = JobStatus.cancelled; version = 1 }

withdrawn-Reach : Reach 2 submitted withdrawn
unfolding create_job_and_dispatch replay_job admit_new record_key insert_job insert_dispatch
    new_dispatch find_job request_cancellation get_job cancel_open commit_snapshot cancellation_of
    cancelled_snapshot insert_event new_job find_key insert_key next_sequence
withdrawn-Reach = next here (cancel 7 withdrawn_job refl (record { clock = refl; held = refl }))

submitted-IsSound : IsSound submitted
submitted-IsSound = Reach-IsSound 2 initial submitted initial-IsSound submitted-Reach

Reach-IsSound_example : IsSound submitted
Reach-IsSound_example = Reach-IsSound 2 initial submitted initial-IsSound submitted-Reach

submitted_row : find_job 7 submitted.db.jobs ≡ some sample_job
unfolding create_job_and_dispatch replay_job admit_new record_key insert_job insert_dispatch
    new_dispatch find_job find_key new_job insert_key
submitted_row = refl

withdrawn_row : find_job 7 withdrawn.db.jobs ≡ some withdrawn_job
unfolding create_job_and_dispatch replay_job admit_new record_key insert_job insert_dispatch
    new_dispatch find_job request_cancellation get_job cancel_open commit_snapshot cancellation_of
    cancelled_snapshot insert_event new_job find_key insert_key next_sequence
withdrawn_row = refl

Reach-Descends_example :
    (j' : Job) × (find_job 7 withdrawn.db.jobs ≡ some j') × Descends sample_job j'
Reach-Descends_example =
    Reach-Descends 2 submitted withdrawn 7 sample_job submitted-IsSound withdrawn-Reach
      submitted_row

again : World
again = record withdrawn { clock = 5 }

withdrawn-IsSound : IsSound withdrawn
withdrawn-IsSound = Reach-IsSound 2 submitted withdrawn submitted-IsSound withdrawn-Reach

terminal_frozen_example : find_job 7 again.db.jobs ≡ some withdrawn_job
unfolding again
terminal_frozen_example =
    terminal_frozen 2 withdrawn again 7 withdrawn_job withdrawn-IsSound
      (next here (wait (omega arith) refl refl)) withdrawn_row refl

transition-Advances_example : Advances sample_job started_job
unfolding transition next_job new_job
transition-Advances_example = transition-Advances sample_job started_job dispatch_requested refl

event_of-Yields_example : Yields JobStatus.running (transition sample_job (event_of start))
unfolding new_job
event_of-Yields_example = event_of-Yields start sample_job refl

abbrev leased : World
leased = record submitted { db = after submitted.db (claim_execution 5 8 2 30 3 77 submitted.db) }

-- A claim after the first lease has expired.
abbrev reclaimed : World
reclaimed = record leased { db = after leased.db (claim_execution 40 8 2 30 3 78 leased.db) }

abbrev new_token : Identifier
new_token = 78

claim_execution-IsGranted_example :
    (new_token ≡ new_token) × IsGranted 40 8 2 30 3 78 leased.db reclaimed.db
unfolding create_job_and_dispatch replay_job admit_new record_key insert_job insert_dispatch
    new_dispatch find_job find_dispatch find_lease find_key new_job insert_key claim_execution
    job_of_dispatch claim_job active_count grant grant_lease
claim_execution-IsGranted_example =
    claim_execution-IsGranted 40 8 2 30 3 78 leased.db reclaimed.db 78 refl

claim_execution-fences_example :
    (update_job_and_append_event 41 started_job 0 EventType.running none
        (some (8, 77))
        none
        reclaimed.db
      ≡ err stale_write)
    × (finish_dispatch 41 (new_dispatch 8 7) (some (8, 77)) reclaimed.db ≡ err stale_write)
unfolding create_job_and_dispatch replay_job admit_new record_key insert_job insert_dispatch
    new_dispatch find_job find_dispatch find_lease find_key new_job insert_key claim_execution
    job_of_dispatch claim_job active_count grant grant_lease next_job
claim_execution-fences_example =
    claim_execution-fences 40 8 2 30 3 78 leased.db reclaimed.db 78 77 refl (λ e. omega (arith, e))
      41 started_job 0 EventType.running none none (new_dispatch 8 7)

abbrev clocked : World
clocked = record submitted { clock = 5 }

abbrev staffed : World
staffed = record clocked { db = after clocked.db (claim_execution 5 8 2 30 3 77 clocked.db) }

staffed-Reach : Reach 2 initial staffed
unfolding create_job_and_dispatch replay_job admit_new record_key insert_job insert_dispatch
    new_dispatch find_job find_dispatch find_lease find_key new_job insert_key claim_execution
    job_of_dispatch claim_job active_count grant grant_lease
staffed-Reach =
    next {u = clocked}
      (next {u = submitted}
        (next here
          (submit 7 8 sample_spec (some 9) sample_job refl (record { clock = refl; held = refl })))
        (wait (omega arith) refl refl))
      (claim 5 8 30 3 77 (some 77) (omega arith) refl (record { clock = refl; held = refl }))

Reach-IsManned_example : IsManned 2 5 staffed.db
Reach-IsManned_example =
    Reach-IsManned 2 initial staffed initial-IsSound (initial-IsManned 2) staffed-Reach

Reach-list_events_example :
    map (λ e. e.sequence) (list_events 7 withdrawn.db.job_events)
    ≡ upto (version_of (find_job 7 withdrawn.db.jobs))
Reach-list_events_example =
    Reach-list_events 2 submitted withdrawn 7 submitted-IsSound withdrawn-Reach
