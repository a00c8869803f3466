-- ===== src/Dispatcher/Tests.antt =====
-- A job that is submitted twice under one key.
use kenkui_server.Prelude.{◌≡◌, refl, codes, none, some, [], ◌∷◌, true, false, arith}
use kenkui_server.Prelude.Int.{pos}
use kenkui_server.Prelude.Result.{ok}
use kenkui_server.Jobs.Models.{JobSpec, Casting, Job, new_job}
use kenkui_server.Storage.Tables.{
  empty, find_job, find_key, insert_job, insert_dispatch, insert_key,
}
use kenkui_server.Storage.Repositories.{create_job_and_dispatch, replay_job, admit_new, record_key}
use kenkui_server.Storage.System.{new_dispatch}
use kenkui_server.Dispatcher.{Server, submit, submit-submit}

abbrev sample_spec : JobSpec
sample_spec = record {
  source_id = codes "source";
  chapters = codes "chapter" ∷ [];
  casting = Casting.single (record { voice_id = codes "narrator" });
  tts = record {
    normalize_text = true;
    chapter_pauses = false;
    prepare_numbers = false;
    pronunciation_corrections = false;
    stutter_handling = false;
    chapter_pause_ms = none;
    heading_before_pause_ms = pos 0;
    heading_after_pause_ms = pos 0;
    paragraph_pause_ms = pos 0;
    line_pause_ms = pos 0;
    scene_pause_ms = pos 0;
    speak_chapter_titles = false;
    chapter_title_pause_ms = pos 750;
    chapter_title_overrides = [];
  };
  output = record { path = codes "out.m4b"; title = none; author = none; source_cover = true };
}

abbrev sample_job : Job
sample_job = new_job 7 sample_spec

abbrev idle : Server
idle = record { db = empty; started = [] }

abbrev busy : Server
busy = (submit 7 8 sample_spec (some 9) idle).1

submit-submit_example : submit 17 18 sample_spec (some 9) busy ≡ (ok sample_job, busy)
unfolding submit create_job_and_dispatch replay_job admit_new record_key insert_job insert_dispatch
    new_dispatch find_job find_key new_job insert_key
submit-submit_example =
    submit-submit 7 8 9 sample_spec idle busy sample_job refl 17 18 (λ e. omega (arith, e))
