-- ===== src/Jobs/Tests.antt =====
-- Specs and castings that are validated.
use kenkui_server.Prelude.{◌≡◌, refl, codes, none, [], ◌∷◌, true, false, lstrip, strip}
use kenkui_server.Prelude.Int.{pos}
use kenkui_server.Prelude.Result.{ok, err, duplicate_chapter_id}
use kenkui_server.Jobs.Models.{required, JobSpec, Casting, CharacterCasting}
use kenkui_server.Jobs.Validation.{
  make_spec, make_chapters, has_duplicate, make_character_casting, make_member, sorted_cast,
  insert_member, IsSelection, make_spec-IsSelection,
}

abbrev raw_spec : JobSpec
raw_spec = record {
  source_id = codes " source";
  chapters = codes "one " ∷ codes " two" ∷ [];
  casting = Casting.single (record { voice_id = codes "narrator" });
  tts = record {
    normalize_text = true;
    chapter_pauses = false;
    prepare_numbers = false;
    pronunciation_corrections = false;
    stutter_handling = false;
    chapter_pause_ms = none;
    heading_before_pause_ms = pos 0;
    heading_after_pause_ms = pos 0;
    paragraph_pause_ms = pos 0;
    line_pause_ms = pos 0;
    scene_pause_ms = pos 0;
    speak_chapter_titles = false;
    chapter_title_pause_ms = pos 750;
    chapter_title_overrides = [];
  };
  output = record { path = codes "out.m4b"; title = none; author = none; source_cover = true };
}

abbrev pub clean_spec : JobSpec
clean_spec = record {
  source_id = codes "source";
  chapters = codes "one" ∷ codes "two" ∷ [];
  casting = Casting.single (record { voice_id = codes "narrator" });
  tts = record {
    normalize_text = true;
    chapter_pauses = false;
    prepare_numbers = false;
    pronunciation_corrections = false;
    stutter_handling = false;
    chapter_pause_ms = none;
    heading_before_pause_ms = pos 0;
    heading_after_pause_ms = pos 0;
    paragraph_pause_ms = pos 0;
    line_pause_ms = pos 0;
    scene_pause_ms = pos 0;
    speak_chapter_titles = false;
    chapter_title_pause_ms = pos 750;
    chapter_title_overrides = [];
  };
  output = record { path = codes "out.m4b"; title = none; author = none; source_cover = true };
}

make_spec-IsSelection_example : IsSelection raw_spec clean_spec
unfolding make_spec make_chapters has_duplicate required strip lstrip
make_spec-IsSelection_example = make_spec-IsSelection raw_spec clean_spec refl

-- A chapter that is named twice after its blanks are taken off.
twice_named : make_chapters (codes "one" ∷ codes " one" ∷ []) ≡ err duplicate_chapter_id
unfolding make_chapters has_duplicate required strip lstrip
twice_named = refl

abbrev two_voices : CharacterCasting
two_voices = record {
  narrator_voice_id = codes "narrator";
  unknown_voice_id = codes " ";
  cast = (codes "Paul", codes "v1") ∷ (codes "Chani ", codes "v2") ∷ [];
  method = codes "m";
  model_id = codes "model";
}

-- The cast is sorted, and an unknown speaker sounds like the narrator.
two_voices_made :
    make_character_casting two_voices
    ≡ ok (record two_voices {
      unknown_voice_id = codes "narrator";
      cast = (codes "Chani", codes "v2") ∷ (codes "Paul", codes "v1") ∷ [];
    })
unfolding make_character_casting make_member sorted_cast insert_member required strip lstrip
two_voices_made = refl
