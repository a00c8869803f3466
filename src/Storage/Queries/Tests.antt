-- ===== src/Storage/Queries/Tests.antt =====
-- A spec that is stored and read back, and the history of a cancelled job.
use kenkui_server.Prelude.{
  ◌≡◌, refl, codes, none, some, [], ◌∷◌, Bool, true, false, ◌||◌, Text, text_eq, lstrip, strip,
  is_space,
}
use kenkui_server.Prelude.Int.{pos}
use kenkui_server.Prelude.Result.{ok}
use kenkui_server.Jobs.Models.{required, JobSpec, Casting}
use kenkui_server.Jobs.Validation.{
  make_spec, make_chapters, has_duplicate, make_character_casting, make_member, sorted_cast,
  insert_member, make_output,
}
use kenkui_server.Jobs.Settings.{
  make_tts, sorted_overrides, insert_override, is_override, has_pauses,
}
use kenkui_server.Storage.Codec.{Value, encode_spec, decode_spec}
use kenkui_server.Storage.Codec.Roundtrip.{IsNormal, decode_spec-encode_spec}

abbrev is_m4b : Text → Bool
is_m4b [] = false
is_m4b (c ∷ cs) = text_eq (c ∷ cs) (codes ".m4b") || is_m4b cs

abbrev no_text : Value → Text
no_text v = []

abbrev cast_spec : JobSpec
cast_spec = record {
  source_id = codes "source";
  chapters = codes "one" ∷ codes "two" ∷ [];
  casting = Casting.characters (record {
    narrator_voice_id = codes "n";
    unknown_voice_id = codes "u";
    cast = (codes "Chani", codes "v2") ∷ (codes "Paul", codes "v1") ∷ [];
    method = codes "m";
    model_id = codes "model";
  });
  tts = record {
    normalize_text = true;
    chapter_pauses = false;
    prepare_numbers = false;
    pronunciation_corrections = false;
    stutter_handling = false;
    chapter_pause_ms = some (pos 500);
    heading_before_pause_ms = pos 0;
    heading_after_pause_ms = pos 0;
    paragraph_pause_ms = pos 0;
    line_pause_ms = pos 0;
    scene_pause_ms = pos 0;
    speak_chapter_titles = true;
    chapter_title_pause_ms = pos 750;
    chapter_title_overrides = (codes "one", some (codes "First")) ∷ (codes "two", none) ∷ [];
  };
  output = record { path = codes "o.m4b"; title = none; author = none; source_cover = true };
}

cast_spec-IsNormal : IsNormal is_m4b cast_spec
unfolding make_spec make_chapters has_duplicate required strip lstrip make_character_casting
    make_member sorted_cast insert_member make_output make_tts sorted_overrides insert_override
    is_override has_pauses is_space
cast_spec-IsNormal = record { casting = refl; tts = refl; output = refl; whole = refl }

decode_spec-encode_spec_example : decode_spec no_text is_m4b (encode_spec cast_spec) ≡ ok cast_spec
decode_spec-encode_spec_example =
    decode_spec-encode_spec no_text is_m4b cast_spec cast_spec-IsNormal
