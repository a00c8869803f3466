-- ===== src/Storage/Codec.antt =====
-- storage/repositories.py: the values that the JSON columns hold. `json.dumps` and `json.loads` are
-- the library's: a column is the value that is written, with tuples as lists. A value of a type
-- that the code cannot use raises `type_error`, and a missing key `key_error`.
pub mod Roundtrip
use kenkui_server.Prelude.{
  ℕ, Bool, true, false, Option, none, some, List, [], ◌∷◌, map, Text, codes, text_eq, if◌then◌else◌,
}
use kenkui_server.Prelude.Int.{ℤ, pos}
use kenkui_server.Prelude.Result.{
  Result, ok, err, ◌>>=◌, ◌>>◌, raise_if, type_error, key_error, traverse,
}
use kenkui_server.Jobs.Models.{
  SingleVoiceCasting, CharacterCasting, Casting, single, characters, TtsSettings, OutputSpec,
  JobSpec, Progress, make_progress, InspectedChapter,
}
use kenkui_server.Jobs.Settings.{make_tts}
use kenkui_server.Jobs.Validation.{
  make_single_voice, make_character_casting, make_output, make_spec,
}

mutual
  pub data Value : Type 0 where
    null : Value
    bool : Bool → Value
    int : ℤ → Value
    text : Text → Value
    array : Items → Value
    object : Fields → Value

  pub data Items : Type 0 where
    nil : Items
    item : Value → Items → Items

  pub data Fields : Type 0 where
    end : Fields
    field : Text → Value → Fields → Fields

abbrev pub items : List Value → Items
items [] = nil
items (v ∷ vs) = item v (items vs)

abbrev pub elements : Items → List Value
elements nil = []
elements (item v vs) = v ∷ elements vs

-- `value.get(key)`
abbrev pub find_field : Text → Fields → Option Value
find_field key end = none
find_field key (field k v fs) =
    let rest = find_field key fs in if text_eq k key then some v else rest

-- `value[key]`
abbrev pub get : Text → Value → Result Value
get key (object fs) = elim (find_field key fs) [ none ↦ err key_error | some v ↦ ok v ]
get key _ = err type_error

abbrev pub as_text : Value → Result Text
as_text (text s) = ok s
as_text _ = err type_error

abbrev pub as_bool : Value → Result Bool
as_bool (bool b) = ok b
as_bool _ = err type_error

abbrev pub as_int : Value → Result ℤ
as_int (int n) = ok n
as_int _ = err type_error

abbrev pub as_list : Value → Result (List Value)
as_list (array vs) = ok (elements vs)
as_list _ = err type_error

-- A value that may be `null`.
abbrev pub optional : {A : Type 0} → (Value → Result A) → Value → Result (Option A)
optional f null = ok none
optional f v = f v >>= λ a. ok (some a)

abbrev pub maybe : {A : Type 0} → (A → Value) → Option A → Value
maybe f none = null
maybe f (some a) = f a

-- `TtsSettings(**value)` takes the default of a field that is missing.
abbrev pub default : {A : Type 0} → A → (Value → Result A) → Text → Value → Result A
default a f key (object fs) = elim (find_field key fs) [ none ↦ ok a | some v ↦ f v ]
default a f key _ = err type_error

abbrev pub pair : {A : Type 0} → (Value → Result A) → Value → Result (Text × A)
pair f (array (item k (item v nil))) = as_text k >>= λ key. f v >>= λ a. ok (key, a)
pair f _ = err type_error

-- `_casting_to_row`
unfoldable pub casting_to_row : Casting → Value
casting_to_row (single c) =
    object (
      field (codes "kind") (text (codes "single")) (field (codes "voice_id") (text c.voice_id) end))
casting_to_row (characters c) = object (
    field (codes "kind") (text (codes "characters")) (
      field (codes "narrator_voice_id") (text c.narrator_voice_id) (
        field (codes "unknown_voice_id") (text c.unknown_voice_id) (
          field (codes "cast")
            (array (items (map (λ m. array (item (text m.0) (item (text m.1) nil))) c.cast)))
            (field (codes "method") (text c.method)
              (field (codes "model_id") (text c.model_id) end))))))

abbrev pub is_characters : Value → Bool
is_characters (object fs) = elim (find_field (codes "kind") fs) [
  | some (text kind) ↦ text_eq kind (codes "characters")
  | _ ↦ false
]
is_characters _ = false

-- `str(value)`, where `str_of` is `str` on a value that is no text.
abbrev pub as_str : (Value → Text) → Value → Text
as_str str_of (text s) = s
as_str str_of v = str_of v

abbrev pub string_pair : (Value → Text) → Value → Result (Text × Text)
string_pair str_of (array (item a (item b nil))) = ok (as_str str_of a, as_str str_of b)
string_pair str_of _ = err type_error

unfoldable pub single_from_row : (Value → Text) → Value → Result Casting
single_from_row str_of value = do
  voice_id ← get (codes "voice_id") value
  made ← make_single_voice (as_str str_of voice_id)
  ok (single made)

unfoldable pub characters_from_row : (Value → Text) → Value → Result Casting
characters_from_row str_of value = do
  narrator_voice_id ← get (codes "narrator_voice_id") value
  unknown_voice_id ← get (codes "unknown_voice_id") value
  members ← get (codes "cast") value >>= as_list
  cast ← traverse (string_pair str_of) members
  method ← get (codes "method") value
  model_id ← get (codes "model_id") value
  made ← make_character_casting (record {
    narrator_voice_id = as_str str_of narrator_voice_id;
    unknown_voice_id = as_str str_of unknown_voice_id;
    cast = cast;
    method = as_str str_of method;
    model_id = as_str str_of model_id;
  })
  ok (characters made)

-- `_casting_from_row`
unfoldable pub casting_from_row : (Value → Text) → Value → Result Casting
unfolding single_from_row characters_from_row
casting_from_row str_of value =
    if is_characters value then characters_from_row str_of value else single_from_row str_of value

-- `asdict(spec.tts)`
unfoldable pub tts_to_row : TtsSettings → Value
tts_to_row s = object (
    field (codes "normalize_text") (bool s.normalize_text) (
      field (codes "chapter_pauses") (bool s.chapter_pauses) (
        field (codes "prepare_numbers") (bool s.prepare_numbers) (
          field (codes "pronunciation_corrections") (bool s.pronunciation_corrections) (
            field (codes "stutter_handling") (bool s.stutter_handling) (
              field (codes "chapter_pause_ms") (maybe int s.chapter_pause_ms) (
                field (codes "heading_before_pause_ms") (int s.heading_before_pause_ms) (
                  field (codes "heading_after_pause_ms") (int s.heading_after_pause_ms) (
                    field (codes "paragraph_pause_ms") (int s.paragraph_pause_ms) (
                      field (codes "line_pause_ms") (int s.line_pause_ms) (
                        field (codes "scene_pause_ms") (int s.scene_pause_ms) (
                          field (codes "speak_chapter_titles") (bool s.speak_chapter_titles) (
                            field (codes "chapter_title_pause_ms") (int s.chapter_title_pause_ms) (
                              field (codes "chapter_title_overrides")
                                (array (
                                  items (
                                    map (λ o. array (item (text o.0) (item (maybe text o.1) nil)))
                                      s.chapter_title_overrides)))
                                end))))))))))))))

-- `TtsSettings(**value)`
unfoldable pub tts_from_row : Value → Result TtsSettings
tts_from_row value = do
  normalize_text ← default true as_bool (codes "normalize_text") value
  chapter_pauses ← default false as_bool (codes "chapter_pauses") value
  prepare_numbers ← default false as_bool (codes "prepare_numbers") value
  pronunciation_corrections ← default false as_bool (codes "pronunciation_corrections") value
  stutter_handling ← default false as_bool (codes "stutter_handling") value
  chapter_pause_ms ← default none (optional as_int) (codes "chapter_pause_ms") value
  heading_before_pause_ms ← default (pos 0) as_int (codes "heading_before_pause_ms") value
  heading_after_pause_ms ← default (pos 0) as_int (codes "heading_after_pause_ms") value
  paragraph_pause_ms ← default (pos 0) as_int (codes "paragraph_pause_ms") value
  line_pause_ms ← default (pos 0) as_int (codes "line_pause_ms") value
  scene_pause_ms ← default (pos 0) as_int (codes "scene_pause_ms") value
  speak_chapter_titles ← default false as_bool (codes "speak_chapter_titles") value
  chapter_title_pause_ms ← default (pos 750) as_int (codes "chapter_title_pause_ms") value
  overrides ← default [] as_list (codes "chapter_title_overrides") value
  chapter_title_overrides ← traverse (pair (optional as_text)) overrides
  make_tts (record {
    normalize_text = normalize_text;
    chapter_pauses = chapter_pauses;
    prepare_numbers = prepare_numbers;
    pronunciation_corrections = pronunciation_corrections;
    stutter_handling = stutter_handling;
    chapter_pause_ms = chapter_pause_ms;
    heading_before_pause_ms = heading_before_pause_ms;
    heading_after_pause_ms = heading_after_pause_ms;
    paragraph_pause_ms = paragraph_pause_ms;
    line_pause_ms = line_pause_ms;
    scene_pause_ms = scene_pause_ms;
    speak_chapter_titles = speak_chapter_titles;
    chapter_title_pause_ms = chapter_title_pause_ms;
    chapter_title_overrides = chapter_title_overrides;
  })

-- `asdict(spec.output)`
unfoldable pub output_to_row : OutputSpec → Value
output_to_row o = object (
    field (codes "path") (text o.path) (
      field (codes "title") (maybe text o.title) (
        field (codes "author") (maybe text o.author)
          (field (codes "source_cover") (bool o.source_cover) end))))

-- `OutputSpec(**value)`, where `is_m4b` is `path.lower().endswith(".m4b")`.
unfoldable pub output_from_row : (Text → Bool) → Value → Result OutputSpec
output_from_row is_m4b value = do
  path ← get (codes "path") value >>= as_text
  title ← default none (optional as_text) (codes "title") value
  author ← default none (optional as_text) (codes "author") value
  source_cover ← default true as_bool (codes "source_cover") value
  make_output is_m4b
      (record { path = path; title = title; author = author; source_cover = source_cover })

-- `_encode_spec`
unfoldable pub encode_spec : JobSpec → Value
unfolding casting_to_row tts_to_row output_to_row
encode_spec spec = object (
    field (codes "source_id") (text spec.source_id) (
      field (codes "chapters") (array (items (map text spec.chapters))) (
        field (codes "casting") (casting_to_row spec.casting) (
          field (codes "tts") (tts_to_row spec.tts)
            (field (codes "output") (output_to_row spec.output) end)))))

-- `_decode_spec`
unfoldable pub decode_spec : (Value → Text) → (Text → Bool) → Value → Result JobSpec
unfolding casting_from_row tts_from_row output_from_row
decode_spec str_of is_m4b value = do
  source_id ← get (codes "source_id") value >>= as_text
  listed ← get (codes "chapters") value >>= as_list
  chapters ← traverse as_text listed
  casting ← get (codes "casting") value >>= casting_from_row str_of
  tts ← get (codes "tts") value >>= tts_from_row
  output ← get (codes "output") value >>= output_from_row is_m4b
  make_spec (record {
    source_id = source_id;
    chapters = chapters;
    casting = casting;
    tts = tts;
    output = output;
  })

-- `_encode_progress`
unfoldable pub encode_progress : Progress → Value
encode_progress p = object (
    field (codes "stage") (text p.stage)
      (field (codes "completed") (int p.completed) (field (codes "total") (int p.total) end)))

-- `_decode_progress`
unfoldable pub decode_progress : Value → Result Progress
decode_progress value = do
  stage ← get (codes "stage") value >>= as_text
  completed ← get (codes "completed") value >>= as_int
  total ← get (codes "total") value >>= as_int
  make_progress stage completed total
