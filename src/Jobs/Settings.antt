-- ===== src/Jobs/Settings.antt =====
-- jobs/models.py: `TtsSettings.__post_init__`. The fields that must be Booleans are Booleans here,
-- and every pause that is refused raises `invalid_pause`, where the source names the field.
use kenkui_server.Prelude.{
  Bool, true, false, not, ◌&&◌, Option, none, some, List, [], ◌∷◌, Text, strip, leb, text_eq,
  text_lt, if◌then◌else◌, length, every,
}
use kenkui_server.Prelude.Int.{ℤ, pos, negsuc}
use kenkui_server.Prelude.Result.{
  Result, ok, err, ◌>>=◌, ◌>>◌, raise_if, type_error, invalid_chapter_title_override, invalid_pause,
}
use kenkui_server.Jobs.Models.{TtsSettings}

abbrev pub Override : Type 0
Override = Text × Option Text

-- `value < value'`, where `none` stands for `None`: only two texts can be compared.
abbrev pub value_lt : Option Text → Option Text → Result Bool
value_lt (some v) (some w) = ok (text_lt v w)
value_lt _ _ = err type_error

abbrev pub same_value : Option Text → Option Text → Bool
same_value none none = true
same_value (some v) (some w) = text_eq v w
same_value _ _ = false

-- `(key, value) < (key', value')`: tuples are compared at the first place where they differ.
abbrev pub override_lt : Override → Override → Result Bool
override_lt a b =
    if text_eq a.0 b.0
    then (if same_value a.1 b.1 then ok false else value_lt a.1 b.1)
    else ok (text_lt a.0 b.0)

-- `sorted` of the overrides.
unfoldable pub insert_override : Override → List Override → Result (List Override)
insert_override o [] = ok (o ∷ [])
insert_override o (x ∷ xs) =
    let rest = insert_override o xs in
    override_lt x o >>= λ before. if before then (rest >>= λ ys. ok (x ∷ ys)) else ok (o ∷ x ∷ xs)

unfoldable pub sorted_overrides : List Override → Result (List Override)
unfolding insert_override
sorted_overrides [] = ok []
sorted_overrides (o ∷ os) = sorted_overrides os >>= λ rest. insert_override o rest

abbrev is_blank : Text → Bool
is_blank s = elim (strip s) [ [] ↦ true | c ∷ rest ↦ false ]

-- The test on one override.
unfoldable pub is_override : Override → Bool
is_override (key, none) = not (is_blank key)
is_override (key, some value) = not (is_blank key) && not (is_blank value) && leb (length value) 500

-- `0 <= value <= 60_000`
abbrev pub is_pause : ℤ → Bool
is_pause (pos n) = leb n 60000
is_pause (negsuc n) = false

abbrev pub is_optional_pause : Option ℤ → Bool
is_optional_pause none = true
is_optional_pause (some value) = is_pause value

unfoldable pub has_pauses : TtsSettings → Bool
has_pauses s =
    is_optional_pause s.chapter_pause_ms
    && is_pause s.heading_before_pause_ms
    && is_pause s.heading_after_pause_ms
    && is_pause s.paragraph_pause_ms
    && is_pause s.line_pause_ms
    && is_pause s.scene_pause_ms
    && is_pause s.chapter_title_pause_ms

-- `TtsSettings.__post_init__`
unfoldable pub make_tts : TtsSettings → Result TtsSettings
make_tts s = do
  overrides ← sorted_overrides s.chapter_title_overrides
  raise_if (not (every is_override overrides)) invalid_chapter_title_override
  raise_if (not (has_pauses s)) invalid_pause
  ok (record s { chapter_title_overrides = overrides })
