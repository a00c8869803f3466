-- ===== src/Storage/Codec/Roundtrip.antt =====
-- What is written to a JSON column is read back.
use kenkui_server.Prelude.{◌≡◌, refl, Bool, Option, none, some, List, [], ◌∷◌, map, Text, ap}
use kenkui_server.Prelude.Int.{ℤ}
use kenkui_server.Prelude.Result.{Result, ok, traverse}
use kenkui_server.Jobs.Models.{
  Casting, single, characters, TtsSettings, OutputSpec, JobSpec, Progress, make_progress,
}
use kenkui_server.Jobs.Settings.{make_tts}
use kenkui_server.Jobs.Validation.{
  make_single_voice, make_character_casting, make_output, make_spec,
}
use kenkui_server.Storage.Codec.{
  Value, text, array, item, nil, items, elements, as_text, as_int, int, optional, maybe, pair,
  string_pair, casting_to_row, casting_from_row, tts_to_row, tts_from_row, output_to_row,
  output_from_row, encode_spec, decode_spec, encode_progress, decode_progress,
}

elements_items : (vs : List Value) → elements (items vs) ≡ vs
elements_items [] = refl
elements_items (v ∷ vs) = ap (λ xs. v ∷ xs) (elements_items vs)

-- A list of values, each of which is read back.
traverse-map {ℓ} :
    {A : Type ℓ} (f : Value → Result A) (g : A → Value)
    → ((a : A) → f (g a) ≡ ok a)
    → (xs : List A) → traverse f (map g xs) ≡ ok xs
traverse-map f g back [] = refl
traverse-map f g back (x ∷ xs) = rw (back x, traverse-map f g back xs) refl

read_maybe_text : (o : Option Text) → optional as_text (maybe text o) ≡ ok o
read_maybe_text none = refl
read_maybe_text (some s) = refl

-- A casting that validation leaves as it is.
abbrev pub IsNormalCasting : Casting → Type 0
IsNormalCasting (single c) = make_single_voice c.voice_id ≡ ok c
IsNormalCasting (characters c) = make_character_casting c ≡ ok c

module _ (str_of : Value → Text) where
  pub casting_from_row-casting_to_row :
      (c : Casting) → IsNormalCasting c → casting_from_row str_of (casting_to_row c) ≡ ok c
  unfolding casting_from_row casting_to_row
  casting_from_row-casting_to_row (single c) n = rw n refl
  casting_from_row-casting_to_row (characters c) n =
      rw
        (
          elements_items (map (λ m. array (item (text m.0) (item (text m.1) nil))) c.cast),
          traverse-map (string_pair str_of) (λ m. array (item (text m.0) (item (text m.1) nil)))
              (λ m. refl) c.cast,
          n,
        )
        refl

read_maybe_int : (o : Option ℤ) → optional as_int (maybe int o) ≡ ok o
read_maybe_int none = refl
read_maybe_int (some n) = refl

abbrev override_to_row : Text × Option Text → Value
override_to_row o = array (item (text o.0) (item (maybe text o.1) nil))

read_override : (o : Text × Option Text) → pair (optional as_text) (override_to_row o) ≡ ok o
read_override (key, none) = refl
read_override (key, some value) = refl

pub tts_from_row-tts_to_row :
    (s : TtsSettings) → make_tts s ≡ ok s → tts_from_row (tts_to_row s) ≡ ok s
unfolding tts_from_row tts_to_row
tts_from_row-tts_to_row s n =
    rw
      (
        read_maybe_int s.chapter_pause_ms,
        elements_items (map override_to_row s.chapter_title_overrides),
        traverse-map (pair (optional as_text)) override_to_row read_override
            s.chapter_title_overrides,
      )
      n

pub output_from_row-output_to_row :
    (is_m4b : Text → Bool) (o : OutputSpec)
    → make_output is_m4b o ≡ ok o
    → output_from_row is_m4b (output_to_row o) ≡ ok o
unfolding output_from_row output_to_row
output_from_row-output_to_row is_m4b o n = rw (read_maybe_text o.title, read_maybe_text o.author) n

-- A spec that validation leaves as it is, in all its parts.
pub record IsNormal (is_m4b : Text → Bool) (spec : JobSpec) : Type 0 where
  pub casting : IsNormalCasting spec.casting
  pub tts : make_tts spec.tts ≡ ok spec.tts
  pub output : make_output is_m4b spec.output ≡ ok spec.output
  pub whole : make_spec spec ≡ ok spec

-- A spec that is normal, as every constructed one that validation leaves as it is, is read back from
-- its column exactly: both kinds of casting, every setting and every chapter.
pub decode_spec-encode_spec :
    (str_of : Value → Text) (is_m4b : Text → Bool) (spec : JobSpec)
    → IsNormal is_m4b spec
    → decode_spec str_of is_m4b (encode_spec spec) ≡ ok spec
unfolding decode_spec encode_spec
decode_spec-encode_spec str_of is_m4b spec n =
    rw
      (
        elements_items (map text spec.chapters),
        traverse-map as_text text (λ s. refl) spec.chapters,
        casting_from_row-casting_to_row str_of spec.casting n.casting,
        tts_from_row-tts_to_row spec.tts n.tts,
        output_from_row-output_to_row is_m4b spec.output n.output,
      )
      n.whole

-- A progress that was constructed is read back.
pub decode_progress-encode_progress :
    (p : Progress)
    → make_progress p.stage p.completed p.total ≡ ok p
    → decode_progress (encode_progress p) ≡ ok p
unfolding decode_progress encode_progress
decode_progress-encode_progress p n = n
