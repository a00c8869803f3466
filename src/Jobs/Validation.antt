-- ===== src/Jobs/Validation.antt =====
-- jobs/models.py: the `__post_init__` of castings, outputs and specs, as functions that take the
-- arguments of the constructor and return the normalized value or raise.
use kenkui_server.Prelude.{
  map, ◌∙◌, ◌≡◌, ◌≢◌, inl, inr, Bool, false, not, ◌&&◌, ◌||◌, List, [], ◌∷◌, Text, strip, arith,
  text_eq, text_eq_iff, text_lt, if◌then◌else◌, length, All, exists, Bool-cases, subst, sym,
}
use kenkui_server.Prelude.Result.{
  Error, Result, ok, err, ◌>>=◌, ◌>>◌, raise_if, traverse, outcome, raised, returned,
  invalid_voice_id, invalid_model_id, invalid_method, invalid_character_id, invalid_output_path,
  invalid_source_id, invalid_chapter_id, empty_chapter_selection, duplicate_chapter_id,
}
use kenkui_server.Jobs.Models.{required, SingleVoiceCasting, CharacterCasting, OutputSpec, JobSpec}

-- `SingleVoiceCasting.__post_init__`
unfoldable pub make_single_voice : Text → Result SingleVoiceCasting
make_single_voice voice_id =
    required voice_id invalid_voice_id >>= λ v. ok (record { voice_id = v })

-- `(character, voice) < (character', voice')`
abbrev pub member_lt : Text × Text → Text × Text → Bool
member_lt a b = text_lt a.0 b.0 || (text_eq a.0 b.0 && text_lt a.1 b.1)

-- `sorted` of the members of a cast.
unfoldable pub insert_member : Text × Text → List (Text × Text) → List (Text × Text)
insert_member m [] = m ∷ []
insert_member m (x ∷ xs) =
    let rest = insert_member m xs in if member_lt x m then x ∷ rest else m ∷ x ∷ xs

unfoldable pub sorted_cast : List (Text × Text) → List (Text × Text)
unfolding insert_member
sorted_cast [] = []
sorted_cast (m ∷ ms) = insert_member m (sorted_cast ms)

unfoldable pub make_member : Text × Text → Result (Text × Text)
make_member (character, voice) = do
  c ← required character invalid_character_id
  v ← required voice invalid_voice_id
  ok (c, v)

-- `value.strip() or fallback`
abbrev pub or_else : Text → Text → Text
or_else [] fallback = fallback
or_else (c ∷ rest) fallback = c ∷ rest

-- `CharacterCasting.__post_init__`
unfoldable pub make_character_casting : CharacterCasting → Result CharacterCasting
make_character_casting c = do
  narrator ← required c.narrator_voice_id invalid_voice_id
  model_id ← required c.model_id invalid_model_id
  method ← required c.method invalid_method
  members ← traverse make_member c.cast
  ok (record {
    narrator_voice_id = narrator;
    unknown_voice_id = or_else (strip c.unknown_voice_id) narrator;
    cast = sorted_cast members;
    method = method;
    model_id = model_id;
  })

-- `OutputSpec.__post_init__`, where `is_m4b` is `path.lower().endswith(".m4b")`.
unfoldable pub make_output : (Text → Bool) → OutputSpec → Result OutputSpec
make_output is_m4b output = do
  path ← required output.path invalid_output_path
  raise_if (not (is_m4b path)) invalid_output_path
  ok (record output { path = path })

-- `len(chapter_ids) != len(set(chapter_ids))`
unfoldable pub has_duplicate : List Text → Bool
has_duplicate [] = false
has_duplicate (c ∷ cs) = exists (text_eq c) cs || has_duplicate cs

-- The chapters that `JobSpec.__post_init__` accepts.
unfoldable pub make_chapters : List Text → Result (List Text)
make_chapters chapters = traverse (λ c. required c invalid_chapter_id) chapters >>= λ ids.
    elim ids [
      | [] ↦ err empty_chapter_selection
      | c ∷ cs ↦ if has_duplicate (c ∷ cs) then err duplicate_chapter_id else ok (c ∷ cs)
    ]

-- `JobSpec.__post_init__`
unfoldable pub make_spec : JobSpec → Result JobSpec
unfolding make_chapters
make_spec spec = do
  source_id ← required spec.source_id invalid_source_id
  chapters ← make_chapters spec.chapters
  ok (record spec { source_id = source_id; chapters = chapters })

abbrev pub IsDistinct : List Text → Type 0
IsDistinct [] = Unit {0}
IsDistinct (c ∷ cs) = All (λ d. c ≢ d) cs × IsDistinct cs

-- What a job renders.
pub record IsSelection (spec made : JobSpec) : Type 0 where
  pub source : made.source_id ≡ strip spec.source_id
  pub named : made.source_id ≢ []
  pub chapters : made.chapters ≡ map strip spec.chapters
  pub filled : All (λ c. c ≢ []) made.chapters
  pub chosen : made.chapters ≢ []
  pub distinct : IsDistinct made.chapters
  pub complete : length made.chapters ≡ length spec.chapters
  pub casting : made.casting ≡ spec.casting
  pub tts : made.tts ≡ spec.tts
  pub output : made.output ≡ spec.output

none_equal : (c : Text) (cs : List Text) → exists (text_eq c) cs ≡ false → All (λ d. c ≢ d) cs
none_equal c [] h = tt
none_equal c (d ∷ ds) h =
    ((λ e. ground (arith, (text_eq_iff c d).1 e)), none_equal c ds (ground arith))

has_duplicate-IsDistinct : (cs : List Text) → has_duplicate cs ≡ false → IsDistinct cs
unfolding has_duplicate
has_duplicate-IsDistinct [] h = tt
has_duplicate-IsDistinct (c ∷ cs) h =
    (none_equal c cs (ground arith), has_duplicate-IsDistinct cs (ground arith))

-- `_required` takes the blanks off and refuses what is left empty.
required-strip :
    (value made : Text) (code : Error)
    → required value code ≡ ok made
    → (made ≡ strip value) × (made ≢ [])
unfolding required
required-strip value made code h = (ground arith, λ e. ground arith)

traverse-required :
    (code : Error) (xs ys : List Text)
    → traverse (λ c. required c code) xs ≡ ok ys
    → (ys ≡ map strip xs) × All (λ c. c ≢ []) ys
traverse-required code [] ys h =
    let end : [] ≡ ys = ground arith in (sym end, subst (All (λ c. c ≢ [])) end tt)
traverse-required code (x ∷ xs) ys h = elim (outcome (required x code)) [
  | raised c e ↦ absurd (ground arith)
  | returned y e ↦ elim (outcome (traverse (λ c. required c code) xs)) [
    | raised c e' ↦ absurd (ground arith)
    | returned zs e' ↦
        let (one, some_text) = required-strip x y code e in
        let (rest, filled) = traverse-required code xs zs e' in
        let end : y ∷ zs ≡ ys = ground arith in
        (sym end ∙ cc, subst (All (λ c. c ≢ [])) end (some_text, filled))
  ]
]

length-traverse :
    (f : Text → Result Text) (xs ys : List Text) → traverse f xs ≡ ok ys → length ys ≡ length xs
length-traverse f [] ys h = ground arith
length-traverse f (x ∷ xs) ys h = elim (outcome (f x)) [
  | raised code e ↦ absurd (ground arith)
  | returned y e ↦ elim (outcome (traverse f xs)) [
    | raised code e' ↦ absurd (ground arith)
    | returned zs e' ↦ ground (arith, length-traverse f xs zs e')
  ]
]

-- A spec that is accepted has the source and the chapters that were asked for, in that order, each
-- without the blanks around it and none of them empty; it selects at least one chapter and no chapter
-- twice; its casting, settings and output are those that were given.
pub make_spec-IsSelection : (spec made : JobSpec) → make_spec spec ≡ ok made → IsSelection spec made
unfolding make_spec make_chapters
make_spec-IsSelection spec made h = elim (outcome (required spec.source_id invalid_source_id)) [
  | raised code e ↦ absurd (ground arith)
  | returned source e ↦
      elim (outcome (traverse (λ c. required c invalid_chapter_id) spec.chapters)) [
        | raised code e' ↦ absurd (ground arith)
        | returned [] e' ↦ absurd (ground arith)
        | returned (c ∷ cs) e' ↦ elim (Bool-cases (has_duplicate (c ∷ cs))) [
          | inl twice ↦ absurd (ground arith)
          | inr once ↦
              let ids : made.chapters ≡ c ∷ cs = ground arith in
              let (source_made, source_named) =
                required-strip spec.source_id source invalid_source_id e in
              let (each, filled) = traverse-required invalid_chapter_id spec.chapters (c ∷ cs) e' in
              let origin : made.source_id ≡ source = ground arith in
              record {
                source = origin ∙ source_made;
                named = subst (λ (t : Text). t ≢ []) (sym origin) source_named;
                chapters = ids ∙ each;
                filled = subst (All (λ t. t ≢ [])) (sym ids) filled;
                chosen = λ n. ground arith;
                distinct = subst IsDistinct (sym ids) (has_duplicate-IsDistinct (c ∷ cs) once);
                complete = ground (arith, length-traverse _ spec.chapters (c ∷ cs) e');
                casting = ground arith;
                tts = ground arith;
                output = ground arith;
              }
        ]
      ]
]
