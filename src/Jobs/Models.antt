-- ===== src/Jobs/Models.antt =====
-- jobs/models.py: the values of a local audiobook job. An identifier that the server makes
-- (`str(uuid4())`) or that is only compared is a number; a text that a client writes is a `Text`.
use kenkui_server.Prelude.{
  ℕ, Text, Text-discrete, strip, codes, Option, Bool, true, false, List, [], ◌∷◌, ◌||◌, ◌≡◌, refl,
  ◌↔◌, ℕ_discrete,
}
use kenkui_server.Prelude.Int.{ℤ, pos, ltb_ℤ}
use kenkui_server.Prelude.Result.{
  Error, Result, ok, err, ◌>>=◌, ◌>>◌, raise_if, invalid_progress_stage, invalid_progress,
}

abbrev pub Identifier : Type 0
Identifier = ℕ

-- `_required`
unfoldable pub required : Text → Error → Result Text
unfolding strip
required value code = elim (strip value) [ [] ↦ err code | c ∷ rest ↦ ok (c ∷ rest) ]

pub record SingleVoiceCasting : Type 0 where
  pub voice_id : Text

pub record CharacterCasting : Type 0 where
  pub narrator_voice_id : Text
  pub unknown_voice_id : Text
  pub cast : List (Text × Text)
  pub method : Text
  pub model_id : Text

pub data Casting : Type 0 where
  single : SingleVoiceCasting → Casting
  characters : CharacterCasting → Casting

pub record TtsSettings : Type 0 where
  pub normalize_text : Bool
  pub chapter_pauses : Bool
  pub prepare_numbers : Bool
  pub pronunciation_corrections : Bool
  pub stutter_handling : Bool
  pub chapter_pause_ms : Option ℤ
  pub heading_before_pause_ms : ℤ
  pub heading_after_pause_ms : ℤ
  pub paragraph_pause_ms : ℤ
  pub line_pause_ms : ℤ
  pub scene_pause_ms : ℤ
  pub speak_chapter_titles : Bool
  pub chapter_title_pause_ms : ℤ
  pub chapter_title_overrides : List (Text × Option Text)

pub record OutputSpec : Type 0 where
  pub path : Text
  pub title : Option Text
  pub author : Option Text
  pub source_cover : Bool

pub record JobSpec : Type 0 where
  pub source_id : Text
  pub chapters : List Text
  pub casting : Casting
  pub tts : TtsSettings
  pub output : OutputSpec

pub ℤ-discrete : Discrete ℤ
ℤ-discrete = hlevel ℕ_discrete

pub JobSpec-discrete : Discrete JobSpec
JobSpec-discrete = hlevel (ℕ_discrete, ℤ-discrete, Text-discrete)

-- `a == b` of two specs.
unfoldable pub spec_eq : JobSpec → JobSpec → Bool
spec_eq a b = elim (JobSpec-discrete a b) [ yes _ ↦ true | no _ ↦ false ]

pub spec_eq_iff : (a b : JobSpec) → (spec_eq a b ≡ true) ↔ (a ≡ b)
unfolding spec_eq
spec_eq_iff a b =
    elim (JobSpec-discrete a b)
      as (λ d. ((elim d [ yes _ ↦ true | no _ ↦ false ]) ≡ true) ↔ (a ≡ b)) [
        | yes e ↦ (λ _. e, λ _. refl)
        | no n ↦ (λ h. cc, λ e. absurd (n e))
      ]

pub data JobStatus : Type 0 where
  queued running cancel_requested succeeded failed cancelled : JobStatus

abbrev pub is_terminal : JobStatus → Bool
is_terminal succeeded = true
is_terminal failed = true
is_terminal cancelled = true
is_terminal _ = false

pub record Progress : Type 0 where
  pub stage : Text
  pub completed : ℤ
  pub total : ℤ

-- `Progress(stage, completed, total)` with its `__post_init__`.
unfoldable pub make_progress : Text → ℤ → ℤ → Result Progress
unfolding required
make_progress stage completed total = do
  stage' ← required stage invalid_progress_stage
  raise_if (ltb_ℤ completed (pos 0) || ltb_ℤ total (pos 0) || ltb_ℤ total completed)
      invalid_progress
  ok (record { stage = stage'; completed = completed; total = total })

-- The progress of a new job.
unfoldable pub queued_progress : Progress
queued_progress = record { stage = codes "queued"; completed = pos 0; total = pos 0 }

-- A version is a number from 0 on, as `__post_init__` demands.
pub record Job : Type 0 where
  pub id : Identifier
  pub spec : JobSpec
  pub status : JobStatus
  pub version : ℕ
  pub progress : Progress

-- `Job(id, spec)` with the defaults of the other fields.
unfoldable pub new_job : Identifier → JobSpec → Job
new_job id spec = record {
  id = id;
  spec = spec;
  status = queued;
  version = 0;
  progress = queued_progress;
}

-- The event types that the program writes. They are texts in the source.
pub data EventType : Type 0 where
  running progress completed failed cancelled cancel_requested : EventType

pub record JobEvent : Type 0 where
  pub job_id : Identifier
  pub sequence : ℕ
  pub event_type : EventType
  pub progress : Progress

pub record Asset : Type 0 where
  pub id : Text
  pub path : Text
  pub sha256 : Text
  pub format : Text

pub record InspectedChapter : Type 0 where
  pub id : Text
  pub title : Text

pub record Inspection : Type 0 where
  pub source_id : Text
  pub title : Text
  pub author : Text
  pub chapters : List InspectedChapter

-- The dispatch states that the program writes. They are texts in the source.
pub data DispatchStatus : Type 0 where
  pending running done cancelled : DispatchStatus

pub record Dispatch : Type 0 where
  pub id : Identifier
  pub job_id : Identifier
  pub status : DispatchStatus
  pub version : ℕ

pub record Artifact : Type 0 where
  pub id : Identifier
  pub job_id : Identifier
  pub path : Text
  pub format : Text
