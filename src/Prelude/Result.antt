-- ===== src/Prelude/Result.antt =====
-- Exceptions as values, and actions on a mutable state.
use kenkui_server.Prelude.{Bool, true, false, List, [], ◌∷◌, ◌≡◌, refl}

-- `ValueError` with one of the program's codes, `StaleWriteError`, `KeyError`, `RuntimeError`,
-- `PermissionError`, and the errors that the database or the language raises.
pub data Error : Type 0 where
  stale_write key_error integrity_error type_error stop_iteration : Error
  invalid_voice_id invalid_model_id invalid_method invalid_character_id : Error
  invalid_chapter_title_override invalid_pause invalid_output_path : Error
  invalid_source_id invalid_chapter_id empty_chapter_selection duplicate_chapter_id : Error
  invalid_progress_stage invalid_progress invalid_transition : Error
  invalid_job_version invalid_dispatch_version immutable_job_spec : Error
  invalid_completion_artifact orphaned_idempotency_key idempotency_conflict : Error
  duplicate_event_sequence : Error
  invalid_credit_amount payment_reference_conflict authorization_conflict : Error
  insufficient_credits credit_lot_balance_mismatch invalid_final_authorization_status : Error
  job_not_terminal empty_speech invalid_character_count invalid_estimated_processing_cost : Error
  invalid_webhook_signature invalid_payment_event invalid_credit_pack : Error
  active_job_limit source_expired : Error
  mail_failed unknown_identity : Error

-- What a call gives: the exception that it raised, or the value that it returned.
pub data Result {ℓ} (A : Type ℓ) : Type ℓ where
  err : Error → Result A
  ok : A → Result A

infixl 5 ◌>>=◌ ◌>>◌
abbrev pub ◌>>=◌ {ℓ κ} : {A : Type ℓ} {B : Type κ} → Result A → (A → Result B) → Result B
err code >>= continue = err code
ok value >>= continue = continue value

abbrev pub ◌>>◌ {ℓ κ} : {A : Type ℓ} {B : Type κ} → Result A → Result B → Result B
first >> second = first >>= λ _. second

-- `if c: raise e`
abbrev pub raise_if : Bool → Error → Result (Unit {0})
raise_if true e = err e
raise_if false e = ok tt

-- `tuple(f(x) for x in xs)`, which stops at the first error.
abbrev pub traverse {ℓ κ} : {A : Type ℓ} {B : Type κ} → (A → Result B) → List A → Result (List B)
traverse f [] = ok []
traverse f (x ∷ xs) = f x >>= λ y. traverse f xs >>= λ ys. ok (y ∷ ys)

-- How a computation ended, with the equation that says so.
pub data Outcome {ℓ} {A : Type ℓ} (m : Result A) : Type ℓ where
  raised : (code : Error) → m ≡ err code → Outcome m
  returned : (value : A) → m ≡ ok value → Outcome m

pub outcome {ℓ} : {A : Type ℓ} (m : Result A) → Outcome m
outcome (err code) = raised code refl
outcome (ok value) = returned value refl
