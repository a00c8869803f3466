-- ===== src/Billing/Pricing.antt =====
-- billing/pricing.py. Unicode normalization and the environment are parameters; a character count
-- is an integer.
use kenkui_server.Prelude.{
  ℕ, ◌+◌, ◌*◌, ◌/◌, ◌≤◌, ◌<◌, ◌≡◌, Bool, true, false, [], ◌∷◌, Text, is_space, strip, arith,
  if◌then◌else◌, length,
}
use kenkui_server.Prelude.Int.{ℤ, pos, ltb_ℤ, pos_part}
use kenkui_server.Prelude.Result.{
  Result, ok, ◌>>◌, raise_if, invalid_character_count, invalid_estimated_processing_cost,
}

-- `re.sub(r"\s+", " ", text)`: every run of spaces becomes one blank.
unfoldable pub collapse : Bool → Text → Text
collapse in_run [] = []
collapse in_run (c ∷ rest) =
    let inside = collapse true rest in
    let outside = collapse false rest in
    if is_space c then (if in_run then inside else 32 ∷ inside) else c ∷ outside

-- `normalized_speech_characters`, where `nfc` is `unicodedata.normalize("NFC", …)`.
unfoldable pub normalized_speech_characters : (Text → Text) → Text → ℕ
unfolding collapse
normalized_speech_characters nfc text = length (strip (collapse false (nfc text)))

abbrev pub factor : Bool → ℕ
factor multivoice = if multivoice then 3 else 2

-- The quote for a valid count and cost, in millionths rounded up.
abbrev pub quote : ℕ → ℕ → Bool → ℕ
quote count cost multivoice = (count * cost * factor multivoice + 999999) / 1000000

-- `credits_for_characters`, where `cost` is the integer that the environment configures.
unfoldable pub credits_for_characters : ℤ → ℤ → Bool → Result ℕ
credits_for_characters cost character_count multivoice = do
  raise_if (ltb_ℤ character_count (pos 0)) invalid_character_count
  raise_if (ltb_ℤ cost (pos 1)) invalid_estimated_processing_cost
  ok (quote (pos_part character_count) (pos_part cost) multivoice)

-- `credits_for_text`
unfoldable pub credits_for_text : (Text → Text) → ℤ → Text → Result ℕ
unfolding normalized_speech_characters
credits_for_text nfc cost text =
    credits_for_characters cost (pos (normalized_speech_characters nfc text)) false

-- What a quote promises: it covers the cost, and by less than one credit more.
pub record IsQuote (cost count : ℤ) (multivoice : Bool) (credits : ℕ) : Type 0 where
  pub counted : pos_part count * pos_part cost * factor multivoice ≤ credits * 1000000
  pub tight : credits * 1000000 < pos_part count * pos_part cost * factor multivoice + 1000000
  pub valid : count ≡ pos (pos_part count)
  pub priced : 1 ≤ pos_part cost

rounds_up : (n : ℕ) → n ≤ (n + 999999) / 1000000 * 1000000
rounds_up n = omega arith

rounds_tight : (n : ℕ) → (n + 999999) / 1000000 * 1000000 < n + 1000000
rounds_tight n = omega arith

-- A quote is the least number of credits that covers the estimated cost at the markup of the job's
-- kind, and it is only given for a count from 0 on and a cost of at least 1.
pub credits_for_characters-IsQuote :
    (cost count : ℤ) (multivoice : Bool) (credits : ℕ)
    → credits_for_characters cost count multivoice ≡ ok credits
    → IsQuote cost count multivoice credits
unfolding credits_for_characters
credits_for_characters-IsQuote cost count multivoice credits h =
    let paid : credits ≡ quote (pos_part count) (pos_part cost) multivoice = ground arith in
    let n = pos_part count * pos_part cost * factor multivoice in
    record {
      counted = rw paid (rounds_up n);
      tight = rw paid (rounds_tight n);
      valid = ground arith;
      priced = ground arith;
    }
