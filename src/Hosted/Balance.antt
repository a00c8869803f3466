-- ===== src/Hosted/Balance.antt =====
-- What the account of a buyer shows, and what the lots of the account have available.
pub mod Lots
pub mod Statements
pub mod Reservations
pub mod Grants
pub mod Finals
pub mod Calls
use kenkui_server.Prelude.{
  ℕ, ◌+◌, ◌≤◌, ◌≡◌, refl, Bool, true, false, not, ◌&&◌, List, ◌==◌, if◌then◌else◌, count, exists,
  sum_by, arith, ap, ◌∙◌, All, count-modify,
}
use kenkui_server.Jobs.Models.{Identifier}
use kenkui_server.Billing.Models.{CreditAccount, CreditAuthorization, CreditLot, available}
use kenkui_server.Hosted.Tables.{Books, fits}

-- What the account shows.
abbrev pub worth : Identifier → CreditAccount → ℕ
worth k a = if a.id == k then a.available_credits else 0

abbrev pub balance : Identifier → Books → ℕ
balance k st = sum_by (worth k) st.accounts

-- What the lots of the account have available.
abbrev pub content : Identifier → CreditLot → ℕ
content k l = if l.account_id == k then available l else 0

abbrev pub room : Identifier → Books → ℕ
room k st = sum_by (content k) st.lots

abbrev pub account_rows : Identifier → Books → ℕ
account_rows k st = count (λ a. a.id == k) st.accounts

abbrev pub lot_rows : Identifier → Books → ℕ
lot_rows k st = count (λ l. l.id == k) st.lots

-- The check of the schema on every lot.
abbrev pub IsSized : Books → Type 0
IsSized st = exists (λ l. not (fits l)) st.lots ≡ false

-- Every account shows what its lots have available; ids are unique, and an authorization has an
-- account.
pub record IsBacked (st : Books) : Type 0 where
  pub backed : (k : Identifier) → balance k st ≡ room k st
  pub accounts : (k : Identifier) → account_rows k st ≤ 1
  pub lots : (k : Identifier) → lot_rows k st ≤ 1
  pub sized : IsSized st
  pub owned : All (λ a. account_rows a.account_id st ≡ 1) st.authorizations

-- The tables but for the lots and their allocations.
pub record SameOthers (before after : Books) : Type 0 where
  pub accounts : after.accounts ≡ before.accounts
  pub authorizations : after.authorizations ≡ before.authorizations

pub same_others : {st : Books} → SameOthers st st
same_others = record { accounts = refl; authorizations = refl }

pub SameOthers-trans : {a b c : Books} → SameOthers a b → SameOthers b c → SameOthers a c
SameOthers-trans h k = record {
  accounts = k.accounts ∙ h.accounts;
  authorizations = k.authorizations ∙ h.authorizations;
}

-- A part of an amount that belongs to an account.
abbrev pub share : Identifier → Identifier → ℕ → ℕ
share account_id k n = if account_id == k then n else 0
