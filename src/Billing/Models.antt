-- ===== src/Billing/Models.antt =====
-- billing/models.py: `InMemoryBillingRepository`. A method that raises keeps what it wrote before.
-- Amounts are numbers from 0 on, so that `credits < 1` is `credits == 0`. `now` is what
-- `datetime.now(UTC)` returns, and the arguments that end in `_uuid` are the new `uuid4`s.
use kenkui_server.Prelude.{
  ℕ, ◌-◌, Bool, true, false, not, Option, none, some, List, [], ◌∷◌, ◌++◌, Text, ◌==◌,
  if◌then◌else◌, find, keep, modify, is_some,
}
use kenkui_server.Prelude.Int.{ℤ}
use kenkui_server.Jobs.Models.{Identifier}

pub data AuthorizationStatus : Type 0 where
  reserved settled released : AuthorizationStatus

pub record CreditAccount : Type 0 where
  pub id : Identifier
  pub available_credits : ℕ

pub record CreditAuthorization : Type 0 where
  pub id : Identifier
  pub job_id : Identifier
  pub account_id : Identifier
  pub credits : ℕ
  pub status : AuthorizationStatus

-- The kinds of ledger entries. They are texts in the source.
pub data EntryKind : Type 0 where
  purchase reservation settlement release : EntryKind

-- The reference of an entry: that of a grant, or a job's id.
pub data Reference : Type 0 where
  granted : Text → Reference
  for_job : Identifier → Reference

pub record LedgerEntry : Type 0 where
  pub id : Identifier
  pub account_id : Identifier
  pub authorization_id : Option Identifier
  pub kind : EntryKind
  pub credits : ℤ
  pub reference : Reference
  pub created_at : ℕ

-- The kinds of lots. They are texts in the source.
pub data LotKind : Type 0 where
  grant purchase legacy : LotKind

pub record CreditLot : Type 0 where
  pub id : Identifier
  pub account_id : Identifier
  pub kind : LotKind
  pub reference : Text
  pub credited : ℕ
  pub reserved : ℕ
  pub consumed : ℕ
  pub created_at : ℕ

-- `CreditLot.available`. The subtractions do not stop at 0 where `reserved + consumed` is at most
-- `credited`.
abbrev pub available : CreditLot → ℕ
available lot = lot.credited - lot.reserved - lot.consumed

abbrev pub is_purchase : LotKind → Bool
is_purchase LotKind.purchase = true
is_purchase _ = false

pub data UsageStatus : Type 0 where
  manual_review not_purchased used reserved unused : UsageStatus

-- `CreditLot.usage_status`
unfoldable pub usage_status : CreditLot → UsageStatus
usage_status lot = elim lot.kind [
  | LotKind.legacy ↦ UsageStatus.manual_review
  | LotKind.grant ↦ UsageStatus.not_purchased
  | LotKind.purchase ↦
      if not (lot.consumed == 0)
      then UsageStatus.used
      else if not (lot.reserved == 0)
      then UsageStatus.reserved
      else UsageStatus.unused
]

-- What a reservation takes from each lot: a lot id and an amount.
abbrev pub Allocations : Type 0
Allocations = List (Identifier × ℕ)

-- The dictionaries of the repository as lists of their values or of their items, in the order of
-- insertion; entries are newest first.
pub record Billing : Type 0 where
  pub accounts : List CreditAccount
  pub authorizations : List CreditAuthorization
  pub authorization_by_job : List (Identifier × Identifier)
  pub entries : List LedgerEntry
  pub references : List Text
  pub processed_payment_events : List (Text × Text)
  pub lots : List CreditLot
  pub allocations : List (Identifier × Allocations)

abbrev pub empty : Billing
empty = record {
  accounts = [];
  authorizations = [];
  authorization_by_job = [];
  entries = [];
  references = [];
  processed_payment_events = [];
  lots = [];
  allocations = [];
}

unfoldable pub find_authorization :
    Identifier → List CreditAuthorization → Option CreditAuthorization
find_authorization id = find (λ a. a.id == id)

unfoldable pub find_lot : Identifier → List CreditLot → Option CreditLot
find_lot id = find (λ l. l.id == id)

-- `dict.get` on a dictionary of ids.
unfoldable pub lookup {ℓ} : {A : Type ℓ} → Identifier → List (Identifier × A) → Option A
lookup key [] = none
lookup key (item ∷ items) =
    let rest = lookup key items in if item.0 == key then some item.1 else rest

-- `self._accounts[account.id] = account`
unfoldable pub put_account : CreditAccount → List CreditAccount → List CreditAccount
put_account account accounts = account ∷ keep (λ a. not (a.id == account.id)) accounts

-- `self._authorizations[authorization.id] = authorization`
unfoldable pub put_authorization :
    CreditAuthorization → List CreditAuthorization → List CreditAuthorization
put_authorization authorization authorizations =
    authorization ∷ keep (λ a. not (a.id == authorization.id)) authorizations

-- `self._lots[lot.id] = lot`, which keeps the place of a key.
unfoldable pub put_lot : CreditLot → List CreditLot → List CreditLot
unfolding find_lot
put_lot lot lots =
    if is_some (find_lot lot.id lots)
    then modify (λ l. l.id == lot.id) (λ _. lot) lots
    else lots ++ (lot ∷ [])

-- `account`
unfoldable pub account : Identifier → Billing → CreditAccount
account account_id st = elim (find (λ a. a.id == account_id) st.accounts) [
  | none ↦ record { id = account_id; available_credits = 0 }
  | some a ↦ a
]

-- `credit_lots`
unfoldable pub credit_lots : Identifier → Billing → List CreditLot
credit_lots account_id st = keep (λ l. l.account_id == account_id) st.lots

abbrev pub kind_eq : LotKind → LotKind → Bool
kind_eq LotKind.grant LotKind.grant = true
kind_eq LotKind.purchase LotKind.purchase = true
kind_eq LotKind.legacy LotKind.legacy = true
kind_eq _ _ = false

-- `ledger_for_authorization`, newest first.
unfoldable pub ledger_for_authorization : Identifier → List LedgerEntry → List LedgerEntry
ledger_for_authorization id =
    keep (λ e. elim e.authorization_id [ none ↦ false | some a ↦ a == id ])
