-- ===== src/Hosted/Tables.antt =====
-- The billing tables of the hosted schema (migrations/postgresql), and the statements on them. A
-- statement that a key, a foreign key or a check of the schema refuses raises `integrity_error`.
-- Lots are in the order of their `sequence`; the rows of the other tables are newest first.
use kenkui_server.Prelude.{
  ℕ, ◌+◌, Bool, true, false, not, ◌&&◌, ◌||◌, Option, some, List, [], ◌∷◌, ◌++◌, Text, text_eq,
  ◌==◌, leb, exists, count, modify,
}
use kenkui_server.Prelude.Int.{ℤ}
use kenkui_server.Prelude.Result.{integrity_error}
use kenkui_server.Prelude.Transaction.{Transaction, pure, ◌>>=◌, ◌>>◌, gets, raise_if, execute}
use kenkui_server.Jobs.Models.{Identifier}
use kenkui_server.Billing.Models.{CreditAccount, CreditAuthorization, EntryKind, CreditLot}

-- The reference of a ledger entry: the text of a grant, or `f"{kind}:{job_id}"`, which no grant
-- uses.
pub data Reference : Type 0 where
  granted : Text → Reference
  of_job : EntryKind → Identifier → Reference

pub record Entry : Type 0 where
  pub id : Identifier
  pub account_id : Identifier
  pub authorization_id : Option Identifier
  pub kind : EntryKind
  pub credits : ℤ
  pub reference : Reference

-- A row of `credit_allocations`.
pub record Allocation : Type 0 where
  pub authorization_id : Identifier
  pub lot_id : Identifier
  pub account_id : Identifier
  pub credits : ℕ

pub record Books : Type 0 where
  pub accounts : List CreditAccount
  pub authorizations : List CreditAuthorization
  pub entries : List Entry
  pub lots : List CreditLot
  pub allocations : List Allocation
  pub payment_events : List (Text × Text)

abbrev pub kind_same : EntryKind → EntryKind → Bool
kind_same EntryKind.purchase EntryKind.purchase = true
kind_same EntryKind.reservation EntryKind.reservation = true
kind_same EntryKind.settlement EntryKind.settlement = true
kind_same EntryKind.release EntryKind.release = true
kind_same _ _ = false

abbrev pub reference_eq : Reference → Reference → Bool
reference_eq (granted s) (granted t) = text_eq s t
reference_eq (of_job k i) (of_job l j) = kind_same k l && i == j
reference_eq _ _ = false

abbrev pub same_id : Option Identifier → Option Identifier → Bool
same_id (some i) (some j) = i == j
same_id _ _ = false

-- `UPDATE credit_accounts SET available_credits = … WHERE …`: the rows that it matched.
unfoldable pub update_accounts : (CreditAccount → Bool) → (ℕ → ℕ) → Transaction Books ℕ
update_accounts p f st = pure (count p st.accounts) (record st {
  accounts = modify p (λ a. record a { available_credits = f a.available_credits }) st.accounts;
})

abbrev pub has_account : Identifier → Books → Bool
has_account id st = exists (λ a. a.id == id) st.accounts

-- `CHECK (reserved + consumed <= credited)`
abbrev pub fits : CreditLot → Bool
fits l = leb (l.reserved + l.consumed) l.credited

-- `UPDATE credit_lots SET … WHERE …`: the rows that it matched.
unfoldable pub update_lots : (CreditLot → Bool) → (CreditLot → CreditLot) → Transaction Books ℕ
update_lots p f = do
  lots ← gets (λ st. st.lots)
  raise_if (exists (λ l. p l && not (fits (f l))) lots) integrity_error
  execute (λ st. record st { lots = modify p f lots })
  pure (count p lots)

-- `INSERT INTO credit_lots`
unfoldable pub insert_lot : CreditLot → Transaction Books (Unit {0})
insert_lot lot st =
    (raise_if
          (exists (λ l. l.id == lot.id || text_eq l.reference lot.reference) st.lots
            || not (has_account lot.account_id st)
            || not (fits lot))
          integrity_error
        >> execute (λ st. record st { lots = st.lots ++ (lot ∷ []) }))
      st

-- `INSERT INTO credit_authorizations`, but for the foreign key of the job, which is deferred.
unfoldable pub insert_authorization : CreditAuthorization → Transaction Books (Unit {0})
insert_authorization a st =
    (raise_if
          (exists (λ o. o.id == a.id || o.job_id == a.job_id) st.authorizations
            || not (has_account a.account_id st)
            || a.credits == 0)
          integrity_error
        >> execute (λ st. record st { authorizations = a ∷ st.authorizations }))
      st

-- `INSERT INTO credit_allocations`
unfoldable pub insert_allocation : Allocation → Transaction Books (Unit {0})
insert_allocation a st =
    (raise_if
          (exists (λ o. o.authorization_id == a.authorization_id && o.lot_id == a.lot_id)
              st.allocations
            || a.credits == 0
            || not (
                exists (λ o. o.id == a.authorization_id && o.account_id == a.account_id)
                  st.authorizations)
            || not (exists (λ l. l.id == a.lot_id && l.account_id == a.account_id) st.lots))
          integrity_error
        >> execute (λ st. record st { allocations = a ∷ st.allocations }))
      st

-- `INSERT INTO credit_ledger_entries`
unfoldable pub insert_entry : Entry → Transaction Books (Unit {0})
insert_entry e st =
    (raise_if
          (exists
              (λ o.
                o.id == e.id
                || reference_eq o.reference e.reference
                || (same_id o.authorization_id e.authorization_id && kind_same o.kind e.kind))
              st.entries
            || not (has_account e.account_id st))
          integrity_error
        >> execute (λ st. record st { entries = e ∷ st.entries }))
      st
