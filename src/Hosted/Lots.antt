-- ===== src/Hosted/Lots.antt =====
-- storage/credit_lots.py: `PostgresCreditLots`, inside the transaction of its caller. Its error
-- rolls the caller's writes back.
use kenkui_server.Prelude.{
  ℕ, ◌+◌, ◌-◌, min, Bool, not, ◌&&◌, List, [], ◌∷◌, Text, ◌==◌, ltb, leb, if◌then◌else◌, keep,
  sum_by,
}
use kenkui_server.Prelude.Result.{credit_lot_balance_mismatch}
use kenkui_server.Prelude.Transaction.{Transaction, pure, raise, ◌>>=◌, ◌>>◌, gets, raise_if}
use kenkui_server.Jobs.Models.{Identifier}
use kenkui_server.Billing.Models.{AuthorizationStatus, LotKind, CreditLot, available}
use kenkui_server.Billing.Repository.{by_purchase, is_settled}
use kenkui_server.Hosted.Tables.{Allocation, Books, update_lots, insert_lot, insert_allocation}

-- `list`
unfoldable pub list_lots : Identifier → Books → List CreditLot
list_lots account_id st = keep (λ l. l.account_id == account_id) st.lots

-- `grant`
unfoldable pub grant_lot :
    ℕ → Identifier → Identifier → ℕ → Text → LotKind → Transaction Books (Unit {0})
grant_lot now uuid account_id credits reference kind = insert_lot (record {
  id = uuid;
  account_id = account_id;
  kind = kind;
  reference = reference;
  credited = credits;
  reserved = 0;
  consumed = 0;
  created_at = now;
})

-- The rows that `reserve` selects, in their order.
unfoldable pub open_lots : Identifier → Books → List CreditLot
open_lots account_id st =
    by_purchase
      (keep (λ l. l.account_id == account_id && ltb (l.reserved + l.consumed) l.credited) st.lots)

-- The writes for one row.
unfoldable pub take : Identifier → Identifier → Identifier → ℕ → Transaction Books (Unit {0})
take authorization_id account_id lot_id amount = do
  update_lots (λ l. l.id == lot_id) (λ l. record l { reserved = l.reserved + amount })
  insert_allocation (record {
    authorization_id = authorization_id;
    lot_id = lot_id;
    account_id = account_id;
    credits = amount;
  })

-- The loop of `reserve`.
unfoldable pub take_all :
    Identifier → Identifier → ℕ → List CreditLot → Transaction Books (Unit {0})
take_all authorization_id account_id remaining [] = raise credit_lot_balance_mismatch
take_all authorization_id account_id remaining (row ∷ rows) =
    let amount : ℕ = min remaining (available row) in
    let rest = take_all authorization_id account_id (remaining - amount) rows in
    take authorization_id account_id row.id amount
    >> (if remaining - amount == 0 then pure tt else rest)

-- `reserve`
unfoldable pub reserve_lots : Identifier → Identifier → ℕ → Transaction Books (Unit {0})
reserve_lots authorization_id account_id credits = do
  rows ← gets (open_lots account_id)
  take_all authorization_id account_id credits rows

-- The rows that `finalize` selects.
unfoldable pub allocations_of : Identifier → Identifier → Books → List Allocation
allocations_of authorization_id account_id st =
    keep (λ a. a.authorization_id == authorization_id && a.account_id == account_id) st.allocations

-- The rows of the `UPDATE` of `finalize`.
abbrev pub is_holder : Identifier → Allocation → CreditLot → Bool
is_holder account_id row l =
    l.id == row.lot_id && l.account_id == account_id && leb row.credits l.reserved

-- What the `UPDATE` leaves of a lot: `reserved` is at least the amount.
abbrev pub spent : AuthorizationStatus → ℕ → CreditLot → CreditLot
spent status amount l = record l {
  reserved = l.reserved - amount;
  consumed = l.consumed + (if is_settled status then amount else 0);
}

-- The loop of `finalize`.
unfoldable pub free_all :
    AuthorizationStatus → Identifier → List Allocation → Transaction Books (Unit {0})
free_all status account_id [] = pure tt
free_all status account_id (row ∷ rows) = do
  updated ← update_lots (is_holder account_id row) (spent status row.credits)
  raise_if (not (updated == 1)) credit_lot_balance_mismatch
  free_all status account_id rows

-- `finalize`
unfoldable pub finalize_lots :
    Identifier → Identifier → ℕ → AuthorizationStatus → Transaction Books (Unit {0})
finalize_lots authorization_id account_id credits status = do
  rows ← gets (allocations_of authorization_id account_id)
  raise_if (not (sum_by (λ a. a.credits) rows == credits)) credit_lot_balance_mismatch
  free_all status account_id rows
