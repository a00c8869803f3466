-- ===== src/Billing/Repository/Reservations.antt =====
-- billing/models.py: `reserve` of `InMemoryBillingRepository`.
use kenkui_server.Prelude.{
  ℕ, ◌+◌, ◌-◌, min, not, ◌&&◌, none, some, List, [], ◌∷◌, ◌++◌, ◌==◌, ltb, if◌then◌else◌, keep,
}
use kenkui_server.Prelude.Int.{sub_ℕ}
use kenkui_server.Prelude.Result.{
  key_error, invalid_credit_amount, authorization_conflict, insufficient_credits,
  credit_lot_balance_mismatch,
}
use kenkui_server.Prelude.Action.{Action, pure, ◌>>=◌, ◌>>◌, gets, raise_if, or_raise, modify_state}
use kenkui_server.Jobs.Models.{Identifier}
use kenkui_server.Billing.Models.{
  AuthorizationStatus, CreditAuthorization, EntryKind, for_job, LedgerEntry, CreditLot, available,
  is_purchase, Allocations, Billing, find_authorization, find_lot, lookup, put_account,
  put_authorization, put_lot, account, credit_lots,
}

-- `sorted(…, key=lambda lot: lot.kind == "purchase")`: a stable sort by a Boolean.
unfoldable pub by_purchase : List CreditLot → List CreditLot
by_purchase lots = keep (λ l. not (is_purchase l.kind)) lots ++ keep (λ l. is_purchase l.kind) lots

abbrev pub allot : Identifier → ℕ → Allocations → Allocations
allot id amount rest = if amount == 0 then rest else (id, amount) ∷ rest

-- The loop of `reserve`: what is left to allocate, and the allocations.
unfoldable pub allocate : ℕ → List CreditLot → ℕ × Allocations
allocate remaining [] = (remaining, [])
allocate remaining (lot ∷ lots) =
    let amount : ℕ = min remaining (available lot) in
    let rest = allocate (remaining - amount) lots in
    if remaining - amount == 0
    then (0, allot lot.id amount [])
    else (rest.0, allot lot.id amount rest.1)

-- `self._lots[lot_id] = replace(lot, reserved=lot.reserved + amount)`, for every allocation.
unfoldable pub hold_lots : Allocations → Action Billing (Unit {0})
hold_lots [] = pure tt
hold_lots ((lot_id, amount) ∷ rest) = do
  found ← gets (λ st. find_lot lot_id st.lots)
  lot ← or_raise found key_error
  modify_state
      (λ st. record st { lots = put_lot (record lot { reserved = lot.reserved + amount }) st.lots })
  hold_lots rest

-- `reserve` of a job that has an authorization.
unfoldable pub reserve_again : Identifier → Identifier → ℕ → Action Billing CreditAuthorization
reserve_again existing_id account_id credits = do
  found ← gets (λ st. find_authorization existing_id st.authorizations)
  existing ← or_raise found key_error
  raise_if (not (existing.account_id == account_id && existing.credits == credits))
      authorization_conflict
  pure existing

abbrev pub reservation_entry : ℕ → Identifier → CreditAuthorization → LedgerEntry
reservation_entry now entry_uuid authorization = record {
  id = entry_uuid;
  account_id = authorization.account_id;
  authorization_id = some authorization.id;
  kind = EntryKind.reservation;
  credits = sub_ℕ 0 authorization.credits;
  reference = for_job authorization.job_id;
  created_at = now;
}

unfoldable pub record_reservation :
    ℕ → Identifier → CreditAuthorization → ℕ → Allocations → Billing → Billing
record_reservation now entry_uuid authorization left allocations st = record st {
  allocations = (authorization.id, allocations) ∷ st.allocations;
  accounts =
      put_account (record { id = authorization.account_id; available_credits = left }) st.accounts;
  authorizations = put_authorization authorization st.authorizations;
  authorization_by_job = (authorization.job_id, authorization.id) ∷ st.authorization_by_job;
  entries = reservation_entry now entry_uuid authorization ∷ st.entries;
}

-- `reserve` of a job that has none.
unfoldable pub reserve_new :
    ℕ → Identifier → Identifier → Identifier → Identifier → ℕ → Action Billing CreditAuthorization
reserve_new now uuid entry_uuid job_id account_id credits st =
    let available_credits = (account account_id st).available_credits in
    let (remaining, allocations) = allocate credits (by_purchase (credit_lots account_id st)) in
    let authorization : CreditAuthorization = record {
      id = uuid;
      job_id = job_id;
      account_id = account_id;
      credits = credits;
      status = AuthorizationStatus.reserved;
    } in
    (raise_if (credits == 0) invalid_credit_amount
        >> raise_if (ltb available_credits credits) insufficient_credits
        >> raise_if (not (remaining == 0)) credit_lot_balance_mismatch
        >> hold_lots allocations
        >> modify_state (
            record_reservation now entry_uuid authorization (available_credits - credits)
              allocations)
        >> pure authorization)
      st

-- `reserve`
unfoldable pub reserve :
    ℕ → Identifier → Identifier → Identifier → Identifier → ℕ → Action Billing CreditAuthorization
reserve now uuid entry_uuid job_id account_id credits st =
    elim (lookup job_id st.authorization_by_job) [
      | some existing_id ↦ reserve_again existing_id account_id credits st
      | none ↦ reserve_new now uuid entry_uuid job_id account_id credits st
    ]
