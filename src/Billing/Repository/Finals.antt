-- ===== src/Billing/Repository/Finals.antt =====
-- billing/models.py: `finalize` of `InMemoryBillingRepository`.
use kenkui_server.Prelude.{ℕ, ◌+◌, ◌-◌, Bool, true, false, some, [], ◌∷◌, if◌then◌else◌}
use kenkui_server.Prelude.Int.{pos}
use kenkui_server.Prelude.Result.{key_error, invalid_final_authorization_status}
use kenkui_server.Prelude.Action.{Action, pure, ◌>>=◌, ◌>>◌, gets, raise_if, or_raise, modify_state}
use kenkui_server.Jobs.Models.{Identifier}
use kenkui_server.Billing.Models.{
  AuthorizationStatus, CreditAuthorization, EntryKind, for_job, LedgerEntry, Allocations, Billing,
  find_authorization, find_lot, lookup, put_account, put_authorization, put_lot, account,
}

-- `authorization_for_job`
unfoldable pub authorization_for_job : Identifier → Action Billing CreditAuthorization
authorization_for_job job_id = do
  id ← gets (λ st. lookup job_id st.authorization_by_job)
  found ← or_raise id key_error
  authorization ← gets (λ st. find_authorization found st.authorizations)
  or_raise authorization key_error

abbrev pub is_settled : AuthorizationStatus → Bool
is_settled AuthorizationStatus.settled = true
is_settled _ = false

abbrev pub is_reserved : AuthorizationStatus → Bool
is_reserved AuthorizationStatus.reserved = true
is_reserved _ = false

-- The update of every allocated lot in `finalize`. `reserved - amount` does not stop at 0 while a
-- lot has reserved at least what is allocated from it.
unfoldable pub free_lots : AuthorizationStatus → Allocations → Action Billing (Unit {0})
free_lots status [] = pure tt
free_lots status ((lot_id, amount) ∷ rest) = do
  found ← gets (λ st. find_lot lot_id st.lots)
  lot ← or_raise found key_error
  modify_state (λ st. record st {
    lots =
        put_lot
          (record lot {
            reserved = lot.reserved - amount;
            consumed = lot.consumed + (if is_settled status then amount else 0);
          })
          st.lots;
  })
  free_lots status rest

abbrev pub final_kind : AuthorizationStatus → EntryKind
final_kind status = if is_settled status then EntryKind.settlement else EntryKind.release

-- The credits that go back to the account.
abbrev pub refund : AuthorizationStatus → ℕ → ℕ
refund status credits = if is_settled status then 0 else credits

abbrev pub final_entry :
    ℕ → Identifier → Identifier → AuthorizationStatus → CreditAuthorization → LedgerEntry
final_entry now entry_uuid job_id status authorization = record {
  id = entry_uuid;
  account_id = authorization.account_id;
  authorization_id = some authorization.id;
  kind = final_kind status;
  credits = pos (refund status authorization.credits);
  reference = for_job job_id;
  created_at = now;
}

-- The account and the ledger at the end of `finalize`.
unfoldable pub record_final :
    ℕ → Identifier → Identifier → AuthorizationStatus → CreditAuthorization → Billing → Billing
record_final now entry_uuid job_id status authorization st = record st {
  accounts =
      if is_settled status
      then st.accounts
      else put_account
          (record {
            id = authorization.account_id;
            available_credits =
                (account authorization.account_id st).available_credits + authorization.credits;
          })
          st.accounts;
  entries = final_entry now entry_uuid job_id status authorization ∷ st.entries;
}

-- `finalize` of an authorization that is reserved.
unfoldable pub finalize_reserved :
    ℕ
    → Identifier
    → Identifier
    → AuthorizationStatus
    → CreditAuthorization
    → Action Billing CreditAuthorization
finalize_reserved now entry_uuid job_id status authorization = do
  let finalized : CreditAuthorization = record authorization { status = status }
  modify_state (λ st. record st { authorizations = put_authorization finalized st.authorizations })
  allocations ← gets (λ st. lookup authorization.id st.allocations)
  allocated ← or_raise allocations key_error
  free_lots status allocated
  modify_state (record_final now entry_uuid job_id status authorization)
  pure finalized

-- `finalize`
unfoldable pub finalize :
    ℕ → Identifier → Identifier → AuthorizationStatus → Action Billing CreditAuthorization
finalize now entry_uuid job_id status = do
  raise_if (is_reserved status) invalid_final_authorization_status
  authorization ← authorization_for_job job_id
  if is_reserved authorization.status
      then finalize_reserved now entry_uuid job_id status authorization
      else pure authorization
