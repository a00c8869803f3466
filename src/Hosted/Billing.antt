-- ===== src/Hosted/Billing.antt =====
-- storage/postgres.py: `PostgresBillingRepository`. A lock (`FOR UPDATE`) has no effect on the
-- state; it orders the transactions. `uuid`s and `now` are arguments.
use kenkui_server.Prelude.{
  ℕ, ◌+◌, ◌-◌, Bool, false, not, ◌&&◌, Option, none, some, List, ◌∷◌, Text, ◌==◌, leb, text_eq,
  find, keep, exists, if◌then◌else◌, count, modify,
}
use kenkui_server.Prelude.Int.{ℤ, pos, negsuc, sub_ℕ}
use kenkui_server.Prelude.Result.{
  key_error, stale_write, invalid_credit_amount, payment_reference_conflict, authorization_conflict,
  insufficient_credits, invalid_final_authorization_status,
}
use kenkui_server.Prelude.Transaction.{
  Transaction, pure, raise, ◌>>=◌, ◌>>◌, gets, raise_if, or_raise, execute,
}
use kenkui_server.Jobs.Models.{Identifier}
use kenkui_server.Billing.Models.{
  AuthorizationStatus, CreditAccount, CreditAuthorization, EntryKind, LotKind, CreditLot,
}
use kenkui_server.Billing.Repository.{event_reference, is_settled, is_reserved, final_kind, refund}
use kenkui_server.Hosted.Tables.{
  Reference, granted, of_job, Entry, Books, same_id, reference_eq, update_accounts,
  insert_authorization, insert_entry,
}
use kenkui_server.Hosted.Lots.{grant_lot, reserve_lots, finalize_lots, list_lots}

-- `SELECT … WHERE job_id = %s`
unfoldable pub find_for_job : Identifier → Books → Option CreditAuthorization
find_for_job job_id st = find (λ a. a.job_id == job_id) st.authorizations

-- `account`
unfoldable pub account : Identifier → Transaction Books CreditAccount
account account_id st = or_raise (find (λ a. a.id == account_id) st.accounts) key_error st

-- `credit_lots`
unfoldable pub credit_lots : Identifier → Books → List CreditLot
credit_lots account_id = list_lots account_id

abbrev pub is_amount : ℕ → ℤ → Bool
is_amount credits (pos n) = n == credits
is_amount credits (negsuc n) = false

-- `_grant` under a reference that the ledger has.
unfoldable pub grant_again : Identifier → ℕ → Reference → Transaction Books CreditAccount
unfolding account
grant_again account_id credits reference = do
  row ← gets (λ st. find (λ e. reference_eq e.reference reference) st.entries)
  existing ← or_raise row payment_reference_conflict
  raise_if (not (existing.account_id == account_id && is_amount credits existing.credits))
      payment_reference_conflict
  account account_id

unfoldable pub grant_new :
    ℕ → Identifier → Identifier → Identifier → ℕ → Text → LotKind → Transaction Books CreditAccount
unfolding account
grant_new now lot_uuid entry_uuid account_id credits reference kind = do
  insert_entry (record {
    id = entry_uuid;
    account_id = account_id;
    authorization_id = none;
    kind = EntryKind.purchase;
    credits = pos credits;
    reference = granted reference;
  })
  grant_lot now lot_uuid account_id credits reference kind
  update_accounts (λ a. a.id == account_id) (λ n. n + credits)
  account account_id

-- `_grant`
unfoldable pub grant_as :
    ℕ → Identifier → Identifier → Identifier → ℕ → Text → LotKind → Transaction Books CreditAccount
grant_as now lot_uuid entry_uuid account_id credits reference kind st =
    if exists (λ e. reference_eq e.reference (granted reference)) st.entries
    then grant_again account_id credits (granted reference) st
    else grant_new now lot_uuid entry_uuid account_id credits reference kind st

-- `grant`
unfoldable pub grant :
    ℕ → Identifier → Identifier → Identifier → ℕ → Text → Transaction Books CreditAccount
grant now lot_uuid entry_uuid account_id credits reference = do
  raise_if (credits == 0) invalid_credit_amount
  grant_as now lot_uuid entry_uuid account_id credits reference LotKind.grant

-- `INSERT INTO payment_events … ON CONFLICT DO NOTHING`
unfoldable pub record_payment_event : Text → Text → Books → Books
record_payment_event provider event st =
    if exists (λ e. text_eq e.0 provider && text_eq e.1 event) st.payment_events
    then st
    else record st { payment_events = (provider, event) ∷ st.payment_events }

-- `process_payment_event`
unfoldable pub process_payment_event :
    ℕ → Identifier → Identifier → Text → Text → Identifier → ℕ → Transaction Books CreditAccount
process_payment_event now lot_uuid entry_uuid provider provider_event_id account_id credits = do
  raise_if (credits == 0) invalid_credit_amount
  execute (record_payment_event provider provider_event_id)
  grant_as now lot_uuid entry_uuid account_id credits (event_reference provider provider_event_id)
      LotKind.purchase

-- The writes that reserve credits for a job, which `reserve` and the hosted admission share.
unfoldable pub hold :
    Identifier → Identifier → Identifier → Identifier → ℕ → Transaction Books CreditAuthorization
hold uuid entry_uuid job_id account_id credits = do
  debited ←
      update_accounts (λ a. a.id == account_id && leb credits a.available_credits)
        (λ n. n - credits)
  raise_if (debited == 0) insufficient_credits
  let authorization : CreditAuthorization = record {
    id = uuid;
    job_id = job_id;
    account_id = account_id;
    credits = credits;
    status = AuthorizationStatus.reserved;
  }
  insert_authorization authorization
  reserve_lots uuid account_id credits
  insert_entry (record {
    id = entry_uuid;
    account_id = account_id;
    authorization_id = some uuid;
    kind = EntryKind.reservation;
    credits = sub_ℕ 0 credits;
    reference = of_job EntryKind.reservation job_id;
  })
  pure authorization

-- `reserve` of a job that has an authorization.
unfoldable pub reserve_again :
    CreditAuthorization → Identifier → ℕ → Transaction Books CreditAuthorization
reserve_again existing account_id credits = do
  raise_if (not (existing.account_id == account_id && existing.credits == credits))
      authorization_conflict
  pure existing

-- `reserve`, but for the foreign key of the job, which is checked at the commit.
unfoldable pub reserve :
    Identifier → Identifier → Identifier → Identifier → ℕ → Transaction Books CreditAuthorization
reserve uuid entry_uuid job_id account_id credits st =
    if credits == 0 then raise invalid_credit_amount st else elim (find_for_job job_id st) [
      | some existing ↦ reserve_again existing account_id credits st
      | none ↦ hold uuid entry_uuid job_id account_id credits st
    ]

-- `authorization_for_job`
unfoldable pub authorization_for_job : Identifier → Transaction Books CreditAuthorization
authorization_for_job job_id st = or_raise (find_for_job job_id st) key_error st

-- The row that `UPDATE credit_authorizations` sets.
abbrev pub is_open_row : Identifier → CreditAuthorization → Bool
is_open_row id a = a.id == id && is_reserved a.status

unfoldable pub close : Identifier → AuthorizationStatus → Transaction Books (Unit {0})
close id status = do
  rows ← gets (λ st. count (is_open_row id) st.authorizations)
  raise_if (not (rows == 1)) stale_write
  execute (λ st. record st {
    authorizations = modify (is_open_row id) (λ a. record a { status = status }) st.authorizations;
  })

-- The credits of a released authorization go back to the account.
unfoldable pub pay_back : AuthorizationStatus → CreditAuthorization → Transaction Books (Unit {0})
pay_back status authorization =
    if is_settled status
    then pure tt
    else update_accounts (λ a. a.id == authorization.account_id) (λ n. n + authorization.credits)
      >> pure tt

-- `finalize` of an authorization that is reserved.
unfoldable pub finalize_open :
    Identifier
    → Identifier
    → AuthorizationStatus
    → CreditAuthorization
    → Transaction Books CreditAuthorization
finalize_open entry_uuid job_id status authorization = do
  finalize_lots authorization.id authorization.account_id authorization.credits status
  close authorization.id status
  pay_back status authorization
  insert_entry (record {
    id = entry_uuid;
    account_id = authorization.account_id;
    authorization_id = some authorization.id;
    kind = final_kind status;
    credits = pos (refund status authorization.credits);
    reference = of_job (final_kind status) job_id;
  })
  pure (record authorization { status = status })

-- `finalize`
unfoldable pub finalize :
    Identifier → Identifier → AuthorizationStatus → Transaction Books CreditAuthorization
finalize entry_uuid job_id status = do
  raise_if (is_reserved status) invalid_final_authorization_status
  authorization ← authorization_for_job job_id
  if is_reserved authorization.status
      then finalize_open entry_uuid job_id status authorization
      else pure authorization

-- `ledger_for_authorization`, newest first.
unfoldable pub ledger_for_authorization : Identifier → Books → List Entry
ledger_for_authorization id st = keep (λ e. same_id e.authorization_id (some id)) st.entries
