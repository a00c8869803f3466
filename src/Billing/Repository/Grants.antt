-- ===== src/Billing/Repository/Grants.antt =====
-- billing/models.py: `_grant` and `process_payment_event` of `InMemoryBillingRepository`.
use kenkui_server.Prelude.{
  ℕ, ◌+◌, not, ◌&&◌, none, ◌∷◌, ◌++◌, Text, codes, text_eq, ◌==◌, if◌then◌else◌, find, exists,
}
use kenkui_server.Prelude.Int.{pos}
use kenkui_server.Prelude.Result.{stop_iteration, invalid_credit_amount, payment_reference_conflict}
use kenkui_server.Prelude.Action.{Action, pure, ◌>>=◌, ◌>>◌, gets, raise_if, or_raise, modify_state}
use kenkui_server.Jobs.Models.{Identifier}
use kenkui_server.Billing.Models.{
  CreditAccount, EntryKind, granted, LotKind, Billing, put_account, put_lot, account, kind_eq,
}

-- `_grant` under a reference that was used before.
unfoldable pub grant_again : Identifier → ℕ → Text → LotKind → Action Billing CreditAccount
grant_again account_id credits reference kind st =
    (or_raise (find (λ l. text_eq l.reference reference) st.lots) stop_iteration >>= λ lot.
    raise_if
      (not (lot.account_id == account_id && lot.credited == credits && kind_eq lot.kind kind))
      payment_reference_conflict
    >> gets (account account_id))
      st

unfoldable pub granted_account : Identifier → ℕ → Billing → CreditAccount
granted_account account_id credits st = record {
  id = account_id;
  available_credits = (account account_id st).available_credits + credits;
}

-- `_grant` under a new reference.
unfoldable pub grant_new :
    ℕ → Identifier → Identifier → Identifier → ℕ → Text → LotKind → Action Billing CreditAccount
grant_new now lot_uuid entry_uuid account_id credits reference kind = do
  updated ← gets (granted_account account_id credits)
  modify_state (λ st. record st {
    accounts = put_account updated st.accounts;
    references = reference ∷ st.references;
    lots =
        put_lot
          (record {
            id = lot_uuid;
            account_id = account_id;
            kind = kind;
            reference = reference;
            credited = credits;
            reserved = 0;
            consumed = 0;
            created_at = now;
          })
          st.lots;
    entries =
        record {
          id = entry_uuid;
          account_id = account_id;
          authorization_id = none;
          kind = EntryKind.purchase;
          credits = pos credits;
          reference = granted reference;
          created_at = now;
        }
        ∷ st.entries;
  })
  pure updated

-- `_grant`
unfoldable pub grant_as :
    ℕ → Identifier → Identifier → Identifier → ℕ → Text → LotKind → Action Billing CreditAccount
grant_as now lot_uuid entry_uuid account_id credits reference kind st =
    (raise_if (credits == 0) invalid_credit_amount
        >> (if exists (text_eq reference) st.references
            then grant_again account_id credits reference kind
            else grant_new now lot_uuid entry_uuid account_id credits reference kind))
      st

-- `f"{provider}:{provider_event_id}"`
abbrev pub event_reference : Text → Text → Text
event_reference provider provider_event_id = provider ++ (codes ":" ++ provider_event_id)

-- `process_payment_event`
unfoldable pub process_payment_event :
    ℕ → Identifier → Identifier → Text → Text → Identifier → ℕ → Action Billing CreditAccount
process_payment_event now lot_uuid entry_uuid provider provider_event_id account_id credits = do
  updated ←
      grant_as now lot_uuid entry_uuid account_id credits
        (event_reference provider provider_event_id) LotKind.purchase
  modify_state (λ st. record st {
    processed_payment_events = (provider, provider_event_id) ∷ st.processed_payment_events;
  })
  pure updated
