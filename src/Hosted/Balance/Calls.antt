-- ===== src/Hosted/Balance/Calls.antt =====
-- The hosted billing repository under any sequence of its calls.
use kenkui_server.Prelude.{
  ℕ, ◌≡◌, ◌==◌, arith, Bool-cases, inl, inr, Text, subst, Option-cases, exists, text_eq, ◌&&◌,
}
use kenkui_server.Prelude.Result.{ok}
use kenkui_server.Billing.Models.{CreditAccount, CreditAuthorization, AuthorizationStatus, LotKind}
use kenkui_server.Billing.Repository.{event_reference}
use kenkui_server.Hosted.Tables.{Books}
use kenkui_server.Hosted.Billing.{
  grant, record_payment_event, process_payment_event, reserve, reserve_again, find_for_job,
  finalize,
}
use kenkui_server.Hosted.Balance.{IsBacked}
use kenkui_server.Hosted.Balance.Reservations.{hold-IsBacked}
use kenkui_server.Hosted.Balance.Grants.{grant_as-IsBacked}
use kenkui_server.Hosted.Balance.Finals.{finalize-IsBacked}

-- One call of the repository that was committed.
pub data Call (st after : Books) : Type 0 where
  grants :
      (now lot_uuid entry_uuid account_id credits : ℕ) (reference : Text) (a : CreditAccount)
      → grant now lot_uuid entry_uuid account_id credits reference st ≡ ok (a, after)
      → Call st after
  pays :
      (now lot_uuid entry_uuid : ℕ) (provider event : Text) (account_id credits : ℕ)
      (a : CreditAccount)
      → process_payment_event now lot_uuid entry_uuid provider event account_id credits st
        ≡ ok (a, after)
      → Call st after
  reserves :
      (uuid entry_uuid job_id account_id credits : ℕ) (a : CreditAuthorization)
      → reserve uuid entry_uuid job_id account_id credits st ≡ ok (a, after)
      → Call st after
  finalizes :
      (entry_uuid job_id : ℕ) (status : AuthorizationStatus) (a : CreditAuthorization)
      → finalize entry_uuid job_id status st ≡ ok (a, after)
      → Call st after

pub data Calls (st : Books) : Books → Type 0 where
  none_made : Calls st st
  made : {middle after : Books} → Calls st middle → Call middle after → Calls st after

record_payment_event-IsBacked :
    (provider event : Text) (st : Books)
    → IsBacked st
    → IsBacked (record_payment_event provider event st)
unfolding record_payment_event
record_payment_event-IsBacked provider event st b =
    elim (Bool-cases (exists (λ e. text_eq e.0 provider && text_eq e.1 event) st.payment_events)) [
      | inl seen ↦ rw seen b
      | inr new ↦ rw new (record {
        backed = b.backed;
        accounts = b.accounts;
        lots = b.lots;
        sized = b.sized;
        owned = b.owned;
      })
    ]

pub record_payment_event-authorizations :
    (provider event : Text) (st : Books)
    → (record_payment_event provider event st).authorizations ≡ st.authorizations
unfolding record_payment_event
record_payment_event-authorizations provider event st = ground arith

reserve-IsBacked :
    (uuid entry_uuid job_id account_id credits : ℕ) (st after : Books) (a : CreditAuthorization)
    → IsBacked st
    → reserve uuid entry_uuid job_id account_id credits st ≡ ok (a, after)
    → IsBacked after
unfolding reserve reserve_again
reserve-IsBacked uuid entry_uuid job_id account_id credits st after a b h =
    elim (Bool-cases (credits == 0)) [
      | inl zero ↦ absurd (ground (arith, h, zero))
      | inr some_credits ↦ elim (Option-cases (find_for_job job_id st)) [
        | inl fresh ↦
            hold-IsBacked uuid entry_uuid job_id account_id credits st after a b
              (ground (arith, h, some_credits, fresh))
        | inr (x, found) ↦
            let same : st ≡ after = ground (arith, h, some_credits, found) in subst IsBacked same b
      ]
    ]

pub Call-IsBacked : (st after : Books) → IsBacked st → Call st after → IsBacked after
unfolding grant process_payment_event
Call-IsBacked st after b (grants now l e k n reference a h) =
    grant_as-IsBacked now l e k n reference LotKind.grant st after a b (ground (arith, h))
Call-IsBacked st after b (pays now l e provider event k n a h) =
    grant_as-IsBacked now l e k n (event_reference provider event) LotKind.purchase
      (record_payment_event provider event st) after a
      (record_payment_event-IsBacked provider event st b) (ground (arith, h))
Call-IsBacked st after b (reserves u e j k n a h) = reserve-IsBacked u e j k n st after a b h
Call-IsBacked st after b (finalizes e j status a h) = finalize-IsBacked e j status st after a b h

-- Whatever grants, payments, reservations and final calls are committed, in any order and with any
-- repetitions, the credits that an account shows are exactly what its lots have available; no lot
-- has more reserved and consumed than was credited; ids of accounts and lots stay unique, and every
-- authorization has an account.
pub Calls-IsBacked : (st after : Books) → IsBacked st → Calls st after → IsBacked after
Calls-IsBacked st after b none_made = b
Calls-IsBacked st after b (made {middle} cs c) =
    Call-IsBacked middle after (Calls-IsBacked st middle b cs) c
