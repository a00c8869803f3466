-- ===== src/Billing/Tests.antt =====
-- Runs of the credit repository, and each theorem at an input that meets its hypotheses.
use kenkui_server.Prelude.{◌≡◌, refl, codes, some, [], ◌∷◌, true, false, List}
use kenkui_server.Prelude.Int.{pos}
use kenkui_server.Prelude.Result.{ok, err, authorization_conflict}
use kenkui_server.Jobs.Models.{JobStatus}
use kenkui_server.Billing.Models.{
  AuthorizationStatus, CreditAuthorization, CreditLot, LotKind, Billing, empty, find_authorization,
  find_lot, lookup, put_account, put_authorization, put_lot, account, credit_lots,
}
use kenkui_server.Billing.Repository.{
  grant_as, grant_new, granted_account, reserve, reserve_new, by_purchase, allocate, hold_lots,
  record_reservation, finalize, authorization_for_job, finalize_reserved, free_lots, record_final,
  process_payment_event,
}
use kenkui_server.Billing.Allocation.{IsDrawn, allocate-IsDrawn}
use kenkui_server.Billing.Ledger.{
  IsBalanced, Calls, none_made, made, grants, reserves, finalizes, empty-IsBalanced,
  Calls-IsBalanced,
}
use kenkui_server.Billing.Finality.{finalize-finalize, reserve-reserve}
use kenkui_server.Billing.Pricing.{credits_for_characters, IsQuote, credits_for_characters-IsQuote}
use kenkui_server.Billing.Service.{on_terminal, IsConcluded, on_terminal-IsConcluded}
use kenkui_server.Billing.Stripe.{
  EventName, Signature, is_signed, Session, PaymentEvent, handle, payment_of, purchase_of,
  purchase_for, agrees, catalog_of, price_of,
}
use kenkui_server.Billing.Stripe.Payments.{Handled, handle-Handled}

abbrev funded : Billing
funded = (grant_as 1 21 31 7 500 (codes "welcome") LotKind.grant empty).1

abbrev booked_state : Billing
booked_state = (reserve 2 41 32 3 7 200 funded).1

abbrev booking : CreditAuthorization
booking = record {
  id = 41;
  job_id = 3;
  account_id = 7;
  credits = 200;
  status = AuthorizationStatus.reserved;
}

abbrev returned_state : Billing
returned_state = (finalize 3 33 3 AuthorizationStatus.released booked_state).1

abbrev returned_booking : CreditAuthorization
returned_booking = record booking { status = AuthorizationStatus.released }

booked_run : reserve 2 41 32 3 7 200 funded ≡ (ok booking, booked_state)
unfolding grant_as grant_new granted_account account put_account put_lot find_lot reserve lookup
    reserve_new by_purchase credit_lots allocate hold_lots record_reservation put_authorization
booked_run = refl

returned_run :
    finalize 3 33 3 AuthorizationStatus.released booked_state
    ≡ (ok returned_booking, returned_state)
unfolding grant_as grant_new granted_account account put_account put_lot find_lot reserve lookup
    reserve_new by_purchase credit_lots allocate hold_lots record_reservation put_authorization
    finalize authorization_for_job finalize_reserved free_lots record_final find_authorization
returned_run = refl

-- The credits are back.
returned_balance : (account 7 returned_state).available_credits ≡ 500
unfolding grant_as grant_new granted_account account put_account put_lot find_lot reserve lookup
    reserve_new by_purchase credit_lots allocate hold_lots record_reservation put_authorization
    finalize authorization_for_job finalize_reserved free_lots record_final find_authorization
returned_balance = refl

abbrev poor_state : Billing
poor_state = (reserve 2 42 34 4 7 900 funded).1

-- The first reservation asks for more than there is, and raises.
four-Calls : Calls empty returned_state
unfolding grant_as grant_new granted_account account put_account put_lot find_lot reserve lookup
    reserve_new by_purchase credit_lots allocate hold_lots record_reservation put_authorization
    finalize authorization_for_job finalize_reserved free_lots record_final find_authorization
four-Calls =
    made
      (made {middle = poor_state}
        (made {middle = funded}
          (made none_made (grants 1 21 31 7 500 (codes "welcome") LotKind.grant refl))
          (reserves 2 42 34 4 7 900 refl refl))
        (reserves 2 41 32 3 7 200 refl refl))
      (finalizes 3 33 3 AuthorizationStatus.released refl)

Calls-IsBalanced_example : IsBalanced returned_state
Calls-IsBalanced_example = Calls-IsBalanced empty returned_state empty-IsBalanced four-Calls

finalize-finalize_example :
    finalize 4 34 3 AuthorizationStatus.settled returned_state
    ≡ (ok returned_booking, returned_state)
finalize-finalize_example =
    finalize-finalize 3 33 3 AuthorizationStatus.released booked_state returned_booking
      returned_state returned_run 4 34 AuthorizationStatus.settled refl

reserve-reserve_example :
    reserve 5 42 35 3 7 300 booked_state ≡ (err authorization_conflict, booked_state)
reserve-reserve_example =
    reserve-reserve 2 41 32 3 7 200 funded booking booked_state booked_run 5 42 35 7 300

abbrev two_lots : List CreditLot
two_lots =
    record {
      id = 1;
      account_id = 7;
      kind = LotKind.purchase;
      reference = codes "stripe:cs_1";
      credited = 500;
      reserved = 0;
      consumed = 100;
      created_at = 0;
    }
    ∷ record {
      id = 2;
      account_id = 7;
      kind = LotKind.grant;
      reference = codes "welcome";
      credited = 100;
      reserved = 20;
      consumed = 0;
      created_at = 1;
    }
    ∷ []

-- The grant is drawn on before the purchase that is older.
two_lots_run : allocate 200 (by_purchase two_lots) ≡ (0, (2, 80) ∷ (1, 120) ∷ [])
unfolding allocate by_purchase
two_lots_run = refl

allocate-IsDrawn_example : IsDrawn 200 two_lots
allocate-IsDrawn_example = allocate-IsDrawn 200 two_lots

credits_for_characters-IsQuote_example : IsQuote (pos 126) (pos 1189736) false 300
unfolding credits_for_characters
credits_for_characters-IsQuote_example =
    credits_for_characters-IsQuote (pos 126) (pos 1189736) false 300 refl

on_terminal-IsConcluded_example :
    IsConcluded 3 JobStatus.failed booking returned_booking booked_state returned_state
unfolding on_terminal authorization_for_job find_authorization lookup reserve reserve_new allocate
    by_purchase hold_lots record_reservation credit_lots grant_as grant_new granted_account account
    put_account put_lot put_authorization find_lot
on_terminal-IsConcluded_example =
    on_terminal-IsConcluded 3 33 3 JobStatus.failed booked_state booking returned_booking
      returned_state refl returned_run

abbrev paid_session : Session
paid_session = record {
  purpose = some (codes "kenkui_credits_v2");
  is_paid = true;
  account_id = some 7;
  credits = some (pos 1100);
  session_id = some (codes "cs_1");
  client_reference_id = some 7;
  is_payment_mode = true;
  is_usd = true;
  amount_subtotal = some (pos 1000);
  tax = some (pos 80);
  amount_discount = some (pos 0);
  amount_shipping = some (pos 0);
  amount_total = some (pos 1080);
}

abbrev pack : PaymentEvent
pack = record { id = codes "cs_1"; account_id = 7; credits = 1100 }

abbrev header : Signature
header = record { timestamps = codes "900" ∷ []; digests = codes "old" ∷ codes "mac" ∷ [] }

handle-Handled_example :
    Handled
      (is_signed (λ _. some (pos 900)) (λ _. codes "mac") 1000 header)
      EventName.session_completed
      paid_session
      empty
      (handle
        (is_signed (λ _. some (pos 900)) (λ _. codes "mac") 1000 header)
        EventName.session_completed
        paid_session
        10
        51
        52
        empty).1
      (handle
        (is_signed (λ _. some (pos 900)) (λ _. codes "mac") 1000 header)
        EventName.session_completed
        paid_session
        10
        51
        52
        empty).0
handle-Handled_example =
    handle-Handled (λ _. some (pos 900)) (λ _. codes "mac") 1000 header EventName.session_completed
      paid_session 10 51 52 empty

-- The session above is a purchase of the pack.
paid_run :
    (handle
      (is_signed (λ _. some (pos 900)) (λ _. codes "mac") 1000 header)
      EventName.session_completed
      paid_session
      10
      51
      52
      empty).0
    ≡ ok (some pack)
unfolding handle payment_of purchase_of purchase_for agrees catalog_of price_of
    process_payment_event grant_as grant_new is_signed
paid_run = refl
