-- ===== src/Billing/Stripe/Payments.antt =====
-- What one webhook call leaves of the books.
use kenkui_server.Prelude.{
  ℕ, ◌≡◌, refl, Bool, true, false, Option, none, some, Text, codes, arith, sym, subst, Bool-cases,
  inl, inr,
}
use kenkui_server.Prelude.Int.{ℤ}
use kenkui_server.Prelude.Result.{
  Error, Result, ok, err, outcome, raised, returned, invalid_webhook_signature,
}
use kenkui_server.Billing.Models.{Billing, CreditAccount}
use kenkui_server.Billing.Repository.{event_reference, process_payment_event}
use kenkui_server.Billing.Books.Grants.{
  Credits, process_payment_event_refused, process_payment_event-Credits,
}
use kenkui_server.Billing.Stripe.{
  EventName, Signature, is_signed, is_purchase_event, Session, PaymentEvent, payment_of, handle,
  IsPaidFor, payment_of-IsPaidFor, payment_of_purchase,
}

-- The answer of a call, and the books after it: a call that raises or that reports no purchase
-- changes nothing, and one that reports a purchase credits its account once.
pub data Handled (signed : Bool) (name : EventName) (session : Session) (st after : Billing)
    : Result (Option PaymentEvent) → Type 0 where
  refused : (code : Error) → after ≡ st → Handled signed name session st after (err code)
  no_purchase : after ≡ st → Handled signed name session st after (ok none)
  purchase :
      (p : PaymentEvent)
      → signed ≡ true
      → is_purchase_event name ≡ true
      → IsPaidFor session p
      → Credits (event_reference (codes "stripe") p.id) p.account_id p.credits st after
      → Handled signed name session st after (ok (some p))

module _ (name : EventName) (session : Session) (at lot_uuid entry_uuid : ℕ) (st : Billing) where
  unsigned-Handled :
      Handled false name session st
        (handle false name session at lot_uuid entry_uuid st).1
        (handle false name session at lot_uuid entry_uuid st).0
  unfolding handle
  unsigned-Handled = refused invalid_webhook_signature refl

  -- The call for a session with a payment is the payment event.
  paid_call :
      (p : PaymentEvent)
      → payment_of name session ≡ ok (some p)
      → (answer : Result CreditAccount) (after : Billing)
      → process_payment_event at lot_uuid entry_uuid (codes "stripe") p.id p.account_id p.credits st
        ≡ (answer, after)
      → handle true name session at lot_uuid entry_uuid st
        ≡ (elim answer [ ok a ↦ ok (some p) | err code ↦ err code ], after)
  unfolding handle
  paid_call p e (ok a) after x = ground (arith, e, x)
  paid_call p e (err code) after x = ground (arith, e, x)

  paid-Handled :
      (p : PaymentEvent)
      → payment_of name session ≡ ok (some p)
      → (answer : Result CreditAccount) (after : Billing)
      → process_payment_event at lot_uuid entry_uuid (codes "stripe") p.id p.account_id p.credits st
        ≡ (answer, after)
      → Handled true name session st after
          (elim answer [ ok a ↦ ok (some p) | err code ↦ err code ])
  paid-Handled p e (err code) after x = refused code (
      process_payment_event_refused at lot_uuid entry_uuid (codes "stripe") p.id p.account_id
        p.credits st after code x)
  paid-Handled p e (ok a) after x =
      purchase p refl (payment_of_purchase name session p e) (payment_of-IsPaidFor name session p e)
        (process_payment_event-Credits at lot_uuid entry_uuid (codes "stripe") p.id p.account_id
          p.credits st after a x)

  signed-Handled :
      Handled true name session st
        (handle true name session at lot_uuid entry_uuid st).1
        (handle true name session at lot_uuid entry_uuid st).0
  unfolding handle
  signed-Handled = elim (outcome (payment_of name session)) [
    | raised code e ↦ rw e (refused code refl)
    | returned none e ↦ rw e (no_purchase refl)
    | returned (some p) e ↦
        let r =
          process_payment_event at lot_uuid entry_uuid (codes "stripe") p.id p.account_id p.credits
            st in
        subst (λ x. Handled true name session st x.1 x.0) (sym (paid_call p e r.0 r.1 refl))
          (paid-Handled p e r.0 r.1 refl)
  ]

-- Every webhook call, whatever its payload and signature. One that raises, or that reports no
-- purchase, leaves the books as they were. One that reports a purchase was signed recently, for an
-- event of a paid checkout; the session is a paid session in dollars for a pack of a known catalog,
-- and the subtotal is the pack's price; and the buyer that the session names, and no other account,
-- gets exactly the credits of the pack, unless the same checkout was credited before: then no
-- account changes.
pub handle-Handled :
    (int_of : Text → Option ℤ) (digest_of : Text → Text) (now : ℕ) (signature : Signature)
    (name : EventName) (session : Session) (at lot_uuid entry_uuid : ℕ) (st : Billing)
    → Handled
        (is_signed int_of digest_of now signature)
        name
        session
        st
        (handle (is_signed int_of digest_of now signature) name session at lot_uuid entry_uuid st).1
        (handle (is_signed int_of digest_of now signature) name session at lot_uuid entry_uuid st).0
handle-Handled int_of digest_of now signature name session at lot_uuid entry_uuid st =
    elim (Bool-cases (is_signed int_of digest_of now signature)) [
      | inl fits ↦ rw fits (signed-Handled name session at lot_uuid entry_uuid st)
      | inr apart ↦ rw apart (unsigned-Handled name session at lot_uuid entry_uuid st)
    ]
