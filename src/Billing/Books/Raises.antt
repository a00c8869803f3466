-- ===== src/Billing/Books/Raises.antt =====
-- Each call of the credit repository, whether it returns or raises: what it writes to the books,
-- and what it keeps of the allocations and their lots.
use kenkui_server.Prelude.{
  ℕ, ◌≡◌, refl, ◌∷◌, ◌==◌, ltb, Text, exists, text_eq, arith, ap, ◌∙◌, sym, subst, Bool-cases,
  Option-cases, inl, inr,
}
use kenkui_server.Prelude.Result.{Error, ok, err, outcome, raised, returned}
use kenkui_server.Jobs.Models.{Identifier}
use kenkui_server.Billing.Models.{
  AuthorizationStatus, CreditAuthorization, LotKind, Billing, lookup, put_authorization, account,
  credit_lots,
}
use kenkui_server.Billing.Repository.{
  grant_as, grant_again, grant_new, event_reference, process_payment_event, reserve, reserve_again,
  reserve_new, allocate, by_purchase, record_reservation, hold_lots,
}
use kenkui_server.Billing.Books.{SameBooks, same, hold_lots-SameBooks}
use kenkui_server.Billing.Books.Stock.{IsStocked, restocked, booked-IsStocked}
use kenkui_server.Billing.Holdings.{
  put_lot-HasLot, hold_lots-HasLot, hold_lots-allocations, hold_lots-HasLots,
}

grant_again-same :
    (account_id credits : ℕ) (reference : Text) (kind : LotKind) (st : Billing)
    → (grant_again account_id credits reference kind st).1 ≡ st
unfolding grant_again
grant_again-same account_id credits reference kind st = ground arith

grant_new-IsStocked :
    (now lot_uuid entry_uuid account_id credits : ℕ) (reference : Text) (kind : LotKind)
    (st : Billing)
    → IsStocked st
    → IsStocked (grant_new now lot_uuid entry_uuid account_id credits reference kind st).1
unfolding grant_new
grant_new-IsStocked now lot_uuid entry_uuid account_id credits reference kind st s =
    restocked st _ refl refl (λ i h. put_lot-HasLot _ st.lots i h) s

pub grant_as-IsStocked :
    (now lot_uuid entry_uuid account_id credits : ℕ) (reference : Text) (kind : LotKind)
    (st : Billing)
    → IsStocked st
    → IsStocked (grant_as now lot_uuid entry_uuid account_id credits reference kind st).1
unfolding grant_as
grant_as-IsStocked now lot_uuid entry_uuid account_id credits reference kind st s =
    elim (Bool-cases (credits == 0)) [
      | inl none_given ↦ rw none_given s
      | inr some_given ↦ elim (Bool-cases (exists (text_eq reference) st.references)) [
        | inl used ↦
            rw (some_given, used)
              (subst IsStocked (sym (grant_again-same account_id credits reference kind st)) s)
        | inr fresh ↦
            rw (some_given, fresh)
              (grant_new-IsStocked now lot_uuid entry_uuid account_id credits reference kind st s)
      ]
    ]

pub process_payment_event-IsStocked :
    (now lot_uuid entry_uuid : ℕ) (provider event : Text) (account_id credits : ℕ) (st : Billing)
    → IsStocked st
    → IsStocked
        (process_payment_event now lot_uuid entry_uuid provider event account_id credits st).1
unfolding process_payment_event
process_payment_event-IsStocked now lot_uuid entry_uuid provider event account_id credits st s =
    let reference = event_reference provider event in
    let r = grant_as now lot_uuid entry_uuid account_id credits reference LotKind.purchase st in
    let granted =
      grant_as-IsStocked now lot_uuid entry_uuid account_id credits reference LotKind.purchase st
        s in
    let end = process_payment_event now lot_uuid entry_uuid provider event account_id credits st in
    elim (outcome r.0) [
      | raised code e ↦ let stop : end.1 ≡ r.1 = ground arith in subst IsStocked (sym stop) granted
      | returned a e ↦
          let stop : end.1 ≡ record r.1 {
            processed_payment_events = (provider, event) ∷ r.1.processed_payment_events;
          } =
            ground arith in
          subst IsStocked (sym stop) (restocked r.1 _ refl refl (λ i h. h) granted)
    ]

-- A reservation that raises leaves the accounts, the authorizations, the ledger and the allocations.
pub record Refused (st after : Billing) : Type 0 where
  pub books : SameBooks st after
  pub stocked : IsStocked st → IsStocked after

same-Refused : {st after : Billing} → after ≡ st → Refused st after
same-Refused {st = st} e = subst (Refused st) (sym e) (record { books = same; stocked = λ s. s })

module _ (now uuid entry_uuid job_id account_id credits : ℕ) (st after : Billing) where
  reserve_new-Refused :
      (code : Error)
      → reserve_new now uuid entry_uuid job_id account_id credits st ≡ (err code, after)
      → Refused st after
  unfolding reserve_new
  reserve_new-Refused code h =
      let plan = allocate credits (by_purchase (credit_lots account_id st)) in
      elim (Bool-cases (credits == 0)) [
        | inl zero ↦ same-Refused (ground (arith, h, zero))
        | inr some_credits ↦
            elim (Bool-cases (ltb (account account_id st).available_credits credits)) [
              | inl poor ↦ same-Refused (ground (arith, h, some_credits, poor))
              | inr rich ↦ elim (Bool-cases (plan.0 == 0)) [
                | inr mismatch ↦ same-Refused (ground (arith, h, some_credits, rich, mismatch))
                | inl planned ↦ elim (outcome (hold_lots plan.1 st).0) [
                  | returned u e ↦ absurd (ground (arith, h, some_credits, rich, planned, e))
                  | raised c e ↦
                      let end : after ≡ (hold_lots plan.1 st).1 =
                        ground (arith, h, some_credits, rich, planned, e) in
                      subst (Refused st) (sym end) (record {
                        books = hold_lots-SameBooks plan.1 st;
                        stocked =
                            restocked st (hold_lots plan.1 st).1
                              (hold_lots-SameBooks plan.1 st).authorizations
                              (hold_lots-allocations plan.1 st)
                              (λ i held. hold_lots-HasLot plan.1 st i held);
                      })
                ]
              ]
            ]
      ]

  reserve_new-IsStocked :
      (a : CreditAuthorization)
      → reserve_new now uuid entry_uuid job_id account_id credits st ≡ (ok a, after)
      → IsStocked st
      → IsStocked after
  unfolding reserve_new record_reservation
  reserve_new-IsStocked a h s =
      let items = (allocate credits (by_purchase (credit_lots account_id st))).1 in
      elim (outcome (hold_lots items st).0) [
        | raised code e ↦ absurd (ground (arith, h, e))
        | returned u e ↦
            let authorizations : after.authorizations
                ≡ put_authorization
                    (record {
                      id = uuid;
                      job_id = job_id;
                      account_id = account_id;
                      credits = credits;
                      status = AuthorizationStatus.reserved;
                    })
                    (hold_lots items st).1.authorizations =
              ground (arith, h, e) in
            let allocations : after.allocations
                ≡ (uuid, items) ∷ (hold_lots items st).1.allocations =
              ground (arith, h, e) in
            let lots : after.lots ≡ (hold_lots items st).1.lots = ground (arith, h, e) in
            booked-IsStocked st after _ items
              (authorizations
                ∙ ap (put_authorization _) (hold_lots-SameBooks items st).authorizations)
              (allocations ∙ ap (λ xs. (uuid, items) ∷ xs) (hold_lots-allocations items st))
              (rw lots (hold_lots-HasLots items st u e))
              (λ i held. rw lots (hold_lots-HasLot items st i held)) s
      ]

  reserve_again-same :
      (existing_id : Identifier) → (reserve_again existing_id account_id credits st).1 ≡ st
  unfolding reserve_again
  reserve_again-same existing_id = ground arith

  pub reserve-Refused :
      (code : Error)
      → reserve now uuid entry_uuid job_id account_id credits st ≡ (err code, after)
      → Refused st after
  unfolding reserve
  reserve-Refused code h = elim (Option-cases (lookup job_id st.authorization_by_job)) [
    | inr (id, known) ↦ same-Refused (ground (arith, h, known, reserve_again-same id))
    | inl fresh ↦ reserve_new-Refused code (ground (arith, h, fresh))
  ]

  pub reserve-IsStocked :
      (a : CreditAuthorization)
      → reserve now uuid entry_uuid job_id account_id credits st ≡ (ok a, after)
      → IsStocked st
      → IsStocked after
  unfolding reserve
  reserve-IsStocked a h s = elim (Option-cases (lookup job_id st.authorization_by_job)) [
    | inr (id, known) ↦
        let end : after ≡ st = ground (arith, h, known, reserve_again-same id) in
        subst IsStocked (sym end) s
    | inl fresh ↦ reserve_new-IsStocked a (ground (arith, h, fresh)) s
  ]
