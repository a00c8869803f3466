-- ===== src/Billing/Books/Reservations.antt =====
-- A reservation that returns makes one posting.
use kenkui_server.Prelude.{
  ℕ, ◌+◌, ◌-◌, ◌≡◌, inl, inr, refl, none, ◌∷◌, arith, Option-cases, if◌then◌else◌, ◌==◌, subst, sym,
  ap,
}
use kenkui_server.Prelude.Result.{ok, outcome, raised, returned}
use kenkui_server.Jobs.Models.{Identifier}
use kenkui_server.Billing.Models.{
  AuthorizationStatus, CreditAuthorization, Billing, Allocations, find_authorization, lookup,
  put_authorization, credit_lots,
}
use kenkui_server.Billing.Repository.{
  reserve, reserve_again, reserve_new, allocate, by_purchase, record_reservation, hold_lots,
  reservation_entry,
}
use kenkui_server.Billing.Books.{
  SameBooks, hold_lots-SameBooks, balance, balance-put_account, balance_same, Posting, held,
}
use kenkui_server.Billing.Books.{stays}

reserve_again-stays :
    (existing_id account_id credits : ℕ) (st : Billing)
    → (reserve_again existing_id account_id credits st).1 ≡ st
unfolding reserve_again
reserve_again-stays existing_id account_id credits st = ground arith

reservation-Posting :
    (now entry_uuid : ℕ) (a : CreditAuthorization) (left : ℕ) (items : Allocations)
    (st middle : Billing)
    → SameBooks st middle
    → a.status ≡ AuthorizationStatus.reserved
    → lookup a.job_id st.authorization_by_job ≡ none
    → find_authorization a.id st.authorizations ≡ none
    → left + a.credits ≡ balance a.account_id st
    → Posting st (record_reservation now entry_uuid a left items middle)
unfolding record_reservation
reservation-Posting now entry_uuid a left items st middle s q fresh new total =
    held a q fresh new
      (record {
        entry = reservation_entry now entry_uuid a;
        entries = ap (λ es. reservation_entry now entry_uuid a ∷ es) s.entries;
        account = refl;
        authorization = refl;
        kind = refl;
        credits = refl;
      })
      (λ i. lowered_balance i _ (balance-put_account i _ middle _ refl))
      (ap (put_authorization a) s.authorizations) (ap (λ items. (a.job_id, a.id) ∷ items) s.by_job)
  where
    lowered_balance :
        (i : Identifier) (after : Billing)
        → balance i after ≡ (if i == a.account_id then left else balance i middle)
        → balance i after + (if i == a.account_id then a.credits else 0) ≡ balance i st
    lowered_balance i after h = ground (arith, balance_same i st middle s.accounts)

reserve_new-Posting :
    (now uuid entry_uuid job_id account_id credits : ℕ) (st : Billing) (a : CreditAuthorization)
    (after : Billing)
    → lookup job_id st.authorization_by_job ≡ none
    → find_authorization uuid st.authorizations ≡ none
    → reserve_new now uuid entry_uuid job_id account_id credits st ≡ (ok a, after)
    → Posting st after
unfolding reserve_new
reserve_new-Posting now uuid entry_uuid job_id account_id credits st a after fresh new h =
    let items = (allocate credits (by_purchase (credit_lots account_id st))).1 in
    let s = hold_lots-SameBooks items st in
    elim (outcome (hold_lots items st).0) [
      | raised code e ↦ absurd (ground arith)
      | returned u e ↦
          let end : after
              ≡ record_reservation now entry_uuid
                  (record {
                    id = uuid;
                    job_id = job_id;
                    account_id = account_id;
                    credits = credits;
                    status = AuthorizationStatus.reserved;
                  })
                  (balance account_id st - credits) items (hold_lots items st).1 =
            ground arith in
          subst (Posting st) (sym end)
            (reservation-Posting now entry_uuid _ _ items st _ s refl fresh new (ground arith))
    ]

-- A reservation that returns.
pub reserve-Posting :
    (now uuid entry_uuid job_id account_id credits : ℕ) (st : Billing) (a : CreditAuthorization)
    (after : Billing)
    → find_authorization uuid st.authorizations ≡ none
    → reserve now uuid entry_uuid job_id account_id credits st ≡ (ok a, after)
    → Posting st after
unfolding reserve
reserve-Posting now uuid entry_uuid job_id account_id credits st a after new h =
    elim (Option-cases (lookup job_id st.authorization_by_job)) [
      | inr (existing_id, found) ↦
          stays (ground (arith, reserve_again-stays existing_id account_id credits st))
      | inl fresh ↦
          reserve_new-Posting now uuid entry_uuid job_id account_id credits st a after fresh new
            (ground arith)
    ]
