-- ===== src/Billing/Books/Closings.antt =====
-- A final call of a repository that stores every allocation and its lots: it returns, or it raises
-- before it writes.
use kenkui_server.Prelude.{
  ℕ, ◌≡◌, refl, none, some, arith, ap, ◌∙◌, sym, subst, Bool-cases, Option-cases, inl, inr, ◌≢◌,
}
use kenkui_server.Prelude.Result.{Error, Result, ok, err, outcome, raised, returned}
use kenkui_server.Billing.Models.{
  AuthorizationStatus, CreditAuthorization, Billing, find_authorization, lookup, put_authorization,
}
use kenkui_server.Billing.Repository.{
  reserve, free_lots, finalize, finalize_reserved, record_final, authorization_for_job, is_reserved,
}
use kenkui_server.Billing.Books.{free_lots-SameBooks, Posting, unposted, stays}
use kenkui_server.Billing.Books.Reservations.{reserve-Posting}
use kenkui_server.Billing.Books.Finals.{finalize-Posting, find_authorization-id}
use kenkui_server.Billing.Books.Stock.{Stocked, IsStocked, marked-IsStocked}
use kenkui_server.Billing.Books.Raises.{reserve-Refused, reserve-IsStocked}
use kenkui_server.Billing.Holdings.{free_lots-HasLot, free_lots-allocations, free_lots_returns}

module _ (now entry_uuid job_id : ℕ) (status : AuthorizationStatus) (st after : Billing) where
  finalize_reserved_returns :
      (r : CreditAuthorization) (code : Error)
      → Stocked r.id st
      → finalize_reserved now entry_uuid job_id status r st ≢ (err code, after)
  unfolding finalize_reserved
  finalize_reserved_returns r code s h =
      let marked : Billing = record st {
        authorizations = put_authorization (record r { status = status }) st.authorizations;
      } in
      ground (arith, h, s.allocated, free_lots_returns status s.items marked s.stored)

  finalize_reserved-IsStocked :
      (r a : CreditAuthorization)
      → find_authorization r.id st.authorizations ≡ some r
      → finalize_reserved now entry_uuid job_id status r st ≡ (ok a, after)
      → IsStocked st
      → IsStocked after
  unfolding finalize_reserved record_final
  finalize_reserved-IsStocked r a found h s =
      let old = s r.id r found in
      let marked : Billing = record st {
        authorizations = put_authorization (record r { status = status }) st.authorizations;
      } in
      let freed = free_lots_returns status old.items marked old.stored in
      let authorizations : after.authorizations
          ≡ (free_lots status old.items marked).1.authorizations =
        ground (arith, h, old.allocated, freed) in
      let allocations : after.allocations ≡ (free_lots status old.items marked).1.allocations =
        ground (arith, h, old.allocated, freed) in
      let lots : after.lots ≡ (free_lots status old.items marked).1.lots =
        ground (arith, h, old.allocated, freed) in
      marked-IsStocked st after r found status
        (authorizations ∙ (free_lots-SameBooks status old.items marked).authorizations)
        (allocations ∙ free_lots-allocations status old.items marked)
        (λ i held. rw lots (free_lots-HasLot status old.items marked i held)) s

  closing :
      (answer : Result CreditAuthorization) (r : CreditAuthorization)
      → IsStocked st
      → find_authorization r.id st.authorizations ≡ some r
      → finalize_reserved now entry_uuid job_id status r st ≡ (answer, after)
      → finalize now entry_uuid job_id status st ≡ (answer, after)
      → Posting st after × IsStocked after
  closing (err code) r s own call whole =
      absurd (finalize_reserved_returns r code (s r.id r own) call)
  closing (ok a) r s own call whole = (
    finalize-Posting now entry_uuid job_id status st a after whole,
    finalize_reserved-IsStocked r a own call s,
  )

  unchanged : after ≡ st → IsStocked st → Posting st after × IsStocked after
  unchanged e s = (stays e, subst IsStocked (sym e) s)

  -- The call, whatever its answer.
  finalize_cases :
      (answer : Result CreditAuthorization)
      → IsStocked st
      → finalize now entry_uuid job_id status st ≡ (answer, after)
      → Posting st after × IsStocked after
  unfolding finalize authorization_for_job
  finalize_cases answer s h = elim (Bool-cases (is_reserved status)) [
    | inl reserved ↦ unchanged (ground (arith, h, reserved)) s
    | inr final ↦ elim (Option-cases (lookup job_id st.authorization_by_job)) [
      | inl missing ↦ unchanged (ground (arith, h, final, missing)) s
      | inr (id, known) ↦ elim (Option-cases (find_authorization id st.authorizations)) [
        | inl missing ↦ unchanged (ground (arith, h, final, known, missing)) s
        | inr (r, found) ↦ elim (Bool-cases (is_reserved r.status)) [
          | inr finished ↦ unchanged (ground (arith, h, final, known, found, finished)) s
          | inl unfinished ↦
              let own : find_authorization r.id st.authorizations ≡ some r =
                subst (λ k. find_authorization k st.authorizations ≡ some r)
                  (sym (find_authorization-id id st.authorizations r found)) found in
              closing answer r s own (ground (arith, h, final, known, found, unfinished)) h
        ]
      ]
    ]
  ]

-- A final call, which returns or raises.
pub finalize_made :
    (now entry_uuid job_id : ℕ) (status : AuthorizationStatus) (st : Billing)
    → IsStocked st
    → Posting st (finalize now entry_uuid job_id status st).1
      × IsStocked (finalize now entry_uuid job_id status st).1
finalize_made now entry_uuid job_id status st s =
    let r = finalize now entry_uuid job_id status st in
    finalize_cases now entry_uuid job_id status st r.1 r.0 s refl

-- A reservation, which returns or raises.
pub reserve_made :
    (now uuid entry_uuid job_id account_id credits : ℕ) (st : Billing)
    → find_authorization uuid st.authorizations ≡ none
    → IsStocked st
    → Posting st (reserve now uuid entry_uuid job_id account_id credits st).1
      × IsStocked (reserve now uuid entry_uuid job_id account_id credits st).1
reserve_made now uuid entry_uuid job_id account_id credits st new s =
    let r = reserve now uuid entry_uuid job_id account_id credits st in
    elim (outcome r.0) [
      | raised code e ↦
          let refused =
            reserve-Refused now uuid entry_uuid job_id account_id credits st r.1 code
              (ap (λ x. (x, r.1)) e) in
          (unposted refused.books, refused.stocked s)
      | returned a e ↦
          let call : r ≡ (ok a, r.1) = ap (λ x. (x, r.1)) e in
          (
            reserve-Posting now uuid entry_uuid job_id account_id credits st a r.1 new call,
            reserve-IsStocked now uuid entry_uuid job_id account_id credits st r.1 a call s,
          )
    ]
