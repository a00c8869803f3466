-- ===== src/Billing/Books/Finals.antt =====
-- A final call that returns makes one posting.
use kenkui_server.Prelude.{
  ℕ, ◌+◌, ◌≡◌, inl, inr, refl, false, some, List, [], ◌∷◌, arith, Option-cases, Bool-cases,
  if◌then◌else◌, ◌==◌, subst, sym, ap, ◌∙◌,
}
use kenkui_server.Prelude.Result.{ok, outcome, raised, returned}
use kenkui_server.Jobs.Models.{Identifier}
use kenkui_server.Billing.Models.{
  AuthorizationStatus, CreditAuthorization, Billing, find_authorization, lookup, put_authorization,
}
use kenkui_server.Billing.Repository.{
  free_lots, finalize, finalize_reserved, record_final, authorization_for_job, is_reserved,
  final_entry, refund,
}
use kenkui_server.Billing.Books.{
  SameBooks, free_lots-SameBooks, balance, balance-put_account, balance_same, Posting, ended,
}
use kenkui_server.Billing.Books.{stays}

refunded_balance :
    (now entry_uuid job_id : ℕ) (status : AuthorizationStatus) (r : CreditAuthorization)
    (st middle : Billing)
    → middle.accounts ≡ st.accounts
    → (i : Identifier)
    → balance i (record_final now entry_uuid job_id status r middle)
      ≡ balance i st + (if i == r.account_id then refund status r.credits else 0)
unfolding record_final
refunded_balance now entry_uuid job_id AuthorizationStatus.settled r st middle s i = ground (
  arith,
  balance_same i st (record_final now entry_uuid job_id AuthorizationStatus.settled r middle) s,
)
refunded_balance now entry_uuid job_id AuthorizationStatus.reserved r st middle s i =
    let put =
      balance-put_account i
        (record { id = r.account_id; available_credits = balance r.account_id middle + r.credits })
        middle (record_final now entry_uuid job_id AuthorizationStatus.reserved r middle) refl in
    ground (arith, put, balance_same i st middle s)
refunded_balance now entry_uuid job_id AuthorizationStatus.released r st middle s i =
    let put =
      balance-put_account i
        (record { id = r.account_id; available_credits = balance r.account_id middle + r.credits })
        middle (record_final now entry_uuid job_id AuthorizationStatus.released r middle) refl in
    ground (arith, put, balance_same i st middle s)

final-Posting :
    (now entry_uuid job_id : ℕ) (status : AuthorizationStatus) (r : CreditAuthorization)
    (st marked middle : Billing)
    → marked ≡ record st {
      authorizations = put_authorization (record r { status = status }) st.authorizations;
    }
    → SameBooks marked middle
    → find_authorization r.id st.authorizations ≡ some r
    → r.status ≡ AuthorizationStatus.reserved
    → is_reserved status ≡ false
    → Posting st (record_final now entry_uuid job_id status r middle)
unfolding record_final
final-Posting now entry_uuid job_id status r st marked middle m s found q final =
    ended r status found q final
      (record {
        entry = final_entry now entry_uuid job_id status r;
        entries =
            ap (λ es. final_entry now entry_uuid job_id status r ∷ es)
              (s.entries ∙ ap (λ (s : Billing). s.entries) m);
        account = refl;
        authorization = refl;
        kind = refl;
        credits = refl;
      })
      (refunded_balance now entry_uuid job_id status r st middle
        (s.accounts ∙ ap (λ (s : Billing). s.accounts) m))
      (s.authorizations ∙ ap (λ (s : Billing). s.authorizations) m)
      (s.by_job ∙ ap (λ (s : Billing). s.authorization_by_job) m)

finalize_reserved-Posting :
    (now entry_uuid job_id : ℕ) (status : AuthorizationStatus) (r : CreditAuthorization)
    (st : Billing) (a : CreditAuthorization) (after : Billing)
    → find_authorization r.id st.authorizations ≡ some r
    → r.status ≡ AuthorizationStatus.reserved
    → is_reserved status ≡ false
    → finalize_reserved now entry_uuid job_id status r st ≡ (ok a, after)
    → Posting st after
unfolding finalize_reserved
finalize_reserved-Posting now entry_uuid job_id status r st a after found q final h =
    let marked : Billing = record st {
      authorizations = put_authorization (record r { status = status }) st.authorizations;
    } in
    elim (Option-cases (lookup r.id st.allocations)) [
      | inl missing ↦ absurd (ground arith)
      | inr (items, allocated) ↦ elim (outcome (free_lots status items marked).0) [
        | raised code e ↦ absurd (ground arith)
        | returned u e ↦
            let end : after
                ≡ record_final now entry_uuid job_id status r (free_lots status items marked).1 =
              ground arith in
            subst (Posting st) (sym end) (
              final-Posting now entry_uuid job_id status r st marked _ refl
                (free_lots-SameBooks status items marked) found q final)
      ]
    ]

-- The accounts after a final call of an authorization that was reserved.
pub finalize_reserved-balance :
    (now entry_uuid job_id : ℕ) (status : AuthorizationStatus) (r : CreditAuthorization)
    (st : Billing) (a : CreditAuthorization) (after : Billing)
    → finalize_reserved now entry_uuid job_id status r st ≡ (ok a, after)
    → (i : Identifier)
    → balance i after ≡ balance i st + (if i == r.account_id then refund status r.credits else 0)
unfolding finalize_reserved
finalize_reserved-balance now entry_uuid job_id status r st a after h i =
    let marked : Billing = record st {
      authorizations = put_authorization (record r { status = status }) st.authorizations;
    } in
    elim (Option-cases (lookup r.id st.allocations)) [
      | inl missing ↦ absurd (ground arith)
      | inr (items, allocated) ↦ elim (outcome (free_lots status items marked).0) [
        | raised code e ↦ absurd (ground arith)
        | returned u e ↦
            let end : after
                ≡ record_final now entry_uuid job_id status r (free_lots status items marked).1 =
              ground arith in
            ap (balance i) end
            ∙ refunded_balance now entry_uuid job_id status r st _
                (free_lots-SameBooks status items marked).accounts i
      ]
    ]

pub find_authorization-id :
    (id : Identifier) (xs : List CreditAuthorization) (a : CreditAuthorization)
    → find_authorization id xs ≡ some a
    → a.id ≡ id
unfolding find_authorization
find_authorization-id id [] a h = cc
find_authorization-id id (x ∷ xs) a h = ground (arith, find_authorization-id id xs a)

-- A final call that returns.
pub finalize-Posting :
    (now entry_uuid job_id : ℕ) (status : AuthorizationStatus) (st : Billing)
    (a : CreditAuthorization) (after : Billing)
    → finalize now entry_uuid job_id status st ≡ (ok a, after)
    → Posting st after
unfolding finalize authorization_for_job
finalize-Posting now entry_uuid job_id status st a after h =
    elim (Bool-cases (is_reserved status)) [
      | inl reserved ↦ absurd (ground arith)
      | inr final ↦ elim (Option-cases (lookup job_id st.authorization_by_job)) [
        | inl missing ↦ absurd (ground arith)
        | inr (id, known) ↦ elim (Option-cases (find_authorization id st.authorizations)) [
          | inl missing ↦ absurd (ground arith)
          | inr (r, found) ↦
              let same_id = find_authorization-id id st.authorizations r found in
              elim (Bool-cases (is_reserved r.status)) [
                | inr finished ↦ stays (ground arith)
                | inl unfinished ↦
                    finalize_reserved-Posting now entry_uuid job_id status r st a after
                      (subst (λ k. find_authorization k st.authorizations ≡ some r) (sym same_id)
                        found)
                      (ground arith) final (ground arith)
              ]
        ]
      ]
    ]
