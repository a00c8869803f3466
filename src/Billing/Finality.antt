-- ===== src/Billing/Finality.antt =====
-- Repeated calls of the credit repository: an authorization is ended once, and a reservation or a
-- final call that is made again is answered from what is stored.
use kenkui_server.Prelude.{
  ℕ, ◌+◌, true, ◌≡◌, inl, inr, false, some, arith, Option-cases, Bool-cases, ap, ◌∙◌, ◌==◌, ◌&&◌,
  if◌then◌else◌,
}
use kenkui_server.Prelude.Result.{ok, err, outcome, raised, returned, authorization_conflict}
use kenkui_server.Billing.Models.{
  AuthorizationStatus, CreditAuthorization, Billing, find_authorization, lookup, put_authorization,
  credit_lots,
}
use kenkui_server.Billing.Repository.{
  reserve, reserve_again, reserve_new, allocate, by_purchase, hold_lots, record_reservation,
  finalize, finalize_reserved, authorization_for_job, free_lots, record_final, is_reserved, refund,
}
use kenkui_server.Billing.Books.{balance, hold_lots-SameBooks, free_lots-SameBooks}
use kenkui_server.Billing.Books.Finals.{finalize_reserved-balance, find_authorization-id}
use kenkui_server.Billing.Holdings.{find_authorization-put_authorization}

-- What a final call leaves of the authorization.
record Marked (status : AuthorizationStatus) (r a : CreditAuthorization) (st after : Billing)
    : Type 0 where
  pub by_job : after.authorization_by_job ≡ st.authorization_by_job
  pub authorizations :
      after.authorizations ≡ put_authorization (record r { status = status }) st.authorizations
  pub answer : a ≡ record r { status = status }

finalize_reserved-Marked :
    (now entry_uuid job_id : ℕ) (status : AuthorizationStatus) (r : CreditAuthorization)
    (st : Billing) (a : CreditAuthorization) (after : Billing)
    → finalize_reserved now entry_uuid job_id status r st ≡ (ok a, after)
    → Marked status r a st after
unfolding finalize_reserved record_final
finalize_reserved-Marked now entry_uuid job_id status r st a after h =
    let marked : Billing = record st {
      authorizations = put_authorization (record r { status = status }) st.authorizations;
    } in
    elim (Option-cases (lookup r.id st.allocations)) [
      | inl missing ↦ absurd (ground arith)
      | inr (items, allocated) ↦ elim (outcome (free_lots status items marked).0) [
        | raised code e ↦ absurd (ground arith)
        | returned u e ↦
            let s = free_lots-SameBooks status items marked in
            record {
              by_job = ground (arith, s.by_job);
              authorizations = ground (arith, s.authorizations);
              answer = ground arith;
            }
      ]
    ]

-- What is stored for a job, as `finalize` reads it.
answered :
    (now entry_uuid job_id id : ℕ) (status : AuthorizationStatus) (st : Billing)
    (a : CreditAuthorization)
    → is_reserved status ≡ false
    → lookup job_id st.authorization_by_job ≡ some id
    → find_authorization id st.authorizations ≡ some a
    → is_reserved a.status ≡ false
    → finalize now entry_uuid job_id status st ≡ (ok a, st)
unfolding finalize authorization_for_job
answered now entry_uuid job_id id status st a f l g e = ground arith

-- Once a job's authorization has been settled or released, every further final call, with either
-- status, returns the same authorization and changes nothing.
pub finalize-finalize :
    (now entry_uuid job_id : ℕ) (status : AuthorizationStatus) (st : Billing)
    (a : CreditAuthorization) (after : Billing)
    → finalize now entry_uuid job_id status st ≡ (ok a, after)
    → (later uuid : ℕ) (again : AuthorizationStatus) → is_reserved again ≡ false
    → finalize later uuid job_id again after ≡ (ok a, after)
unfolding finalize authorization_for_job
finalize-finalize now entry_uuid job_id status st a after h later uuid again f =
    elim (Bool-cases (is_reserved status)) [
      | inl reserved ↦ absurd (ground arith)
      | inr final ↦ elim (Option-cases (lookup job_id st.authorization_by_job)) [
        | inl missing ↦ absurd (ground arith)
        | inr (id, known) ↦ elim (Option-cases (find_authorization id st.authorizations)) [
          | inl missing ↦ absurd (ground arith)
          | inr (r, found) ↦ elim (Bool-cases (is_reserved r.status)) [
            | inr finished ↦
                let end : after ≡ st = ground arith in
                let same : a ≡ r = ground arith in
                rw (end, same) (answered later uuid job_id id again st r f known found finished)
            | inl unfinished ↦
                let m =
                  finalize_reserved-Marked now entry_uuid job_id status r st a after
                    (ground arith) in
                let stored =
                  ap (find_authorization id) m.authorizations
                  ∙ find_authorization-put_authorization id _ st.authorizations in
                answered later uuid job_id id again after a f (ap (lookup job_id) m.by_job ∙ known)
                  (ground
                    (arith, stored, m.answer, find_authorization-id id st.authorizations r found))
                  (ground (arith, m.answer))
          ]
        ]
      ]
    ]

-- A final call on the authorization of a job: one that is reserved gets the status and its refund,
-- and one that has ended is left alone.
pub record Concludes (status : AuthorizationStatus) (r a : CreditAuthorization) (st after : Billing)
    : Type 0 where
  pub closed :
      is_reserved r.status ≡ true
      → (a ≡ record r { status = status })
        × ((k : ℕ)
            → balance k after
              ≡ balance k st + (if k == r.account_id then refund status r.credits else 0))
  pub kept : is_reserved r.status ≡ false → (a ≡ r) × (after ≡ st)

pub finalize-Concludes :
    (now entry_uuid job_id : ℕ) (status : AuthorizationStatus) (st : Billing)
    (r a : CreditAuthorization) (after : Billing)
    → authorization_for_job job_id st ≡ (ok r, st)
    → finalize now entry_uuid job_id status st ≡ (ok a, after)
    → Concludes status r a st after
unfolding finalize
finalize-Concludes now entry_uuid job_id status st r a after found h =
    elim (Bool-cases (is_reserved status)) [
      | inl reserved ↦ absurd (ground (arith, h, reserved))
      | inr final ↦ record {
        closed = λ unfinished.
            let call : finalize_reserved now entry_uuid job_id status r st ≡ (ok a, after) =
              ground (arith, h, final, found, unfinished) in
            (
              (finalize_reserved-Marked now entry_uuid job_id status r st a after call).answer,
              finalize_reserved-balance now entry_uuid job_id status r st a after call,
            );
        kept = λ finished.
            (ground (arith, h, final, found, finished), ground (arith, h, final, found, finished));
      }
    ]

-- What a new reservation leaves.
record Kept (uuid job_id account_id credits : ℕ) (a : CreditAuthorization) (st after : Billing)
    : Type 0 where
  pub by_job : lookup job_id after.authorization_by_job ≡ some uuid
  pub authorizations : after.authorizations ≡ put_authorization a st.authorizations
  pub id : a.id ≡ uuid
  pub owner : a.account_id ≡ account_id
  pub amount : a.credits ≡ credits

reserve_new-Kept :
    (now uuid entry_uuid job_id account_id credits : ℕ) (st : Billing) (a : CreditAuthorization)
    (after : Billing)
    → reserve_new now uuid entry_uuid job_id account_id credits st ≡ (ok a, after)
    → Kept uuid job_id account_id credits a st after
unfolding reserve_new record_reservation lookup
reserve_new-Kept now uuid entry_uuid job_id account_id credits st a after h =
    let items = (allocate credits (by_purchase (credit_lots account_id st))).1 in
    let s = hold_lots-SameBooks items st in
    elim (outcome (hold_lots items st).0) [
      | raised code e ↦ absurd (ground arith)
      | returned u e ↦ record {
        by_job = ground (arith, s.by_job);
        authorizations = ground (arith, s.authorizations);
        id = ground arith;
        owner = ground arith;
        amount = ground arith;
      }
    ]

-- A reservation that returned an authorization is answered with the same authorization when it is
-- made again for the job, the account and the credits, and refused as a conflict when the account or
-- the credits differ; either way nothing changes.
pub reserve-reserve :
    (now uuid entry_uuid job_id account_id credits : ℕ) (st : Billing) (a : CreditAuthorization)
    (after : Billing)
    → reserve now uuid entry_uuid job_id account_id credits st ≡ (ok a, after)
    → (later uuid' entry_uuid' account credits' : ℕ)
    → reserve later uuid' entry_uuid' job_id account credits' after ≡ (
      (if account_id == account && credits == credits' then ok a else err authorization_conflict),
      after,
    )
unfolding reserve reserve_again
reserve-reserve now uuid entry_uuid job_id account_id credits st a after h later uuid' entry_uuid'
      account credits' =
    elim (Option-cases (lookup job_id st.authorization_by_job)) [
      | inr (id, known) ↦ elim (Option-cases (find_authorization id st.authorizations)) [
        | inl missing ↦ absurd (ground arith)
        | inr (r, found) ↦ ground arith
      ]
      | inl fresh ↦
          let n =
            reserve_new-Kept now uuid entry_uuid job_id account_id credits st a after
              (ground arith) in
          let stored =
            ap (find_authorization uuid) n.authorizations
            ∙ find_authorization-put_authorization uuid a st.authorizations in
          ground (arith, n.by_job, stored, n.owner, n.amount, n.id)
    ]
