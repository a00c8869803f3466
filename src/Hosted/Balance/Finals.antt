-- ===== src/Hosted/Balance/Finals.antt =====
-- A final call gives back to an account what it gives back to the lots of the account.
use kenkui_server.Prelude.{
  ℕ, ◌+◌, ◌≡◌, refl, not, ◌==◌, count, exists, modify, sum_by, arith, ap, ◌∙◌, Bool-cases, inl, inr,
  some, Option-cases, sym, subst, All-modify, All-find, ==_iff,
}
use kenkui_server.Prelude.Int.{pos}
use kenkui_server.Prelude.Result.{ok, outcome, raised, returned}
use kenkui_server.Jobs.Models.{Identifier}
use kenkui_server.Billing.Models.{CreditAuthorization, AuthorizationStatus}
use kenkui_server.Billing.Repository.{is_settled, is_reserved, final_kind, refund}
use kenkui_server.Hosted.Tables.{Books, Entry, of_job, fits, update_accounts, insert_entry}
use kenkui_server.Hosted.Lots.{finalize_lots, allocations_of}
use kenkui_server.Hosted.Billing.{
  find_for_job, authorization_for_job, is_open_row, close, pay_back, finalize_open, finalize,
}
use kenkui_server.Hosted.Balance.{worth, balance, content, account_rows, IsSized, IsBacked, share}
use kenkui_server.Hosted.Balance.Lots.{Returned, free_all-Returned}
use kenkui_server.Hosted.Balance.Statements.{
  insert_entry-SameMoney, Repriced, update_accounts-Repriced, balance_credited,
}
use kenkui_server.Hosted.Balance.Reservations.{owned_kept}

finalize_lots-Returned :
    (authorization_id account_id credits : ℕ) (status : AuthorizationStatus) (st after : Books)
    (u : Unit {0})
    → IsSized st
    → finalize_lots authorization_id account_id credits status st ≡ ok (u, after)
    → Returned account_id (refund status credits) st after
unfolding finalize_lots
finalize_lots-Returned authorization_id account_id credits status st after u good h =
    let rows = allocations_of authorization_id account_id st in
    elim (Bool-cases (sum_by (λ a. a.credits) rows == credits)) [
      | inl whole ↦
          subst (λ n. Returned account_id (refund status n) st after)
            ((==_iff (sum_by (λ a. a.credits) rows) credits).0 whole)
            (free_all-Returned status account_id rows st after u good (ground (arith, h, whole)))
      | inr broken ↦ absurd (ground (arith, h, broken))
    ]

close-eq-ok :
    (id : Identifier) (status : AuthorizationStatus) (st after : Books) (u : Unit {0})
    → close id status st ≡ ok (u, after)
    → (count (is_open_row id) st.authorizations ≡ 1)
      × (after ≡ record st {
        authorizations =
            modify (is_open_row id) (λ a. record a { status = status }) st.authorizations;
      })
unfolding close
close-eq-ok id status st after u h = (ground (arith, h), ground (arith, h))

-- What `pay_back` does to the balances of an account that has one row.
record Paid (account_id : Identifier) (n : ℕ) (before after : Books) : Type 0 where
  pub balance : (k : Identifier) → balance k after ≡ balance k before + share account_id k n
  pub repriced : Repriced before after

pay_back-Paid :
    (status : AuthorizationStatus) (a : CreditAuthorization) (st after : Books) (u : Unit {0})
    → account_rows a.account_id st ≡ 1
    → pay_back status a st ≡ ok (u, after)
    → Paid a.account_id (refund status a.credits) st after
unfolding pay_back
pay_back-Paid status a st after u one h = elim (Bool-cases (is_settled status)) [
  | inl settled ↦
      let same : st ≡ after = ground (arith, h, settled) in
      subst (Paid a.account_id (refund status a.credits) st) same (record {
        balance = λ k. ground (arith, settled);
        repriced = record { rows = λ k. refl; authorizations = refl; lots = refl };
      })
  | inr released ↦
      elim (outcome (update_accounts (λ c. c.id == a.account_id) (λ n. n + a.credits) st)) [
        | raised e x ↦ absurd (ground (arith, h, released, x))
        | returned (rows, s1) x ↦
            let same : s1 ≡ after = ground (arith, h, released, x) in
            subst (Paid a.account_id (refund status a.credits) st) same (record {
              balance = λ k.
                  ground
                    (arith, released, balance_credited a.account_id a.credits st s1 k rows one x);
              repriced = update_accounts-Repriced _ _ st s1 rows x;
            })
      ]
]

pay_back_same :
    (status : AuthorizationStatus) (a : CreditAuthorization) (st after : Books) (u : Unit {0})
    → pay_back status a st ≡ ok (u, after)
    → after.authorizations ≡ st.authorizations
unfolding pay_back update_accounts
pay_back_same status a st after u h = elim (Bool-cases (is_settled status)) [
  | inl settled ↦ ground (arith, h, settled)
  | inr released ↦ ground (arith, h, released)
]

module _ (entry_uuid job_id : ℕ) (status : AuthorizationStatus) (a : CreditAuthorization) where
  abbrev entry : Entry
  entry = record {
    id = entry_uuid;
    account_id = a.account_id;
    authorization_id = some a.id;
    kind = final_kind status;
    credits = pos (refund status a.credits);
    reference = of_job (final_kind status) job_id;
  }

  -- The four writes of a final call that returned.
  pub record Ended (st after : Books) : Type 0 where
    pub freed : Books
    pub free : finalize_lots a.id a.account_id a.credits status st ≡ ok (tt, freed)
    pub closed : Books
    pub close_one : close a.id status freed ≡ ok (tt, closed)
    pub paid : Books
    pub pay : pay_back status a closed ≡ ok (tt, paid)
    pub log : insert_entry entry paid ≡ ok (tt, after)

  pub finalize_open-Ended :
      (st after : Books) (r : CreditAuthorization)
      → finalize_open entry_uuid job_id status a st ≡ ok (r, after)
      → Ended st after
  unfolding finalize_open
  finalize_open-Ended st after r h =
      elim (outcome (finalize_lots a.id a.account_id a.credits status st)) [
        | raised e x ↦ absurd (ground (arith, h, x))
        | returned (u1, s1) x1 ↦ elim (outcome (close a.id status s1)) [
          | raised e x ↦ absurd (ground (arith, h, x1, x))
          | returned (u2, s2) x2 ↦ elim (outcome (pay_back status a s2)) [
            | raised e x ↦ absurd (ground (arith, h, x1, x2, x))
            | returned (u3, s3) x3 ↦ record {
              freed = s1;
              free = x1;
              closed = s2;
              close_one = x2;
              paid = s3;
              pay = x3;
              log = ground (arith, h, x1, x2, x3);
            }
          ]
        ]
      ]

  -- One row is open, and the call closes it.
  pub Ended-authorizations :
      (st after : Books)
      → IsSized st
      → Ended st after
      → (count (is_open_row a.id) st.authorizations ≡ 1)
        × (after.authorizations
            ≡ modify (is_open_row a.id) (λ r. record r { status = status }) st.authorizations)
  Ended-authorizations st after good h =
      let d = finalize_lots-Returned a.id a.account_id a.credits status st h.freed tt good h.free in
      let (single, c) = close-eq-ok a.id status h.freed h.closed tt h.close_one in
      let p = pay_back_same status a h.closed h.paid tt h.pay in
      let m = insert_entry-SameMoney entry h.paid after tt h.log in
      (
        ap (count (is_open_row a.id)) (sym d.others.authorizations) ∙ single,
        m.authorizations
            ∙ p
            ∙ ap (λ (s : Books). s.authorizations) c
            ∙ ap (modify (is_open_row a.id) (λ r. record r { status = status }))
                d.others.authorizations,
      )

  Ended-IsBacked :
      (st after : Books)
      → IsBacked st
      → account_rows a.account_id st ≡ 1
      → Ended st after
      → IsBacked after
  Ended-IsBacked st after b one h =
      let d =
        finalize_lots-Returned a.id a.account_id a.credits status st h.freed tt b.sized h.free in
      let (single, c) = close-eq-ok a.id status h.freed h.closed tt h.close_one in
      let accounts : h.closed.accounts ≡ st.accounts =
        ap (λ (s : Books). s.accounts) c ∙ d.others.accounts in
      let p =
        pay_back-Paid status a h.closed h.paid tt
          (ap (count (λ r. r.id == a.account_id)) accounts ∙ one) h.pay in
      let m = insert_entry-SameMoney entry h.paid after tt h.log in
      let lots : after.lots ≡ h.freed.lots =
        m.lots ∙ p.repriced.lots ∙ ap (λ (s : Books). s.lots) c in
      let rows : (k : Identifier) → account_rows k after ≡ account_rows k st = λ k.
        ap (count (λ r. r.id == k)) m.accounts
        ∙ p.repriced.rows k
        ∙ ap (count (λ r. r.id == k)) accounts in
      let (one_open, authorizations) = Ended-authorizations st after b.sized h in
      record {
        backed = λ k. omega (
          arith,
          b.backed k,
          ap (sum_by (worth k)) m.accounts,
          p.balance k,
          ap (sum_by (worth k)) accounts,
          ap (sum_by (content k)) lots,
          d.room k,
        );
        accounts = λ k. rw (rows k) (b.accounts k);
        lots = λ k. rw (ap (count (λ l. l.id == k)) lots ∙ d.lots k) (b.lots k);
        sized = ap (exists (λ l. not (fits l))) lots ∙ d.sized b.sized;
        owned = rw authorizations (
            All-modify (λ r. account_rows r.account_id after ≡ 1) (is_open_row a.id) _
              st.authorizations (λ r x. x) (owned_kept st after st.authorizations rows b.owned));
      }

-- A final call that returned leaves the accounts backed.
pub finalize-IsBacked :
    (entry_uuid job_id : ℕ) (status : AuthorizationStatus) (st after : Books)
    (r : CreditAuthorization)
    → IsBacked st
    → finalize entry_uuid job_id status st ≡ ok (r, after)
    → IsBacked after
unfolding finalize authorization_for_job find_for_job
finalize-IsBacked entry_uuid job_id status st after r b h =
    elim (Option-cases (find_for_job job_id st)) [
      | inl missing ↦ absurd (ground (arith, h, missing))
      | inr (a, found) ↦ elim (Bool-cases (is_reserved a.status)) [
        | inl open_one ↦
            Ended-IsBacked entry_uuid job_id status a st after b
              (All-find (λ r. account_rows r.account_id st ≡ 1) (λ r. r.job_id == job_id)
                st.authorizations a b.owned found)
              (finalize_open-Ended entry_uuid job_id status a st after r
                (ground (arith, h, found, open_one)))
        | inr final ↦
            let same : st ≡ after = ground (arith, h, found, final) in subst IsBacked same b
      ]
    ]
