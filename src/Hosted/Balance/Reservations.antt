-- ===== src/Hosted/Balance/Reservations.antt =====
-- A reservation takes from an account what it takes from the lots of the account.
use kenkui_server.Prelude.{
  ℕ, ◌+◌, ◌-◌, ◌≡◌, false, not, List, ◌∷◌, ◌==◌, count, exists, sum_by, arith, ap, ◌∙◌, All, sym,
  some, All-map,
}
use kenkui_server.Prelude.Int.{sub_ℕ}
use kenkui_server.Prelude.Result.{ok, outcome, raised, returned}
use kenkui_server.Prelude.Sums.{exists_count}
use kenkui_server.Jobs.Models.{Identifier}
use kenkui_server.Billing.Models.{CreditAuthorization, AuthorizationStatus, EntryKind}
use kenkui_server.Hosted.Tables.{
  Books, Entry, of_job, fits, update_accounts, insert_entry, insert_authorization,
}
use kenkui_server.Hosted.Lots.{reserve_lots}
use kenkui_server.Hosted.Billing.{hold}
use kenkui_server.Hosted.Balance.{balance, share, worth, content, account_rows, IsBacked}
use kenkui_server.Hosted.Balance.Lots.{take_all-Drawn}
use kenkui_server.Hosted.Balance.Statements.{
  insert_entry-SameMoney, insert_authorization-eq-ok, update_accounts-Repriced, able,
  balance_debited,
}

-- The authorizations keep their accounts where the rows of the accounts keep their ids.
pub owned_kept :
    (st after : Books) (xs : List CreditAuthorization)
    → ((k : Identifier) → account_rows k after ≡ account_rows k st)
    → All (λ a. account_rows a.account_id st ≡ 1) xs
    → All (λ a. account_rows a.account_id after ≡ 1) xs
owned_kept st after xs same = All-map _ _ xs (λ a h. same a.account_id ∙ h)

module _ (uuid entry_uuid job_id account_id n : ℕ) where
  abbrev authorization : CreditAuthorization
  authorization = record {
    id = uuid;
    job_id = job_id;
    account_id = account_id;
    credits = n;
    status = AuthorizationStatus.reserved;
  }

  abbrev entry : Entry
  entry = record {
    id = entry_uuid;
    account_id = account_id;
    authorization_id = some uuid;
    kind = EntryKind.reservation;
    credits = sub_ℕ 0 n;
    reference = of_job EntryKind.reservation job_id;
  }

  -- The four writes of a reservation that returned.
  record Held (st after : Books) : Type 0 where
    pub debited_books : Books
    pub opened : Books
    pub rows : ℕ
    pub debit : update_accounts (able account_id n) (λ m. m - n) st ≡ ok (rows, debited_books)
    pub hit : (rows == 0) ≡ false
    pub open_one : insert_authorization authorization debited_books ≡ ok (tt, opened)
    pub drawn_books : Books
    pub draw : reserve_lots uuid account_id n opened ≡ ok (tt, drawn_books)
    pub log : insert_entry entry drawn_books ≡ ok (tt, after)

  hold-Held :
      (st after : Books) (a : CreditAuthorization)
      → hold uuid entry_uuid job_id account_id n st ≡ ok (a, after)
      → Held st after
  unfolding hold
  hold-Held st after a h = elim (outcome (update_accounts (able account_id n) (λ m. m - n) st)) [
    | raised e x ↦ absurd (ground (arith, h, x))
    | returned (rows, s1) x1 ↦ elim (outcome (insert_authorization authorization s1)) [
      | raised e x ↦ absurd (ground (arith, h, x1, x))
      | returned (u2, s2) x2 ↦ elim (outcome (reserve_lots uuid account_id n s2)) [
        | raised e x ↦ absurd (ground (arith, h, x1, x2, x))
        | returned (u3, s3) x3 ↦ record {
          debited_books = s1;
          opened = s2;
          rows = rows;
          debit = x1;
          hit = ground (arith, h, x1);
          open_one = x2;
          drawn_books = s3;
          draw = x3;
          log = ground (arith, h, x1, x2, x3);
        }
      ]
    ]
  ]

  -- The job had no authorization, and has this one.
  Held-authorizations :
      (st after : Books)
      → IsBacked st
      → Held st after
      → (exists (λ o. o.job_id == job_id) st.authorizations ≡ false)
        × (after.authorizations ≡ authorization ∷ st.authorizations)
  unfolding reserve_lots
  Held-authorizations st after b h =
      let charged = update_accounts-Repriced _ _ st h.debited_books h.rows h.debit in
      let (there, unused, opened) =
        insert_authorization-eq-ok _ h.debited_books h.opened tt h.open_one in
      let lots : h.opened.lots ≡ st.lots = ap (λ (s : Books). s.lots) opened ∙ charged.lots in
      let d =
        take_all-Drawn uuid account_id n _ h.opened h.drawn_books tt (λ k. rw lots (b.lots k))
          h.draw in
      let m = insert_entry-SameMoney entry h.drawn_books after tt h.log in
      (
        ap (exists (λ o. o.job_id == job_id)) (sym charged.authorizations) ∙ unused,
        m.authorizations
            ∙ d.others.authorizations
            ∙ ap (λ (s : Books). s.authorizations) opened
            ∙ ap (λ xs. authorization ∷ xs) charged.authorizations,
      )

  Held-accounts :
      (st after : Books)
      → IsBacked st
      → (h : Held st after) → after.accounts ≡ h.debited_books.accounts
  unfolding reserve_lots
  Held-accounts st after b h =
      let charged = update_accounts-Repriced _ _ st h.debited_books h.rows h.debit in
      let (there, unused, opened) =
        insert_authorization-eq-ok _ h.debited_books h.opened tt h.open_one in
      let lots : h.opened.lots ≡ st.lots = ap (λ (s : Books). s.lots) opened ∙ charged.lots in
      let d =
        take_all-Drawn uuid account_id n _ h.opened h.drawn_books tt (λ k. rw lots (b.lots k))
          h.draw in
      (insert_entry-SameMoney entry h.drawn_books after tt h.log).accounts
      ∙ d.others.accounts
      ∙ ap (λ (s : Books). s.accounts) opened

  Held-IsBacked : (st after : Books) → IsBacked st → Held st after → IsBacked after
  unfolding reserve_lots
  Held-IsBacked st after b h =
      let charged = update_accounts-Repriced _ _ st h.debited_books h.rows h.debit in
      let (there, unused, opened) =
        insert_authorization-eq-ok _ h.debited_books h.opened tt h.open_one in
      let lots : h.opened.lots ≡ st.lots = ap (λ (s : Books). s.lots) opened ∙ charged.lots in
      let d =
        take_all-Drawn uuid account_id n _ h.opened h.drawn_books tt (λ k. rw lots (b.lots k))
          h.draw in
      let m = insert_entry-SameMoney entry h.drawn_books after tt h.log in
      let books = Held-accounts st after b h in
      let rows : (k : Identifier) → account_rows k after ≡ account_rows k st =
        λ k. ap (count (λ a. a.id == k)) books ∙ charged.rows k in
      let (fresh, authorizations) = Held-authorizations st after b h in
      let mine : account_rows account_id after ≡ 1 = omega (
        arith,
        rows account_id,
        charged.rows account_id,
        b.accounts account_id,
        exists_count (λ a. a.id == account_id) h.debited_books.accounts there,
      ) in
      record {
        backed = λ k. omega (
          arith,
          b.backed k,
          balance_debited account_id n st h.debited_books k h.rows (b.accounts account_id) h.debit
              h.hit,
          ap (sum_by (worth k)) books,
          ap (sum_by (content k)) m.lots,
          d.room k,
          ap (sum_by (content k)) lots,
        );
        accounts = λ k. rw (rows k) (b.accounts k);
        lots = λ k.
            rw (ap (count (λ l. l.id == k)) m.lots ∙ d.lots k ∙ ap (count (λ l. l.id == k)) lots)
              (b.lots k);
        sized =
            ap (exists (λ l. not (fits l))) m.lots
            ∙ d.sized (ap (exists (λ l. not (fits l))) lots ∙ b.sized);
        owned = rw authorizations (mine, owned_kept st after st.authorizations rows b.owned);
      }

pub hold-authorizations :
    (uuid entry_uuid job_id account_id n : ℕ) (st after : Books) (a : CreditAuthorization)
    → IsBacked st
    → hold uuid entry_uuid job_id account_id n st ≡ ok (a, after)
    → (exists (λ o. o.job_id == job_id) st.authorizations ≡ false)
      × (after.authorizations
          ≡ authorization uuid entry_uuid job_id account_id n ∷ st.authorizations)
hold-authorizations uuid entry_uuid job_id account_id n st after a b h =
    Held-authorizations uuid entry_uuid job_id account_id n st after b
      (hold-Held uuid entry_uuid job_id account_id n st after a h)

-- A reservation that returned leaves the accounts backed.
pub hold-IsBacked :
    (uuid entry_uuid job_id account_id n : ℕ) (st after : Books) (a : CreditAuthorization)
    → IsBacked st
    → hold uuid entry_uuid job_id account_id n st ≡ ok (a, after)
    → IsBacked after
hold-IsBacked uuid entry_uuid job_id account_id n st after a b h =
    Held-IsBacked uuid entry_uuid job_id account_id n st after b
      (hold-Held uuid entry_uuid job_id account_id n st after a h)

-- A reservation that returned takes the amount from its account, and from no other.
pub balance-hold :
    (uuid entry_uuid job_id account_id n : ℕ) (st after : Books) (a : CreditAuthorization)
    → IsBacked st
    → hold uuid entry_uuid job_id account_id n st ≡ ok (a, after)
    → (k : Identifier) → balance k after + share account_id k n ≡ balance k st
balance-hold uuid entry_uuid job_id account_id n st after a b h k =
    let e = hold-Held uuid entry_uuid job_id account_id n st after a h in
    omega (
      arith,
      ap (sum_by (worth k)) (Held-accounts uuid entry_uuid job_id account_id n st after b e),
      balance_debited account_id n st e.debited_books k e.rows (b.accounts account_id) e.debit
          e.hit,
    )
