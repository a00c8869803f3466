-- ===== src/Hosted/Balance/Grants.antt =====
-- A grant adds to an account what it adds to the lots of the account.
use kenkui_server.Prelude.{
  ℕ, ◌+◌, ◌≡◌, true, not, [], ◌∷◌, ◌++◌, ◌==◌, count, exists, sum_by, arith, ap, ◌∙◌, Bool-cases,
  inl, inr, none, Text, sym, ◌⊎◌, ==_iff, subst,
}
use kenkui_server.Prelude.Int.{pos}
use kenkui_server.Prelude.Result.{ok, outcome, raised, returned}
use kenkui_server.Prelude.Sums.{
  exists_count, count_unless, count-append, sum_by-append, exists-append,
}
use kenkui_server.Jobs.Models.{Identifier}
use kenkui_server.Billing.Models.{CreditAccount, CreditLot, LotKind, EntryKind}
use kenkui_server.Hosted.Tables.{
  Books, Entry, Reference, reference_eq, granted, fits, update_accounts, insert_entry, insert_lot,
}
use kenkui_server.Hosted.Lots.{grant_lot}
use kenkui_server.Hosted.Billing.{grant_new, grant_again, grant_as, account}
use kenkui_server.Hosted.Balance.{worth, content, account_rows, lot_rows, IsBacked}
use kenkui_server.Hosted.Balance.Statements.{
  insert_entry-SameMoney, insert_lot-eq-ok, update_accounts-Repriced, balance_credited,
}
use kenkui_server.Hosted.Balance.Reservations.{owned_kept}

module _ (now lot_uuid entry_uuid account_id n : ℕ) (reference : Text) (kind : LotKind) where
  abbrev lot : CreditLot
  lot = record {
    id = lot_uuid;
    account_id = account_id;
    kind = kind;
    reference = reference;
    credited = n;
    reserved = 0;
    consumed = 0;
    created_at = now;
  }

  abbrev entry : Entry
  entry = record {
    id = entry_uuid;
    account_id = account_id;
    authorization_id = none;
    kind = EntryKind.purchase;
    credits = pos n;
    reference = granted reference;
  }

  -- The three writes of a grant that returned.
  record Granted (st after : Books) : Type 0 where
    pub known : exists (λ a. a.id == account_id) st.accounts ≡ true
    pub logged : Books
    pub log : insert_entry entry st ≡ ok (tt, logged)
    pub lotted : Books
    pub lot_added : insert_lot lot logged ≡ ok (tt, lotted)
    pub rows : ℕ
    pub credit : update_accounts (λ a. a.id == account_id) (λ m. m + n) lotted ≡ ok (rows, after)

  insert_entry-known :
      (st after : Books) (u : Unit {0})
      → insert_entry entry st ≡ ok (u, after)
      → exists (λ a. a.id == account_id) st.accounts ≡ true
  unfolding insert_entry
  insert_entry-known st after u h = ground (arith, h)

  grant_new-Granted :
      (st after : Books) (a : CreditAccount)
      → grant_new now lot_uuid entry_uuid account_id n reference kind st ≡ ok (a, after)
      → Granted st after
  unfolding grant_new grant_lot account
  grant_new-Granted st after a h = elim (outcome (insert_entry entry st)) [
    | raised e x ↦ absurd (ground (arith, h, x))
    | returned (u1, s1) x1 ↦ elim (outcome (insert_lot lot s1)) [
      | raised e x ↦ absurd (ground (arith, h, x1, x))
      | returned (u2, s2) x2 ↦
          elim (outcome (update_accounts (λ a. a.id == account_id) (λ m. m + n) s2)) [
            | raised e x ↦ absurd (ground (arith, h, x1, x2, x))
            | returned (rows, s3) x3 ↦ record {
              known = insert_entry-known st s1 u1 x1;
              logged = s1;
              log = x1;
              lotted = s2;
              lot_added = x2;
              rows = rows;
              credit = ground (arith, h, x1, x2, x3);
            }
          ]
    ]
  ]

  Granted-authorizations :
      (st after : Books) → Granted st after → after.authorizations ≡ st.authorizations
  Granted-authorizations st after h =
      let m = insert_entry-SameMoney entry st h.logged tt h.log in
      let (new, sized, added) = insert_lot-eq-ok lot h.logged h.lotted tt h.lot_added in
      let c = update_accounts-Repriced _ _ h.lotted after h.rows h.credit in
      c.authorizations ∙ ap (λ (s : Books). s.authorizations) added ∙ m.authorizations

  Granted-IsBacked : (st after : Books) → IsBacked st → Granted st after → IsBacked after
  Granted-IsBacked st after b h =
      let m = insert_entry-SameMoney entry st h.logged tt h.log in
      let (new, sized, added) = insert_lot-eq-ok lot h.logged h.lotted tt h.lot_added in
      let c = update_accounts-Repriced _ _ h.lotted after h.rows h.credit in
      let accounts : h.lotted.accounts ≡ st.accounts =
        ap (λ (s : Books). s.accounts) added ∙ m.accounts in
      let lots : after.lots ≡ st.lots ++ (lot ∷ []) =
        c.lots ∙ ap (λ (s : Books). s.lots) added ∙ ap (λ ls. ls ++ (lot ∷ [])) m.lots in
      let rows : (k : Identifier) → account_rows k after ≡ account_rows k st =
        λ k. c.rows k ∙ ap (count (λ a. a.id == k)) accounts in
      let mine : account_rows account_id h.lotted ≡ 1 = omega (
        arith,
        ap (count (λ a. a.id == account_id)) accounts,
        b.accounts account_id,
        exists_count (λ a. a.id == account_id) st.accounts h.known,
      ) in
      let unused : count (λ l. l.id == lot_uuid) st.lots ≡ 0 =
        rw (sym m.lots) (count_unless (λ l. l.id == lot_uuid) h.logged.lots new) in
      let more : (k : Identifier)
          → lot_rows k after ≡ lot_rows k st + count (λ l. l.id == k) (lot ∷ []) =
        λ k. ap (count (λ l. l.id == k)) lots ∙ count-append (λ l. l.id == k) st.lots (lot ∷ []) in
      let authorizations = Granted-authorizations st after h in
      record {
        backed = λ k. ground (
          arith,
          b.backed k,
          balance_credited account_id n h.lotted after k h.rows mine h.credit,
          ap (sum_by (worth k)) accounts,
          ap (sum_by (content k)) lots,
          sum_by-append (content k) st.lots (lot ∷ []),
        );
        accounts = λ k. rw (rows k) (b.accounts k);
        lots = λ k. elim (Bool-cases (lot_uuid == k)) [
          | inl own ↦
              let fresh =
                subst (λ i. count (λ l. l.id == i) st.lots ≡ 0) ((==_iff lot_uuid k).0 own)
                  unused in
              ground (arith, more k, fresh, own)
          | inr other ↦ ground (arith, more k, b.lots k, other)
        ];
        sized =
            ap (exists (λ l. not (fits l))) lots
            ∙ exists-append (λ l. not (fits l)) st.lots (lot ∷ []) b.sized (ground (arith, sized));
        owned = rw authorizations (owned_kept st after st.authorizations rows b.owned);
      }

-- A grant under a reference that the ledger has changes nothing.
grant_again-same :
    (account_id n : ℕ) (reference : Reference) (st after : Books) (a : CreditAccount)
    → grant_again account_id n reference st ≡ ok (a, after)
    → st ≡ after
unfolding grant_again account
grant_again-same account_id n reference st after a h = ground (arith, h)

module _ (now lot_uuid entry_uuid account_id n : ℕ) (reference : Text) (kind : LotKind)
    (st after : Books) (a : CreditAccount) where
  -- A grant changes nothing, or is made of its three writes.
  grant_as-cases :
      grant_as now lot_uuid entry_uuid account_id n reference kind st ≡ ok (a, after)
      → (st ≡ after) ⊎ Granted now lot_uuid entry_uuid account_id n reference kind st after
  unfolding grant_as
  grant_as-cases h =
      elim (Bool-cases (exists (λ e. reference_eq e.reference (granted reference)) st.entries)) [
        | inl seen ↦
            inl (
              grant_again-same account_id n (granted reference) st after a
                (ground (arith, h, seen)))
        | inr new ↦ inr (
            grant_new-Granted now lot_uuid entry_uuid account_id n reference kind st after a
              (ground (arith, h, new)))
      ]

  pub grant_as-authorizations :
      grant_as now lot_uuid entry_uuid account_id n reference kind st ≡ ok (a, after)
      → after.authorizations ≡ st.authorizations
  grant_as-authorizations h = elim (grant_as-cases h) [
    | inl same ↦ ap (λ (s : Books). s.authorizations) (sym same)
    | inr g ↦ Granted-authorizations now lot_uuid entry_uuid account_id n reference kind st after g
  ]

  -- A grant that returned leaves the accounts backed.
  pub grant_as-IsBacked :
      IsBacked st
      → grant_as now lot_uuid entry_uuid account_id n reference kind st ≡ ok (a, after)
      → IsBacked after
  grant_as-IsBacked b h = elim (grant_as-cases h) [
    | inl same ↦ subst IsBacked same b
    | inr g ↦ Granted-IsBacked now lot_uuid entry_uuid account_id n reference kind st after b g
  ]
