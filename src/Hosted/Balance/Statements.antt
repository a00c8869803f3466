-- ===== src/Hosted/Balance/Statements.antt =====
-- What the statements on accounts, authorizations, entries and lots do to the balances.
use kenkui_server.Prelude.{
  ℕ, ◌+◌, ◌-◌, ◌≤◌, ◌≡◌, refl, Bool, true, false, not, ◌&&◌, List, [], ◌∷◌, ◌++◌, ◌==◌, leb, count,
  exists, modify, arith, ap, ◌∙◌, count-modify, count_mono, ==_iff, text_eq,
}
use kenkui_server.Prelude.Result.{ok}
use kenkui_server.Prelude.Sums.{
  sum_by-modify_down, sum_by-modify_up, sum_by_one, exists_right, exists_left,
}
use kenkui_server.Jobs.Models.{Identifier}
use kenkui_server.Billing.Models.{CreditAccount, CreditAuthorization, CreditLot}
use kenkui_server.Hosted.Tables.{
  Books, Entry, fits, update_accounts, insert_entry, insert_authorization, insert_lot,
}
use kenkui_server.Hosted.Balance.{worth, balance, account_rows, share}

-- Nothing that the balances depend on is changed.
pub record SameMoney (before after : Books) : Type 0 where
  pub accounts : after.accounts ≡ before.accounts
  pub authorizations : after.authorizations ≡ before.authorizations
  pub lots : after.lots ≡ before.lots

pub insert_entry-SameMoney :
    (e : Entry) (st after : Books) (u : Unit {0})
    → insert_entry e st ≡ ok (u, after)
    → SameMoney st after
unfolding insert_entry
insert_entry-SameMoney e st after u h = ground (arith, h)

pub insert_authorization-eq-ok :
    (a : CreditAuthorization) (st after : Books) (u : Unit {0})
    → insert_authorization a st ≡ ok (u, after)
    → (exists (λ c. c.id == a.account_id) st.accounts ≡ true)
      × (exists (λ o. o.job_id == a.job_id) st.authorizations ≡ false)
      × (after ≡ record st { authorizations = a ∷ st.authorizations })
unfolding insert_authorization
insert_authorization-eq-ok a st after u h = (
  ground (arith, h),
  exists_right (λ o. o.id == a.id) (λ o. o.job_id == a.job_id) st.authorizations
      (ground (arith, h)),
  ground (arith, h),
)

pub insert_lot-eq-ok :
    (l : CreditLot) (st after : Books) (u : Unit {0})
    → insert_lot l st ≡ ok (u, after)
    → (exists (λ o. o.id == l.id) st.lots ≡ false)
      × (fits l ≡ true)
      × (after ≡ record st { lots = st.lots ++ (l ∷ []) })
unfolding insert_lot
insert_lot-eq-ok l st after u h = (
  exists_left (λ o. o.id == l.id) (λ o. text_eq o.reference l.reference) st.lots
      (ground (arith, h)),
  ground (arith, h),
  ground (arith, h),
)

-- An update of the rows of one account.
pub record Repriced (before after : Books) : Type 0 where
  pub rows : (k : Identifier) → account_rows k after ≡ account_rows k before
  pub authorizations : after.authorizations ≡ before.authorizations
  pub lots : after.lots ≡ before.lots

module _ (p : CreditAccount → Bool) (g : ℕ → ℕ) (st after : Books) (n : ℕ) where
  abbrev set : CreditAccount → CreditAccount
  set a = record a { available_credits = g a.available_credits }

  update_accounts-eq-ok :
      update_accounts p g st ≡ ok (n, after)
      → (count p st.accounts ≡ n) × (after ≡ record st { accounts = modify p set st.accounts })
  unfolding update_accounts
  update_accounts-eq-ok h = (ground (arith, h), ground (arith, h))

  pub update_accounts-Repriced : update_accounts p g st ≡ ok (n, after) → Repriced st after
  update_accounts-Repriced h =
      let (rows, moved) = update_accounts-eq-ok h in
      record {
        rows = λ k.
            ap (account_rows k) moved ∙ count-modify (λ a. a.id == k) p set st.accounts (λ a. refl);
        authorizations = ap (λ (b : Books). b.authorizations) moved;
        lots = ap (λ (b : Books). b.lots) moved;
      }

all_known :
    (p : CreditAccount → Bool) (xs : List CreditAccount) → exists (λ x. p x && not true) xs ≡ false
all_known p [] = refl
all_known p (x ∷ xs) = ground (arith, all_known p xs)

-- The account, where it can pay the amount.
abbrev pub able : Identifier → ℕ → CreditAccount → Bool
able account_id n a = a.id == account_id && leb n a.available_credits

module _ (account_id : Identifier) (n : ℕ) (st after : Books) (k : Identifier) where
  pub balance_debited :
      (rows : ℕ)
      → account_rows account_id st ≤ 1
      → update_accounts (able account_id n) (λ m. m - n) st ≡ ok (rows, after)
      → (rows == 0) ≡ false
      → balance k after + share account_id k n ≡ balance k st
  balance_debited rows one h hit =
      let (matched, moved) =
        update_accounts-eq-ok (able account_id n) (λ m. m - n) st after rows h in
      let some_rows : 1 ≤ rows = ground (arith, hit) in
      let few =
        count_mono (able account_id n) (λ a. a.id == account_id) st.accounts
          (λ a x. ground (arith, x)) in
      let total =
        sum_by-modify_down (worth k) (able account_id n) (λ a. true)
          (λ a. record a { available_credits = a.available_credits - n }) (share account_id k n)
          st.accounts (all_known (able account_id n) st.accounts)
          (λ a x y. ground (arith, x, (==_iff a.id account_id).0)) in
      omega (
        arith,
        ap (balance k) moved,
        total,
        sum_by_one (able account_id n) (share account_id k n) st.accounts
            (omega (arith, matched, some_rows, few)),
      )

  pub balance_credited :
      (rows : ℕ)
      → account_rows account_id st ≡ 1
      → update_accounts (λ a. a.id == account_id) (λ m. m + n) st ≡ ok (rows, after)
      → balance k after ≡ balance k st + share account_id k n
  balance_credited rows one h =
      let (matched, moved) =
        update_accounts-eq-ok (λ a. a.id == account_id) (λ m. m + n) st after rows h in
      let total =
        sum_by-modify_up (worth k) (λ a. a.id == account_id) (λ a. true)
          (λ a. record a { available_credits = a.available_credits + n }) (share account_id k n)
          st.accounts (all_known (λ a. a.id == account_id) st.accounts)
          (λ a x y. ground (arith, x, (==_iff a.id account_id).0)) in
      omega (
        arith,
        ap (balance k) moved,
        total,
        sum_by_one (λ a. a.id == account_id) (share account_id k n) st.accounts one,
      )
