-- ===== src/Billing/Books.antt =====
-- What each method of the credit repository does to the accounts, the authorizations and the ledger.
pub mod Grants
pub mod Reservations
pub mod Finals
pub mod Stock
pub mod Raises
pub mod Closings
use kenkui_server.Prelude.{
  ap, ℕ, ◌+◌, ◌-◌, ◌≤◌, ◌≡◌, ◌⊎◌, inl, inr, refl, Bool, true, false, Option, none, some, List, [],
  ◌∷◌, arith, Option-cases, if◌then◌else◌, Text, not, ◌==◌, find, keep,
}
use kenkui_server.Prelude.Int.{ℤ, pos, sub_ℕ}
use kenkui_server.Prelude.Result.{Result, ok, err}
use kenkui_server.Jobs.Models.{Identifier}
use kenkui_server.Billing.Models.{
  AuthorizationStatus, CreditAccount, CreditAuthorization, EntryKind, LedgerEntry, LotKind,
  CreditLot, Billing, Allocations, find_authorization, find_lot, lookup, put_account,
  put_authorization, account,
}
use kenkui_server.Billing.Repository.{
  grant_as, grant_again, grant_new, granted_account, process_payment_event, reserve, reserve_again,
  reserve_new, allocate, by_purchase, record_reservation, hold_lots, free_lots, finalize,
  finalize_reserved, record_final, authorization_for_job, is_settled, is_reserved, final_kind,
  refund,
}

-- Only the lots differ.
pub record SameBooks (before after : Billing) : Type 0 where
  pub accounts : after.accounts ≡ before.accounts
  pub authorizations : after.authorizations ≡ before.authorizations
  pub entries : after.entries ≡ before.entries
  pub by_job : after.authorization_by_job ≡ before.authorization_by_job

pub same : {st : Billing} → SameBooks st st
same = record { accounts = refl; authorizations = refl; entries = refl; by_job = refl }

-- New lots are no matter.
relot :
    {st after : Billing} (lots : List CreditLot)
    → SameBooks (record st { lots = lots }) after
    → SameBooks st after
relot lots s = record {
  accounts = s.accounts;
  authorizations = s.authorizations;
  entries = s.entries;
  by_job = s.by_job;
}

pub hold_lots-SameBooks : (items : Allocations) (st : Billing) → SameBooks st (hold_lots items st).1
unfolding hold_lots
hold_lots-SameBooks [] st = same
hold_lots-SameBooks ((id, amount) ∷ rest) st = elim (Option-cases (find_lot id st.lots)) [
  | inl missing ↦ rw missing same
  | inr (lot, found) ↦ rw found (relot _ (hold_lots-SameBooks rest _))
]

pub free_lots-SameBooks :
    (status : AuthorizationStatus) (items : Allocations) (st : Billing)
    → SameBooks st (free_lots status items st).1
unfolding free_lots
free_lots-SameBooks status [] st = same
free_lots-SameBooks status ((id, amount) ∷ rest) st = elim (Option-cases (find_lot id st.lots)) [
  | inl missing ↦ rw missing same
  | inr (lot, found) ↦ rw found (relot _ (free_lots-SameBooks status rest _))
]

-- The balance of an account.
abbrev pub balance : Identifier → Billing → ℕ
balance k st = (account k st).available_credits

find-keep_other :
    (i k : Identifier) (xs : List CreditAccount)
    → (i == k) ≡ false
    → find (λ a. a.id == i) (keep (λ a. not (a.id == k)) xs) ≡ find (λ a. a.id == i) xs
find-keep_other i k [] h = refl
find-keep_other i k (x ∷ xs) h = ground (arith, find-keep_other i k xs h)

-- The balance of every account after one account is written.
pub balance-put_account :
    (i : Identifier) (a : CreditAccount) (st after : Billing)
    → after.accounts ≡ put_account a st.accounts
    → balance i after ≡ (if i == a.id then a.available_credits else balance i st)
unfolding account put_account
balance-put_account i a st after h = ground (arith, find-keep_other i a.id st.accounts)

pub balance_same :
    (i : Identifier) (st after : Billing)
    → after.accounts ≡ st.accounts
    → balance i after ≡ balance i st
unfolding account
balance_same i st after h = ground arith

-- The ledger gets one entry.
pub record Logged (before after : Billing) (k : Identifier) (a : Option Identifier)
    (expected : EntryKind) (amount : ℤ) : Type 0 where
  pub entry : LedgerEntry
  pub entries : after.entries ≡ entry ∷ before.entries
  pub account : entry.account_id ≡ k
  pub authorization : entry.authorization_id ≡ a
  pub kind : entry.kind ≡ expected
  pub credits : entry.credits ≡ amount

-- What a method writes to the books: nothing, the credits of a purchase or a grant, the reservation
-- of an authorization, or the end of one that was reserved.
pub data Posting (before after : Billing) : Type 0 where
  unposted : SameBooks before after → Posting before after
  credited :
      (k : Identifier) (amount : ℕ)
      → Logged before after k none EntryKind.purchase (pos amount)
      → ((i : Identifier) → balance i after ≡ balance i before + (if i == k then amount else 0))
      → after.authorizations ≡ before.authorizations
      → after.authorization_by_job ≡ before.authorization_by_job
      → Posting before after
  held :
      (a : CreditAuthorization)
      → a.status ≡ AuthorizationStatus.reserved
      → lookup a.job_id before.authorization_by_job ≡ none
      → find_authorization a.id before.authorizations ≡ none
      → Logged before after a.account_id (some a.id) EntryKind.reservation (sub_ℕ 0 a.credits)
      → ((i : Identifier)
          → balance i after + (if i == a.account_id then a.credits else 0) ≡ balance i before)
      → after.authorizations ≡ put_authorization a before.authorizations
      → after.authorization_by_job ≡ (a.job_id, a.id) ∷ before.authorization_by_job
      → Posting before after
  ended :
      (a : CreditAuthorization) (status : AuthorizationStatus)
      → find_authorization a.id before.authorizations ≡ some a
      → a.status ≡ AuthorizationStatus.reserved
      → is_reserved status ≡ false
      → Logged before after a.account_id
          (some a.id)
          (final_kind status)
          (pos (refund status a.credits))
      → ((i : Identifier)
          → balance i after
            ≡ balance i before + (if i == a.account_id then refund status a.credits else 0))
      → after.authorizations
        ≡ put_authorization (record a { status = status }) before.authorizations
      → after.authorization_by_job ≡ before.authorization_by_job
      → Posting before after

-- Nothing but a state that is equal.
pub stays : {st after : Billing} → after ≡ st → Posting st after
stays e = unposted (record {
  accounts = ap (λ (s : Billing). s.accounts) e;
  authorizations = ap (λ (s : Billing). s.authorizations) e;
  entries = ap (λ (s : Billing). s.entries) e;
  by_job = ap (λ (s : Billing). s.authorization_by_job) e;
})
