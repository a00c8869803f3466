-- ===== src/Billing/Ledger.antt =====
-- The credit repository under any sequence of its calls: the ledger and the accounts agree, and
-- every authorization is booked once and ended at most once.
use kenkui_server.Prelude.{
  ℕ, ◌+◌, ◌≡◌, inl, inr, refl, Bool, false, Option, none, some, List, [], ◌∷◌, arith, Bool-cases,
  if◌then◌else◌, Text, ◌==◌, ==_iff, sum_by, ap, ◌∙◌, subst, sym,
}
use kenkui_server.Prelude.Int.{ℤ, pos, sub_ℕ, pos_part, neg_part}
use kenkui_server.Jobs.Models.{Identifier}
use kenkui_server.Billing.Models.{
  AuthorizationStatus, CreditAuthorization, EntryKind, LedgerEntry, LotKind, Billing, empty,
  find_authorization, account,
}
use kenkui_server.Billing.Repository.{grant_as, process_payment_event, reserve, finalize}
use kenkui_server.Billing.Books.{
  balance_same, SameBooks, balance, Logged, Posting, unposted, credited, held, ended,
}
use kenkui_server.Billing.Books.Grants.{grant_as-Posting, process_payment_event-Posting}
use kenkui_server.Billing.Holdings.{find_authorization-put_authorization}
use kenkui_server.Billing.Books.Stock.{IsStocked}
use kenkui_server.Billing.Books.Raises.{grant_as-IsStocked, process_payment_event-IsStocked}
use kenkui_server.Billing.Books.Closings.{reserve_made, finalize_made}

-- One call of the repository, which returns or raises: what was written before a raise stays
-- written. The `uuid4` of a new authorization is a new one.
pub data Call (st after : Billing) : Type 0 where
  grants :
      (now lot_uuid entry_uuid account_id credits : ℕ) (reference : Text) (kind : LotKind)
      → after ≡ (grant_as now lot_uuid entry_uuid account_id credits reference kind st).1
      → Call st after
  pays :
      (now lot_uuid entry_uuid : ℕ) (provider event : Text) (account_id credits : ℕ)
      → after
        ≡ (process_payment_event now lot_uuid entry_uuid provider event account_id credits st).1
      → Call st after
  reserves :
      (now uuid entry_uuid job_id account_id credits : ℕ)
      → find_authorization uuid st.authorizations ≡ none
      → after ≡ (reserve now uuid entry_uuid job_id account_id credits st).1
      → Call st after
  finalizes :
      (now entry_uuid job_id : ℕ) (status : AuthorizationStatus)
      → after ≡ (finalize now entry_uuid job_id status st).1
      → Call st after

pub data Calls (st : Billing) : Billing → Type 0 where
  none_made : Calls st st
  made : {middle after : Billing} → Calls st middle → Call middle after → Calls st after

-- What the ledger adds to an account, and what it takes from it.
abbrev pub added : Identifier → List LedgerEntry → ℕ
added k = sum_by (λ e. if k == e.account_id then pos_part e.credits else 0)

abbrev pub taken : Identifier → List LedgerEntry → ℕ
taken k = sum_by (λ e. if k == e.account_id then neg_part e.credits else 0)

-- The entries that an authorization has, newest first: its reservation, and the one that ended it.
abbrev pub trail : Option CreditAuthorization → List (EntryKind × ℤ)
trail none = []
trail (some a) = elim a.status [
  | AuthorizationStatus.reserved ↦ (EntryKind.reservation, sub_ℕ 0 a.credits) ∷ []
  | AuthorizationStatus.settled ↦
      (EntryKind.settlement, pos 0) ∷ (EntryKind.reservation, sub_ℕ 0 a.credits) ∷ []
  | AuthorizationStatus.released ↦
      (EntryKind.release, pos a.credits) ∷ (EntryKind.reservation, sub_ℕ 0 a.credits) ∷ []
]

abbrev pub is_for : Identifier → Option Identifier → Bool
is_for id none = false
is_for id (some a) = a == id

abbrev pub booked : Identifier → List LedgerEntry → List (EntryKind × ℤ)
booked id [] = []
booked id (e ∷ es) =
    let rest = booked id es in
    if is_for id e.authorization_id then (e.kind, e.credits) ∷ rest else rest

pub record IsBalanced (st : Billing) : Type 0 where
  pub accounts : (k : Identifier) → balance k st + taken k st.entries ≡ added k st.entries
  pub trails :
      (id : Identifier) → booked id st.entries ≡ trail (find_authorization id st.authorizations)
  pub stocked : IsStocked st

module _ (st after : Billing) (k : Identifier) where
  added_same : SameBooks st after → added k after.entries ≡ added k st.entries
  added_same s = ap (added k) s.entries

  taken_same : SameBooks st after → taken k after.entries ≡ taken k st.entries
  taken_same s = ap (taken k) s.entries

  added-Logged :
      (i : Identifier) (a : Option Identifier) (kind : EntryKind) (amount : ℤ)
      → Logged st after i a kind amount
      → added k after.entries ≡ (if k == i then pos_part amount else 0) + added k st.entries
  added-Logged i a kind amount l = ap (added k) l.entries ∙ ground (arith, l.account, l.credits)

  taken-Logged :
      (i : Identifier) (a : Option Identifier) (kind : EntryKind) (amount : ℤ)
      → Logged st after i a kind amount
      → taken k after.entries ≡ (if k == i then neg_part amount else 0) + taken k st.entries
  taken-Logged i a kind amount l = ap (taken k) l.entries ∙ ground (arith, l.account, l.credits)

  accounts_after :
      Posting st after
      → balance k st + taken k st.entries ≡ added k st.entries
      → balance k after + taken k after.entries ≡ added k after.entries
  accounts_after (unposted s) h =
      omega (arith, balance_same k st after s.accounts, added_same s, taken_same s)
  accounts_after (credited i amount l b x y) h =
      ground (arith, added-Logged _ _ _ _ l, taken-Logged _ _ _ _ l, b k)
  accounts_after (held a q fresh new l b x y) h =
      ground (arith, added-Logged _ _ _ _ l, taken-Logged _ _ _ _ l, b k)
  accounts_after (ended a status f q fin l b x y) h =
      ground (arith, added-Logged _ _ _ _ l, taken-Logged _ _ _ _ l, b k)

module _ (id : Identifier) where
  booked-Logged :
      (st after : Billing) (i : Identifier) (a : Option Identifier) (kind : EntryKind) (amount : ℤ)
      → Logged st after i a kind amount
      → booked id after.entries
        ≡ (if is_for id a then (kind, amount) ∷ booked id st.entries else booked id st.entries)
  booked-Logged st after i a kind amount l =
      ap (booked id) l.entries ∙ ground (arith, l.authorization, l.kind, l.credits)

  trails_after :
      (st after : Billing)
      → Posting st after
      → booked id st.entries ≡ trail (find_authorization id st.authorizations)
      → booked id after.entries ≡ trail (find_authorization id after.authorizations)
  trails_after st after (unposted s) h =
      ap (booked id) s.entries
      ∙ h
      ∙ ap (λ xs. trail (find_authorization id xs)) (sym s.authorizations)
  trails_after st after (credited i amount l b x y) h =
      booked-Logged st after _ _ _ _ l ∙ h ∙ ap (λ xs. trail (find_authorization id xs)) (sym x)
  trails_after st after (held a q fresh new l b x y) h =
      let found =
        ap (find_authorization id) x
        ∙ find_authorization-put_authorization id a st.authorizations in
      let logged = booked-Logged st after _ _ _ _ l in
      elim (Bool-cases (a.id == id)) [
        | inl own ↦
            let none_yet : find_authorization id st.authorizations ≡ none =
              subst (λ k. find_authorization k st.authorizations ≡ none) ((==_iff a.id id).0 own)
                new in
            ground (arith, found, logged)
        | inr other ↦ ground (arith, found, logged)
      ]
  trails_after st after (ended a status f q fin l b x y) h =
      let found =
        ap (find_authorization id) x
        ∙ find_authorization-put_authorization id (record a { status = status })
            st.authorizations in
      let logged = booked-Logged st after _ _ _ _ l in
      elim (Bool-cases (a.id == id)) [
        | inl own ↦
            let open_one : find_authorization id st.authorizations ≡ some a =
              subst (λ k. find_authorization k st.authorizations ≡ some a) ((==_iff a.id id).0 own)
                f in
            ground (arith, found, logged)
        | inr other ↦ ground (arith, found, logged)
      ]

Call-Posting :
    (st after : Billing) → IsStocked st → Call st after → Posting st after × IsStocked after
Call-Posting st after s (grants now l e k n reference kind h) =
    subst (λ x. Posting st x × IsStocked x) (sym h)
      (
        grant_as-Posting now l e k n reference kind st,
        grant_as-IsStocked now l e k n reference kind st s,
      )
Call-Posting st after s (pays now l e provider event k n h) =
    subst (λ x. Posting st x × IsStocked x) (sym h)
      (
        process_payment_event-Posting now l e provider event k n st,
        process_payment_event-IsStocked now l e provider event k n st s,
      )
Call-Posting st after s (reserves now u e j k n new h) =
    subst (λ x. Posting st x × IsStocked x) (sym h) (reserve_made now u e j k n st new s)
Call-Posting st after s (finalizes now e j status h) =
    subst (λ x. Posting st x × IsStocked x) (sym h) (finalize_made now e j status st s)

pub empty-IsBalanced : IsBalanced empty
unfolding account find_authorization
empty-IsBalanced = record {
  accounts = λ k. refl;
  trails = λ id. refl;
  stocked = λ id a found. absurd (ground (arith, found));
}

-- Whatever calls are made on a balanced repository, and whether each of them returns or raises, it
-- stays balanced: the credits of every account are what the ledger adds to it less what the ledger
-- takes from it; the ledger has, for every authorization, exactly its reservation and, once it is
-- settled or released, exactly one entry that ends it, with the refund that its status asks for; and
-- every authorization has its allocations, each from a lot that is stored.
pub Calls-IsBalanced : (st after : Billing) → IsBalanced st → Calls st after → IsBalanced after
Calls-IsBalanced st after s none_made = s
Calls-IsBalanced st after s (made {middle} cs c) =
    let b = Calls-IsBalanced st middle s cs in
    let (p, stocked) = Call-Posting middle after b.stocked c in
    record {
      accounts = λ k. accounts_after middle after k p (b.accounts k);
      trails = λ id. trails_after id middle after p (b.trails id);
      stocked = stocked;
    }
