-- ===== src/Billing/Books/Grants.antt =====
-- A grant and a payment event, which raise or not, make one posting.
use kenkui_server.Prelude.{
  ℕ, ◌+◌, ◌≡◌, inl, inr, refl, Option, List, ◌∷◌, arith, Bool-cases, if◌then◌else◌, Text, ◌==◌,
  exists, text_eq, text_eq_iff, subst, sym, ◌∙◌, ap, true, false,
}
use kenkui_server.Prelude.Int.{ℤ}
use kenkui_server.Prelude.Result.{Error, ok, err, outcome, raised, returned}
use kenkui_server.Jobs.Models.{Identifier}
use kenkui_server.Billing.Models.{CreditAccount, EntryKind, LotKind, Billing, account}
use kenkui_server.Billing.Repository.{
  grant_as, event_reference, grant_again, grant_new, granted_account, process_payment_event,
}
use kenkui_server.Billing.Books.{
  same, balance, balance-put_account, Logged, Posting, unposted, credited, held, ended,
}
use kenkui_server.Billing.Books.{stays}

grant_again-stays :
    (account_id credits : ℕ) (reference : Text) (kind : LotKind) (st : Billing)
    → (grant_again account_id credits reference kind st).1 ≡ st
unfolding grant_again
grant_again-stays account_id credits reference kind st = ground arith

raised_balance :
    (i account_id credits : ℕ) (st after : Billing)
    → balance i after ≡ (
        if i == (granted_account account_id credits st).id
        then (granted_account account_id credits st).available_credits
        else balance i st)
    → balance i after ≡ balance i st + (if i == account_id then credits else 0)
unfolding granted_account
raised_balance i account_id credits st after h = ground arith

grant_new-Posting :
    (now lot_uuid entry_uuid account_id credits : ℕ) (reference : Text) (kind : LotKind)
    (st : Billing)
    → Posting st (grant_new now lot_uuid entry_uuid account_id credits reference kind st).1
unfolding grant_new
grant_new-Posting now lot_uuid entry_uuid account_id credits reference kind st =
    credited account_id credits
      (record {
        entry = _;
        entries = refl;
        account = refl;
        authorization = refl;
        kind = refl;
        credits = refl;
      })
      (λ i.
        raised_balance i account_id credits st _
          (balance-put_account i (granted_account account_id credits st) st _ refl))
      refl refl

-- A grant, which raises or not.
pub grant_as-Posting :
    (now lot_uuid entry_uuid account_id credits : ℕ) (reference : Text) (kind : LotKind)
    (st : Billing)
    → Posting st (grant_as now lot_uuid entry_uuid account_id credits reference kind st).1
unfolding grant_as
grant_as-Posting now lot_uuid entry_uuid account_id credits reference kind st =
    elim (Bool-cases (credits == 0)) [
      | inl none_given ↦ rw none_given (unposted same)
      | inr some_given ↦ elim (Bool-cases (exists (text_eq reference) st.references)) [
        | inl used ↦
            rw (some_given, used) (stays (grant_again-stays account_id credits reference kind st))
        | inr fresh ↦
            rw (some_given, fresh)
              (grant_new-Posting now lot_uuid entry_uuid account_id credits reference kind st)
      ]
    ]

relog :
    {st middle after : Billing} {k : Identifier} {a : Option Identifier} {kind : EntryKind}
    {amount : ℤ}
    → after.entries ≡ middle.entries
    → Logged st middle k a kind amount
    → Logged st after k a kind amount
relog e l = record {
  entry = l.entry;
  entries = e ∙ l.entries;
  account = l.account;
  authorization = l.authorization;
  kind = l.kind;
  credits = l.credits;
}

-- The books do not hold the processed events.
processed-Posting :
    (st middle : Billing) (events : List (Text × Text))
    → Posting st middle
    → Posting st (record middle { processed_payment_events = events })
unfolding account
processed-Posting st middle events (unposted s) = unposted (record {
  accounts = s.accounts;
  authorizations = s.authorizations;
  entries = s.entries;
  by_job = s.by_job;
})
processed-Posting st middle events (credited k n l b x y) = credited k n (relog refl l) b x y
processed-Posting st middle events (held a q fresh new l b x y) =
    held a q fresh new (relog refl l) b x y
processed-Posting st middle events (ended a status f q final l b x y) =
    ended a status f q final (relog refl l) b x y

-- A payment event, which raises or not.
pub process_payment_event-Posting :
    (now lot_uuid entry_uuid : ℕ) (provider event : Text) (account_id credits : ℕ) (st : Billing)
    → Posting st
        (process_payment_event now lot_uuid entry_uuid provider event account_id credits st).1
unfolding process_payment_event
process_payment_event-Posting now lot_uuid entry_uuid provider event account_id credits st =
    let reference = event_reference provider event in
    let r = grant_as now lot_uuid entry_uuid account_id credits reference LotKind.purchase st in
    let p =
      grant_as-Posting now lot_uuid entry_uuid account_id credits reference LotKind.purchase st in
    let end = process_payment_event now lot_uuid entry_uuid provider event account_id credits st in
    elim (outcome r.0) [
      | raised code e ↦ let stop : end.1 ≡ r.1 = ground arith in subst (Posting st) (sym stop) p
      | returned a e ↦
          let stop : end.1 ≡ record r.1 {
            processed_payment_events = (provider, event) ∷ r.1.processed_payment_events;
          } =
            ground arith in
          subst (Posting st) (sym stop) (processed-Posting st r.1 _ p)
    ]

-- What a payment that returned does to the balances: the credits, once for each reference.
pub record Credits (reference : Text) (account_id credits : ℕ) (st after : Billing) : Type 0 where
  pub fresh :
      exists (text_eq reference) st.references ≡ false
      → (k : Identifier) → balance k after ≡ balance k st + (if k == account_id then credits else 0)
  pub repeated :
      exists (text_eq reference) st.references ≡ true
      → (k : Identifier) → balance k after ≡ balance k st
  pub used : exists (text_eq reference) after.references ≡ true

module _ (now lot_uuid entry_uuid account_id credits : ℕ) (reference : Text) (kind : LotKind)
    (st after : Billing) where
  grant_as_refused :
      (code : Error)
      → grant_as now lot_uuid entry_uuid account_id credits reference kind st ≡ (err code, after)
      → after ≡ st
  unfolding grant_as grant_again grant_new
  grant_as_refused code h = ground arith

  grant_as_again :
      (a : CreditAccount)
      → grant_as now lot_uuid entry_uuid account_id credits reference kind st ≡ (ok a, after)
      → exists (text_eq reference) st.references ≡ true
      → after ≡ st
  unfolding grant_as grant_again
  grant_as_again a h seen = ground (arith, h, seen)

  grant_as_new :
      (a : CreditAccount)
      → grant_as now lot_uuid entry_uuid account_id credits reference kind st ≡ (ok a, after)
      → exists (text_eq reference) st.references ≡ false
      → after ≡ (grant_new now lot_uuid entry_uuid account_id credits reference kind st).1
  unfolding grant_as
  grant_as_new a h unseen = ground (arith, h, unseen)

  grant_new-balance :
      (k : Identifier)
      → balance k (grant_new now lot_uuid entry_uuid account_id credits reference kind st).1
        ≡ balance k st + (if k == account_id then credits else 0)
  unfolding grant_new
  grant_new-balance k =
      raised_balance k account_id credits st _
        (balance-put_account k (granted_account account_id credits st) st _ refl)

  grant_new-used :
      exists
        (text_eq reference)
        (grant_new now lot_uuid entry_uuid account_id credits reference kind st).1.references
      ≡ true
  unfolding grant_new
  grant_new-used = ground (arith, (text_eq_iff reference reference).1 refl)

  grant_as-Credits :
      (a : CreditAccount)
      → grant_as now lot_uuid entry_uuid account_id credits reference kind st ≡ (ok a, after)
      → Credits reference account_id credits st after
  grant_as-Credits a h = record {
    fresh = λ unseen k. ap (balance k) (grant_as_new a h unseen) ∙ grant_new-balance k;
    repeated = λ seen k. ap (balance k) (grant_as_again a h seen);
    used = elim (Bool-cases (exists (text_eq reference) st.references)) [
      | inl seen ↦ rw (grant_as_again a h seen) seen
      | inr unseen ↦ rw (grant_as_new a h unseen) grant_new-used
    ];
  }

module _ (now lot_uuid entry_uuid : ℕ) (provider event : Text) (account_id credits : ℕ)
    (st after : Billing) where
  -- A payment event that raises changes nothing.
  pub process_payment_event_refused :
      (code : Error)
      → process_payment_event now lot_uuid entry_uuid provider event account_id credits st
        ≡ (err code, after)
      → after ≡ st
  unfolding process_payment_event
  process_payment_event_refused code h =
      let reference = event_reference provider event in
      let r = grant_as now lot_uuid entry_uuid account_id credits reference LotKind.purchase st in
      elim (outcome r.0) [
        | raised c e ↦
            let stop : r.1 ≡ after = ground (arith, h, e) in
            sym stop
            ∙ grant_as_refused now lot_uuid entry_uuid account_id credits reference LotKind.purchase
                st r.1 c (ground (arith, e))
        | returned a e ↦ absurd (ground (arith, h, e))
      ]

  pub process_payment_event-Credits :
      (a : CreditAccount)
      → process_payment_event now lot_uuid entry_uuid provider event account_id credits st
        ≡ (ok a, after)
      → Credits (event_reference provider event) account_id credits st after
  unfolding process_payment_event account
  process_payment_event-Credits a h =
      let reference = event_reference provider event in
      let r = grant_as now lot_uuid entry_uuid account_id credits reference LotKind.purchase st in
      elim (outcome r.0) [
        | raised c e ↦ absurd (ground (arith, h, e))
        | returned b e ↦
            let c =
              grant_as-Credits now lot_uuid entry_uuid account_id credits reference LotKind.purchase
                st r.1 b (ground (arith, e)) in
            let end : record r.1 {
              processed_payment_events = (provider, event) ∷ r.1.processed_payment_events;
            }
                ≡ after =
              ground (arith, h, e) in
            subst (Credits reference account_id credits st) end
              (record { fresh = c.fresh; repeated = c.repeated; used = c.used })
      ]
