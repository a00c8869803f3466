-- ===== src/Hosted/Balance/Lots.antt =====
-- What `PostgresCreditLots` takes from the lots of an account, and gives back to them.
use kenkui_server.Prelude.{
  ℕ, ◌+◌, ◌-◌, ◌≤◌, ◌≡◌, refl, Bool, true, false, not, ◌&&◌, List, [], ◌∷◌, ◌==◌, min, count,
  exists, modify, sum_by, arith, ap, ◌∙◌, count-modify, Bool-cases, inl, inr, ==_iff, subst, sym,
}
use kenkui_server.Prelude.Result.{ok, outcome, raised, returned}
use kenkui_server.Prelude.Sums.{
  sum_by-modify_down, sum_by-modify_up, sum_by_one, exists_only, exists-modify, exists_and,
  exists_weaken, exists-modify_kept,
}
use kenkui_server.Jobs.Models.{Identifier}
use kenkui_server.Billing.Models.{AuthorizationStatus, CreditLot, available}
use kenkui_server.Billing.Repository.{refund}
use kenkui_server.Hosted.Tables.{Allocation, Books, fits, update_lots, insert_allocation}
use kenkui_server.Hosted.Lots.{take, take_all, is_holder, spent, free_all}
use kenkui_server.Hosted.Balance.{
  content, room, lot_rows, SameOthers, same_others, SameOthers-trans, share, IsSized,
}

-- `n` credits of the account's lots were taken.
pub record Drawn (account_id : Identifier) (n : ℕ) (before after : Books) : Type 0 where
  pub others : SameOthers before after
  pub lots : (k : Identifier) → lot_rows k after ≡ lot_rows k before
  pub room : (k : Identifier) → room k after + share account_id k n ≡ room k before
  pub sized : IsSized before → IsSized after

abbrev with_lots : (CreditLot → Bool) → (CreditLot → CreditLot) → Books → Books
with_lots p f st = record st { lots = modify p f st.lots }

module _ (p : CreditLot → Bool) (f : CreditLot → CreditLot) (st after : Books) (n : ℕ) where
  update_lots-eq-ok :
      update_lots p f st ≡ ok (n, after)
      → (exists (λ l. p l && not (fits (f l))) st.lots ≡ false)
        × (count p st.lots ≡ n)
        × (after ≡ with_lots p f st)
  unfolding update_lots
  update_lots-eq-ok h = elim (Bool-cases (exists (λ l. p l && not (fits (f l))) st.lots)) [
    | inl bad ↦ absurd (ground (arith, h, bad))
    | inr fine ↦ (fine, ground (arith, h, fine), ground (arith, h, fine))
  ]

insert_allocation-eq-ok :
    (a : Allocation) (st after : Books) (u : Unit {0})
    → insert_allocation a st ≡ ok (u, after)
    → (exists (λ l. l.id == a.lot_id && l.account_id == a.account_id) st.lots ≡ true)
      × (after ≡ record st { allocations = a ∷ st.allocations })
unfolding insert_allocation
insert_allocation-eq-ok a st after u h = (ground (arith, h), ground (arith, h))

module _ (account_id lot_id : Identifier) (amount : ℕ) where
  abbrev p : CreditLot → Bool
  p l = l.id == lot_id

  abbrev q : CreditLot → Bool
  q l = l.account_id == account_id

  abbrev f : CreditLot → CreditLot
  f l = record l { reserved = l.reserved + amount }

  content_taken :
      (k : Identifier) (l : CreditLot)
      → (fits (f l) && q l) ≡ true
      → content k (f l) + share account_id k amount ≡ content k l
  content_taken k l h = ground (arith, h, (==_iff l.account_id account_id).0)

  -- One row that is taken from.
  take-Drawn :
      (authorization_id : Identifier) (st after : Books) (u : Unit {0})
      → ((k : Identifier) → lot_rows k st ≤ 1)
      → take authorization_id account_id lot_id amount st ≡ ok (u, after)
      → Drawn account_id amount st after
  unfolding take
  take-Drawn authorization_id st after u one h = elim (outcome (update_lots p f st)) [
    | raised e x ↦ absurd (ground (arith, h, x))
    | returned (n, middle) x ↦
        let (fine, rows, held) = update_lots-eq-ok p f st middle n x in
        let allocated : Allocation = record {
          authorization_id = authorization_id;
          lot_id = lot_id;
          account_id = account_id;
          credits = amount;
        } in
        let (there, moved) =
          insert_allocation-eq-ok allocated middle after u (ground (arith, h, x)) in
        let own : exists (λ l. p l && q l) st.lots ≡ true =
          sym (exists-modify (λ l. p l && q l) p f st.lots (λ l. refl))
          ∙ sym (ap (λ (b : Books). exists (λ l. p l && q l) b.lots) held)
          ∙ there in
        let (only, single) = exists_only p q st.lots (one lot_id) own in
        let lots : after.lots ≡ modify p f st.lots =
          ap (λ (b : Books). b.lots) moved ∙ ap (λ (b : Books). b.lots) held in
        record {
          others = record {
            accounts = ap (λ (b : Books). b.accounts) moved ∙ ap (λ (b : Books). b.accounts) held;
            authorizations =
                ap (λ (b : Books). b.authorizations) moved
                ∙ ap (λ (b : Books). b.authorizations) held;
          };
          lots = λ k.
              ap (count (λ l. l.id == k)) lots
              ∙ count-modify (λ l. l.id == k) p f st.lots (λ l. refl);
          room = λ k.
              let total =
                sum_by-modify_down (content k) p (λ l. fits (f l) && q l) f
                  (share account_id k amount) st.lots (exists_and p _ q st.lots fine only)
                  (λ l hit known. content_taken k l known) in
              omega (
                arith,
                ap (sum_by (content k)) lots,
                total,
                sum_by_one p (share account_id k amount) st.lots single,
              );
          sized = λ good.
              ap (exists (λ l. not (fits l))) lots ∙ exists-modify_kept p fits f st.lots good fine;
        }
  ]

Drawn-trans :
    {account_id : Identifier} {m n : ℕ} {a b c : Books}
    → Drawn account_id m a b
    → Drawn account_id n b c
    → Drawn account_id (m + n) a c
Drawn-trans d e = record {
  others = SameOthers-trans d.others e.others;
  lots = λ k. e.lots k ∙ d.lots k;
  room = λ k. ground (arith, d.room k, e.room k);
  sized = λ good. e.sized (d.sized good);
}

-- The loop takes exactly what it was asked for.
pub take_all-Drawn :
    (authorization_id account_id n : ℕ) (rows : List CreditLot) (st after : Books) (u : Unit {0})
    → ((k : Identifier) → lot_rows k st ≤ 1)
    → take_all authorization_id account_id n rows st ≡ ok (u, after)
    → Drawn account_id n st after
unfolding take_all
take_all-Drawn authorization_id account_id n [] st after u one h = cc
take_all-Drawn authorization_id account_id n (row ∷ rows) st after u one h =
    let amount : ℕ = min n (available row) in
    elim (outcome (take authorization_id account_id row.id amount st)) [
      | raised e x ↦ absurd (ground (arith, h, x))
      | returned (v, middle) x ↦
          let d = take-Drawn account_id row.id amount authorization_id st middle v one x in
          elim (Bool-cases (n - amount == 0)) [
            | inl done ↦
                let all : amount ≡ n = ground (arith, done) in
                let end : middle ≡ after = ground (arith, h, x, done) in
                subst (λ m. Drawn account_id m st after) all
                  (subst (Drawn account_id amount st) end d)
            | inr more ↦
                let rest =
                  take_all-Drawn authorization_id account_id (n - amount) rows middle after u
                    (λ k. rw (d.lots k) (one k)) (ground (arith, h, x, more)) in
                let all : amount + (n - amount) ≡ n = omega arith in
                subst (λ m. Drawn account_id m st after) all (Drawn-trans d rest)
          ]
    ]

-- `n` credits came back to the account's lots.
pub record Returned (account_id : Identifier) (n : ℕ) (before after : Books) : Type 0 where
  pub others : SameOthers before after
  pub lots : (k : Identifier) → lot_rows k after ≡ lot_rows k before
  pub room : (k : Identifier) → room k after ≡ room k before + share account_id k n
  pub sized : IsSized before → IsSized after

module _ (status : AuthorizationStatus) (account_id : Identifier) (row : Allocation) where
  abbrev holder : CreditLot → Bool
  holder = is_holder account_id row

  abbrev freed : CreditLot → CreditLot
  freed = spent status row.credits

  content_spent :
      (k : Identifier) (l : CreditLot)
      → holder l ≡ true
      → fits l ≡ true
      → content k (freed l) ≡ content k l + share account_id k (refund status row.credits)
  content_spent k l h fit = ground (arith, h, fit, (==_iff l.account_id account_id).0)

  -- One lot that is freed.
  update_lots-Returned :
      (st after : Books)
      → IsSized st
      → update_lots holder freed st ≡ ok (1, after)
      → Returned account_id (refund status row.credits) st after
  update_lots-Returned st after good h =
      let (fine, rows, held) = update_lots-eq-ok holder freed st after 1 h in
      let lots : after.lots ≡ modify holder freed st.lots = ap (λ (b : Books). b.lots) held in
      record {
        others = record {
          accounts = ap (λ (b : Books). b.accounts) held;
          authorizations = ap (λ (b : Books). b.authorizations) held;
        };
        lots = λ k.
            ap (count (λ l. l.id == k)) lots
            ∙ count-modify (λ l. l.id == k) holder freed st.lots (λ l. refl);
        room = λ k.
            let n = share account_id k (refund status row.credits) in
            let total =
              sum_by-modify_up (content k) holder fits freed n st.lots
                (exists_weaken holder fits st.lots good)
                (λ l hit known. content_spent k l hit known) in
            omega (arith, ap (sum_by (content k)) lots, total, sum_by_one holder n st.lots rows);
        sized = λ g.
            ap (exists (λ l. not (fits l))) lots
            ∙ exists-modify_kept holder fits freed st.lots g fine;
      }

Returned-trans :
    {account_id : Identifier} {m n : ℕ} {a b c : Books}
    → Returned account_id m a b
    → Returned account_id n b c
    → Returned account_id (m + n) a c
Returned-trans d e = record {
  others = SameOthers-trans d.others e.others;
  lots = λ k. e.lots k ∙ d.lots k;
  room = λ k. ground (arith, d.room k, e.room k);
  sized = λ good. e.sized (d.sized good);
}

-- The loop gives back what the rows hold, or nothing where they are consumed.
pub free_all-Returned :
    (status : AuthorizationStatus) (account_id : Identifier) (rows : List Allocation)
    (st after : Books) (u : Unit {0})
    → IsSized st
    → free_all status account_id rows st ≡ ok (u, after)
    → Returned account_id (refund status (sum_by (λ a. a.credits) rows)) st after
unfolding free_all
free_all-Returned status account_id [] st after u good h =
    let same : st ≡ after = ground (arith, h) in
    let none_back : refund status 0 ≡ 0 = ground arith in
    subst (λ b. Returned account_id (refund status 0) st b) same
      (rw none_back (record {
        others = same_others;
        lots = λ k. refl;
        room = λ k. ground arith;
        sized = λ g. g;
      }))
free_all-Returned status account_id (row ∷ rows) st after u good h =
    elim (outcome (update_lots (is_holder account_id row) (spent status row.credits) st)) [
      | raised e x ↦ absurd (ground (arith, h, x))
      | returned (n, middle) x ↦
          let one : n ≡ 1 = ground (arith, h, x) in
          let x' =
            subst
              (λ n.
                update_lots (is_holder account_id row) (spent status row.credits) st
                ≡ ok (n, middle))
              one x in
          let d = update_lots-Returned status account_id row st middle good x' in
          let rest =
            free_all-Returned status account_id rows middle after u (d.sized good)
              (ground (arith, h, x')) in
          let all : refund status row.credits + refund status (sum_by (λ a. a.credits) rows)
              ≡ refund status (row.credits + sum_by (λ a. a.credits) rows) =
            ground arith in
          subst (λ m. Returned account_id m st after) all (Returned-trans d rest)
    ]
