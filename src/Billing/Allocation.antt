-- ===== src/Billing/Allocation.antt =====
-- How a reservation draws on the lots of its account (the loop of `reserve`).
use kenkui_server.Prelude.{
  ℕ, ◌-◌, min, ◌≡◌, refl, Bool, true, not, ◌&&◌, List, [], ◌∷◌, ◌++◌, arith, sum_by, keep, exists,
  ◌==◌, leb, All, ◌∙◌, ap, Bool-cases, inl, inr,
}
use kenkui_server.Jobs.Models.{Identifier}
use kenkui_server.Billing.Models.{CreditLot, available, is_purchase, Allocations}
use kenkui_server.Billing.Repository.{allocate, by_purchase}

abbrev pub total_of : Allocations → ℕ
total_of = sum_by (λ item. item.1)

abbrev pub capacity : List CreditLot → ℕ
capacity = sum_by available

-- An amount that one of the lots has available.
abbrev pub fits : List CreditLot → Identifier × ℕ → Bool
fits lots item = exists (λ l. l.id == item.0 && leb item.1 (available l)) lots

remaining-allocate : (n : ℕ) (lots : List CreditLot) → (allocate n lots).0 ≡ n - capacity lots
unfolding allocate
remaining-allocate n [] = omega arith
remaining-allocate n (l ∷ lots) = ground (arith, remaining-allocate (n - min n (available l)) lots)

total-allocate :
    (n : ℕ) (lots : List CreditLot) → total_of (allocate n lots).1 ≡ min n (capacity lots)
unfolding allocate
total-allocate n [] = omega arith
total-allocate n (l ∷ lots) = ground (arith, total-allocate (n - min n (available l)) lots)

fits-cons :
    (l : CreditLot) (lots : List CreditLot) (items : Allocations)
    → All (λ i. fits lots i ≡ true) items
    → All (λ i. fits (l ∷ lots) i ≡ true) items
fits-cons l lots [] a = tt
fits-cons l lots (i ∷ items) a = (ground arith, fits-cons l lots items a.1)

allocate-fits : (n : ℕ) (lots : List CreditLot) → All (λ i. fits lots i ≡ true) (allocate n lots).1
unfolding allocate
allocate-fits n [] = tt
allocate-fits n (l ∷ lots) =
    let amount = min n (available l) in
    let rest = fits-cons l lots _ (allocate-fits (n - amount) lots) in
    let own : fits (l ∷ lots) (l.id, amount) ≡ true = ground arith in
    elim (Bool-cases (n - amount == 0)) [
      | inl done ↦ elim (Bool-cases (amount == 0)) [
        | inl idle ↦ rw (done, idle) tt
        | inr taken ↦ rw (done, taken) (own, tt)
      ]
      | inr more ↦ elim (Bool-cases (amount == 0)) [
        | inl idle ↦ rw (more, idle) rest
        | inr taken ↦ rw (more, taken) (own, rest)
      ]
    ]

nothing-allocate : (lots : List CreditLot) → allocate 0 lots ≡ (0, [])
unfolding allocate
nothing-allocate [] = refl
nothing-allocate (l ∷ lots) = ground arith

allocate-append :
    (n : ℕ) (xs ys : List CreditLot)
    → allocate n (xs ++ ys)
      ≡ ((allocate (allocate n xs).0 ys).0, (allocate n xs).1 ++ (allocate (allocate n xs).0 ys).1)
unfolding allocate
allocate-append n [] ys = refl
allocate-append n (l ∷ xs) ys =
    ground (arith, allocate-append (n - min n (available l)) xs ys, nothing-allocate ys)

abbrev pub free_lots_of : List CreditLot → List CreditLot
free_lots_of = keep (λ l. not (is_purchase l.kind))

abbrev pub paid_lots_of : List CreditLot → List CreditLot
paid_lots_of = keep (λ l. is_purchase l.kind)

-- What is drawn on granted lots, and what on purchased ones.
pub record IsDrawn (n : ℕ) (lots : List CreditLot) : Type 0 where
  pub free : Allocations
  pub paid : Allocations
  pub items : (allocate n (by_purchase lots)).1 ≡ free ++ paid
  pub from_free : All (λ i. fits (free_lots_of lots) i ≡ true) free
  pub from_paid : All (λ i. fits (paid_lots_of lots) i ≡ true) paid
  pub free_total : total_of free ≡ min n (capacity (free_lots_of lots))
  pub paid_total :
      total_of paid ≡ min (n - capacity (free_lots_of lots)) (capacity (paid_lots_of lots))
  pub left :
      (allocate n (by_purchase lots)).0
      ≡ n - capacity (free_lots_of lots) - capacity (paid_lots_of lots)

-- A reservation draws on the granted lots as far as they reach and on purchased lots only for what
-- is then missing; it takes from no lot more than the lot has available, and what it cannot
-- allocate is what all lots together lack.
pub allocate-IsDrawn : (n : ℕ) (lots : List CreditLot) → IsDrawn n lots
unfolding by_purchase
allocate-IsDrawn n lots =
    let free_part = free_lots_of lots in
    let paid_part = paid_lots_of lots in
    let split = allocate-append n free_part paid_part in
    let rest = remaining-allocate n free_part in
    record {
      free = (allocate n free_part).1;
      paid = (allocate (n - capacity free_part) paid_part).1;
      items =
          ap (λ r. r.1) split ∙ ap (λ k. (allocate n free_part).1 ++ (allocate k paid_part).1) rest;
      from_free = allocate-fits n free_part;
      from_paid = allocate-fits (n - capacity free_part) paid_part;
      free_total = total-allocate n free_part;
      paid_total = total-allocate (n - capacity free_part) paid_part;
      left =
          ap (λ r. r.0) split
          ∙ ap (λ k. (allocate k paid_part).0) rest
          ∙ remaining-allocate (n - capacity free_part) paid_part;
    }
