-- ===== src/Billing/Holdings.antt =====
-- What the credit repository stores for each authorization: its allocations, and a lot for each of
-- them. A final call finds all of it, so that it does not raise halfway.
use kenkui_server.Prelude.{
  ℕ, ◌+◌, ◌≡◌, ◌≢◌, refl, true, false, not, none, some, is_some, List, [], ◌∷◌, ◌++◌, modify, ◌==◌,
  if◌then◌else◌, keep, All, arith, ap, ◌∙◌, sym, subst, Bool-cases, Option-cases, inl, inr,
}
use kenkui_server.Prelude.Result.{Result, ok}
use kenkui_server.Jobs.Models.{Identifier}
use kenkui_server.Billing.Models.{
  AuthorizationStatus, CreditAuthorization, CreditLot, Billing, Allocations, find_authorization,
  find_lot, put_lot, put_authorization,
}
use kenkui_server.Billing.Repository.{hold_lots, free_lots}

module _ (id : Identifier) where
  find-keep_other :
      (k : Identifier) (xs : List CreditAuthorization)
      → (id == k) ≡ false
      → find_authorization id (keep (λ a. not (a.id == k)) xs) ≡ find_authorization id xs
  unfolding find_authorization
  find-keep_other k [] h = refl
  find-keep_other k (x ∷ xs) h = ground (arith, find-keep_other k xs h)

  pub find_authorization-put_authorization :
      (a : CreditAuthorization) (xs : List CreditAuthorization)
      → find_authorization id (put_authorization a xs)
        ≡ (if a.id == id then some a else find_authorization id xs)
  unfolding put_authorization find_authorization
  find_authorization-put_authorization a xs = ground (arith, find-keep_other a.id xs)

-- The lot is stored.
abbrev pub HasLot : List CreditLot → Identifier → Type 0
HasLot lots i = is_some (find_lot i lots) ≡ true

abbrev pub HasLots : List CreditLot → Allocations → Type 0
HasLots lots items = All (λ i. HasLot lots i.0) items

find_lot-modify :
    (i : Identifier) (lot : CreditLot) (lots : List CreditLot)
    → is_some (find_lot i lots) ≡ true
    → is_some (find_lot i (modify (λ l. l.id == lot.id) (λ _. lot) lots)) ≡ true
unfolding find_lot
find_lot-modify i lot [] h = h
find_lot-modify i lot (x ∷ xs) h = ground (arith, h, find_lot-modify i lot xs)

find_lot-append :
    (i : Identifier) (lot : CreditLot) (lots : List CreditLot)
    → is_some (find_lot i lots) ≡ true
    → is_some (find_lot i (lots ++ (lot ∷ []))) ≡ true
unfolding find_lot
find_lot-append i lot [] h = ground (arith, h)
find_lot-append i lot (x ∷ xs) h = ground (arith, h, find_lot-append i lot xs)

-- A lot that is written takes none away.
pub put_lot-HasLot :
    (lot : CreditLot) (lots : List CreditLot) (i : Identifier)
    → HasLot lots i
    → HasLot (put_lot lot lots) i
unfolding put_lot
put_lot-HasLot lot lots i h = elim (Bool-cases (is_some (find_lot lot.id lots))) [
  | inl known ↦ rw known (find_lot-modify i lot lots h)
  | inr new ↦ rw new (find_lot-append i lot lots h)
]

pub put_lot-HasLots :
    (lot : CreditLot) (lots : List CreditLot) (items : Allocations)
    → HasLots lots items
    → HasLots (put_lot lot lots) items
put_lot-HasLots lot lots [] h = tt
put_lot-HasLots lot lots (i ∷ is) h =
    (put_lot-HasLot lot lots i.0 h.0, put_lot-HasLots lot lots is h.1)

-- Loops over the allocations take no lot away, and leave the allocations alone.
pub hold_lots-HasLot :
    (items : Allocations) (st : Billing) (i : Identifier)
    → HasLot st.lots i
    → HasLot (hold_lots items st).1.lots i
unfolding hold_lots
hold_lots-HasLot [] st i h = h
hold_lots-HasLot ((id, amount) ∷ rest) st i h = elim (Option-cases (find_lot id st.lots)) [
  | inl missing ↦ rw missing h
  | inr (lot, found) ↦ rw found (hold_lots-HasLot rest _ i (put_lot-HasLot _ st.lots i h))
]

pub free_lots-HasLot :
    (status : AuthorizationStatus) (items : Allocations) (st : Billing) (i : Identifier)
    → HasLot st.lots i
    → HasLot (free_lots status items st).1.lots i
unfolding free_lots
free_lots-HasLot status [] st i h = h
free_lots-HasLot status ((id, amount) ∷ rest) st i h = elim (Option-cases (find_lot id st.lots)) [
  | inl missing ↦ rw missing h
  | inr (lot, found) ↦ rw found (free_lots-HasLot status rest _ i (put_lot-HasLot _ st.lots i h))
]

pub hold_lots-allocations :
    (items : Allocations) (st : Billing) → (hold_lots items st).1.allocations ≡ st.allocations
unfolding hold_lots
hold_lots-allocations [] st = refl
hold_lots-allocations ((id, amount) ∷ rest) st = elim (Option-cases (find_lot id st.lots)) [
  | inl missing ↦ rw missing refl
  | inr (lot, found) ↦ rw found (hold_lots-allocations rest _)
]

pub free_lots-allocations :
    (status : AuthorizationStatus) (items : Allocations) (st : Billing)
    → (free_lots status items st).1.allocations ≡ st.allocations
unfolding free_lots
free_lots-allocations status [] st = refl
free_lots-allocations status ((id, amount) ∷ rest) st = elim (Option-cases (find_lot id st.lots)) [
  | inl missing ↦ rw missing refl
  | inr (lot, found) ↦ rw found (free_lots-allocations status rest _)
]

hold_lots_missing :
    (id : Identifier) (amount : ℕ) (rest : Allocations) (st : Billing) (u : Unit {0})
    → find_lot id st.lots ≡ none
    → (hold_lots ((id, amount) ∷ rest) st).0 ≢ ok u
unfolding hold_lots
hold_lots_missing id amount rest st u missing h = ground (arith, h, missing)

hold_lots_step :
    (id : Identifier) (amount : ℕ) (rest : Allocations) (st : Billing) (lot : CreditLot)
    → find_lot id st.lots ≡ some lot
    → hold_lots ((id, amount) ∷ rest) st
      ≡ hold_lots rest
          (record st { lots = put_lot (record lot { reserved = lot.reserved + amount }) st.lots })
unfolding hold_lots
hold_lots_step id amount rest st lot found = rw found refl

-- Credits that are held are held in lots that are stored.
pub hold_lots-HasLots :
    (items : Allocations) (st : Billing) (u : Unit {0})
    → (hold_lots items st).0 ≡ ok u
    → HasLots (hold_lots items st).1.lots items
hold_lots-HasLots [] st u h = tt
hold_lots-HasLots ((id, amount) ∷ rest) st u h = elim (Option-cases (find_lot id st.lots)) [
  | inl missing ↦ absurd (hold_lots_missing id amount rest st u missing h)
  | inr (lot, found) ↦
      let known : HasLot st.lots id = ground (arith, found) in
      let step = hold_lots_step id amount rest st lot found in
      (
        hold_lots-HasLot ((id, amount) ∷ rest) st id known,
        subst (λ (x : Result (Unit {0}) × Billing). HasLots x.1.lots rest) (sym step)
            (hold_lots-HasLots rest
              (record st {
                lots = put_lot (record lot { reserved = lot.reserved + amount }) st.lots;
              })
              u (sym (ap (λ (x : Result (Unit {0}) × Billing). x.0) step) ∙ h)),
      )
]

-- What is allocated from lots that are stored is freed, without a raise.
pub free_lots_returns :
    (status : AuthorizationStatus) (items : Allocations) (st : Billing)
    → HasLots st.lots items
    → (free_lots status items st).0 ≡ ok tt
unfolding free_lots
free_lots_returns status [] st h = refl
free_lots_returns status ((id, amount) ∷ rest) st h = elim (Option-cases (find_lot id st.lots)) [
  | inl missing ↦ absurd (ground (arith, h.0, missing))
  | inr (lot, found) ↦
      rw found (free_lots_returns status rest _ (put_lot-HasLots _ st.lots rest h.1))
]
