-- ===== src/Prelude/Transaction.antt =====
-- `with database.transaction()`: the block commits the state that it ends with, and an error
-- carries no state, since every write of the block is rolled back.
use kenkui_server.Prelude.{Bool, true, false, Option, none, some, ◌≡◌, refl, subst, arith}
use kenkui_server.Prelude.Result.{Error, Result, ok, err, outcome, raised, returned}

abbrev pub Transaction : Type 0 → Type 0 → Type 0
Transaction S A = S → Result (A × S)

module _ {S : Type 0} where
  infixl 5 ◌>>=◌ ◌>>◌
  abbrev pub pure : {A : Type 0} → A → Transaction S A
  pure a s = ok (a, s)

  abbrev pub raise : {A : Type 0} → Error → Transaction S A
  raise e s = err e

  abbrev pub ◌>>=◌ : {A B : Type 0} → Transaction S A → (A → Transaction S B) → Transaction S B
  ◌>>=◌ m f s = elim (m s) [ ok (a, s') ↦ f a s' | err e ↦ err e ]

  abbrev pub ◌>>◌ : {A B : Type 0} → Transaction S A → Transaction S B → Transaction S B
  m >> k = m >>= λ _. k

  -- A query.
  abbrev pub gets : {A : Type 0} → (S → A) → Transaction S A
  gets f s = ok (f s, s)

  abbrev pub raise_if : Bool → Error → Transaction S (Unit {0})
  raise_if true e s = err e
  raise_if false e s = ok (tt, s)

  abbrev pub or_raise : {A : Type 0} → Option A → Error → Transaction S A
  or_raise none e s = err e
  or_raise (some a) e s = ok (a, s)

  -- An unconditional write.
  abbrev pub execute : (S → S) → Transaction S (Unit {0})
  execute f s = ok (tt, f s)

  -- A pure computation that may raise.
  abbrev pub lift : {A : Type 0} → Result A → Transaction S A
  lift (ok a) s = ok (a, s)
  lift (err e) s = err e

-- The state that the database holds after the block.
abbrev pub after : {S A : Type 0} → S → Result (A × S) → S
after s (ok (_, s')) = s'
after s (err _) = s

module _ {S A B : Type 0} where
  -- A block that returned has returned from its first statement.
  pub >>=-eq-ok :
      (m : Transaction S A) (f : A → Transaction S B) (s s' : S) (b : B)
      → (m >>= f) s ≡ ok (b, s')
      → (a : A) × (middle : S) × (m s ≡ ok (a, middle)) × (f a middle ≡ ok (b, s'))
  >>=-eq-ok m f s s' b h = elim (outcome (m s)) [
    | raised e x ↦ absurd (ground (arith, h, x))
    | returned (a, middle) x ↦
        (a, middle, x, subst (λ (r : Result (A × S)). passed r ≡ ok (b, s')) x h)
  ]
    where
      passed : Result (A × S) → Result (B × S)
      passed r = elim r [ ok (a, s') ↦ f a s' | err e ↦ err e ]

pub raise_if-eq-ok :
    {S : Type 0} (c : Bool) (e : Error) (s s' : S) (u : Unit {0})
    → raise_if c e s ≡ ok (u, s')
    → (c ≡ false) × (s ≡ s')
raise_if-eq-ok true e s s' u h = absurd (ground (arith, h))
raise_if-eq-ok false e s s' u h = (refl, ground (arith, h))
