-- ===== src/Prelude/Lists.antt =====
-- Lists measured by native numbers, filtered by Boolean tests, and predicates over their entries.
use Prim.Native.Nat.{ℕ, suc, ◌+◌, ◌≤◌}
use mathlib.Core.Path.{◌≡◌, refl, subst}
use mathlib.Core.Logic.{inl, inr}
use mathlib.Core.Bool.{Bool, true, false, ◌||◌, ◌&&◌}
use mathlib.Core.Option.{Option, none, some}
use mathlib.Core.List.{List, [], ◌∷◌, ◌++◌}
use native.Mathlib.Omega.{arith}
use kenkui_server.Prelude.Tests.{if◌then◌else◌, Bool-cases}

module _ {ℓ} {A : Type ℓ} where
  abbrev pub length : List A → ℕ
  length [] = 0
  length (x ∷ xs) = suc (length xs)

  pub length-append : (xs ys : List A) → length (xs ++ ys) ≡ length xs + length ys
  length-append [] ys = omega arith
  length-append (x ∷ xs) ys = omega (arith, length-append xs ys)

  -- The entries that pass a Boolean test.
  abbrev pub keep : (A → Bool) → List A → List A
  keep p [] = []
  keep p (x ∷ xs) = let rest = keep p xs in if p x then x ∷ rest else rest

  -- The first entry that passes a Boolean test.
  abbrev pub find : (A → Bool) → List A → Option A
  find p [] = none
  find p (x ∷ xs) = let rest = find p xs in if p x then some x else rest

  abbrev pub exists : (A → Bool) → List A → Bool
  exists p [] = false
  exists p (x ∷ xs) = p x || exists p xs

  abbrev pub every : (A → Bool) → List A → Bool
  every p [] = true
  every p (x ∷ xs) = p x && every p xs

  -- How many entries pass a Boolean test.
  abbrev pub count : (A → Bool) → List A → ℕ
  count p [] = 0
  count p (x ∷ xs) = (if p x then 1 else 0) + count p xs

  -- `UPDATE … WHERE`: `f` on each entry that passes the test.
  abbrev pub modify : (A → Bool) → (A → A) → List A → List A
  modify p f [] = []
  modify p f (x ∷ xs) = (if p x then f x else x) ∷ modify p f xs

  abbrev pub All {κ} : (A → Type κ) → List A → Type κ
  All P [] = Unit
  All P (x ∷ xs) = P x × All P xs

abbrev pub sum_by {ℓ} : {A : Type ℓ} → (A → ℕ) → List A → ℕ
sum_by f [] = 0
sum_by f (x ∷ xs) = f x + sum_by f xs

module _ {ℓ} {A : Type ℓ} where
  -- An update that keeps a key is seen through a selection by that key.
  pub find-modify :
      (q p : A → Bool) (f : A → A) (xs : List A)
      → ((x : A) → q (f x) ≡ q x)
      → find q (modify p f xs)
        ≡ (elim (find q xs) [ none ↦ none | some x ↦ some (if p x then f x else x) ])
  find-modify q p f [] same = refl
  find-modify q p f (x ∷ xs) same = ground (arith, same x, find-modify q p f xs same)

  -- A test that an update does not change counts the same rows.
  pub count-modify :
      (q p : A → Bool) (f : A → A) (xs : List A)
      → ((x : A) → q (f x) ≡ q x)
      → count q (modify p f xs) ≡ count q xs
  count-modify q p f [] same = refl
  count-modify q p f (x ∷ xs) same = ground (arith, same x, count-modify q p f xs same)

  -- What passes a test that implies another is counted by the other.
  pub count_mono :
      (q p : A → Bool) (xs : List A) → ((x : A) → q x ≡ true → p x ≡ true) → count q xs ≤ count p xs
  count_mono q p [] h = omega arith
  count_mono q p (x ∷ xs) h = ground (arith, h x, count_mono q p xs h)

  -- A predicate that an update keeps on every entry.
  pub All-modify {κ} :
      (P : A → Type κ) (p : A → Bool) (f : A → A) (xs : List A)
      → ((x : A) → P x → P (f x))
      → All P xs
      → All P (modify p f xs)
  All-modify P p f [] kept h = tt
  All-modify P p f (x ∷ xs) kept h = elim (Bool-cases (p x)) [
    | inl hit ↦ rw hit (kept x h.0, All-modify P p f xs kept h.1)
    | inr miss ↦ rw miss (h.0, All-modify P p f xs kept h.1)
  ]

  pub All-map {κ} : (P Q : A → Type κ) (xs : List A) → ((x : A) → P x → Q x) → All P xs → All Q xs
  All-map P Q [] kept h = tt
  All-map P Q (x ∷ xs) kept h = (kept x h.0, All-map P Q xs kept h.1)

  -- What holds of every entry holds of one that is found.
  pub All-find {κ} :
      (P : A → Type κ) (p : A → Bool) (xs : List A) (a : A) → All P xs → find p xs ≡ some a → P a
  All-find P p [] a h found = absurd (ground (arith, found))
  All-find P p (x ∷ xs) a h found = elim (Bool-cases (p x)) [
    | inl hit ↦ subst P (ground (arith, found, hit)) h.0
    | inr miss ↦ All-find P p xs a h.1 (ground (arith, found, miss))
  ]

  pub find_hit : (p : A → Bool) (xs : List A) (a : A) → find p xs ≡ some a → p a ≡ true
  find_hit p [] a found = absurd (ground (arith, found))
  find_hit p (x ∷ xs) a found = elim (Bool-cases (p x)) [
    | inl hit ↦ subst (λ y. p y ≡ true) (ground (arith, found, hit)) hit
    | inr miss ↦ find_hit p xs a (ground (arith, found, miss))
  ]
