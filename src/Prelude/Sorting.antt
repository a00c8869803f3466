-- ===== src/Prelude/Sorting.antt =====
-- `ORDER BY` a number: a stable insertion sort.
use kenkui_server.Prelude.{
  ℕ, ◌<◌, ◌≡◌, refl, List, [], ◌∷◌, ◌++◌, arith, leb, if◌then◌else◌, All, Bool-cases, inl, inr,
}

module _ {ℓ} {A : Type ℓ} (key : A → ℕ) where
  unfoldable pub insert_by : A → List A → List A
  insert_by a [] = a ∷ []
  insert_by a (x ∷ xs) =
      let rest = insert_by a xs in if leb (key a) (key x) then a ∷ x ∷ xs else x ∷ rest

  unfoldable pub sort_by : List A → List A
  unfolding insert_by
  sort_by [] = []
  sort_by (x ∷ xs) = insert_by x (sort_by xs)

  -- What is above all keys goes to the end.
  pub insert_by-last :
      (a : A) (xs : List A) → All (λ x. key x < key a) xs → insert_by a xs ≡ xs ++ (a ∷ [])
  unfolding insert_by
  insert_by-last a [] h = refl
  insert_by-last a (x ∷ xs) h = ground (arith, insert_by-last a xs h.1)

  pub insert_by-All {κ} :
      (P : A → Type κ) (a : A) (xs : List A) → P a → All P xs → All P (insert_by a xs)
  unfolding insert_by
  insert_by-All P a [] h k = (h, tt)
  insert_by-All P a (x ∷ xs) h k = elim (Bool-cases (leb (key a) (key x))) [
    | inl first ↦ rw first (h, k)
    | inr later ↦ rw later (k.0, insert_by-All P a xs h k.1)
  ]

  pub sort_by-All {κ} : (P : A → Type κ) (xs : List A) → All P xs → All P (sort_by xs)
  unfolding sort_by
  sort_by-All P [] k = tt
  sort_by-All P (x ∷ xs) k = insert_by-All P x (sort_by xs) k.0 (sort_by-All P xs k.1)
