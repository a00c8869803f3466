-- ===== src/Prelude/Sums.antt =====
-- Totals and counts of rows under `UPDATE`, and keys of which a table has one row at most.
use kenkui_server.Prelude.{
  ℕ, ◌+◌, ◌≤◌, ◌≡◌, refl, Bool, true, false, not, ◌&&◌, ◌||◌, List, [], ◌∷◌, ◌++◌, arith,
  if◌then◌else◌, count, exists, modify, sum_by, find, none,
}

module _ {ℓ} {A : Type ℓ} where
  -- The total of an update that takes `c` from each of its rows. The test `g` is what is known of
  -- the rows.
  pub sum_by-modify_down :
      (w : A → ℕ) (p g : A → Bool) (f : A → A) (c : ℕ) (xs : List A)
      → exists (λ x. p x && not (g x)) xs ≡ false
      → ((x : A) → p x ≡ true → g x ≡ true → w (f x) + c ≡ w x)
      → sum_by w (modify p f xs) + sum_by (λ x. if p x then c else 0) xs ≡ sum_by w xs
  sum_by-modify_down w p g f c [] known step = omega arith
  sum_by-modify_down w p g f c (x ∷ xs) known step =
      ground (arith, step x, sum_by-modify_down w p g f c xs)

  -- The same for an update that adds `c`.
  pub sum_by-modify_up :
      (w : A → ℕ) (p g : A → Bool) (f : A → A) (c : ℕ) (xs : List A)
      → exists (λ x. p x && not (g x)) xs ≡ false
      → ((x : A) → p x ≡ true → g x ≡ true → w (f x) ≡ w x + c)
      → sum_by w (modify p f xs) ≡ sum_by w xs + sum_by (λ x. if p x then c else 0) xs
  sum_by-modify_up w p g f c [] known step = omega arith
  sum_by-modify_up w p g f c (x ∷ xs) known step =
      ground (arith, step x, sum_by-modify_up w p g f c xs)

  pub sum_by_none :
      (p : A → Bool) (c : ℕ) (xs : List A)
      → count p xs ≡ 0
      → sum_by (λ x. if p x then c else 0) xs ≡ 0
  sum_by_none p c [] h = refl
  sum_by_none p c (x ∷ xs) h = ground (arith, sum_by_none p c xs)

  pub sum_by_one :
      (p : A → Bool) (c : ℕ) (xs : List A)
      → count p xs ≡ 1
      → sum_by (λ x. if p x then c else 0) xs ≡ c
  sum_by_one p c [] h = ground arith
  sum_by_one p c (x ∷ xs) h = ground (arith, sum_by_one p c xs, sum_by_none p c xs)

  pub exists_none :
      (p q : A → Bool) (xs : List A) → count p xs ≡ 0 → exists (λ x. p x && q x) xs ≡ false
  exists_none p q [] h = refl
  exists_none p q (x ∷ xs) h = ground (arith, exists_none p q xs)

  -- Where one row at most passes `p`, and one that does passes `q`, it is the row.
  pub exists_only :
      (p q : A → Bool) (xs : List A)
      → count p xs ≤ 1
      → exists (λ x. p x && q x) xs ≡ true
      → (exists (λ x. p x && not (q x)) xs ≡ false) × (count p xs ≡ 1)
  exists_only p q [] one h = ground arith
  exists_only p q (x ∷ xs) one h =
      ground (arith, exists_only p q xs, exists_none p q xs, exists_none p (λ x. not (q x)) xs)

  pub exists-modify :
      (q p : A → Bool) (f : A → A) (xs : List A)
      → ((x : A) → q (f x) ≡ q x)
      → exists q (modify p f xs) ≡ exists q xs
  exists-modify q p f [] same = refl
  exists-modify q p f (x ∷ xs) same = ground (arith, same x, exists-modify q p f xs same)

  pub exists_and :
      (p q r : A → Bool) (xs : List A)
      → exists (λ x. p x && not (q x)) xs ≡ false
      → exists (λ x. p x && not (r x)) xs ≡ false
      → exists (λ x. p x && not (q x && r x)) xs ≡ false
  exists_and p q r [] h k = refl
  exists_and p q r (x ∷ xs) h k = ground (arith, exists_and p q r xs)

  pub exists_weaken :
      (p g : A → Bool) (xs : List A)
      → exists (λ x. not (g x)) xs ≡ false
      → exists (λ x. p x && not (g x)) xs ≡ false
  exists_weaken p g [] h = refl
  exists_weaken p g (x ∷ xs) h = ground (arith, exists_weaken p g xs)

  -- A check that an update keeps on its rows is kept on all.
  pub exists-modify_kept :
      (p g : A → Bool) (f : A → A) (xs : List A)
      → exists (λ x. not (g x)) xs ≡ false
      → exists (λ x. p x && not (g (f x))) xs ≡ false
      → exists (λ x. not (g x)) (modify p f xs) ≡ false
  exists-modify_kept p g f [] h k = refl
  exists-modify_kept p g f (x ∷ xs) h k = ground (arith, exists-modify_kept p g f xs)

  pub exists_left :
      (p q : A → Bool) (xs : List A) → exists (λ x. p x || q x) xs ≡ false → exists p xs ≡ false
  exists_left p q [] h = refl
  exists_left p q (x ∷ xs) h = ground (arith, exists_left p q xs)

  pub exists_right :
      (p q : A → Bool) (xs : List A) → exists (λ x. p x || q x) xs ≡ false → exists q xs ≡ false
  exists_right p q [] h = refl
  exists_right p q (x ∷ xs) h = ground (arith, exists_right p q xs)

  -- Nothing is found where nothing passes.
  pub find-exists : (p : A → Bool) (xs : List A) → exists p xs ≡ false → find p xs ≡ none
  find-exists p [] h = refl
  find-exists p (x ∷ xs) h = ground (arith, find-exists p xs)

  pub exists_count : (p : A → Bool) (xs : List A) → exists p xs ≡ true → 1 ≤ count p xs
  exists_count p [] h = ground arith
  exists_count p (x ∷ xs) h = ground (arith, exists_count p xs)

  pub count_unless : (p : A → Bool) (xs : List A) → exists p xs ≡ false → count p xs ≡ 0
  count_unless p [] h = refl
  count_unless p (x ∷ xs) h = ground (arith, count_unless p xs)

  pub exists-append :
      (p : A → Bool) (xs ys : List A)
      → exists p xs ≡ false
      → exists p ys ≡ false
      → exists p (xs ++ ys) ≡ false
  exists-append p [] ys h k = k
  exists-append p (x ∷ xs) ys h k = ground (arith, exists-append p xs ys)

  pub count-append : (p : A → Bool) (xs ys : List A) → count p (xs ++ ys) ≡ count p xs + count p ys
  count-append p [] ys = omega arith
  count-append p (x ∷ xs) ys = omega (arith, count-append p xs ys)

pub sum_by-append {ℓ} :
    {A : Type ℓ} (f : A → ℕ) (xs ys : List A) → sum_by f (xs ++ ys) ≡ sum_by f xs + sum_by f ys
sum_by-append f [] ys = omega arith
sum_by-append f (x ∷ xs) ys = omega (arith, sum_by-append f xs ys)
