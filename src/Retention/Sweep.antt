-- ===== src/Retention/Sweep.antt =====
-- What a run of the retention worker deletes, and what it leaves.
use kenkui_server.Prelude.{
  ℕ, ◌≡◌, refl, ap, ◌∙◌, sym, inl, inr, Bool, true, false, not, ◌&&◌, List, [], ◌∷◌, arith, ◌==◌,
  leb, keep, exists, Bool-cases, All, subst,
}
use kenkui_server.Retention.{RetentionRecord, expired, Store, delete, insert, sorted, sweep, run}

-- Some expired candidate has this identifier.
abbrev pub is_due : ℕ → List RetentionRecord → RetentionRecord → Bool
is_due now rs x = exists (λ r. r.identifier == x.identifier && expired now r) rs

keep-keep :
    (now : ℕ) (r : RetentionRecord) (rs xs : List RetentionRecord)
    → expired now r ≡ true
    → keep (λ x. not (is_due now rs x)) (keep (λ x. not (x.identifier == r.identifier)) xs)
      ≡ keep (λ x. not (is_due now (r ∷ rs) x)) xs
keep-keep now r rs [] h = refl
keep-keep now r rs (x ∷ xs) h = ground (arith, keep-keep now r rs xs h)

keep_skip :
    (now : ℕ) (r : RetentionRecord) (rs xs : List RetentionRecord)
    → expired now r ≡ false
    → keep (λ x. not (is_due now rs x)) xs ≡ keep (λ x. not (is_due now (r ∷ rs) x)) xs
keep_skip now r rs [] h = refl
keep_skip now r rs (x ∷ xs) h = ground (arith, keep_skip now r rs xs h)

sweep-records :
    (now : ℕ) (rs : List RetentionRecord) (st : Store)
    → (sweep now rs st).1.records ≡ keep (λ x. not (is_due now rs x)) st.records
unfolding sweep delete
sweep-records now [] st = keep_all st.records
  where
    keep_all : (xs : List RetentionRecord) → xs ≡ keep (λ x. true) xs
    keep_all [] = refl
    keep_all (x ∷ xs) = ap (λ ys. x ∷ ys) (keep_all xs)
sweep-records now (r ∷ rs) st = elim (Bool-cases (expired now r)) [
  | inl due ↦
      let step : (sweep now (r ∷ rs) st).1.records ≡ (sweep now rs (delete r st)).1.records =
        ground arith in
      step ∙ sweep-records now rs (delete r st) ∙ keep-keep now r rs st.records due
  | inr early ↦
      let step : (sweep now (r ∷ rs) st).1.records ≡ (sweep now rs st).1.records = ground arith in
      step ∙ sweep-records now rs st ∙ keep_skip now r rs st.records early
]

is_due-insert :
    (now : ℕ) (r x : RetentionRecord) (rs : List RetentionRecord)
    → is_due now (insert r rs) x ≡ is_due now (r ∷ rs) x
unfolding insert
is_due-insert now r x [] = refl
is_due-insert now r x (y ∷ rs) = ground (arith, is_due-insert now r x rs)

is_due-sorted :
    (now : ℕ) (x : RetentionRecord) (rs : List RetentionRecord)
    → is_due now (sorted rs) x ≡ is_due now rs x
unfolding sorted
is_due-sorted now x [] = refl
is_due-sorted now x (r ∷ rs) =
    is_due-insert now r x (sorted rs) ∙ ground (arith, is_due-sorted now x rs)

keep_same :
    (p q : RetentionRecord → Bool) (xs : List RetentionRecord)
    → ((x : RetentionRecord) → p x ≡ q x)
    → keep p xs ≡ keep q xs
keep_same p q [] h = refl
keep_same p q (x ∷ xs) h = ground (arith, h x, keep_same p q xs h)

abbrev IsEarly : ℕ → RetentionRecord → Type 0
IsEarly now x = expired now x ≡ false

due_self :
    (now : ℕ) (rs : List RetentionRecord)
    → All (λ x. expired now x ≡ true → is_due now rs x ≡ true) rs
due_self now [] = tt
due_self now (r ∷ rs) = ((λ h. ground arith), due_more now r rs rs (due_self now rs))
  where
    due_more :
        (now : ℕ) (r : RetentionRecord) (rs xs : List RetentionRecord)
        → All (λ x. expired now x ≡ true → is_due now rs x ≡ true) xs
        → All (λ x. expired now x ≡ true → is_due now (r ∷ rs) x ≡ true) xs
    due_more now r rs [] a = tt
    due_more now r rs (x ∷ xs) a = ((λ h. ground (arith, a.0 h)), due_more now r rs xs a.1)

keep-IsEarly :
    (now : ℕ) (rs xs : List RetentionRecord)
    → All (λ x. expired now x ≡ true → is_due now rs x ≡ true) xs
    → All (IsEarly now) (keep (λ x. not (is_due now rs x)) xs)
keep-IsEarly now rs [] a = tt
keep-IsEarly now rs (x ∷ xs) a = elim (Bool-cases (is_due now rs x)) [
  | inl due ↦ rw due (keep-IsEarly now rs xs a.1)
  | inr early ↦ rw early (
    (elim (Bool-cases (expired now x)) [
      | inl late ↦ absurd (ground (arith, a.0 late))
      | inr fine ↦ fine
    ]),
    keep-IsEarly now rs xs a.1,
  )
]

insert-IsEarly :
    (now : ℕ) (r : RetentionRecord) (xs : List RetentionRecord)
    → IsEarly now r
    → All (IsEarly now) xs
    → All (IsEarly now) (insert r xs)
unfolding insert
insert-IsEarly now r [] h a = (h, tt)
insert-IsEarly now r (x ∷ xs) h a = elim (Bool-cases (leb r.identifier x.identifier)) [
  | inl here ↦ rw here (h, a)
  | inr further ↦ rw further (a.0, insert-IsEarly now r xs h a.1)
]

sorted-IsEarly :
    (now : ℕ) (xs : List RetentionRecord) → All (IsEarly now) xs → All (IsEarly now) (sorted xs)
unfolding sorted
sorted-IsEarly now [] a = tt
sorted-IsEarly now (x ∷ xs) a = insert-IsEarly now x (sorted xs) a.0 (sorted-IsEarly now xs a.1)

sweep_nothing :
    (now : ℕ) (rs : List RetentionRecord) (st : Store)
    → All (IsEarly now) rs
    → sweep now rs st ≡ ([], st)
unfolding sweep
sweep_nothing now [] st a = refl
sweep_nothing now (r ∷ rs) st a = rw (a.0) (sweep_nothing now rs st a.1)

-- What a run leaves.
pub record IsSwept (now : ℕ) (before after : Store) : Type 0 where
  pub kept : after.records ≡ keep (λ x. not (is_due now before.records x)) before.records
  pub early : All (IsEarly now) after.records
  pub again : run now after ≡ ([], after)

-- A run keeps exactly the records whose identifier no expired candidate has; what it keeps is not
-- expired, so that a second run at the same time deletes nothing and changes nothing.
pub run-IsSwept : (now : ℕ) (st : Store) → IsSwept now st (run now st).1
unfolding run
run-IsSwept now st =
    let kept =
      sweep-records now (sorted st.records) st
      ∙ keep_same _ _ st.records (λ x. ap not (is_due-sorted now x st.records)) in
    let early =
      subst (All (IsEarly now)) (sym kept)
        (keep-IsEarly now st.records st.records (due_self now st.records)) in
    record {
      kept = kept;
      early = early;
      again = sweep_nothing now _ _ (sorted-IsEarly now _ early);
    }
