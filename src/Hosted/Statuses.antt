-- ===== src/Hosted/Statuses.antt =====
-- The status of the authorization of each job, as the calls of the billing repository leave it.
use kenkui_server.Prelude.{
  ℕ, ◌≤◌, ◌≡◌, refl, Bool, true, false, List, [], ◌∷◌, ◌==◌, if◌then◌else◌, count, find, arith, ap,
  ◌∙◌, Bool-cases, inl, inr, none, some, Option, Option-cases, subst, ==_iff, find-modify, find_hit,
}
use kenkui_server.Prelude.Result.{ok}
use kenkui_server.Jobs.Models.{Identifier}
use kenkui_server.Billing.Models.{CreditAuthorization, AuthorizationStatus}
use kenkui_server.Billing.Repository.{is_reserved}
use kenkui_server.Hosted.Tables.{Books}
use kenkui_server.Hosted.Billing.{find_for_job, authorization_for_job, is_open_row, finalize, hold}
use kenkui_server.Hosted.Balance.{IsBacked}
use kenkui_server.Prelude.Sums.{find-exists}
use kenkui_server.Hosted.Balance.Reservations.{hold-authorizations}
use kenkui_server.Hosted.Balance.Finals.{Ended, finalize_open-Ended, Ended-authorizations}

module _ {ℓ} {A : Type ℓ} where
  count_found :
      (p q : A → Bool) (xs : List A) (x : A) → find q xs ≡ some x → p x ≡ true → 1 ≤ count p xs
  count_found p q [] x f a = ground (arith, f)
  count_found p q (z ∷ zs) x f a = elim (Bool-cases (q z)) [
    | inl hit ↦
        let here : z ≡ x = ground (arith, f, hit) in
        let mine : p z ≡ true = rw here a in ground (arith, mine)
    | inr miss ↦ ground (arith, count_found p q zs x (ground (arith, f, miss)) a)
  ]

  -- Two entries that pass a test, and that a second test tells apart, are counted twice.
  count_two :
      (p q r : A → Bool) (xs : List A) (x y : A)
      → find q xs ≡ some x
      → find r xs ≡ some y
      → p x ≡ true
      → p y ≡ true
      → q y ≡ false
      → 2 ≤ count p xs
  count_two p q r [] x y f g a b c = ground (arith, f)
  count_two p q r (z ∷ zs) x y f g a b c = elim (Bool-cases (q z)) [
    | inl hit ↦
        let here : z ≡ x = ground (arith, f, hit) in
        let mine : p z ≡ true = rw here a in
        elim (Bool-cases (r z)) [
          | inl both ↦
              let there : z ≡ y = ground (arith, g, both) in
              absurd (ground (arith, subst (λ w. q w ≡ true) there hit, c))
          | inr other ↦ ground (arith, mine, count_found p r zs y (ground (arith, g, other)) b)
        ]
    | inr miss ↦
        let first : find q zs ≡ some x = ground (arith, f, miss) in
        elim (Bool-cases (r z)) [
          | inl own ↦
              let there : z ≡ y = ground (arith, g, own) in
              let mine : p z ≡ true = rw there b in
              ground (arith, mine, count_found p q zs x first a)
          | inr other ↦
              ground (arith, count_two p q r zs x y first (ground (arith, g, other)) a b c)
        ]
  ]

abbrev pub status_of : Option CreditAuthorization → Option AuthorizationStatus
status_of none = none
status_of (some a) = some a.status

abbrev pub status_for : Identifier → Books → Option AuthorizationStatus
status_for k st = status_of (find_for_job k st)

-- A final call of a reserved authorization gives it the status, and leaves all others alone.
module _ (entry_uuid job_id : ℕ) (status : AuthorizationStatus) (st after : Books)
    (a : CreditAuthorization) (b : IsBacked st) (found : find_for_job job_id st ≡ some a)
    (reserved : is_reserved a.status ≡ true) (e : Ended entry_uuid job_id status a st after) where
  abbrev set : CreditAuthorization → CreditAuthorization
  set r = record r { status = status }

  status_closed :
      (k : Identifier) → status_for k after ≡ (if job_id == k then some status else status_for k st)
  unfolding find_for_job
  status_closed k =
      let (one, moved) = Ended-authorizations entry_uuid job_id status a st after b.sized e in
      let seen =
        ap (find (λ r. r.job_id == k)) moved
        ∙ find-modify (λ r. r.job_id == k) (is_open_row a.id) set st.authorizations (λ r. refl) in
      elim (Bool-cases (job_id == k)) [
        | inl own ↦
            let found_k : find (λ r. r.job_id == k) st.authorizations ≡ some a =
              subst (λ i. find (λ r. r.job_id == i) st.authorizations ≡ some a)
                ((==_iff job_id k).0 own) found in
            ground (arith, seen, found_k, own, reserved)
        | inr other ↦ elim (Option-cases (find (λ r. r.job_id == k) st.authorizations)) [
          | inl missing ↦ ground (arith, seen, missing, other)
          | inr (x, other_found) ↦ elim (Bool-cases (is_open_row a.id x)) [
            | inl twice ↦
                let own_id =
                  (==_iff a.job_id job_id).0
                    (find_hit (λ r. r.job_id == job_id) st.authorizations a found) in
                let apart : (a.job_id == k) ≡ false = rw own_id other in
                let open_one : is_open_row a.id a ≡ true = ground (arith, reserved) in
                absurd (
                  omega (
                    arith,
                    one,
                    count_two (is_open_row a.id) (λ r. r.job_id == k) (λ r. r.job_id == job_id)
                        st.authorizations x a other_found found twice open_one apart,
                  ))
            | inr apart ↦ ground (arith, seen, other_found, other, apart)
          ]
        ]
      ]

-- `finalize` of a job whose authorization is reserved.
pub status_for-finalize :
    (entry_uuid job_id : ℕ) (status : AuthorizationStatus) (st after : Books)
    (r : CreditAuthorization)
    → IsBacked st
    → status_for job_id st ≡ some AuthorizationStatus.reserved
    → finalize entry_uuid job_id status st ≡ ok (r, after)
    → (k : Identifier) → status_for k after ≡ (if job_id == k then some status else status_for k st)
unfolding finalize authorization_for_job
status_for-finalize entry_uuid job_id status st after r b open_one h k =
    elim (Option-cases (find_for_job job_id st)) [
      | inl missing ↦ absurd (ground (arith, h, missing))
      | inr (a, found) ↦
          let reserved : is_reserved a.status ≡ true = ground (arith, open_one, found) in
          status_closed entry_uuid job_id status st after a b found reserved
            (finalize_open-Ended entry_uuid job_id status a st after r
              (ground (arith, h, found, reserved)))
            k
    ]

-- A reservation that returned gives the job an authorization that is reserved.
pub status_for-hold :
    (uuid entry_uuid job_id account_id n : ℕ) (st after : Books) (a : CreditAuthorization)
    → IsBacked st
    → hold uuid entry_uuid job_id account_id n st ≡ ok (a, after)
    → (status_for job_id st ≡ none)
      × ((k : Identifier)
          → status_for k after
            ≡ (if job_id == k then some AuthorizationStatus.reserved else status_for k st))
unfolding find_for_job
status_for-hold uuid entry_uuid job_id account_id n st after a b h =
    let (fresh, moved) = hold-authorizations uuid entry_uuid job_id account_id n st after a b h in
    (
      ground (arith, find-exists (λ r. r.job_id == job_id) st.authorizations fresh),
      λ k. ap (λ xs. status_of (find (λ r. r.job_id == k) xs)) moved ∙ ground arith,
    )

-- The authorization that a reservation stores for the job.
pub hold-find_for_job :
    (uuid entry_uuid job_id account_id n : ℕ) (st after : Books) (a : CreditAuthorization)
    → IsBacked st
    → hold uuid entry_uuid job_id account_id n st ≡ ok (a, after)
    → find_for_job job_id after
      ≡ some (record {
        id = uuid;
        job_id = job_id;
        account_id = account_id;
        credits = n;
        status = AuthorizationStatus.reserved;
      })
unfolding find_for_job
hold-find_for_job uuid entry_uuid job_id account_id n st after a b h =
    let (fresh, moved) = hold-authorizations uuid entry_uuid job_id account_id n st after a b h in
    ap (find (λ r. r.job_id == job_id)) moved ∙ ground arith
