-- ===== src/Hosted/Slots.antt =====
-- The active jobs of an owner, as the calls of the hosted repository leave their number.
use kenkui_server.Prelude.{
  ◌≡◌, ◌≤◌, ◌<◌, refl, Bool, true, false, not, ◌&&◌, none, some, List, [], ◌∷◌, ◌==◌, arith, ap,
  sym, subst, Bool-cases, inl, inr, count, exists, modify, ==_iff,
}
use kenkui_server.Jobs.Models.{Identifier, Job, is_terminal, JobEvent}
use kenkui_server.Billing.Models.{lookup}
use kenkui_server.Storage.Tables.{Database, find_job}
use kenkui_server.Storage.Tables.Rows.{IsUnique}
use kenkui_server.Storage.Changes.{Written}
use kenkui_server.Storage.System.Jobs.{terminal_has_no_edge}
use kenkui_server.Hosted.Repositories.{is_active_of}

no_row :
    (test q : Job → Bool) (js : List Job) (k : Identifier)
    → find_job k js ≡ none
    → ((j : Job) → test j ≡ true → j.id ≡ k)
    → exists (λ j. test j && not (q j)) js ≡ false
unfolding find_job
no_row test q [] k missing same = refl
no_row test q (x ∷ xs) k missing same = elim (Bool-cases (test x)) [
  | inl hit ↦ absurd (ground (arith, missing, (==_iff x.id k).1 (same x hit)))
  | inr miss ↦ elim (Bool-cases (x.id == k)) [
    | inl own ↦ absurd (ground (arith, missing, own))
    | inr other ↦ ground (arith, miss, no_row test q xs k (ground (arith, missing, other)) same)
  ]
]

-- The rows with the id of a row are that row.
only_row :
    (test q : Job → Bool) (js : List Job) (r : Job)
    → IsUnique js
    → find_job r.id js ≡ some r
    → ((j : Job) → test j ≡ true → j.id ≡ r.id)
    → q r ≡ true
    → exists (λ j. test j && not (q j)) js ≡ false
unfolding find_job
only_row test q [] r u found same holds = refl
only_row test q (x ∷ xs) r u found same holds = elim (Bool-cases (x.id == r.id)) [
  | inl own ↦
      let here : x ≡ r = ground (arith, found, own) in
      let good : q x ≡ true = rw here holds in
      let rest : find_job r.id xs ≡ none =
        subst (λ i. find_job i xs ≡ none) ((==_iff x.id r.id).0 own) u.0 in
      ground (arith, good, no_row test q xs r.id rest same)
  | inr other ↦
      let miss : test x ≡ false = elim (Bool-cases (test x)) [
        | inl hit ↦ absurd (ground (arith, other, (==_iff x.id r.id).1 (same x hit)))
        | inr miss ↦ miss
      ] in
      ground (arith, miss, only_row test q xs r u.1 (ground (arith, found, other)) same holds)
]

module _ (owner_id : Identifier) (owners : List (Identifier × Identifier)) where
  abbrev active : Job → Bool
  active = is_active_of owner_id owners

  -- An update of open rows that keeps their ids makes no more of them active.
  count-active :
      (test : Job → Bool) (change : Job → Job) (js : List Job)
      → exists (λ j. test j && not (not (is_terminal j.status))) js ≡ false
      → ((j : Job) → (change j).id ≡ j.id)
      → count active (modify test change js) ≤ count active js
  count-active test change [] fine same = omega arith
  count-active test change (x ∷ xs) fine same = ground (
    arith,
    ap (λ i. lookup i owners) (same x),
    count-active test change xs (ground (arith, fine)) same,
  )

  -- A write of one row makes no more jobs active.
  pub count-Written :
      (before after : Database) (r r' : Job) (e : JobEvent)
      → IsUnique before.jobs
      → Written before after r r' e
      → count active after.jobs ≤ count active before.jobs
  count-Written before after r r' e u w =
      let open_row : not (is_terminal r.status) ≡ true = elim (Bool-cases (is_terminal r.status)) [
        | inl ended ↦ absurd (terminal_has_no_edge ended w.follows.edge)
        | inr still ↦ ground (arith, still)
      ] in
      rw w.table (
        count-active w.test w.change before.jobs
          (only_row w.test (λ j. not (is_terminal j.status)) before.jobs r u w.stored w.tested
            open_row)
          (λ j. (w.changed j).0))

  -- A new job that was not known takes one slot of its owner.
  pub count_entered :
      (job : Job) (new_owner : Identifier) (jobs : List Job)
      → find_job job.id jobs ≡ none
      → count (is_active_of owner_id ((job.id, new_owner) ∷ owners)) jobs ≡ count active jobs
  unfolding find_job lookup
  count_entered job new_owner [] missing = refl
  count_entered job new_owner (x ∷ xs) missing = elim (Bool-cases (x.id == job.id)) [
    | inl own ↦ absurd (ground (arith, missing, own))
    | inr other ↦ elim (Bool-cases (job.id == x.id)) [
      | inl back ↦
          absurd (ground (arith, other, (==_iff x.id job.id).1 (sym ((==_iff job.id x.id).0 back))))
      | inr apart ↦
          ground (arith, apart, count_entered job new_owner xs (ground (arith, missing, other)))
    ]
  ]

  -- A new job of an owner who has a free slot.
  pub count_added :
      (job : Job) (new_owner : Identifier) (jobs : List Job)
      → find_job job.id jobs ≡ none
      → ((new_owner == owner_id) ≡ true → count active jobs < 3)
      → count active jobs ≤ 3
      → count (is_active_of owner_id ((job.id, new_owner) ∷ owners)) (job ∷ jobs) ≤ 3
  unfolding lookup
  count_added job new_owner jobs missing free few = elim (Bool-cases (new_owner == owner_id)) [
    | inl own ↦ ground (arith, own, free own, count_entered job new_owner jobs missing)
    | inr other ↦ ground (arith, other, few, count_entered job new_owner jobs missing)
  ]
