-- ===== src/Storage/Queries/History.antt =====
-- The history of a job as its readers see it.
use kenkui_server.Prelude.{
  ℕ, zero, suc, ◌+◌, ◌≤◌, ◌<◌, ◌≡◌, refl, ap, ◌∙◌, inl, inr, List, [], ◌∷◌, ◌++◌, map, arith, ◌==◌,
  keep, All, Bool-cases, subst, ==_iff,
}
use kenkui_server.Prelude.Sorting.{sort_by, insert_by-last, sort_by-All}
use kenkui_server.Jobs.Models.{Identifier, JobEvent}
use kenkui_server.Storage.Tables.{find_job}
use kenkui_server.Storage.Tables.Rows.{events_of, IsNumbered}
use kenkui_server.Storage.Changes.{version_of}
use kenkui_server.Storage.System.{World, Reach}
use kenkui_server.Storage.System.Jobs.{IsSound, Reach-IsSound}
use kenkui_server.Storage.Queries.{list_events}

-- 1, 2, …, n.
abbrev pub upto : ℕ → List ℕ
upto zero = []
upto (suc n) = upto n ++ (suc n ∷ [])

map-append : (f : JobEvent → ℕ) (xs ys : List JobEvent) → map f (xs ++ ys) ≡ map f xs ++ map f ys
map-append f [] ys = refl
map-append f (x ∷ xs) ys = ap (λ zs. f x ∷ zs) (map-append f xs ys)

module _ (k : Identifier) where
  below :
      (n : ℕ) (es : List JobEvent)
      → IsNumbered es
      → events_of k es ≤ n
      → All (λ e. e.sequence < suc n) (keep (λ e. e.job_id == k) es)
  below n [] h le = tt
  below n (e ∷ es) h le = elim (Bool-cases (e.job_id == k)) [
    | inl own ↦
        let rest : events_of k es + 1 ≤ n = ground (arith, own) in
        let first : e.sequence ≡ events_of k es + 1 =
          subst (λ i. e.sequence ≡ events_of i es + 1) ((==_iff e.job_id k).0 own) h.0 in
        rw own (omega (arith, first, rest), below n es h.1 (omega (arith, rest)))
    | inr other ↦ rw other (below n es h.1 (ground (arith, other)))
  ]

  -- Events numbered without gaps are listed as 1, 2, …, the number of them.
  pub sequence-list_events :
      (es : List JobEvent)
      → IsNumbered es
      → map (λ e. e.sequence) (list_events k es) ≡ upto (events_of k es)
  unfolding list_events sort_by
  sequence-list_events [] h = refl
  sequence-list_events (e ∷ es) h = elim (Bool-cases (e.job_id == k)) [
    | inl own ↦
        let first : e.sequence ≡ suc (events_of k es) =
          subst (λ i. e.sequence ≡ events_of i es + 1) ((==_iff e.job_id k).0 own) h.0
          ∙ omega arith in
        let one_more : suc (events_of k es) ≡ 1 + events_of k es = omega arith in
        let later : All (λ o. o.sequence < e.sequence) (list_events k es) =
          sort_by-All (λ (o : JobEvent). o.sequence) (λ o. o.sequence < e.sequence)
            (keep (λ o. o.job_id == k) es)
            (rw first (below (events_of k es) es h.1 (omega arith))) in
        rw own (
          ap (map (λ e. e.sequence)) (insert_by-last (λ o. o.sequence) e (list_events k es) later)
          ∙ map-append (λ e. e.sequence) (list_events k es) (e ∷ [])
          ∙ ap (λ ns. ns ++ (e.sequence ∷ [])) (sequence-list_events es h.1)
          ∙ ap (λ n. upto (events_of k es) ++ (n ∷ [])) first
          ∙ ap upto one_more)
    | inr other ↦
        let same : events_of k es ≡ 0 + events_of k es = omega arith in
        rw other (sequence-list_events es h.1 ∙ ap upto same)
  ]

-- In every world that is reached from a sound one, whoever reads the events of a job finds them
-- numbered 1, 2, …, up to the version of the job's row: none is missing, none is out of order, and
-- the last number is the version.
pub Reach-list_events :
    (limit : ℕ) (w v : World) (k : Identifier)
    → IsSound w
    → Reach limit w v
    → map (λ e. e.sequence) (list_events k v.db.job_events)
      ≡ upto (version_of (find_job k v.db.jobs))
Reach-list_events limit w v k s r =
    let sound = Reach-IsSound limit w v s r in
    sequence-list_events k v.db.job_events sound.consistent.numbered
    ∙ ap upto (sound.consistent.counted k)
