-- ===== src/Storage/System/Routing.antt =====
-- What a call does to the dispatches, and what that means for the job of each of them.
use kenkui_server.Prelude.{
  ◌≡◌, refl, ap, ◌∙◌, inl, inr, Bool, true, Option, none, some, List, [], ◌∷◌, arith, modify,
  is_some, Option-cases, Bool-cases,
}
use kenkui_server.Jobs.Models.{Identifier, Dispatch, is_terminal}
use kenkui_server.Storage.Tables.{Database, find_dispatch, find_job}
use kenkui_server.Storage.Execution.{job_of_dispatch, is_open}
use kenkui_server.Storage.Changes.{Change, Change-Later}
use kenkui_server.Storage.System.Jobs.{terminal_has_no_edge}

pub data Routing (before after : Database) : Type 0 where
  kept : after.dispatches ≡ before.dispatches → Routing before after
  added :
      (d : Dispatch)
      → find_dispatch d.id before.dispatches ≡ none
      → after.dispatches ≡ d ∷ before.dispatches
      → Routing before after
  restated :
      (p : Dispatch → Bool) (f : Dispatch → Dispatch)
      → ((d : Dispatch) → (f d).id ≡ d.id)
      → ((d : Dispatch) → (f d).job_id ≡ d.job_id)
      → after.dispatches ≡ modify p f before.dispatches
      → Routing before after

abbrev pub job_id_of : Option Dispatch → Option Identifier
job_id_of none = none
job_id_of (some d) = some d.job_id

find_dispatch-modify :
    (id : Identifier) (p : Dispatch → Bool) (f : Dispatch → Dispatch) (ds : List Dispatch)
    → ((d : Dispatch) → (f d).id ≡ d.id)
    → ((d : Dispatch) → (f d).job_id ≡ d.job_id)
    → job_id_of (find_dispatch id (modify p f ds)) ≡ job_id_of (find_dispatch id ds)
unfolding find_dispatch
find_dispatch-modify id p f [] same owner = refl
find_dispatch-modify id p f (d ∷ ds) same owner =
    ground (arith, same d, owner d, find_dispatch-modify id p f ds same owner)

find_dispatch-cons :
    (id : Identifier) (d e : Dispatch) (ds : List Dispatch)
    → find_dispatch d.id ds ≡ none
    → find_dispatch id ds ≡ some e
    → find_dispatch id (d ∷ ds) ≡ some e
unfolding find_dispatch
find_dispatch-cons id d e ds fresh found = ground arith

-- A dispatch keeps its job.
Routing-job :
    (before after : Database) (id k : Identifier)
    → Routing before after
    → job_id_of (find_dispatch id before.dispatches) ≡ some k
    → job_id_of (find_dispatch id after.dispatches) ≡ some k
Routing-job before after id k (kept e) h = ap (λ ds. job_id_of (find_dispatch id ds)) e ∙ h
Routing-job before after id k (restated p f same owner e) h =
    ap (λ ds. job_id_of (find_dispatch id ds)) e
    ∙ find_dispatch-modify id p f before.dispatches same owner
    ∙ h
Routing-job before after id k (added d fresh e) h =
    elim (Option-cases (find_dispatch id before.dispatches)) [
      | inl missing ↦ absurd (ground arith)
      | inr (x, found) ↦
          ap (λ ds. job_id_of (find_dispatch id ds)) e
          ∙ ap job_id_of (find_dispatch-cons id d x before.dispatches fresh found)
          ∙ ground arith
    ]

-- The job of a dispatch is still there after a call, and open only if it was.
pub record Carried (id : Identifier) (before after : Database) : Type 0 where
  pub stays : is_some (job_of_dispatch id after) ≡ true
  pub opens : is_open (job_of_dispatch id after) ≡ true → is_open (job_of_dispatch id before) ≡ true

pub Routing-Carried :
    (before after : Database) (id : Identifier)
    → Change before after
    → Routing before after
    → is_some (job_of_dispatch id before) ≡ true
    → Carried id before after
unfolding job_of_dispatch is_open
Routing-Carried before after id c r h = elim (Option-cases (find_dispatch id before.dispatches)) [
  | inl missing ↦ absurd (ground arith)
  | inr (d, found) ↦
      let routed = Routing-job before after id d.job_id r (ap job_id_of found) in
      elim (Option-cases (find_dispatch id after.dispatches)) [
        | inl lost ↦ absurd (ground arith)
        | inr (d', found') ↦
            let owner : d'.job_id ≡ d.job_id = ground arith in
            elim (Option-cases (find_job d.job_id before.jobs)) [
              | inl missing ↦ absurd (ground arith)
              | inr (j, stored) ↦ elim (Change-Later before after d.job_id j c stored) [
                | inl same ↦ record { stays = ground arith; opens = λ e. ground arith }
                | inr (j', later, f) ↦ record {
                  stays = ground arith;
                  opens = λ e. elim (Bool-cases (is_terminal j.status)) [
                    | inl ended ↦ absurd (terminal_has_no_edge ended f.edge)
                    | inr running ↦ ground arith
                  ];
                }
              ]
            ]
      ]
]
