-- ===== src/Hosted/Dispatcher.antt =====
-- jobs/dispatcher.py: `HostedDispatcher`. The process runner is a parameter of the program: the
-- model keeps the dispatches that it was asked to start, newest first. `cost` is the configured
-- processing cost, and `digest` the hash of an owner and an idempotency key.
use kenkui_server.Prelude.{
  ℕ, ◌+◌, ◌≡◌, ◌≤◌, ◌<◌, refl, Bool, true, false, Option, none, some, List, ◌∷◌, ◌==◌, arith,
  if◌then◌else◌, ap, ◌∙◌, sym, subst, Bool-cases, inl, inr, ==_iff,
}
use kenkui_server.Prelude.Int.{ℤ}
use kenkui_server.Prelude.Result.{Result, ok, err, empty_speech, outcome, raised, returned}
use kenkui_server.Jobs.Models.{Identifier, JobSpec, Job, new_job, Casting, single, characters}
use kenkui_server.Billing.Models.{AuthorizationStatus}
use kenkui_server.Billing.Pricing.{credits_for_characters}
use kenkui_server.Storage.Tables.{find_job}
use kenkui_server.Storage.Tables.Rows.{id-find_job}
use kenkui_server.Storage.Execution.{list_incomplete}
use kenkui_server.Storage.System.{new_dispatch}
use kenkui_server.Dispatcher.{start_if, start_open}
use kenkui_server.Hosted.Balance.{IsBacked, balance, share}
use kenkui_server.Hosted.Balance.Reservations.{balance-hold}
use kenkui_server.Hosted.Billing.{find_for_job}
use kenkui_server.Hosted.Statuses.{hold-find_for_job}
use kenkui_server.Hosted.Repositories.{Hosted, active_jobs, is_expired, admit}
use kenkui_server.Hosted.Changes.Admissions.{again, entered, Entered, admit-Admitted}

pub record HostedServer : Type 0 where
  pub state : Hosted
  pub started : List Identifier

-- `isinstance(spec.casting, CharacterCasting)`
abbrev pub is_multivoice : Casting → Bool
is_multivoice (single c) = false
is_multivoice (characters c) = true

abbrev pub scoped_key :
    (Identifier → Identifier → Identifier) → Identifier → Option Identifier → Option Identifier
scoped_key digest owner_id none = none
scoped_key digest owner_id (some key) = some (digest owner_id key)

-- The identifiers that a submission makes.
pub record Fresh : Type 0 where
  pub job_uuid : Identifier
  pub dispatch_uuid : Identifier
  pub authorization_uuid : Identifier
  pub entry_uuid : Identifier

module _ (cost : ℤ) (digest : Identifier → Identifier → Identifier) where
  -- The admission, and the start of what was admitted.
  unfoldable pub submit_for :
      ℕ
      → Fresh
      → JobSpec
      → Identifier
      → Identifier
      → Option Identifier
      → HostedServer
      → Result Job × HostedServer
  submit_for credits fresh spec owner_id account_id key s =
      elim (admit fresh.authorization_uuid fresh.entry_uuid (new_job fresh.job_uuid spec)
        (new_dispatch fresh.dispatch_uuid fresh.job_uuid) account_id owner_id credits
        (scoped_key digest owner_id key) s.state) [
          | err code ↦ (err code, s)
          | ok (admitted, state) ↦ (
            ok admitted,
            record {
              state = state;
              started = start_if (admitted.id == fresh.job_uuid) fresh.dispatch_uuid s.started;
            },
          )
        ]

  -- `submit`
  unfoldable pub submit :
      Fresh
      → JobSpec
      → Identifier
      → Identifier
      → ℤ
      → Option Identifier
      → HostedServer
      → Result Job × HostedServer
  submit fresh spec owner_id account_id character_count key s =
      elim (credits_for_characters cost character_count (is_multivoice spec.casting)) [
        | err code ↦ (err code, s)
        | ok credits ↦
            if credits == 0
            then (err empty_speech, s)
            else submit_for credits fresh spec owner_id account_id key s
      ]

  -- A submission that charged: the owner had a free slot, the account paid the quote, and the job is
  -- stored and started, and has an authorization of exactly the quote.
  pub record IsCharged (fresh : Fresh) (spec : JobSpec) (owner_id account_id credits : ℕ)
      (s after : HostedServer) : Type 0 where
    pub slot : active_jobs owner_id s.state < 3
    pub source : is_expired spec.source_id s.state ≡ false
    pub paid :
        (k : Identifier)
        → balance k after.state.books + share account_id k credits ≡ balance k s.state.books
    pub reserved :
        find_for_job fresh.job_uuid after.state.books
        ≡ some (record {
          id = fresh.authorization_uuid;
          job_id = fresh.job_uuid;
          account_id = account_id;
          credits = credits;
          status = AuthorizationStatus.reserved;
        })
    pub stored : after.state.db.jobs ≡ new_job fresh.job_uuid spec ∷ s.state.db.jobs
    pub started : after.started ≡ fresh.dispatch_uuid ∷ s.started

  module _ (fresh : Fresh) (spec : JobSpec) (owner_id account_id : ℕ) (count : ℤ)
      (key : Option Identifier) (s after : HostedServer) (j : Job) where
    charged :
        (credits : ℕ) (state : Hosted) (own : Bool)
        → IsBacked s.state.books
        → own ≡ true
        → Entered fresh.authorization_uuid fresh.entry_uuid
            (new_job fresh.job_uuid spec)
            (new_dispatch fresh.dispatch_uuid fresh.job_uuid)
            account_id
            owner_id
            credits
            (scoped_key digest owner_id key)
            s.state
            state
        → IsCharged fresh spec owner_id account_id credits s
            (record { state = state; started = start_if own fresh.dispatch_uuid s.started })
    unfolding new_job
    charged credits state own b mine e = record {
      slot = e.slots;
      source = e.alive;
      paid =
          balance-hold fresh.authorization_uuid fresh.entry_uuid fresh.job_uuid account_id credits
            s.state.books state.books e.a b e.reserve;
      reserved =
          hold-find_for_job fresh.authorization_uuid fresh.entry_uuid fresh.job_uuid account_id
            credits s.state.books state.books e.a b e.reserve;
      stored = e.added.jobs;
      started = rw mine refl;
    }

    submit_for-IsCharged :
        (credits : ℕ)
        → IsBacked s.state.books
        → j.id ≡ fresh.job_uuid
        → find_job fresh.job_uuid s.state.db.jobs ≡ none
        → submit_for credits fresh spec owner_id account_id key s ≡ (ok j, after)
        → IsCharged fresh spec owner_id account_id credits s after
    unfolding submit_for new_job
    submit_for-IsCharged credits b new unknown h =
        elim (outcome (
          admit fresh.authorization_uuid fresh.entry_uuid (new_job fresh.job_uuid spec)
            (new_dispatch fresh.dispatch_uuid fresh.job_uuid) account_id owner_id credits
            (scoped_key digest owner_id key) s.state)) [
              | raised e x ↦ absurd (ground (arith, h, x))
              | returned (row, state) x ↦
                  let same : row ≡ j = ground (arith, h, x) in
                  let mine : row.id ≡ fresh.job_uuid = ap (λ (r : Job). r.id) same ∙ new in
                  let end : after ≡ record {
                    state = state;
                    started = start_if (row.id == fresh.job_uuid) fresh.dispatch_uuid s.started;
                  } =
                    ground (arith, h, x) in
                  elim (admit-Admitted fresh.authorization_uuid fresh.entry_uuid
                    (new_job fresh.job_uuid spec) (new_dispatch fresh.dispatch_uuid fresh.job_uuid)
                    account_id owner_id credits (scoped_key digest owner_id key) s.state row state
                    x) [
                      | again r old seen found alike one unchanged ↦
                          let id : r.job_id ≡ fresh.job_uuid =
                            sym (id-find_job r.job_id s.state.db.jobs old found)
                            ∙ ap (λ (r : Job). r.id) (sym one)
                            ∙ mine in
                          absurd (
                            ground (
                              arith,
                              unknown,
                              subst (λ i. find_job i s.state.db.jobs ≡ some old) id found,
                            ))
                      | entered fresh_key one e ↦
                          subst (IsCharged fresh spec owner_id account_id credits s) (sym end) (
                            charged credits state (row.id == fresh.job_uuid) b
                              ((==_iff row.id fresh.job_uuid).1 mine) e)
                    ]
            ]

    -- A hosted submission that returns a new job had a free slot of three for its owner and a source
    -- that is not deleted; it takes exactly the quoted credits, at least one, from the account and
    -- from no other, gives the job a reserved authorization of that account for them, stores the job as queued, and starts its dispatch.
    pub submit-IsCharged :
        IsBacked s.state.books
        → j.id ≡ fresh.job_uuid
        → find_job fresh.job_uuid s.state.db.jobs ≡ none
        → submit fresh spec owner_id account_id count key s ≡ (ok j, after)
        → (credits : ℕ) × (credits_for_characters cost count (is_multivoice spec.casting)
            ≡ ok credits)
          × (1 ≤ credits)
          × IsCharged fresh spec owner_id account_id credits s after
    unfolding submit
    submit-IsCharged b new unknown h =
        elim (outcome (credits_for_characters cost count (is_multivoice spec.casting))) [
          | raised e x ↦ absurd (ground (arith, h, x))
          | returned (credits) x ↦ elim (Bool-cases (credits == 0)) [
            | inl zero ↦ absurd (ground (arith, h, x, zero))
            | inr some_credits ↦ (
              credits,
              x,
              ground (arith, some_credits),
              submit_for-IsCharged credits b new unknown (ground (arith, h, x, some_credits)),
            )
          ]
        ]

-- `recover`: every listed dispatch has a job.
unfoldable pub recover : HostedServer → HostedServer
recover s = record s { started = start_open s.state.db (list_incomplete s.state.db) s.started }
