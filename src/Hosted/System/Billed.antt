-- ===== src/Hosted/System/Billed.antt =====
-- What holds of the hosted jobs and of their authorizations whatever calls are interleaved, while
-- each call is one step.
use kenkui_server.Prelude.{
  ℕ, ◌≡◌, refl, Bool, Option, none, some, Text, arith, ap, ◌∙◌, All, find, ◌==◌,
}
use kenkui_server.Prelude.Result.{ok, outcome, raised, returned}
use kenkui_server.Jobs.Models.{Dispatch, new_job}
use kenkui_server.Billing.Models.{CreditAccount, LotKind}
use kenkui_server.Storage.Repositories.{
  Lease, update_dispatch, finish_dispatch as finish_local, check_lease, get_job,
}
use kenkui_server.Storage.Execution.{
  renew_execution as renew_local, release_execution as release_local,
}
use kenkui_server.Storage.Changes.{same, IsConsistent}
use kenkui_server.Storage.Changes.Calls.{IsSnapshot}
use kenkui_server.Billing.Repository.{event_reference}
use kenkui_server.Storage.System.{new_dispatch}
use kenkui_server.Storage.System.Jobs.{All-Memᴰ}
use kenkui_server.Hosted.Tables.{Books}
use kenkui_server.Hosted.Billing.{grant, record_payment_event, process_payment_event, find_for_job}
use kenkui_server.Hosted.Balance.{IsBacked}
use kenkui_server.Hosted.Balance.Grants.{grant_as-authorizations}
use kenkui_server.Hosted.Balance.Calls.{
  Call-IsBacked, grants, pays, record_payment_event-authorizations,
}
use kenkui_server.Hosted.Statuses.{status_of}
use kenkui_server.Hosted.Repositories.{Hosted, active_jobs, on_db, on_books, finish_dispatch}
use kenkui_server.Hosted.Execution.{renew_execution, release_execution}
use kenkui_server.Hosted.Changes.{IsBilled, Kept, quiet-Kept}
use kenkui_server.Hosted.Changes.Updates.{update-Kept, request_cancellation-Kept}
use kenkui_server.Hosted.Changes.Claims.{claim_execution-Kept}
use kenkui_server.Hosted.Changes.Admissions.{admit-Kept}
use kenkui_server.Hosted.System.{
  HostedWorld, Step, wait, read, fund, pay, submit, advance, cancel, redispatch, conclude, claim,
  renew, release,
}

-- The job tables are consistent, no held snapshot is ahead of its row, every account is backed by
-- its lots, and the authorization of every job follows its status.
pub record IsOrderly (w : HostedWorld) : Type 0 where
  pub consistent : IsConsistent w.state.db
  pub snapshots : All (λ h. IsSnapshot h w.state.db) w.held
  pub backed : IsBacked w.state.books
  pub billed : IsBilled w.state

module _ (before after : Hosted) (b : IsBacked before.books) (s : IsBilled before) where
  same-Kept : after ≡ before → Kept before after
  same-Kept e = rw e (quiet-Kept before before b s refl refl refl refl)

  redispatch-Kept :
      (d : Dispatch) (v : ℕ) (u : Unit {0})
      → on_db (update_dispatch d v) before ≡ ok (u, after)
      → Kept before after
  unfolding update_dispatch
  redispatch-Kept d v u h =
      quiet-Kept before after b s (ground (arith, h)) (ground (arith, h)) (ground (arith, h))
        (ground (arith, h))

  renew-Kept :
      (first now id token ttl : ℕ) (x : Bool)
      → renew_execution first now id token ttl before ≡ ok (x, after)
      → Kept before after
  unfolding renew_execution renew_local
  renew-Kept first now id token ttl x h =
      quiet-Kept before after b s (ground (arith, h)) (ground (arith, h)) (ground (arith, h))
        (ground (arith, h))

  release-Kept :
      (id token : ℕ) (u : Unit {0})
      → release_execution id token before ≡ ok (u, after)
      → Kept before after
  unfolding release_execution release_local
  release-Kept id token u h =
      quiet-Kept before after b s (ground (arith, h)) (ground (arith, h)) (ground (arith, h))
        (ground (arith, h))

  conclude-Kept :
      (now : ℕ) (d : Dispatch) (lease : Option Lease) (x : Bool)
      → finish_dispatch now d lease before ≡ ok (x, after)
      → Kept before after
  unfolding finish_dispatch finish_local check_lease get_job
  conclude-Kept now d none x h =
      quiet-Kept before after b s (ground (arith, h)) (ground (arith, h)) (ground (arith, h))
        (ground (arith, h))
  conclude-Kept now d (some l) x h =
      quiet-Kept before after b s (ground (arith, h)) (ground (arith, h)) (ground (arith, h))
        (ground (arith, h))

  -- A call on the books that leaves the authorizations alone.
  funded-Kept :
      (books : Books)
      → IsBacked books
      → books.authorizations ≡ before.books.authorizations
      → after ≡ record before { books = books }
      → Kept before after
  unfolding find_for_job active_jobs
  funded-Kept books backed authorizations e = rw e (record {
    slots = λ o few. few;
    change = same refl refl;
    backed = backed;
    billed = λ k. ap (λ xs. status_of (find (λ a. a.job_id == k) xs)) authorizations ∙ s k;
  })

  grant-Kept :
      (now lot_uuid entry_uuid account_id credits : ℕ) (reference : Text) (a : CreditAccount)
      → on_books (grant now lot_uuid entry_uuid account_id credits reference) before ≡ ok (a, after)
      → Kept before after
  unfolding grant
  grant-Kept now l e k n reference a h = elim (outcome (grant now l e k n reference before.books)) [
    | raised c y ↦ absurd (ground (arith, h, y))
    | returned (a1, books) x ↦
        funded-Kept books (Call-IsBacked before.books books b (grants now l e k n reference a1 x))
          (grant_as-authorizations now l e k n reference LotKind.grant before.books books a1
            (ground (arith, x)))
          (ground (arith, h, x))
  ]

  pay-Kept :
      (now lot_uuid entry_uuid : ℕ) (provider event : Text) (account_id credits : ℕ)
      (a : CreditAccount)
      → on_books
          (process_payment_event now lot_uuid entry_uuid provider event account_id credits)
          before
        ≡ ok (a, after)
      → Kept before after
  unfolding process_payment_event
  pay-Kept now l e provider event k n a h =
      elim (outcome (process_payment_event now l e provider event k n before.books)) [
        | raised c y ↦ absurd (ground (arith, h, y))
        | returned (a1, books) x ↦
            funded-Kept books
              (Call-IsBacked before.books books b (pays now l e provider event k n a1 x))
              (grant_as-authorizations now l e k n (event_reference provider event) LotKind.purchase
                  (record_payment_event provider event before.books) books a1 (ground (arith, x))
                ∙ record_payment_event-authorizations provider event before.books)
              (ground (arith, h, x))
      ]

-- One step keeps the books in order, and is one change of the job tables.
pub Step-Kept :
    (limit : ℕ) (w v : HostedWorld) → IsOrderly w → Step limit w v → Kept w.state v.state
unfolding new_job
Step-Kept limit w v o (wait c s h) = same-Kept w.state v.state o.backed o.billed s
Step-Kept limit w v o (read id j f s c h) = same-Kept w.state v.state o.backed o.billed s
Step-Kept limit w v o (fund now l e k n reference a h x) =
    grant-Kept w.state v.state o.backed o.billed now l e k n reference a h
Step-Kept limit w v o (pay now l e provider event k n a h x) =
    pay-Kept w.state v.state o.backed o.billed now l e provider event k n a h
Step-Kept limit w v o (submit uuid e id did spec account owner n key j r x) =
    admit-Kept uuid e (new_job id spec) (new_dispatch did id) account owner n key w.state j v.state
      o.backed o.billed refl refl r
Step-Kept limit w v o (advance at e h n event type artifact lease failure j m t r x) =
    update-Kept w.clock at e h n event type artifact lease failure w.state j v.state o.consistent
      o.backed o.billed (All-Memᴰ _ w.held h o.snapshots m) t r
Step-Kept limit w v o (cancel at e id j r x) =
    request_cancellation-Kept at e w.state v.state o.backed o.billed o.consistent.unique id j r
Step-Kept limit w v o (redispatch d n u r x) =
    redispatch-Kept w.state v.state o.backed o.billed d n u r
Step-Kept limit w v o (conclude d lease y r x) =
    conclude-Kept w.state v.state o.backed o.billed w.clock d lease y r
Step-Kept limit w v o (claim now at e did ttl max token t c r x) =
    claim_execution-Kept now at e did limit ttl max token w.state v.state t o.backed o.billed
      o.consistent.unique r
Step-Kept limit w v o (renew f did token ttl y c r x) =
    renew-Kept w.state v.state o.backed o.billed f w.clock did token ttl y r
Step-Kept limit w v o (release did token u r x) =
    release-Kept w.state v.state o.backed o.billed did token u r
