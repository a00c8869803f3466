-- ===== src/Hosted/Tests.antt =====
-- A hosted server with one account: a grant, an admission and a cancellation.
use kenkui_server.Prelude.{ℕ, ◌≤◌, ◌≡◌, refl, codes, none, some, [], ◌∷◌, arith}
use kenkui_server.Prelude.Transaction.{after}
use kenkui_server.Prelude.Int.{pos}
use kenkui_server.Prelude.Result.{ok}
use kenkui_server.Jobs.Models.{Identifier, Job, JobStatus, new_job}
use kenkui_server.Billing.Models.{AuthorizationStatus}
use kenkui_server.Billing.Repository.{by_purchase}
use kenkui_server.Jobs.Tests.{clean_spec}
use kenkui_server.Storage.Tables.{
  empty, find_job, find_dispatch, find_key, insert_job, insert_dispatch, insert_key, next_sequence,
  insert_event,
}
use kenkui_server.Storage.Repositories.{
  replay_job, record_key, cancel_open, commit_snapshot, cancellation_of, cancelled_snapshot,
}
use kenkui_server.Storage.System.{new_dispatch}
use kenkui_server.Hosted.Tables.{
  Books, update_accounts, update_lots, insert_lot, insert_authorization, insert_allocation,
  insert_entry,
}
use kenkui_server.Hosted.Lots.{
  grant_lot, open_lots, take, take_all, reserve_lots, allocations_of, free_all, finalize_lots,
}
use kenkui_server.Hosted.Billing.{
  find_for_job, account, grant_new, grant_as, grant, hold, authorization_for_job, close, pay_back,
  finalize_open, finalize,
}
use kenkui_server.Hosted.Balance.{IsBacked}
use kenkui_server.Hosted.Balance.Calls.{none_made, made, grants, Calls-IsBacked}
use kenkui_server.Hosted.Statuses.{status_for}
use kenkui_server.Hosted.Repositories.{
  create_dispatch, insert_owned_job, active_jobs, is_expired, admit_fresh, admit, end_job,
  cancel_hosted, request_cancellation,
}
use kenkui_server.Billing.Pricing.{credits_for_characters}
use kenkui_server.Hosted.Dispatcher.{
  Fresh, HostedServer, IsCharged, is_multivoice, submit as hosted_submit, submit_for,
  submit-IsCharged,
}
use kenkui_server.Storage.Repositories.{
  check_lease, record_failure, spec_changed, update_job_and_append_event as update_local,
}
use kenkui_server.Hosted.Repositories.{
  Hosted, publish_artifact, update_job_and_append_event as update_hosted,
}
use kenkui_server.Prelude.{ap, not}
use kenkui_server.Jobs.Models.{JobEvent, EventType, spec_eq_iff}
use kenkui_server.Hosted.Changes.Local.{update-update_local}
use kenkui_server.Prelude.{Memᴰ}
use kenkui_server.Storage.Tables.{find_lease, find_failure}
use kenkui_server.Storage.Execution.{active_count, grant as grant_lease}
use kenkui_server.Hosted.Execution.{
  keep_failure, log_loss, give_up_rows, give_up, claim_job, claim_seen,
}
use kenkui_server.Hosted.System.{HostedWorld, wait, read, fund, submit, cancel, Reach, here, next}
use kenkui_server.Hosted.System.Billed.{IsOrderly}
use kenkui_server.Hosted.System.Reached.{Reach-IsOrderly, Reach-IsLimited}
use kenkui_server.Hosted.System.Runs.{
  Run, start, then_move, step, late_claim, Run-IsOrderly, charge_frozen,
}

abbrev no_books : Books
no_books = record {
  accounts = record { id = 1; available_credits = 0 } ∷ [];
  authorizations = [];
  entries = [];
  lots = [];
  allocations = [];
  payment_events = [];
}

no_books-IsBacked : IsBacked no_books
no_books-IsBacked = record {
  backed = λ k. ground arith;
  accounts = λ k. ground arith;
  lots = λ k. omega arith;
  sized = refl;
  owned = tt;
}

abbrev first : HostedWorld
first = record {
  state = record { db = empty; books = no_books; owners = []; terminal_at = []; deleted = [] };
  clock = 0;
  held = [];
}

first-IsOrderly : IsOrderly first
unfolding find_for_job find_job
first-IsOrderly = record {
  consistent = record { unique = tt; numbered = tt; counted = λ k. refl };
  snapshots = tt;
  backed = no_books-IsBacked;
  billed = λ k. refl;
}

abbrev funded : Books
funded = after no_books (grant 5 2 3 1 100 (codes "gift") no_books)

Calls-IsBacked_example : IsBacked funded
unfolding grant grant_as grant_new grant_lot insert_entry insert_lot update_accounts account
Calls-IsBacked_example =
    Calls-IsBacked no_books funded no_books-IsBacked
      (made none_made (grants 5 2 3 1 100 (codes "gift") _ refl))

funded-IsBacked : IsBacked funded
unfolding grant grant_as grant_new grant_lot insert_entry insert_lot update_accounts account
funded-IsBacked =
    Calls-IsBacked no_books funded no_books-IsBacked
      (made none_made (grants 5 2 3 1 100 (codes "gift") _ refl))

abbrev with_credit : HostedWorld
with_credit = record first { state = record first.state { books = funded } }

abbrev sample_job : Job
sample_job = new_job 7 clean_spec

abbrev working : HostedWorld
working = record with_credit {
  state =
      after with_credit.state
        (admit 20 21 sample_job (new_dispatch 8 7) 1 1 40 (some 9) with_credit.state);
}

abbrev stopped : HostedWorld
stopped = record working { state = after working.state (request_cancellation 6 22 7 working.state) }

funded-Reach : Reach 2 first with_credit
unfolding grant grant_as grant_new grant_lot insert_entry insert_lot update_accounts account
funded-Reach =
    next here (fund 5 2 3 1 100 (codes "gift") _ refl (record { clock = refl; held = refl }))

working-Reach : Reach 2 first working
unfolding grant grant_as grant_new grant_lot insert_entry insert_lot update_accounts account admit
    admit_fresh replay_job is_expired active_jobs hold insert_authorization reserve_lots open_lots
    by_purchase take_all take update_lots insert_allocation insert_owned_job insert_job
    create_dispatch insert_dispatch record_key insert_key find_job find_dispatch find_key new_job
    new_dispatch
working-Reach = next {u = with_credit} funded-Reach (
    submit 20 21 7 8 clean_spec 1 1 40 (some 9) sample_job refl
      (record { clock = refl; held = refl }))

working-IsOrderly : IsOrderly working
working-IsOrderly = Reach-IsOrderly 2 first working first-IsOrderly working-Reach

abbrev stopped_job : Job
stopped_job = record sample_job { status = JobStatus.cancelled; version = 1 }

stopped-Reach : Reach 2 working stopped
unfolding grant grant_as grant_new grant_lot insert_entry insert_lot update_accounts account admit
    admit_fresh replay_job is_expired active_jobs hold insert_authorization reserve_lots open_lots
    by_purchase take_all take update_lots insert_allocation insert_owned_job insert_job
    create_dispatch insert_dispatch record_key insert_key find_job find_dispatch find_key new_job
    new_dispatch request_cancellation cancel_hosted cancel_open cancelled_snapshot commit_snapshot
    cancellation_of insert_event next_sequence end_job finalize authorization_for_job find_for_job
    finalize_open finalize_lots allocations_of free_all close pay_back
stopped-Reach = next here (cancel 6 22 7 stopped_job refl (record { clock = refl; held = refl }))

stopped_row : find_job 7 stopped.state.db.jobs ≡ some stopped_job
unfolding grant grant_as grant_new grant_lot insert_entry insert_lot update_accounts account admit
    admit_fresh replay_job is_expired active_jobs hold insert_authorization reserve_lots open_lots
    by_purchase take_all take update_lots insert_allocation insert_owned_job insert_job
    create_dispatch insert_dispatch record_key insert_key find_job find_dispatch find_key new_job
    new_dispatch request_cancellation cancel_hosted cancel_open cancelled_snapshot commit_snapshot
    cancellation_of insert_event next_sequence end_job finalize authorization_for_job find_for_job
    finalize_open finalize_lots allocations_of free_all close pay_back
stopped_row = refl

stopped-IsOrderly : IsOrderly stopped
stopped-IsOrderly = Reach-IsOrderly 2 working stopped working-IsOrderly stopped-Reach

abbrev later : HostedWorld
later = record stopped { clock = 9 }

charge_frozen_example :
    (find_job 7 later.state.db.jobs ≡ some stopped_job)
    × (status_for 7 later.state.books ≡ some AuthorizationStatus.released)
charge_frozen_example =
    charge_frozen 2 stopped later 7 stopped_job stopped-IsOrderly
      (then_move start (step (wait (omega arith) refl refl))) (tt, tt) stopped_row refl

-- A worker reads the job, and then claims its dispatch from what it has read.
abbrev holding : HostedWorld
holding = record working { held = sample_job ∷ [] }

abbrev claimed : HostedWorld
claimed = record holding {
  state = after holding.state (claim_seen 0 6 30 8 2 30 3 55 (some sample_job) holding.state);
}

working_row : find_job 7 working.state.db.jobs ≡ some sample_job
unfolding grant grant_as grant_new grant_lot insert_entry insert_lot update_accounts account admit
    admit_fresh replay_job is_expired active_jobs hold insert_authorization reserve_lots open_lots
    by_purchase take_all take update_lots insert_allocation insert_owned_job insert_job
    create_dispatch insert_dispatch record_key insert_key find_job find_dispatch find_key new_job
    new_dispatch
working_row = refl

abbrev claimed_run : Run 2 working claimed
unfolding grant grant_as grant_new grant_lot insert_entry insert_lot update_accounts account admit
    admit_fresh replay_job is_expired active_jobs hold insert_authorization reserve_lots open_lots
    by_purchase take_all take update_lots insert_allocation insert_owned_job insert_job
    create_dispatch insert_dispatch record_key insert_key find_job find_dispatch find_key new_job
    new_dispatch claim_seen claim_job active_count grant_lease find_lease
claimed_run =
    then_move {u = holding} (then_move start (step (read 7 sample_job refl refl refl refl))) (
      late_claim 0 6 30 8 30 3 55 sample_job (new_dispatch 8 7) (some 55) (omega arith)
        (Memᴰ.head refl) refl refl refl (record { clock = refl; held = refl }))

Run-IsOrderly_example : IsOrderly claimed
unfolding claimed_run grant grant_as grant_new grant_lot insert_entry insert_lot update_accounts
    account admit admit_fresh replay_job is_expired active_jobs hold insert_authorization
    reserve_lots open_lots by_purchase take_all take update_lots insert_allocation insert_owned_job
    insert_job create_dispatch insert_dispatch record_key insert_key find_job find_dispatch find_key
    new_job new_dispatch claim_seen claim_job active_count grant_lease find_lease
Run-IsOrderly_example =
    Run-IsOrderly 2 working claimed working-IsOrderly claimed_run ((tt, tt), working_row)

-- A claim that read the job while it was open gives it up after it was cancelled: the row of the
-- cancelled job is overwritten.
abbrev lost_lease : Hosted
lost_lease = record stopped.state {
  db = record stopped.state.db {
    execution_leases = record { dispatch_id = 8; token = 54; expires_at = 0; attempts = 3 } ∷ [];
  };
}

raced_claim :
    find_job 7
      (after lost_lease (claim_seen 6 7 31 8 2 30 3 55 (some sample_job) lost_lease)).db.jobs
    ≡ some (record stopped_job { status = JobStatus.failed; version = 2 })
unfolding grant grant_as grant_new grant_lot insert_entry insert_lot update_accounts account admit
    admit_fresh replay_job is_expired active_jobs hold insert_authorization reserve_lots open_lots
    by_purchase take_all take update_lots insert_allocation insert_owned_job insert_job
    create_dispatch insert_dispatch record_key insert_key find_job find_dispatch find_key new_job
    new_dispatch claim_seen claim_job active_count give_up give_up_rows log_loss keep_failure
    find_failure find_lease request_cancellation cancel_hosted cancel_open cancelled_snapshot
    commit_snapshot cancellation_of insert_event next_sequence end_job finalize
    authorization_for_job find_for_job finalize_open finalize_lots allocations_of free_all close
    pay_back
raced_claim = refl

abbrev new_ids : Fresh
new_ids = record { job_uuid = 7; dispatch_uuid = 8; authorization_uuid = 20; entry_uuid = 21 }

abbrev keys : Identifier → Identifier → Identifier
keys owner_id key = key

abbrev idle : HostedServer
idle = record { state = with_credit.state; started = [] }

abbrev busy : HostedServer
busy = record { state = working.state; started = 8 ∷ [] }

submit-IsCharged_example :
    (credits : ℕ) × (credits_for_characters
        (pos 20000)
        (pos 1000)
        (is_multivoice clean_spec.casting)
      ≡ ok credits)
    × (1 ≤ credits)
    × IsCharged (pos 20000) keys new_ids clean_spec 1 1 credits idle busy
unfolding grant grant_as grant_new grant_lot insert_entry insert_lot update_accounts account admit
    admit_fresh replay_job is_expired active_jobs hold insert_authorization reserve_lots open_lots
    by_purchase take_all take update_lots insert_allocation insert_owned_job insert_job
    create_dispatch insert_dispatch record_key insert_key find_job find_dispatch find_key new_job
    new_dispatch hosted_submit submit_for credits_for_characters
submit-IsCharged_example =
    submit-IsCharged (pos 20000) keys new_ids clean_spec 1 1 (pos 1000) (some 9) idle busy
      sample_job funded-IsBacked refl refl refl

Reach-IsLimited_example : active_jobs 1 working.state ≤ 3
unfolding active_jobs
Reach-IsLimited_example =
    Reach-IsLimited 2 first working first-IsOrderly working-Reach 1 (omega arith)

abbrev running_job : Job
running_job = record sample_job { status = JobStatus.running; version = 1 }

abbrev running_event : JobEvent
running_event = record {
  job_id = 7;
  sequence = 1;
  event_type = EventType.running;
  progress = sample_job.progress;
}

abbrev moved : Hosted
moved =
    after working.state
      (update_hosted 5 6 23 running_job 0 EventType.running none none none working.state)

update-update_local_example :
    update_local 5 running_job 0 EventType.running none none none working.state.db
    ≡ ok (running_event, moved.db)
unfolding grant grant_as grant_new grant_lot insert_entry insert_lot update_accounts account admit
    admit_fresh replay_job is_expired active_jobs hold insert_authorization reserve_lots open_lots
    by_purchase take_all take update_lots insert_allocation insert_owned_job insert_job
    create_dispatch insert_dispatch record_key insert_key find_job find_dispatch find_key new_job
    new_dispatch update_hosted check_lease commit_snapshot insert_event next_sequence
    publish_artifact record_failure end_job spec_changed
update-update_local_example =
    update-update_local 5 6 23 running_job 0 EventType.running none none none working.state moved
      running_event refl (ap not ((spec_eq_iff clean_spec clean_spec).1 refl)) refl
