-- ===== src/Billing/Service.antt =====
-- billing/service.py: the reservation around an admission, and the end of a job. `admit` is a
-- callable of the caller; the model takes what it returned or raised.
use kenkui_server.Prelude.{ℕ, ◌+◌, if◌then◌else◌, ◌≡◌, refl, true, false, ◌==◌, arith}
use kenkui_server.Prelude.Int.{ℤ}
use kenkui_server.Prelude.Result.{Result, ok, err, empty_speech, job_not_terminal}
use kenkui_server.Prelude.Action.{Action, pure, raise, ◌>>◌, raise_if}
use kenkui_server.Jobs.Models.{Identifier, JobStatus, is_terminal}
use kenkui_server.Billing.Models.{AuthorizationStatus, CreditAuthorization, Billing}
use kenkui_server.Billing.Repository.{reserve, finalize, is_reserved, authorization_for_job}
use kenkui_server.Billing.Pricing.{credits_for_characters}
use kenkui_server.Billing.Finality.{finalize-finalize, finalize-Concludes}
use kenkui_server.Billing.Books.{balance}

-- `finalize_success`
abbrev pub finalize_success : ℕ → Identifier → Identifier → Action Billing CreditAuthorization
finalize_success now entry_uuid job_id = finalize now entry_uuid job_id AuthorizationStatus.settled

-- `release`
abbrev pub release : ℕ → Identifier → Identifier → Action Billing CreditAuthorization
release now entry_uuid job_id = finalize now entry_uuid job_id AuthorizationStatus.released

-- `CreditAwareJobAdmission.admit`, after the reservation.
unfoldable pub conclude_admission :
    {T : Type 0} → ℕ → Identifier → Identifier → Result T → Action Billing T
conclude_admission now entry_uuid job_id (ok value) = pure value
conclude_admission now entry_uuid job_id (err code) = release now entry_uuid job_id >> raise code

-- `CreditAwareJobAdmission.admit`
unfoldable pub admit :
    {T : Type 0}
    → ℤ
    → ℕ
    → Identifier
    → Identifier
    → Identifier
    → Identifier
    → Identifier
    → ℤ
    → Result T
    → Action Billing T
admit cost now uuid entry_uuid release_uuid job_id account_id characters admitted =
    elim (credits_for_characters cost characters false) [
      | err code ↦ raise code
      | ok credits ↦
          raise_if (credits == 0) empty_speech
          >> reserve now uuid entry_uuid job_id account_id credits
          >> conclude_admission now release_uuid job_id admitted
    ]

-- `JobBillingFinalizer.on_terminal`
unfoldable pub on_terminal :
    ℕ → Identifier → Identifier → JobStatus → Action Billing CreditAuthorization
on_terminal now entry_uuid job_id JobStatus.succeeded = finalize_success now entry_uuid job_id
on_terminal now entry_uuid job_id JobStatus.failed = release now entry_uuid job_id
on_terminal now entry_uuid job_id JobStatus.cancelled = release now entry_uuid job_id
on_terminal now entry_uuid job_id _ = raise job_not_terminal

-- What the end of a job makes of the credits that are reserved for it.
abbrev pub charge_for : JobStatus → AuthorizationStatus
charge_for JobStatus.succeeded = AuthorizationStatus.settled
charge_for JobStatus.failed = AuthorizationStatus.released
charge_for JobStatus.cancelled = AuthorizationStatus.released
charge_for _ = AuthorizationStatus.reserved

-- The credits that come back to the buyer.
abbrev pub returned_for : JobStatus → ℕ → ℕ
returned_for JobStatus.succeeded credits = 0
returned_for _ credits = credits

-- The billing of a job that ended with a status, where `r` is its authorization before.
pub record IsConcluded (job_id : Identifier) (status : JobStatus) (r a : CreditAuthorization)
    (st after : Billing) : Type 0 where
  pub ended : is_terminal status ≡ true
  pub charged : is_reserved r.status ≡ true → a ≡ record r { status = charge_for status }
  pub repaid :
      is_reserved r.status ≡ true
      → (k : Identifier)
      → balance k after
        ≡ balance k st + (if k == r.account_id then returned_for status r.credits else 0)
  pub kept : is_reserved r.status ≡ false → (a ≡ r) × (after ≡ st)
  pub again :
      (later uuid : ℕ) (s : JobStatus)
      → is_terminal s ≡ true
      → on_terminal later uuid job_id s after ≡ (ok a, after)

once_more :
    (now entry_uuid job_id : ℕ) (status : JobStatus) (st : Billing) (a : CreditAuthorization)
    (after : Billing)
    → on_terminal now entry_uuid job_id status st ≡ (ok a, after)
    → (later uuid : ℕ) (s : AuthorizationStatus) → is_reserved s ≡ false
    → finalize later uuid job_id s after ≡ (ok a, after)
unfolding on_terminal
once_more now e j JobStatus.succeeded st a after h later u s f =
    finalize-finalize now e j AuthorizationStatus.settled st a after h later u s f
once_more now e j JobStatus.failed st a after h later u s f =
    finalize-finalize now e j AuthorizationStatus.released st a after h later u s f
once_more now e j JobStatus.cancelled st a after h later u s f =
    finalize-finalize now e j AuthorizationStatus.released st a after h later u s f
once_more now e j JobStatus.queued st a after h later u s f = absurd (ground arith)
once_more now e j JobStatus.running st a after h later u s f = absurd (ground arith)
once_more now e j JobStatus.cancel_requested st a after h later u s f = absurd (ground arith)

replayed :
    (now entry_uuid job_id : ℕ) (status : JobStatus) (st : Billing) (a : CreditAuthorization)
    (after : Billing)
    → on_terminal now entry_uuid job_id status st ≡ (ok a, after)
    → (later uuid : ℕ) (again : JobStatus) → is_terminal again ≡ true
    → on_terminal later uuid job_id again after ≡ (ok a, after)
unfolding on_terminal
replayed now entry_uuid job_id status st a after h later uuid again end =
    let once = once_more now entry_uuid job_id status st a after h later uuid in
    by_status again end once
  where
    by_status :
        (again : JobStatus)
        → is_terminal again ≡ true
        → ((s : AuthorizationStatus)
            → is_reserved s ≡ false
            → finalize later uuid job_id s after ≡ (ok a, after))
        → on_terminal later uuid job_id again after ≡ (ok a, after)
    by_status JobStatus.succeeded e f = f AuthorizationStatus.settled refl
    by_status JobStatus.failed e f = f AuthorizationStatus.released refl
    by_status JobStatus.cancelled e f = f AuthorizationStatus.released refl
    by_status JobStatus.queued e f = cc
    by_status JobStatus.running e f = cc
    by_status JobStatus.cancel_requested e f = cc

-- A call for the end of a job that returned was for a terminal status. An authorization that was
-- reserved is settled if the job has succeeded, and no account changes; it is released if the job
-- has failed or was cancelled, and its account, and no other, gets its credits back. One that has
-- ended is returned with nothing changed. After it every call for a terminal status, the same or
-- another, returns the same authorization and changes nothing.
pub on_terminal-IsConcluded :
    (now entry_uuid job_id : ℕ) (status : JobStatus) (st : Billing) (r a : CreditAuthorization)
    (after : Billing)
    → authorization_for_job job_id st ≡ (ok r, st)
    → on_terminal now entry_uuid job_id status st ≡ (ok a, after)
    → IsConcluded job_id status r a st after
unfolding on_terminal
on_terminal-IsConcluded now e k JobStatus.succeeded st r a after found h =
    let c = finalize-Concludes now e k AuthorizationStatus.settled st r a after found h in
    record {
      ended = refl;
      charged = λ q. (c.closed q).0;
      repaid = λ q. (c.closed q).1;
      kept = c.kept;
      again = replayed now e k JobStatus.succeeded st a after h;
    }
on_terminal-IsConcluded now e k JobStatus.failed st r a after found h =
    let c = finalize-Concludes now e k AuthorizationStatus.released st r a after found h in
    record {
      ended = refl;
      charged = λ q. (c.closed q).0;
      repaid = λ q. (c.closed q).1;
      kept = c.kept;
      again = replayed now e k JobStatus.failed st a after h;
    }
on_terminal-IsConcluded now e k JobStatus.cancelled st r a after found h =
    let c = finalize-Concludes now e k AuthorizationStatus.released st r a after found h in
    record {
      ended = refl;
      charged = λ q. (c.closed q).0;
      repaid = λ q. (c.closed q).1;
      kept = c.kept;
      again = replayed now e k JobStatus.cancelled st a after h;
    }
on_terminal-IsConcluded now e k JobStatus.queued st r a after found h = absurd (ground (arith, h))
on_terminal-IsConcluded now e k JobStatus.running st r a after found h = absurd (ground (arith, h))
on_terminal-IsConcluded now e k JobStatus.cancel_requested st r a after found h =
    absurd (ground (arith, h))
