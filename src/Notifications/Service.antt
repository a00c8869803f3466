-- ===== src/Notifications/Service.antt =====
-- notifications/service.py: `CompletionNotifier`. The repository is a protocol in the source, and
-- here a record of its operations with what it documents of `claim`. The mailer is a parameter: for
-- each call, whether `send` returned. Mails are kept newest first.
use kenkui_server.Prelude.{
  ℕ, ◌≤◌, ◌≡◌, Bool, true, false, not, Option, none, some, List, [], ◌∷◌, arith, ◌==◌,
  if◌then◌else◌, count, Option-cases, Bool-cases, inl, inr, Text, subst, sym, ◌∙◌, ==_iff,
}
use kenkui_server.Jobs.Models.{Identifier}

pub record Recipient : Type 0 where
  pub identity_id : Identifier
  pub email : Option Text
  pub notify_by_email : Bool

-- `NotificationRepository`, for the one channel: "True exactly once per job and channel".
pub record NotificationRepository (S : Type 0) : Type 0 where
  pub recipient_for_job : Identifier → S → Option Recipient
  pub claim : Identifier → S → Bool × S
  pub mark_delivered : Identifier → S → S
  pub is_claimed : Identifier → S → Bool
  pub claim_answer : (k : Identifier) (s : S) → (claim k s).0 ≡ not (is_claimed k s)
  pub claim_taken : (k : Identifier) (s : S) → is_claimed k (claim k s).1 ≡ true
  pub claim_kept :
      (k i : Identifier) (s : S) → is_claimed i s ≡ true → is_claimed i (claim k s).1 ≡ true
  pub mark_kept : (k i : Identifier) (s : S) → is_claimed i (mark_delivered k s) ≡ is_claimed i s

pub record Mail : Type 0 where
  pub job_id : Identifier
  pub to : Text

-- The store of the repository, and the mails that were handed to the mailer.
pub record Mailbox (S : Type 0) : Type 0 where
  pub store : S
  pub mails : List Mail

-- `recipient is None or not recipient.email or not recipient.notify_by_email`: the address if none
-- of it holds.
unfoldable pub address_of : Option Recipient → Option Text
address_of none = none
address_of (some r) = elim r.email [
  | none ↦ none
  | some address ↦ elim address [
    | [] ↦ none
    | c ∷ rest ↦ if r.notify_by_email then some (c ∷ rest) else none
  ]
]

module _ {S : Type 0} (repository : NotificationRepository S) where
  -- The send after a claim, and the mark if it returned.
  unfoldable pub deliver : Identifier → Text → Bool → Mailbox S → Mailbox S
  deliver job_id address sent m = record {
    store = if sent then repository.mark_delivered job_id m.store else m.store;
    mails = record { job_id = job_id; to = address } ∷ m.mails;
  }

  -- `_send`
  unfoldable pub send : Identifier → Bool → Mailbox S → Mailbox S
  unfolding deliver
  send job_id sent m = elim (address_of (repository.recipient_for_job job_id m.store)) [
    | none ↦ m
    | some address ↦
        let answer = repository.claim job_id m.store in
        let claimed : Mailbox S = record m { store = answer.1 } in
        if answer.0 then deliver job_id address sent claimed else claimed
  ]

  -- `completed`, which never raises, for a sequence of attempts: a job, and whether the mailer
  -- returned.
  unfoldable pub completed : List (Identifier × Bool) → Mailbox S → Mailbox S
  completed [] m = m
  completed ((job_id, sent) ∷ attempts) m = completed attempts (send job_id sent m)

  abbrev pub mails_for : Identifier → Mailbox S → ℕ
  mails_for k m = count (λ e. e.job_id == k) m.mails

  -- A job with a mail is claimed, and has one mail.
  pub record IsOnce (k : Identifier) (m : Mailbox S) : Type 0 where
    pub once : mails_for k m ≤ 1
    pub claimed : repository.is_claimed k m.store ≡ false → mails_for k m ≡ 0

  -- What a claim says, and leaves, about one job.
  claimed_by :
      (k job_id : Identifier) (s : S)
      → repository.is_claimed k (repository.claim job_id s).1 ≡ false
      → (repository.is_claimed k s ≡ false) × ((job_id == k) ≡ false)
  claimed_by k job_id s h = (
    elim (Bool-cases (repository.is_claimed k s)) [
      | inl taken ↦ absurd (ground (arith, repository.claim_kept job_id k s taken))
      | inr open_one ↦ open_one
    ],
    elim (Bool-cases (job_id == k)) [
      | inl own ↦ absurd (
          ground (
            arith,
            subst (λ i. repository.is_claimed i (repository.claim job_id s).1 ≡ true)
                ((==_iff job_id k).0 own) (repository.claim_taken job_id s),
          ))
      | inr other ↦ other
    ],
  )

  deliver-IsOnce :
      (k job_id : Identifier) (address : Text) (sent : Bool) (m : Mailbox S)
      → IsOnce k m
      → repository.is_claimed job_id m.store ≡ false
      → IsOnce k
          (deliver job_id address sent (record m { store = (repository.claim job_id m.store).1 }))
  unfolding deliver
  deliver-IsOnce k job_id address sent m o free =
      let first : (job_id == k) ≡ true → mails_for k m ≡ 0 = λ own.
        o.claimed
          (subst (λ i. repository.is_claimed i m.store ≡ false) ((==_iff job_id k).0 own) free) in
      record {
        once = ground (arith, o.once, first);
        claimed = λ h.
            let before : repository.is_claimed k (repository.claim job_id m.store).1 ≡ false =
              elim (Bool-cases sent) [
                | inl marked ↦ sym (repository.mark_kept job_id k _) ∙ ground arith
                | inr unmarked ↦ ground arith
              ] in
            let c = claimed_by k job_id m.store before in ground (arith, o.claimed c.0, c.1);
      }

  send-IsOnce :
      (k job_id : Identifier) (sent : Bool) (m : Mailbox S)
      → IsOnce k m
      → IsOnce k (send job_id sent m)
  unfolding send
  send-IsOnce k job_id sent m o =
      elim (Option-cases (address_of (repository.recipient_for_job job_id m.store))) [
        | inl silent ↦ rw (send, silent) o
        | inr (address, e) ↦ elim (Bool-cases (repository.is_claimed job_id m.store)) [
          | inl taken ↦
              let refused = repository.claim_answer job_id m.store in
              rw (send, e, refused, taken)
                (record {
                  once = o.once;
                  claimed = λ h. o.claimed (claimed_by k job_id m.store h).0;
                })
          | inr free ↦
              rw (send, e, repository.claim_answer job_id m.store, free)
                (deliver-IsOnce k job_id address sent m o free)
        ]
      ]

  -- However often a job's completion is announced, and whichever attempts fail, at most one mail
  -- for it is handed to the mailer.
  pub completed-IsOnce :
      (attempts : List (Identifier × Bool)) (k : Identifier) (m : Mailbox S)
      → IsOnce k m
      → IsOnce k (completed attempts m)
  unfolding completed
  completed-IsOnce [] k m o = o
  completed-IsOnce ((job_id, sent) ∷ attempts) k m o =
      completed-IsOnce attempts k (send job_id sent m) (send-IsOnce k job_id sent m o)
