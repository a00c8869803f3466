-- ===== src/Hosted/Identities.antt =====
-- storage/postgres.py: `PostgresIdentityRepository` and `PostgresNotificationRepository`. A subject
-- is the text that the sign-in provider gives, and `uuid` is the new `uuid4`.
pub mod SignIn
mod Tests
use kenkui_server.Prelude.{
  ℕ, ◌≤◌, ◌≡◌, refl, Bool, true, false, not, ◌&&◌, Option, none, some, List, [], ◌∷◌, Text, text_eq,
  text_eq_iff, ◌==◌, ==_iff, arith, if◌then◌else◌, find, exists, modify, find-modify, find_hit, ap,
  ◌∙◌, sym, subst, inl, inr, Bool-cases, Option-cases, is_some,
}
use kenkui_server.Prelude.Sums.{exists-modify}
use kenkui_server.Prelude.Result.{unknown_identity}
use kenkui_server.Prelude.Transaction.{Transaction, pure, raise}
use kenkui_server.Jobs.Models.{Identifier}
use kenkui_server.Billing.Models.{lookup}
use kenkui_server.Notifications.Service.{
  Recipient, NotificationRepository, Mailbox, mails_for, completed, completed-IsOnce,
}

-- A row of `identities`.
pub record Identity : Type 0 where
  pub id : Identifier
  pub subject : Text
  pub email : Option Text
  pub notify_by_email : Bool

-- A row of `job_notifications`, and whether it has a `delivered_at`.
pub record JobNotification : Type 0 where
  pub job_id : Identifier
  pub channel : Text
  pub delivered : Bool

-- `jobs.owner_id`, and the two tables.
pub record Identities : Type 0 where
  pub owners : List (Identifier × Identifier)
  pub identities : List Identity
  pub notifications : List JobNotification

-- `COALESCE(EXCLUDED.email, identities.email)`
abbrev pub coalesce : Option Text → Option Text → Option Text
coalesce none stored = stored
coalesce (some email) stored = some email

abbrev pub has_subject : Text → Identity → Bool
has_subject subject i = text_eq i.subject subject

abbrev pub refresh : Option Text → Identity → Identity
refresh email i = record i { email = coalesce email i.email }

-- `user_id_for_subject`
unfoldable pub user_id_for_subject :
    Identifier → Text → Option Text → Identities → Identifier × Identities
user_id_for_subject uuid subject email st = elim (find (has_subject subject) st.identities) [
  | some i ↦
      (i.id, record st { identities = modify (has_subject subject) (refresh email) st.identities })
  | none ↦ (
    uuid,
    record st {
      identities =
          record { id = uuid; subject = subject; email = email; notify_by_email = true }
          ∷ st.identities;
    },
  )
]

unfoldable pub find_identity : Identifier → Identities → Option Identity
find_identity id st = find (λ i. i.id == id) st.identities

-- `notification_settings`
unfoldable pub notification_settings : Identifier → Transaction Identities (Option Text × Bool)
notification_settings id st = elim (find_identity id st) [
  | none ↦ raise unknown_identity st
  | some i ↦ pure (i.email, i.notify_by_email) st
]

-- `set_notify_by_email`
unfoldable pub set_notify_by_email : Identifier → Bool → Identities → Identities
set_notify_by_email id enabled st = record st {
  identities = modify (λ i. i.id == id) (λ i. record i { notify_by_email = enabled }) st.identities;
}

abbrev pub as_recipient : Option Identity → Option Recipient
as_recipient none = none
as_recipient (some i) =
    some (record { identity_id = i.id; email = i.email; notify_by_email = i.notify_by_email })

-- `recipient_for_job`
unfoldable pub recipient_for_job : Identifier → Identities → Option Recipient
recipient_for_job job_id st = elim (lookup job_id st.owners) [
  | none ↦ none
  | some owner ↦ as_recipient (find_identity owner st)
]

module _ (channel : Text) where
  abbrev pub is_sent : Identifier → JobNotification → Bool
  is_sent job_id n = n.job_id == job_id && text_eq n.channel channel

  unfoldable pub is_claimed : Identifier → Identities → Bool
  is_claimed job_id st = exists (is_sent job_id) st.notifications

  -- `claim`: the job that it is called for has a recipient, so it is stored.
  unfoldable pub claim : Identifier → Identities → Bool × Identities
  claim job_id st = if exists (is_sent job_id) st.notifications then (false, st) else (
    true,
    record st {
      notifications =
          record { job_id = job_id; channel = channel; delivered = false } ∷ st.notifications;
    },
  )

  -- `mark_delivered`
  unfoldable pub mark_delivered : Identifier → Identities → Identities
  mark_delivered job_id st = record st {
    notifications = modify (is_sent job_id) (λ n. record n { delivered = true }) st.notifications;
  }

  pub claim_answer : (k : Identifier) (st : Identities) → (claim k st).0 ≡ not (is_claimed k st)
  unfolding claim is_claimed
  claim_answer k st = ground arith

  pub claim_taken : (k : Identifier) (st : Identities) → is_claimed k (claim k st).1 ≡ true
  unfolding claim is_claimed
  claim_taken k st = ground (arith, (text_eq_iff channel channel).1 refl)

  pub claim_kept :
      (k i : Identifier) (st : Identities)
      → is_claimed i st ≡ true
      → is_claimed i (claim k st).1 ≡ true
  unfolding claim is_claimed
  claim_kept k i st h = ground (arith, h)

  pub mark_kept :
      (k i : Identifier) (st : Identities) → is_claimed i (mark_delivered k st) ≡ is_claimed i st
  unfolding mark_delivered is_claimed
  mark_kept k i st = exists-modify (is_sent i) (is_sent k) _ st.notifications (λ n. refl)

  -- The repository that the notifier asks for.
  unfoldable pub postgres_notifications : NotificationRepository Identities
  postgres_notifications = record {
    recipient_for_job = recipient_for_job;
    claim = claim;
    mark_delivered = mark_delivered;
    is_claimed = is_claimed;
    claim_answer = claim_answer;
    claim_taken = claim_taken;
    claim_kept = claim_kept;
    mark_kept = mark_kept;
  }

  -- However often the completion of a job is announced over the tables of the hosted server, and
  -- whichever sends fail, at most one mail for a job that was never claimed is handed to the mailer.
  pub mails_for-postgres :
      (attempts : List (Identifier × Bool)) (k : Identifier) (st : Identities)
      → is_claimed k st ≡ false
      → mails_for postgres_notifications k
          (completed postgres_notifications attempts (record { store = st; mails = [] }))
        ≤ 1
  mails_for-postgres attempts k st fresh =
      (completed-IsOnce postgres_notifications attempts k (record { store = st; mails = [] })
        (record { once = omega arith; claimed = λ h. refl })).once
