-- ===== src/Notifications/Tests.antt =====
-- A repository of notifications that is the list of the jobs that were claimed, and the notifier
-- over it.
use kenkui_server.Prelude.{
  ◌≡◌, refl, codes, some, List, [], ◌∷◌, true, false, not, arith, exists, ◌==◌, Bool,
}
use kenkui_server.Jobs.Models.{Identifier}
use kenkui_server.Notifications.Service.{
  NotificationRepository, Mailbox, address_of, send, deliver, completed, mails_for, IsOnce,
  completed-IsOnce,
}

abbrev has_claim : Identifier → List Identifier → Bool
has_claim k s = exists (λ j. j == k) s

claim_takes : (k : Identifier) (s : List Identifier) → has_claim k (k ∷ s) ≡ true
claim_takes k s = ground arith

claim_keeps :
    (k i : Identifier) (s : List Identifier) → has_claim i s ≡ true → has_claim i (k ∷ s) ≡ true
claim_keeps k i s h = ground arith

abbrev claims : NotificationRepository (List Identifier)
claims = record {
  recipient_for_job = λ k s. some (record {
    identity_id = 5;
    email = some (codes "reader@example.org");
    notify_by_email = true;
  });
  claim = λ k s. (not (has_claim k s), k ∷ s);
  mark_delivered = λ k s. s;
  is_claimed = has_claim;
  claim_answer = λ k s. refl;
  claim_taken = claim_takes;
  claim_kept = claim_keeps;
  mark_kept = λ k i s. refl;
}

abbrev no_mail : Mailbox (List Identifier)
no_mail = record { store = []; mails = [] }

-- Three announcements, the first of which the mailer refuses, hand over one mail.
one_mail :
    mails_for claims 3 (completed claims ((3, false) ∷ (3, true) ∷ (3, true) ∷ []) no_mail) ≡ 1
unfolding completed send deliver address_of
one_mail = refl

no_mail-IsOnce : IsOnce claims 3 no_mail
no_mail-IsOnce = record { once = omega arith; claimed = λ h. refl }

completed-IsOnce_example :
    IsOnce claims 3 (completed claims ((3, false) ∷ (4, true) ∷ (3, true) ∷ []) no_mail)
completed-IsOnce_example =
    completed-IsOnce claims ((3, false) ∷ (4, true) ∷ (3, true) ∷ []) 3 no_mail no_mail-IsOnce
