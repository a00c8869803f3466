-- ===== src/Hosted/Identities/Tests.antt =====
-- A subject that signs in, and the mails about its job.
use kenkui_server.Prelude.{◌≤◌, ◌≡◌, refl, codes, none, some, true, false, [], ◌∷◌}
use kenkui_server.Notifications.Service.{mails_for, completed}
use kenkui_server.Hosted.Identities.{
  Identities, user_id_for_subject, is_claimed, postgres_notifications, mails_for-postgres,
}
use kenkui_server.Hosted.Identities.SignIn.{IsSignedIn, user_id_for_subject-IsSignedIn}

abbrev nobody : Identities
nobody = record { owners = (7, 1) ∷ []; identities = []; notifications = [] }

mails_for-postgres_example :
    mails_for (postgres_notifications (codes "email")) 7 (
      completed (postgres_notifications (codes "email")) ((7, false) ∷ (7, true) ∷ []) (record {
        store = (user_id_for_subject 1 (codes "ann") (some (codes "a@b")) nobody).1;
        mails = [];
      }))
    ≤ 1
unfolding user_id_for_subject is_claimed
mails_for-postgres_example =
    mails_for-postgres (codes "email") ((7, false) ∷ (7, true) ∷ []) 7
      (user_id_for_subject 1 (codes "ann") (some (codes "a@b")) nobody).1 refl

user_id_for_subject-IsSignedIn_example :
    IsSignedIn 1
      (codes "ann")
      none
      nobody
      (user_id_for_subject 1 (codes "ann") none nobody).0
      (user_id_for_subject 1 (codes "ann") none nobody).1
    × ((user_id_for_subject 2
          (codes "ann")
          (some (codes "a@b"))
          (user_id_for_subject 1 (codes "ann") none nobody).1).0
        ≡ (user_id_for_subject 1 (codes "ann") none nobody).0)
user_id_for_subject-IsSignedIn_example =
    user_id_for_subject-IsSignedIn 1 2 (codes "ann") none (some (codes "a@b")) nobody
