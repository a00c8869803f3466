-- ===== src/Hosted/Identities/SignIn.antt =====
-- What a sign-in through `PostgresIdentityRepository` leaves.
use kenkui_server.Prelude.{
  ◌≡◌, refl, true, false, Option, none, some, ◌∷◌, Text, text_eq, text_eq_iff, arith, find, modify,
  find-modify, find_hit, ap, ◌∙◌, sym, subst, inl, inr, Bool-cases, Option-cases,
}
use kenkui_server.Jobs.Models.{Identifier}
use kenkui_server.Hosted.Identities.{
  Identity, Identities, coalesce, has_subject, refresh, user_id_for_subject,
}

-- What a sign-in leaves: the row of the subject, with the new id or that of its stored row, the
-- address that was given or else the one that was stored, and every other subject as it was.
pub record IsSignedIn (uuid : Identifier) (subject : Text) (email : Option Text)
    (before : Identities) (id : Identifier) (after : Identities) : Type 0 where
  pub row : Identity
  pub stored : find (has_subject subject) after.identities ≡ some row
  pub known : row.id ≡ id
  pub first : find (has_subject subject) before.identities ≡ none → id ≡ uuid
  pub again : (i : Identity) → find (has_subject subject) before.identities ≡ some i → id ≡ i.id
  pub choice : row.notify_by_email ≡ elim (find (has_subject subject) before.identities) [
    | none ↦ true
    | some i ↦ i.notify_by_email
  ]
  pub address :
      row.email
      ≡ coalesce email
          (elim (find (has_subject subject) before.identities) [ none ↦ none | some i ↦ i.email ])
  pub others :
      (t : Text)
      → text_eq subject t ≡ false
      → find (has_subject t) after.identities ≡ find (has_subject t) before.identities

subject_apart :
    (own subject t : Text)
    → text_eq own t ≡ true
    → text_eq subject t ≡ false
    → text_eq own subject ≡ false
subject_apart own subject t mine apart = elim (Bool-cases (text_eq own subject)) [
  | inl same ↦ absurd (
      ground
        (arith, apart, subst (λ s. text_eq s t ≡ true) ((text_eq_iff own subject).0 same) mine))
  | inr other ↦ other
]

module _ (uuid : Identifier) (subject : Text) (email : Option Text) (st : Identities) where
  sign_up :
      find (has_subject subject) st.identities ≡ none
      → user_id_for_subject uuid subject email st ≡ (
        uuid,
        record st {
          identities =
              record { id = uuid; subject = subject; email = email; notify_by_email = true }
              ∷ st.identities;
        },
      )
  unfolding user_id_for_subject
  sign_up new = ground (arith, new)

  sign_in :
      (i : Identity)
      → find (has_subject subject) st.identities ≡ some i
      → user_id_for_subject uuid subject email st ≡ (
        i.id,
        record st { identities = modify (has_subject subject) (refresh email) st.identities },
      )
  unfolding user_id_for_subject
  sign_in i found = ground (arith, found)

  signed_in :
      IsSignedIn uuid subject email st
        (user_id_for_subject uuid subject email st).0
        (user_id_for_subject uuid subject email st).1
  signed_in = elim (Option-cases (find (has_subject subject) st.identities)) [
    | inl new ↦
        subst (λ r. IsSignedIn uuid subject email st r.0 r.1) (sym (sign_up new))
          (record {
            row = record { id = uuid; subject = subject; email = email; notify_by_email = true };
            stored = ground (arith, (text_eq_iff subject subject).1 refl);
            known = refl;
            first = λ n. refl;
            again = λ i found. ground (arith, new, found);
            choice = ground (arith, new);
            address = ground (arith, new);
            others = λ t apart. ground (arith, apart);
          })
    | inr (i, found) ↦
        let hit = find_hit (has_subject subject) st.identities i found in
        subst (λ r. IsSignedIn uuid subject email st r.0 r.1) (sym (sign_in i found))
          (record {
            row = refresh email i;
            stored =
                find-modify (has_subject subject) (has_subject subject) (refresh email)
                  st.identities (λ j. refl)
                ∙ ground (arith, found, hit);
            known = refl;
            first = λ n. ground (arith, n, found);
            again = λ j there. ground (arith, there, found);
            choice = ground (arith, found);
            address = ground (arith, found);
            others = λ t apart.
                find-modify (has_subject t) (has_subject subject) (refresh email) st.identities
                  (λ j. refl)
                ∙ (elim (Option-cases (find (has_subject t) st.identities)) [
                  | inl missing ↦ rw missing refl
                  | inr (x, there) ↦
                      let mine = find_hit (has_subject t) st.identities x there in
                      rw (there, subject_apart x.subject subject t mine apart) refl
                ]);
          })
  ]

-- The sign-in of a subject that has no row gives it the new id, and that of one that has a row the
-- id of its row; a second sign-in gives the id of the first, whatever the new ids. The row that is
-- left has that id; its address is the one that is given, or else the stored one; its choice about
-- mails is the stored one, and yes at first; no other subject is touched.
pub user_id_for_subject-IsSignedIn :
    (uuid later : Identifier) (subject : Text) (email next : Option Text) (st : Identities)
    → IsSignedIn uuid subject email st
        (user_id_for_subject uuid subject email st).0
        (user_id_for_subject uuid subject email st).1
      × ((user_id_for_subject later subject next (user_id_for_subject uuid subject email st).1).0
          ≡ (user_id_for_subject uuid subject email st).0)
user_id_for_subject-IsSignedIn uuid later subject email next st =
    let s = signed_in uuid subject email st in
    (
      s,
      ap (λ (r : Identifier × Identities). r.0)
            (sign_in later subject next (user_id_for_subject uuid subject email st).1 s.row
              s.stored)
          ∙ s.known,
    )
