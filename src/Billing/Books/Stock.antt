-- ===== src/Billing/Books/Stock.antt =====
-- Every call of the credit repository, whether it raises or not, keeps a stored lot for every
-- allocation of every authorization.
use kenkui_server.Prelude.{
  ◌≡◌, some, List, [], ◌∷◌, ◌==◌, ==_iff, arith, ap, ◌∙◌, sym, subst, Bool-cases, inl, inr,
}
use kenkui_server.Jobs.Models.{Identifier}
use kenkui_server.Billing.Models.{
  AuthorizationStatus, CreditAuthorization, CreditLot, Billing, Allocations, find_authorization,
  lookup, put_authorization,
}
use kenkui_server.Billing.Holdings.{find_authorization-put_authorization, HasLot, HasLots}

-- The allocations of an authorization, with a stored lot for each.
pub record Stocked (id : Identifier) (st : Billing) : Type 0 where
  pub items : Allocations
  pub allocated : lookup id st.allocations ≡ some items
  pub stored : HasLots st.lots items

abbrev pub IsStocked : Billing → Type 0
IsStocked st =
    (id : Identifier) (a : CreditAuthorization)
    → find_authorization id st.authorizations ≡ some a
    → Stocked id st

All-HasLot :
    (before after : List CreditLot) (items : Allocations)
    → ((i : Identifier) → HasLot before i → HasLot after i)
    → HasLots before items
    → HasLots after items
All-HasLot before after [] keep h = tt
All-HasLot before after (i ∷ is) keep h = (keep i.0 h.0, All-HasLot before after is keep h.1)

-- Nothing is lost if no lot is.
pub restocked :
    (st after : Billing)
    → after.authorizations ≡ st.authorizations
    → after.allocations ≡ st.allocations
    → ((i : Identifier) → HasLot st.lots i → HasLot after.lots i)
    → IsStocked st
    → IsStocked after
restocked st after x y keep s id a found =
    let old = s id a (ap (find_authorization id) (sym x) ∙ found) in
    record {
      items = old.items;
      allocated = ap (lookup id) y ∙ old.allocated;
      stored = All-HasLot st.lots after.lots old.items keep old.stored;
    }

-- An authorization that is marked has what it had.
pub marked-IsStocked :
    (st after : Billing) (r : CreditAuthorization)
    → find_authorization r.id st.authorizations ≡ some r
    → (status : AuthorizationStatus)
    → after.authorizations ≡ put_authorization (record r { status = status }) st.authorizations
    → after.allocations ≡ st.allocations
    → ((i : Identifier) → HasLot st.lots i → HasLot after.lots i)
    → IsStocked st
    → IsStocked after
marked-IsStocked st after r stored status x y keep s id a found =
    let put =
      find_authorization-put_authorization id (record r { status = status }) st.authorizations in
    elim (Bool-cases (r.id == id)) [
      | inl own ↦
          let old = s id r (
            subst (λ k. find_authorization k st.authorizations ≡ some r) ((==_iff r.id id).0 own)
              stored) in
          record {
            items = old.items;
            allocated = ap (lookup id) y ∙ old.allocated;
            stored = All-HasLot st.lots after.lots old.items keep old.stored;
          }
      | inr other ↦
          let old = s id a (ground (arith, found, ap (find_authorization id) x, put, other)) in
          record {
            items = old.items;
            allocated = ap (lookup id) y ∙ old.allocated;
            stored = All-HasLot st.lots after.lots old.items keep old.stored;
          }
    ]

-- A new authorization comes with its allocations.
pub booked-IsStocked :
    (st after : Billing) (a : CreditAuthorization) (items : Allocations)
    → after.authorizations ≡ put_authorization a st.authorizations
    → after.allocations ≡ (a.id, items) ∷ st.allocations
    → HasLots after.lots items
    → ((i : Identifier) → HasLot st.lots i → HasLot after.lots i)
    → IsStocked st
    → IsStocked after
unfolding lookup
booked-IsStocked st after a items x y held keep s id b found =
    let put = find_authorization-put_authorization id a st.authorizations in
    elim (Bool-cases (a.id == id)) [
      | inl own ↦ record { items = items; allocated = ground (arith, y, own); stored = held }
      | inr other ↦
          let old = s id b (ground (arith, found, ap (find_authorization id) x, put, other)) in
          record {
            items = old.items;
            allocated = ground (arith, y, other, old.allocated);
            stored = All-HasLot st.lots after.lots old.items keep old.stored;
          }
    ]
