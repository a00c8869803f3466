-- ===== src/Billing/Stripe.antt =====
-- billing/stripe.py: what a webhook grants. HTTP, JSON, `int` and the HMAC are the libraries': a
-- session is what `json.loads` decoded, with `none` for a value that is missing or has another type
-- than the code tests for.
pub mod Payments
use kenkui_server.Prelude.{
  ℕ, ◌+◌, ◌-◌, ◌≡◌, inl, inr, refl, Bool, true, false, not, ◌&&◌, ◌||◌, Option, none, some, List,
  [], ◌∷◌, Text, codes, text_eq, ◌==◌, leb, arith, exists, if◌then◌else◌, find, Option-cases, ap,
  ◌∙◌,
}
use kenkui_server.Prelude.Int.{ℤ, pos, negsuc}
use kenkui_server.Prelude.Result.{
  Result, ok, err, outcome, raised, returned, invalid_webhook_signature, invalid_payment_event,
}
use kenkui_server.Prelude.Action.{Action, pure, raise, ◌>>◌, raise_if}
use kenkui_server.Jobs.Models.{Identifier}
use kenkui_server.Billing.Models.{Billing}
use kenkui_server.Billing.Repository.{process_payment_event}

-- Credits and their price in cents.
abbrev pub Catalog : Type 0
Catalog = List (ℕ × ℕ)

abbrev pub credit_packs : Catalog
credit_packs = (500, 500) ∷ (1100, 1000) ∷ (2400, 2000) ∷ []

abbrev pub purchase_catalogs : List (Text × Catalog)
purchase_catalogs =
    (codes "kenkui_credits_v1", (500, 500) ∷ (1000, 1000) ∷ (2000, 2000) ∷ [])
    ∷ (codes "kenkui_credits_v2", credit_packs)
    ∷ []

-- `PURCHASE_CATALOGS.get(purpose)`
unfoldable pub catalog_of : Text → Option Catalog
catalog_of purpose = elim (find (λ c. text_eq c.0 purpose) purchase_catalogs) [
  | none ↦ none
  | some c ↦ some c.1
]

-- `catalog.get(credits)`
unfoldable pub price_of : ℤ → Catalog → Option ℕ
price_of (negsuc n) catalog = none
price_of (pos n) catalog = elim (find (λ p. p.0 == n) catalog) [ none ↦ none | some p ↦ some p.1 ]

pub data EventName : Type 0 where
  session_completed async_payment_succeeded unrelated : EventName

-- The fields that the handler reads. `account_id` is a text that is not empty, `credits` what `int`
-- made of the metadata, `session_id` a text that starts with "cs_", `tax` and the amounts integers.
pub record Session : Type 0 where
  pub purpose : Option Text
  pub is_paid : Bool
  pub account_id : Option Identifier
  pub credits : Option ℤ
  pub session_id : Option Text
  pub client_reference_id : Option Identifier
  pub is_payment_mode : Bool
  pub is_usd : Bool
  pub amount_subtotal : Option ℤ
  pub tax : Option ℤ
  pub amount_discount : Option ℤ
  pub amount_shipping : Option ℤ
  pub amount_total : Option ℤ

pub record PaymentEvent : Type 0 where
  pub id : Text
  pub account_id : Identifier
  pub credits : ℕ

-- The values of `t` and of `v1` in the signature header.
pub record Signature : Type 0 where
  pub timestamps : List Text
  pub digests : List Text

-- `abs(time.time() - int(timestamp)) <= 300`, where `timestamp` is none if `int` raised.
unfoldable pub is_recent : ℕ → Option ℤ → Bool
is_recent now none = false
is_recent now (some (pos n)) = leb (now - n + (n - now)) 300
is_recent now (some (negsuc n)) = leb (now + n + 1) 300

-- The tests of the signature, with `int` and, for this payload and secret, the HMAC of a timestamp.
unfoldable pub is_signed : (Text → Option ℤ) → (Text → Text) → ℕ → Signature → Bool
unfolding is_recent
is_signed int_of digest_of now signature = elim signature.timestamps [
  | timestamp ∷ [] ↦
      is_recent now (int_of timestamp) && exists (text_eq (digest_of timestamp)) signature.digests
  | _ ↦ false
]

abbrev pub has_amount : Option ℤ → ℕ → Bool
has_amount (some (pos n)) amount = n == amount
has_amount _ amount = false

abbrev pub same_account : Option Identifier → Identifier → Bool
same_account none id = false
same_account (some reference) id = reference == id

abbrev pub natural : Option ℤ → Option ℕ
natural (some (pos n)) = some n
natural _ = none

-- The tests on a paid session: `credits`, `price` and `tax` are numbers here, and the rest agrees.
unfoldable pub agrees : Session → Identifier → ℕ → ℕ → Bool
agrees session account_id price tax =
    same_account session.client_reference_id account_id
    && session.is_payment_mode
    && session.is_usd
    && has_amount session.amount_subtotal price
    && has_amount session.amount_discount 0
    && has_amount session.amount_shipping 0
    && has_amount session.amount_total (price + tax)

unfoldable pub purchase_for :
    Session → Option Identifier → Option Text → Option ℕ → Option ℕ → Option ℕ → Result PaymentEvent
purchase_for session (some account_id) (some id) (some credits) (some price) (some tax) =
    if agrees session account_id price tax
    then ok (record { id = id; account_id = account_id; credits = credits })
    else err invalid_payment_event
purchase_for session _ _ _ _ _ = err invalid_payment_event

abbrev pub price_in : Catalog → Option ℤ → Option ℕ
price_in catalog none = none
price_in catalog (some credits) = price_of credits catalog

-- The tests on a paid session of a known catalog.
unfoldable pub purchase_of : Catalog → Session → Result PaymentEvent
purchase_of catalog session =
    purchase_for session session.account_id session.session_id (natural session.credits)
      (price_in catalog session.credits) (natural session.tax)

abbrev pub is_purchase_event : EventName → Bool
is_purchase_event EventName.unrelated = false
is_purchase_event _ = true

abbrev pub catalog_for : Option Text → Option Catalog
catalog_for none = none
catalog_for (some purpose) = catalog_of purpose

-- The part of `handle` after the signature: no purchase, or the payment.
unfoldable pub payment_of : EventName → Session → Result (Option PaymentEvent)
payment_of name session = elim (catalog_for session.purpose) [
  | none ↦ ok none
  | some catalog ↦
      if not (is_purchase_event name) || not session.is_paid
      then ok none
      else elim (purchase_of catalog session) [
        | err code ↦ err code
        | ok payment ↦ ok (some payment)
      ]
]

-- `StripeWebhookHandler.handle`
unfoldable pub handle :
    Bool → EventName → Session → ℕ → Identifier → Identifier → Action Billing (Option PaymentEvent)
handle signed name session at lot_uuid entry_uuid =
    raise_if (not signed) invalid_webhook_signature >> elim (payment_of name session) [
      | err code ↦ raise code
      | ok none ↦ pure none
      | ok (some payment) ↦
          process_payment_event at lot_uuid entry_uuid (codes "stripe") payment.id
            payment.account_id payment.credits
          >> pure (some payment)
    ]

-- A payment that is worth what it grants.
pub record IsPaidFor (session : Session) (p : PaymentEvent) : Type 0 where
  pub catalog : Catalog
  pub sold : catalog_for session.purpose ≡ some catalog
  pub price : ℕ
  pub priced : price_of (pos p.credits) catalog ≡ some price
  pub paid : session.is_paid ≡ true
  pub dollars : session.is_usd ≡ true
  pub charged : session.amount_subtotal ≡ some (pos price)
  pub checkout : session.session_id ≡ some p.id
  pub buyer : session.client_reference_id ≡ some p.account_id

purchase_for-agrees :
    (s : Session) (a : Option Identifier) (id : Option Text) (c price tax : Option ℕ)
    (p : PaymentEvent)
    → purchase_for s a id c price tax ≡ ok p
    → (n : ℕ) × (m : ℕ) × (price ≡ some n)
      × (c ≡ some p.credits)
      × (id ≡ some p.id)
      × (agrees s p.account_id n m ≡ true)
unfolding purchase_for
purchase_for-agrees s (some a) (some id) (some c) (some n) (some m) p h =
    (n, m, refl, ground arith, ground arith, ground arith)
purchase_for-agrees s none id c price tax p h = cc
purchase_for-agrees s (some a) none c price tax p h = cc
purchase_for-agrees s (some a) (some id) none price tax p h = cc
purchase_for-agrees s (some a) (some id) (some c) none tax p h = cc
purchase_for-agrees s (some a) (some id) (some c) (some n) none p h = cc

natural-eq-some : (z : Option ℤ) (n : ℕ) → natural z ≡ some n → z ≡ some (pos n)
natural-eq-some none n h = cc
natural-eq-some (some (pos m)) n h = ground arith
natural-eq-some (some (negsuc m)) n h = cc

has_amount_eq : (z : Option ℤ) (n : ℕ) → has_amount z n ≡ true → z ≡ some (pos n)
has_amount_eq none n h = cc
has_amount_eq (some (pos m)) n h = ground arith
has_amount_eq (some (negsuc m)) n h = cc

same_account_eq : (a : Option Identifier) (k : Identifier) → same_account a k ≡ true → a ≡ some k
same_account_eq none k h = cc
same_account_eq (some j) k h = ground arith

-- The payment of a session is for the event of a checkout, and is worth what it grants.
pub payment_of_purchase :
    (name : EventName) (session : Session) (p : PaymentEvent)
    → payment_of name session ≡ ok (some p)
    → is_purchase_event name ≡ true
unfolding payment_of
payment_of_purchase name session p h = elim (Option-cases (catalog_for session.purpose)) [
  | inl unknown ↦ absurd (ground arith)
  | inr (catalog, sold) ↦ ground arith
]

pub payment_of-IsPaidFor :
    (name : EventName) (session : Session) (p : PaymentEvent)
    → payment_of name session ≡ ok (some p)
    → IsPaidFor session p
unfolding payment_of purchase_of agrees
payment_of-IsPaidFor name session p h = elim (Option-cases (catalog_for session.purpose)) [
  | inl unknown ↦ absurd (ground arith)
  | inr (catalog, sold) ↦ elim (outcome (purchase_of catalog session)) [
    | raised code e ↦ absurd (ground arith)
    | returned q e ↦
        let same : q ≡ p = ground arith in
        let (price, tax, priced, bought, known, fits) =
          purchase_for-agrees session session.account_id session.session_id
            (natural session.credits) (price_in catalog session.credits) (natural session.tax) p
            (e ∙ ap ok same) in
        let credits = natural-eq-some session.credits p.credits bought in
        record {
          catalog = catalog;
          sold = sold;
          price = price;
          priced = ground arith;
          paid = ground arith;
          dollars = ground arith;
          charged = has_amount_eq session.amount_subtotal price (ground arith);
          checkout = known;
          buyer = same_account_eq session.client_reference_id p.account_id (ground arith);
        }
  ]
]
