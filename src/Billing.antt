-- ===== src/Billing.antt =====
-- billing/: prepaid credits, their reservation for a job, and what a purchase grants.
pub mod Models
pub mod Repository
pub mod Holdings
pub mod Books
pub mod Allocation
pub mod Ledger
pub mod Finality
pub mod Pricing
pub mod Service
pub mod Stripe
mod Tests
