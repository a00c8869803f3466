-- ===== src/Billing/Repository.antt =====
-- billing/models.py: the methods of `InMemoryBillingRepository` that write.
mod Grants
mod Reservations
mod Finals
unfoldable pub use Grants.*
unfoldable pub use Reservations.*
unfoldable pub use Finals.*
