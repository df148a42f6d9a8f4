-- ===== src/Infrastructure.antt =====
-- include/pfh/infrastructure: the in-memory repositories that the program runs on without a
-- database.
pub mod Repository
pub mod Lease
pub mod Outbox
pub mod Store
pub mod Action
pub mod UnitOfWork
pub mod Idempotency
pub mod Merged
pub mod Transactions
pub mod Accounts
pub mod Categories
pub mod Rates
pub mod Sessions
mod Tests
mod Scenarios
