-- ===== src/Domain.antt =====
-- The domain layer (include/pfh/domain, src/domain): financial primitives, entities and services.
pub mod Error
pub mod Decimal
pub mod Currency
pub mod Money
pub mod Ids
pub mod Account
pub mod Transaction
pub mod Balance
pub mod Transfer
pub mod Category
pub mod User
pub mod Tag
pub mod AuditLog
mod Tests
pub mod ExchangeRate
