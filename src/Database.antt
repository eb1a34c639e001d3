-- ===== src/Database.antt =====
-- apps/api/src/database: the stored records, transactions and the repositories.
pub mod Types
pub mod Transaction
pub mod Numeric
pub mod Sales
pub mod SalesDrafts
pub mod Inventory
pub mod Billing
pub mod Accounting
pub mod MovementChecks
pub mod Ledger
pub mod Accounts
pub mod Throttle
pub mod Identity
pub mod Idempotency
pub mod Access
pub mod Roles
pub mod Frame
pub mod Isolation
