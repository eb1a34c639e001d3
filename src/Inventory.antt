-- ===== src/Inventory.antt =====
-- apps/api/src/inventory: the lock order and the reservations.
pub mod LockOrder
pub mod Reservations
pub mod Ledger
