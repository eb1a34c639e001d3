-- ===== src/Sales.antt =====
-- apps/api/src/sales: sales orders and document numbers.
pub mod Status
pub mod DocumentNumber
pub mod Sequences
pub mod DraftFigures
pub mod Draft
pub mod Confirm
pub mod Cancel
