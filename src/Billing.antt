-- ===== src/Billing.antt =====
-- apps/api/src/billing: customer invoices.
pub mod Status
pub mod Arithmetic
pub mod Document
pub mod PostChecks
pub mod Post
