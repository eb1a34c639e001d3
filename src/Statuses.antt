-- ===== src/Statuses.antt =====
-- The states of the two documents: `SalesOrderStatus` of apps/api/src/sales/sales-order-status.ts
-- and `CustomerInvoiceStatus` of apps/api/src/billing/customer-invoice-status.ts.

pub data SalesOrderStatus : Type 0 where
  draft confirmed partially_delivered delivered invoiced cancelled : SalesOrderStatus

pub data CustomerInvoiceStatus : Type 0 where
  draft posted : CustomerInvoiceStatus
