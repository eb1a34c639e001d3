-- ===== src/Failure.antt =====
-- The errors that the modelled code throws, one constructor for each class of error with the fields
-- that a caller can read, and the refusal reasons of the operations. Message texts are left out.
use erpn.Prelude.{ℕ, Text, Option, String}
use erpn.Statuses.{SalesOrderStatus, CustomerInvoiceStatus}

-- The two reasons that `parseDecimal` gives (apps/api/src/shared/decimal.ts).
pub data DecimalReason : Type 0 where
  malformed too_many_places : DecimalReason

-- apps/api/src/inventory/reservations.ts
pub data ReservationRefusal : Type 0 where
  line_not_found order_not_found invalid_quantity insufficient_stock : ReservationRefusal

pub record Shortfall : Type 0 where
  pub requested : Text
  pub available : Text
  pub on_hand : Text
  pub reserved : Text

-- apps/api/src/sales/confirm-sales-order.ts
pub data ConfirmationRefusal : Type 0 where
  not_found forbidden no_lines illegal_transition master_data_unusable : ConfirmationRefusal

-- apps/api/src/sales/cancel-sales-order.ts
pub data CancellationRefusal : Type 0 where
  not_found forbidden illegal_transition invalid_reason : CancellationRefusal

-- apps/api/src/billing/post-customer-invoice.ts
pub data PostingRefusal : Type 0 where
  not_found forbidden no_lines illegal_transition order_not_invoiceable : PostingRefusal
  master_data_unusable quantity_exceeded incoherent_document tax_rate_changed : PostingRefusal
  posting_accounts_missing nothing_to_post : PostingRefusal

-- apps/api/src/sales/sales-order.service.ts
pub data DraftRejection : Type 0 where
  no_lines order_not_found not_a_draft customer_not_found warehouse_not_found : DraftRejection
  product_not_found invalid_quantity invalid_discount currency_mismatch : DraftRejection

pub data Failure : Type 0 where
  decimal_parse : DecimalReason → Failure
  shift_narrows : ℕ → ℕ → Failure
  document_number_not_positive : Failure
  unknown_status : Text → Failure
  illegal_sales_order_transition : SalesOrderStatus → SalesOrderStatus → Failure
  illegal_customer_invoice_transition : CustomerInvoiceStatus → CustomerInvoiceStatus → Failure
  stock_reservation : ReservationRefusal → Option Shortfall → Failure
  sales_order_draft : DraftRejection → Option Text → Failure
  sales_order_confirmation : ConfirmationRefusal → Failure
  sales_order_cancellation : CancellationRefusal → Failure
  customer_invoice_posting : PostingRefusal → Option Text → Failure
  concurrency_conflict : String → Text → Failure
  record_not_found : String → Text → Failure
  sequence_missing : Text → Failure
  idempotency_conflict : Text → Failure
  company_scope_missing : String → Failure
  -- an error of the database: a statement that a constraint refuses, by the name of the constraint
  constraint_violated : String → Failure
  -- and a number that is too large for its column
  numeric_overflow : Failure
  -- a plain `Error`, which the code calls unreachable
  unreachable : String → Failure
