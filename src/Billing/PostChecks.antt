-- ===== src/Billing/PostChecks.antt =====
-- Steps 1 and 2 of `postCustomerInvoice` (apps/api/src/billing/post-customer-invoice.ts): what is
-- checked before anything is written.
use erpn.Statuses.CustomerInvoiceStatus.{posted}
use erpn.Billing.Status.{status_of, assert_transition}
use erpn.Sales.Status as orders
use erpn.Database.Types.{CustomerInvoiceRecord, CustomerInvoiceLineRecord}
use erpn.Prelude.{is_nil, not, map, [], if◌then◌else◌, text_eq, [], ◌∷◌, codes, Text, List}
use erpn.Decimal.{parse_decimal}
use erpn.Billing.Arithmetic.{rate_scale}
use erpn.Database.Transaction.{refuse_unless, lift, unless_absent, ◌>>◌, ◌>>=◌, pure, Tx, Session}
use erpn.Failure.{no_lines, master_data_unusable, order_not_invoiceable, unreachable, not_found}
use erpn.Authorization.{CompanyContext}
use erpn.Database.Access.{is_active, text_member, find_customer, find_company}
use erpn.Database.Billing.{list_lines_for_invoice, find_invoice}
use erpn.Database.Sales.{find_sales_order}
use erpn.Billing.Document.{validate_totals, validate_lines, resolve_tax_rate, refusal_of, refusal}

unfoldable pub validate_state :
    Session → Text → Tx (CustomerInvoiceRecord × List CustomerInvoiceLineRecord)
validate_state session customer_invoice_id = do
  found ← find_invoice session customer_invoice_id
  invoice ← unless_absent found (refusal not_found)
  from ← lift (status_of invoice.status)
  lift (assert_transition from posted)
  lines ← list_lines_for_invoice session invoice.id
  refuse_unless (not (is_nil lines)) (refusal no_lines)
  pure (invoice, lines)

-- The orders that the lines bill, each once, in the order of its first line.
unfoldable pub without : Text → List Text → List Text
without t [] = []
without t (x ∷ xs) = let rest = without t xs in if text_eq t x then rest else x ∷ rest

unfoldable pub in_set_order : List Text → List Text
in_set_order [] = []
in_set_order (x ∷ xs) = x ∷ without x (in_set_order xs)

-- apps/api/src/billing/customer-invoice.service.ts
abbrev pub invoiceable_sales_order_statuses : List Text
invoiceable_sales_order_statuses = codes "confirmed" ∷ []

unfoldable pub validate_orders : Session → List Text → Tx (Unit {0})
validate_orders session [] = pure tt
validate_orders session (order_id ∷ order_ids) = do
  found ← find_sales_order session order_id
  order ← unless_absent found (refusal_of not_found order_id)
  status ← lift (orders.status_of order.status)
  refuse_unless (text_member (orders.status_text status) invoiceable_sales_order_statuses)
      (refusal_of order_not_invoiceable order_id)
  validate_orders session order_ids

unfoldable pub validate_document :
    Session
    → CompanyContext
    → CustomerInvoiceRecord
    → List CustomerInvoiceLineRecord
    → Tx (Unit {0})
validate_document session context invoice lines = do
  found_company ← find_company session context.company_id
  company ←
      unless_absent found_company
        (unreachable "The acting company disappeared inside its own transaction")
  customer ← find_customer session invoice.customer_id
  refuse_unless (is_active customer) (refusal master_data_unusable)
  validate_orders session
      (in_set_order (map (λ (line : CustomerInvoiceLineRecord). line.source_sales_order_id) lines))
  current_rate ← lift (parse_decimal (resolve_tax_rate company) rate_scale)
  lift (validate_lines current_rate lines)
  lift (validate_totals invoice lines)
