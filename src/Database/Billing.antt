-- ===== src/Database/Billing.antt =====
-- apps/api/src/database/repositories/billing.repository.ts: customer invoices and their lines.
use erpn.Database.Transaction.{
  unless_absent, select_where, update_where, write, returning_first, select_first, query,
  require_company_scope, lift, Tx, Session, CompanyScope, ◌>>=◌, ◌>>◌,
}
use erpn.Database.Types.{CustomerInvoiceLineRecord, CustomerInvoiceRecord, SalesOrderTransition}
use erpn.Prelude.{ltb, ◌==◌, ◌&&◌, text_eq, List, ◌+◌, Option, Bool, Text}
use erpn.Prelude.Sort.{sort_by}
use erpn.Failure.{concurrency_conflict}

abbrev pub is_invoice : CompanyScope → Text → CustomerInvoiceRecord → Bool
is_invoice c id row =
    text_eq row.id id && (text_eq row.tenant_id c.tenant_id && text_eq row.company_id c.company_id)

unfoldable pub find_invoice : Session → Text → Tx (Option CustomerInvoiceRecord)
find_invoice session id = do
  c ← lift (require_company_scope session.scope "Customer invoices")
  query (λ s. select_first (is_invoice c id) s.customer_invoices)

abbrev pub is_line_of_invoice : CompanyScope → Text → CustomerInvoiceLineRecord → Bool
is_line_of_invoice c id row =
    text_eq row.customer_invoice_id id
    && (text_eq row.tenant_id c.tenant_id && text_eq row.company_id c.company_id)

unfoldable pub list_lines_for_invoice : Session → Text → Tx (List CustomerInvoiceLineRecord)
list_lines_for_invoice session id = do
  c ← lift (require_company_scope session.scope "Customer invoices")
  query (λ s.
      sort_by (λ a b. ltb a.line_number b.line_number)
        (select_where (is_line_of_invoice c id) s.customer_invoice_lines))

-- The invoice in the version and the status that the caller read.
abbrev pub is_expected_invoice : CompanyScope → SalesOrderTransition → CustomerInvoiceRecord → Bool
is_expected_invoice c input row =
    is_invoice c input.id row
    && (row.version == input.expected_version && text_eq row.status input.expected_status)

abbrev pub moved_invoice : SalesOrderTransition → CustomerInvoiceRecord → CustomerInvoiceRecord
moved_invoice input row = record row {
  status = input.status;
  doc_number = input.doc_number;
  version = row.version + 1;
}

unfoldable pub apply_invoice_transition : Session → SalesOrderTransition → Tx CustomerInvoiceRecord
apply_invoice_transition session input = do
  c ← lift (require_company_scope session.scope "Customer invoices")
  row ←
      query (λ s.
        returning_first (is_expected_invoice c input) (moved_invoice input) s.customer_invoices)
  write (λ s. record s {
    customer_invoices =
        update_where (is_expected_invoice c input) (moved_invoice input) s.customer_invoices;
  })
  unless_absent row (concurrency_conflict "Customer invoices" input.id)
