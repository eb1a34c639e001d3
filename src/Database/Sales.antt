-- ===== src/Database/Sales.antt =====
-- apps/api/src/database/repositories/sales.repository.ts: orders, their lines and the number sequences.
pub mod Transition
use erpn.Prelude.{◌-◌, ltb, ◌++◌, ◌==◌, text_eq, List, Option, ◌&&◌, ◌+◌, Bool, Text, [], ◌∷◌}
use erpn.Decimal.{Decimal}
use erpn.Database.Transaction.{
  select_where, pure, update_where, unless_absent, returning_first, select_first, query, write,
  require_company_scope, lift, Tx, CompanyScope, Session, ◌>>=◌, ◌>>◌,
}
use erpn.Sales.DocumentNumber.{format_document_number}
use erpn.Database.Types.{
  AllocatedDocumentNumber, SalesOrderRecord, SalesOrderTransition, DocumentNumberSequenceRecord,
  SalesOrderLineRecord,
}
use erpn.Prelude.Sort.{sort_by}
use erpn.Failure.{unreachable, sequence_missing, concurrency_conflict}
use erpn.Database.Numeric.{to_numeric, has_remainder, numeric_plus}

abbrev pub is_sales_order : CompanyScope → Text → SalesOrderRecord → Bool
is_sales_order c id row =
    text_eq row.id id && (text_eq row.tenant_id c.tenant_id && text_eq row.company_id c.company_id)

unfoldable pub find_sales_order : Session → Text → Tx (Option SalesOrderRecord)
find_sales_order session id = do
  c ← lift (require_company_scope session.scope "Sales documents")
  query (λ s. select_first (is_sales_order c id) s.sales_orders)

-- The order in the version and the status that the caller read.
abbrev pub is_expected_order : CompanyScope → SalesOrderTransition → SalesOrderRecord → Bool
is_expected_order c input row =
    is_sales_order c input.id row
    && (row.version == input.expected_version && text_eq row.status input.expected_status)

abbrev pub moved_order : SalesOrderTransition → SalesOrderRecord → SalesOrderRecord
moved_order input row = record row {
  status = input.status;
  doc_number = input.doc_number;
  version = row.version + 1;
}

unfoldable pub apply_sales_order_transition : Session → SalesOrderTransition → Tx SalesOrderRecord
apply_sales_order_transition session input = do
  c ← lift (require_company_scope session.scope "Sales documents")
  row ← query (λ s. returning_first (is_expected_order c input) (moved_order input) s.sales_orders)
  write (λ s. record s {
    sales_orders = update_where (is_expected_order c input) (moved_order input) s.sales_orders;
  })
  unless_absent row (concurrency_conflict "Sales order" input.id)

abbrev pub is_sales_order_line : CompanyScope → Text → SalesOrderLineRecord → Bool
is_sales_order_line c id row =
    text_eq row.id id && (text_eq row.tenant_id c.tenant_id && text_eq row.company_id c.company_id)

unfoldable pub find_sales_order_line : Session → Text → Tx (Option SalesOrderLineRecord)
find_sales_order_line session id = do
  c ← lift (require_company_scope session.scope "Sales documents")
  query (λ s. select_first (is_sales_order_line c id) s.sales_order_lines)

abbrev pub is_line_of_order : CompanyScope → Text → SalesOrderLineRecord → Bool
is_line_of_order c id row =
    text_eq row.sales_order_id id
    && (text_eq row.tenant_id c.tenant_id && text_eq row.company_id c.company_id)

unfoldable pub list_lines_for_order : Session → Text → Tx (List SalesOrderLineRecord)
list_lines_for_order session sales_order_id = do
  c ← lift (require_company_scope session.scope "Sales documents")
  query (λ s.
      sort_by (λ a b. ltb a.line_number b.line_number)
        (select_where (is_line_of_order c sales_order_id) s.sales_order_lines))

abbrev pub is_consumable : CompanyScope → Text → Decimal → SalesOrderLineRecord → Bool
is_consumable c id q row =
    is_sales_order_line c id row && has_remainder q row.quantity row.invoiced_quantity

abbrev pub consumed_line : Decimal → SalesOrderLineRecord → SalesOrderLineRecord
consumed_line q row = record row {
  invoiced_quantity = numeric_plus row.invoiced_quantity q;
  version = row.version + 1;
}

-- The remainder is tested in the statement that consumes it.
unfoldable pub consume_invoiced_quantity : Session → Text → Text → Tx (Option SalesOrderLineRecord)
consume_invoiced_quantity session id quantity = do
  c ← lift (require_company_scope session.scope "Sales documents")
  q ← lift (to_numeric quantity)
  row ← query (λ s. returning_first (is_consumable c id q) (consumed_line q) s.sales_order_lines)
  write (λ s. record s {
    sales_order_lines = update_where (is_consumable c id q) (consumed_line q) s.sales_order_lines;
  })
  pure row

abbrev pub is_sequence : CompanyScope → Text → DocumentNumberSequenceRecord → Bool
is_sequence c doc_type row =
    text_eq row.doc_type doc_type
    && (text_eq row.tenant_id c.tenant_id && text_eq row.company_id c.company_id)

unfoldable pub find_for_doc_type : Session → Text → Tx (Option DocumentNumberSequenceRecord)
find_for_doc_type session doc_type = do
  c ← lift (require_company_scope session.scope "Sales documents")
  query (λ s. select_first (is_sequence c doc_type) s.document_number_sequences)

-- A new sequence starts at one, by the column's default.
unfoldable pub create_sequence :
    Session → Text → Text → Text → Bool → Tx DocumentNumberSequenceRecord
create_sequence session id doc_type prefix gapless = do
  c ← lift (require_company_scope session.scope "Sales documents")
  let row : DocumentNumberSequenceRecord = record {
    id = id;
    tenant_id = c.tenant_id;
    company_id = c.company_id;
    doc_type = doc_type;
    prefix = prefix;
    gapless = gapless;
    next_value = 1;
    version = 1;
  }
  write (λ s. record s { document_number_sequences = s.document_number_sequences ++ (row ∷ []) })
  pure row

abbrev pub is_locked_sequence : CompanyScope → Text → Text → DocumentNumberSequenceRecord → Bool
is_locked_sequence c doc_type id row = text_eq row.id id && is_sequence c doc_type row

abbrev pub advanced : DocumentNumberSequenceRecord → DocumentNumberSequenceRecord
advanced row = record row { next_value = row.next_value + 1 }

unfoldable pub allocate : Session → Text → Tx AllocatedDocumentNumber
allocate session doc_type = do
  c ← lift (require_company_scope session.scope "Sales documents")
  locked ← query (λ s. select_first (is_sequence c doc_type) s.document_number_sequences)
  sequence ← unless_absent locked (sequence_missing doc_type)
  updated ← query (λ s.
      returning_first (is_locked_sequence c doc_type sequence.id) advanced
        s.document_number_sequences)
  write (λ s. record s {
    document_number_sequences =
        update_where (is_locked_sequence c doc_type sequence.id) advanced
          s.document_number_sequences;
  })
  row ←
      unless_absent updated
        (unreachable "The locked sequence row vanished before it could be incremented")
  let value = row.next_value - 1
  formatted ← lift (format_document_number row.prefix value)
  pure (record { doc_type = doc_type; value = value; formatted = formatted })
