-- ===== src/Sales/Sequences.antt =====
-- apps/api/src/sales/document-numbers.ts: the counters of a company, and the numbers they issue.
pub mod Gapless
use erpn.Prelude.{none, true, some, Option, codes, Text}
use erpn.Database.Transaction.{random_uuid, ◌>>=◌, pure, Tx, Session}
use erpn.Database.Types.{DocumentNumberSequenceRecord, AllocatedDocumentNumber}
use erpn.Database.Sales.{create_sequence, find_for_doc_type, allocate}

abbrev pub sales_order_doc_type : Text
sales_order_doc_type = codes "sales_order"

abbrev pub customer_invoice_doc_type : Text
customer_invoice_doc_type = codes "customer_invoice"

abbrev pub sales_order_prefix : Text
sales_order_prefix = codes "SO-"

abbrev pub customer_invoice_prefix : Text
customer_invoice_prefix = codes "INV-"

-- Not created a second time.
abbrev pub existing_or_new :
    Session → Option DocumentNumberSequenceRecord → Text → Text → Tx DocumentNumberSequenceRecord
existing_or_new session (some existing) doc_type prefix = pure existing
existing_or_new session none doc_type prefix = do
  id ← random_uuid session
  create_sequence session id doc_type prefix true

unfoldable pub provision_sales_order_sequence : Session → Tx DocumentNumberSequenceRecord
provision_sales_order_sequence session = do
  existing ← find_for_doc_type session sales_order_doc_type
  existing_or_new session existing sales_order_doc_type sales_order_prefix

unfoldable pub provision_customer_invoice_sequence : Session → Tx DocumentNumberSequenceRecord
provision_customer_invoice_sequence session = do
  existing ← find_for_doc_type session customer_invoice_doc_type
  existing_or_new session existing customer_invoice_doc_type customer_invoice_prefix

unfoldable pub allocate_sales_order_number : Session → Tx AllocatedDocumentNumber
allocate_sales_order_number session = allocate session sales_order_doc_type

unfoldable pub allocate_customer_invoice_number : Session → Tx AllocatedDocumentNumber
allocate_customer_invoice_number session = allocate session customer_invoice_doc_type
