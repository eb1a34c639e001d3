-- ===== src/Billing/Post.antt =====
-- `postCustomerInvoice` of apps/api/src/billing/post-customer-invoice.ts.
pub mod Isolation
pub mod Balanced
pub mod Journal
pub mod Outcome
use erpn.Database.Types.{
  AllocatedDocumentNumber, NewJournalLine, SalesOrderLineRecord, RecordedJournalEntry,
  CustomerInvoiceLineRecord, CustomerInvoiceRecord,
}
use erpn.Prelude.{none, map, [], some, ◌++◌, ◌∷◌, List, codes, Text}
use erpn.Database.Transaction.{
  lift, refuse_unless, ◌>>◌, random_uuid, unless_absent, pure, ◌>>=◌, Tx, Session,
}
use erpn.Authorization.{role_keys, grants_in, Grants, CompanyContext}
use erpn.Database.Accounting.{record_journal, find_for_purpose}
use erpn.Database.Access.{text_member, append_audit}
use erpn.Database.Sales.{consume_invoiced_quantity}
use erpn.Failure.{forbidden, posting_accounts_missing, quantity_exceeded}
use erpn.Inventory.LockOrder.{in_sales_order_line_lock_order}
use erpn.Database.Billing.{apply_invoice_transition}
use erpn.Sales.Sequences.{allocate_customer_invoice_number}
use erpn.Billing.PostChecks.{validate_document, validate_state, in_set_order}
use erpn.Billing.Document.{journal_lines_for, refusal_of, refusal}

pub record PostedCustomerInvoice : Type 0 where
  pub invoice : CustomerInvoiceRecord
  pub journal_entry : RecordedJournalEntry
  pub consumed_lines : List SalesOrderLineRecord

abbrev pub required_permission : Text
required_permission = codes "invoices:post"

abbrev pub receivable_purpose : Text
receivable_purpose = codes "accounts_receivable"

abbrev pub revenue_purpose : Text
revenue_purpose = codes "sales_revenue"

abbrev pub tax_purpose : Text
tax_purpose = codes "tax_payable"

-- Step 2
unfoldable pub authorize : Session → CompanyContext → Tx Grants
authorize session context = do
  grants ← grants_in session context.membership_id
  refuse_unless (text_member required_permission grants.permissions) (refusal forbidden)
  pure grants

unfoldable pub account_for : Session → Text → Tx Text
account_for session purpose = do
  found ← find_for_purpose session purpose
  mapping ← unless_absent found (refusal_of posting_accounts_missing purpose)
  pure mapping.account_id

-- The order line that an invoice line bills, and how much of it.
pub record BilledQuantity : Type 0 where
  pub id : Text
  pub quantity : Text

abbrev pub billed_quantity : CustomerInvoiceLineRecord → BilledQuantity
billed_quantity line = record { id = line.source_sales_order_line_id; quantity = line.quantity }

-- Step 3: the quantities, one order line after another.
unfoldable pub consume_lines : Session → List BilledQuantity → Tx (List SalesOrderLineRecord)
consume_lines session [] = pure []
consume_lines session (line ∷ lines) = do
  found ← consume_invoiced_quantity session line.id line.quantity
  consumed ← unless_absent found (refusal_of quantity_exceeded line.id)
  rest ← consume_lines session lines
  pure (consumed ∷ rest)

unfoldable pub audit_posting :
    Session
    → CompanyContext
    → Grants
    → CustomerInvoiceRecord
    → List CustomerInvoiceLineRecord
    → Text
    → Text
    → Tx (Unit {0})
audit_posting session context grants invoice lines formatted journal_entry_id =
    append_audit session (record {
      actor_roles = role_keys grants;
      request_id = context.request_id;
      action = codes "customer_invoice_posted";
      entity_type = codes "customer_invoice";
      entity_id = some invoice.id;
      ip_address = none;
      user_agent = none;
      summary =
          codes "Posted customer invoice "
          ++ formatted
          ++ codes " for "
          ++ invoice.total
          ++ codes " "
          ++ invoice.currency;
      changes =
          ((codes "status.from", invoice.status)
            ∷ (codes "status.to", codes "posted")
            ∷ (codes "docNumber", formatted)
            ∷ (codes "total", invoice.total)
            ∷ (codes "currency", invoice.currency)
            ∷ (codes "journalEntryId", journal_entry_id)
            ∷ [])
          ++ map (λ (order_id : Text). (codes "salesOrders", order_id))
              (in_set_order
                (map (λ (line : CustomerInvoiceLineRecord). line.source_sales_order_id) lines));
    })

-- Steps 4 and 5: the number, the entry, the status and the record of the change.
unfoldable pub record_posting :
    Session
    → CompanyContext
    → Grants
    → CustomerInvoiceRecord
    → List CustomerInvoiceLineRecord
    → List NewJournalLine
    → AllocatedDocumentNumber
    → Tx (CustomerInvoiceRecord × RecordedJournalEntry)
record_posting session context grants invoice lines journal_lines allocated = do
  id ← random_uuid session
  journal_entry ← record_journal session (record {
    id = id;
    entry_date = invoice.invoice_date;
    memo = codes "Customer invoice " ++ allocated.formatted;
    currency = invoice.currency;
    source_doc_type = some (codes "customer_invoice");
    source_doc_id = some invoice.id;
    lines = journal_lines;
  })
  posted ← apply_invoice_transition session (record {
    id = invoice.id;
    expected_version = invoice.version;
    expected_status = invoice.status;
    status = codes "posted";
    doc_number = some allocated.formatted;
  })
  audit_posting session context grants invoice lines allocated.formatted journal_entry.entry.id
  pure (posted, journal_entry)

unfoldable pub post_customer_invoice : Session → CompanyContext → Text → Tx PostedCustomerInvoice
post_customer_invoice session context customer_invoice_id = do
  (invoice, lines) ← validate_state session customer_invoice_id
  validate_document session context invoice lines
  grants ← authorize session context
  receivable ← account_for session receivable_purpose
  revenue ← account_for session revenue_purpose
  tax ← account_for session tax_purpose
  consumed_lines ← consume_lines session (
      in_sales_order_line_lock_order (λ (line : BilledQuantity). line.id)
        (map billed_quantity lines))
  allocated ← allocate_customer_invoice_number session
  journal_lines ← lift (journal_lines_for invoice receivable revenue tax)
  (posted, journal_entry) ←
      record_posting session context grants invoice lines journal_lines allocated
  pure (record { invoice = posted; journal_entry = journal_entry; consumed_lines = consumed_lines })
