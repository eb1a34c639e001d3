-- ===== src/Billing/Post/Isolation.antt =====
-- Posting (apps/api/src/billing/post-customer-invoice.ts) and the rows of other companies.
use erpn.Database.Transaction.{random_uuid, require_company_scope, CompanyScope, Session, Store}
use erpn.Billing.PostChecks.{validate_document, validate_orders}
use erpn.Billing.Post.{
  PostedCustomerInvoice, audit_posting, BilledQuantity, record_posting, consume_lines,
  post_customer_invoice, authorize, account_for,
}
use erpn.Prelude.{refl, [], ◌∷◌, ◌≡◌, Text, List, String}
use erpn.Authorization.{Grants, CompanyContext}
use erpn.Database.Types.{
  AllocatedDocumentNumber, NewJournalLine, CustomerInvoiceLineRecord, CustomerInvoiceRecord,
}
use erpn.Database.Frame.{random_uuid-Keeps, keeps, Keeps}
use erpn.Database.Frame.Reads.{reads}
use erpn.Result.{ok}
use erpn.Sales.Sequences.{allocate_customer_invoice_number}
use erpn.Database.Isolation.{append_audit-Keeps, others}
use erpn.Database.Isolation.Statements.{
  apply_invoice_transition-Keeps, record_journal-Keeps, allocate-Keeps,
  consume_invoiced_quantity-Keeps,
}
use erpn.Billing.PostChecks.{validate_state}

module _ {X : Type 0} (view : Store → X) (session : Session) where
  pub validate_state-Keeps : (id : Text) → Keeps view (validate_state session id)
  unfolding validate_state
  validate_state-Keeps id = search (keeps, reads) depth 30

  pub validate_orders-Keeps : (ids : List Text) → Keeps view (validate_orders session ids)
  unfolding validate_orders
  validate_orders-Keeps [] = search keeps
  validate_orders-Keeps (id ∷ ids) =
      let rest : (u : Unit {0}) → Keeps view (validate_orders session ids) =
        λ u. validate_orders-Keeps ids in
      search (keeps, reads, rest) depth 30

  pub validate_document-Keeps :
      (context : CompanyContext) (invoice : CustomerInvoiceRecord)
      (lines : List CustomerInvoiceLineRecord)
      → Keeps view (validate_document session context invoice lines)
  unfolding validate_document
  validate_document-Keeps context invoice lines =
      search (keeps, reads, validate_orders-Keeps) depth 30

  pub authorize-Keeps : (context : CompanyContext) → Keeps view (authorize session context)
  unfolding authorize
  authorize-Keeps context = search (keeps, reads) depth 30

  pub account_for-Keeps : (purpose : Text) → Keeps view (account_for session purpose)
  unfolding account_for
  account_for-Keeps purpose = search (keeps, reads) depth 30

module _ (session : Session) (c : CompanyScope) (subject : String)
    (acting : require_company_scope session.scope subject ≡ ok c) where
  consume_lines-Keeps :
      (lines : List BilledQuantity) → Keeps (others c) (consume_lines session lines)
  unfolding consume_lines
  consume_lines-Keeps [] = search keeps
  consume_lines-Keeps (line ∷ lines) =
      let rest : (u : Unit {0}) → Keeps (others c) (consume_lines session lines) =
        λ u. consume_lines-Keeps lines in
      search (keeps, consume_invoiced_quantity-Keeps session c subject acting, rest) depth 30

  audit_posting-Keeps :
      (context : CompanyContext) (grants : Grants) (invoice : CustomerInvoiceRecord)
      (lines : List CustomerInvoiceLineRecord) (formatted entry_id : Text)
      → Keeps (others c) (audit_posting session context grants invoice lines formatted entry_id)
  unfolding audit_posting
  audit_posting-Keeps context grants invoice lines formatted entry_id =
      append_audit-Keeps session c subject acting _

  record_posting-Keeps :
      (context : CompanyContext) (grants : Grants) (invoice : CustomerInvoiceRecord)
      (lines : List CustomerInvoiceLineRecord) (journal_lines : List NewJournalLine)
      (allocated : AllocatedDocumentNumber)
      → Keeps
          (others c)
          (record_posting session context grants invoice lines journal_lines allocated)
  unfolding record_posting others
  record_posting-Keeps context grants invoice lines journal_lines allocated =
      let fresh : (u : Unit {0}) → Keeps (others c) (random_uuid session) =
        λ u. random_uuid-Keeps (others c) session (λ s m. refl) in
      search
        (
          keeps,
          fresh,
          record_journal-Keeps session c subject acting,
          apply_invoice_transition-Keeps session c subject acting,
          audit_posting-Keeps,
        )
        depth 30

  post_customer_invoice-Keeps :
      (context : CompanyContext) (id : Text)
      → Keeps (others c) (post_customer_invoice session context id)
  unfolding post_customer_invoice allocate_customer_invoice_number
  post_customer_invoice-Keeps context id =
      search
        (
          keeps,
          validate_state-Keeps,
          validate_document-Keeps,
          authorize-Keeps,
          account_for-Keeps,
          consume_lines-Keeps,
          allocate-Keeps session c subject acting,
          record_posting-Keeps,
        )
        depth 30

  -- Posting under the scope of a company leaves every row of the other companies as it was, in all the
  -- tables that the model writes.
  pub others-post_customer_invoice :
      (context : CompanyContext) (id : Text) (s t : Store) (a : PostedCustomerInvoice)
      → post_customer_invoice session context id s ≡ ok (a, t)
      → others c t ≡ others c s
  others-post_customer_invoice context id s t a h =
      (post_customer_invoice-Keeps context id).kept s a t h
