-- ===== src/Database/Isolation/Statements.antt =====
-- The statements of apps/api/src/database/repositories and the rows of other companies.
use erpn.Database.Transaction.{require_company_scope, CompanyScope, Session}
use erpn.Prelude.{[], arith, ◌+◌, refl, ◌∷◌, ap, List, ℕ, Text, ◌≡◌, String}
use erpn.Result.{ok}
use erpn.Database.Accounting.{record_journal, record_lines}
use erpn.Database.Sales.{
  advanced, consumed_line, moved_order, is_expected_order, is_locked_sequence, is_consumable,
  consume_invoiced_quantity, allocate, apply_sales_order_transition,
}
use erpn.Database.Billing.{moved_invoice, is_expected_invoice, apply_invoice_transition}
use erpn.Database.Inventory.{
  released, is_releasable, release_under_balance_lock, create_under_balance_lock,
}
use erpn.Database.Isolation.{foreign-insert, foreign-update, own-Keeps, others}
use erpn.Database.Types.{
  NewJournalLine, SalesOrderTransition, NewJournalEntry, NewStockReservation, JournalEntryRecord,
}
use erpn.Database.Frame.{
  keeps, random_uuid-Keeps, unless_absent-Keeps, write-Keeps, query-Keeps, lift-Keeps, pure-Keeps,
  update-Keeps, >>=-Keeps, Keeps,
}

module _ (session : Session) (c : CompanyScope) (subject : String)
    (acting : require_company_scope session.scope subject ≡ ok c) where
  pub apply_sales_order_transition-Keeps :
      (input : SalesOrderTransition) → Keeps (others c) (apply_sales_order_transition session input)
  unfolding apply_sales_order_transition others
  apply_sales_order_transition-Keeps input =
      own-Keeps session c subject acting "Sales documents" _ (
        update-Keeps (others c) _ _ _
          (λ s.
            ap (λ rows. record (others c s) { sales_orders = rows })
              (foreign-update c (λ row. row.tenant_id) (λ row. row.company_id)
                (is_expected_order c input) (moved_order input) (λ row h. ground arith)
                (λ row. (refl, refl)) s.sales_orders))
          (λ row. unless_absent-Keeps (others c) row _))

  pub consume_invoiced_quantity-Keeps :
      (id quantity : Text) → Keeps (others c) (consume_invoiced_quantity session id quantity)
  unfolding consume_invoiced_quantity others
  consume_invoiced_quantity-Keeps id quantity =
      own-Keeps session c subject acting "Sales documents" _ (
        >>=-Keeps (others c) _ _ (lift-Keeps (others c) _) (λ q.
          update-Keeps (others c) _ _ _
            (λ s.
              ap (λ rows. record (others c s) { sales_order_lines = rows })
                (foreign-update c (λ row. row.tenant_id) (λ row. row.company_id)
                  (is_consumable c id q) (consumed_line q) (λ row h. ground arith)
                  (λ row. (refl, refl)) s.sales_order_lines))
            (λ row. pure-Keeps (others c) row)))

  pub apply_invoice_transition-Keeps :
      (input : SalesOrderTransition) → Keeps (others c) (apply_invoice_transition session input)
  unfolding apply_invoice_transition others
  apply_invoice_transition-Keeps input = own-Keeps session c subject acting "Customer invoices" _ (
      update-Keeps (others c) _ _ _
        (λ s.
          ap (λ rows. record (others c s) { customer_invoices = rows })
            (foreign-update c (λ row. row.tenant_id) (λ row. row.company_id)
              (is_expected_invoice c input) (moved_invoice input) (λ row h. ground arith)
              (λ row. (refl, refl)) s.customer_invoices))
        (λ row. unless_absent-Keeps (others c) row _))

  pub release_under_balance_lock-Keeps :
      (id : Text) (version : ℕ) → Keeps (others c) (release_under_balance_lock session id version)
  unfolding release_under_balance_lock others
  release_under_balance_lock-Keeps id version =
      own-Keeps session c subject acting "Stock reservations" _ (
        update-Keeps (others c) _ _ _
          (λ s.
            ap (λ rows. record (others c s) { stock_reservations = rows })
              (foreign-update c (λ row. row.tenant_id) (λ row. row.company_id)
                (is_releasable c id version) (released session.now) (λ row h. ground arith)
                (λ row. (refl, refl)) s.stock_reservations))
          (λ row. unless_absent-Keeps (others c) row _))

  pub create_under_balance_lock-Keeps :
      (input : NewStockReservation) → Keeps (others c) (create_under_balance_lock session input)
  unfolding create_under_balance_lock others
  create_under_balance_lock-Keeps input =
      own-Keeps session c subject acting "Stock reservations" _ (
        >>=-Keeps (others c) _ _
          (write-Keeps (others c) _ (λ s.
            ap (λ rows. record (others c s) { stock_reservations = rows })
              (foreign-insert c (λ row. row.tenant_id) (λ row. row.company_id) s.stock_reservations
                _ refl refl)))
          (λ done. pure-Keeps (others c) _))

  pub allocate-Keeps : (doc_type : Text) → Keeps (others c) (allocate session doc_type)
  unfolding allocate others
  allocate-Keeps doc_type = own-Keeps session c subject acting "Sales documents" _ (
      >>=-Keeps (others c) _ _ (query-Keeps (others c) _) (λ locked.
        >>=-Keeps (others c) _ _ (unless_absent-Keeps (others c) locked _) (λ sequence.
          update-Keeps (others c) _ _ _
            (λ s.
              ap (λ rows. record (others c s) { document_number_sequences = rows })
                (foreign-update c (λ row. row.tenant_id) (λ row. row.company_id)
                  (is_locked_sequence c doc_type sequence.id) advanced (λ row h. ground arith)
                  (λ row. (refl, refl)) s.document_number_sequences))
            (λ updated. search keeps))))

  pub record_lines-Keeps :
      (entry : JournalEntryRecord) (n : ℕ) (lines : List NewJournalLine)
      → Keeps (others c) (record_lines session c entry n lines)
  unfolding record_lines others
  record_lines-Keeps entry n [] = pure-Keeps (others c) _
  record_lines-Keeps entry n (line ∷ lines) =
      >>=-Keeps (others c) _ _ (random_uuid-Keeps (others c) session (λ s m. refl)) (λ id.
        >>=-Keeps (others c) _ _
          (write-Keeps (others c) _ (λ s.
            ap (λ rows. record (others c s) { journal_lines = rows })
              (foreign-insert c (λ row. row.tenant_id) (λ row. row.company_id) s.journal_lines _
                refl refl)))
          (λ done.
            >>=-Keeps (others c) _ _ (record_lines-Keeps entry (n + 1) lines)
              (λ rest. pure-Keeps (others c) _)))

  pub record_journal-Keeps :
      (input : NewJournalEntry) → Keeps (others c) (record_journal session input)
  unfolding record_journal others
  record_journal-Keeps input = own-Keeps session c subject acting "Journal" _ (
      >>=-Keeps (others c) _ _
        (write-Keeps (others c) _ (λ s.
          ap (λ rows. record (others c s) { journal_entries = rows })
            (foreign-insert c (λ row. row.tenant_id) (λ row. row.company_id) s.journal_entries _
              refl refl)))
        (λ done.
          >>=-Keeps (others c) _ _ (record_lines-Keeps _ 0 input.lines)
            (λ lines. pure-Keeps (others c) _)))
