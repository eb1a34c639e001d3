-- ===== src/Database/Frame/Writes.antt =====
-- The statements that write keep every view that does not read the table they write.
use erpn.Database.Transaction.{Session, Store}
use erpn.Database.Access.{AuditEventInput, append_audit}
use erpn.Database.Sales.{allocate, apply_sales_order_transition, consume_invoiced_quantity}
use erpn.Database.Inventory.{create_under_balance_lock}
use erpn.Prelude.{◌≡◌, List, Text}
use erpn.Database.Types.{
  AuditEventRecord, DocumentNumberSequenceRecord, SalesOrderRecord, SalesOrderLineRecord,
  StockReservationRecord, NewStockReservation, SalesOrderTransition,
}
use erpn.Database.Frame.{write-Keeps, keeps, Keeps}

module _ {X : Type 0} (view : Store → X) (session : Session) where
  pub apply_sales_order_transition-Keeps :
      (input : SalesOrderTransition)
      → ((s : Store) (rows : List SalesOrderRecord)
          → view (record s { sales_orders = rows }) ≡ view s)
      → Keeps view (apply_sales_order_transition session input)
  unfolding apply_sales_order_transition
  apply_sales_order_transition-Keeps input h = search (keeps, write-Keeps, h) depth 20

  pub consume_invoiced_quantity-Keeps :
      (id quantity : Text)
      → ((s : Store) (rows : List SalesOrderLineRecord)
          → view (record s { sales_order_lines = rows }) ≡ view s)
      → Keeps view (consume_invoiced_quantity session id quantity)
  unfolding consume_invoiced_quantity
  consume_invoiced_quantity-Keeps id quantity h = search (keeps, write-Keeps, h) depth 20

  pub allocate-Keeps :
      (doc_type : Text)
      → ((s : Store) (rows : List DocumentNumberSequenceRecord)
          → view (record s { document_number_sequences = rows }) ≡ view s)
      → Keeps view (allocate session doc_type)
  unfolding allocate
  allocate-Keeps doc_type h = search (keeps, write-Keeps, h) depth 20

  pub create_under_balance_lock-Keeps :
      (input : NewStockReservation)
      → ((s : Store) (rows : List StockReservationRecord)
          → view (record s { stock_reservations = rows }) ≡ view s)
      → Keeps view (create_under_balance_lock session input)
  unfolding create_under_balance_lock
  create_under_balance_lock-Keeps input h = search (keeps, write-Keeps, h) depth 20

  pub append_audit-Keeps :
      (event : AuditEventInput)
      → ((s : Store) (rows : List AuditEventRecord)
          → view (record s { audit_events = rows }) ≡ view s)
      → Keeps view (append_audit session event)
  unfolding append_audit
  append_audit-Keeps event h = search (keeps, write-Keeps, h) depth 20
