-- ===== src/Sales/Confirm/Isolation.antt =====
-- Confirmation (apps/api/src/sales/confirm-sales-order.ts) and the rows of other companies.
use erpn.Database.Transaction.{require_company_scope, CompanyScope, Store, Session}
use erpn.Sales.Confirm.{
  ConfirmedSalesOrder, audit_confirmation, confirm_sales_order, reserve_lines, authorize,
  validate_state, validate_products, validate_master_data,
}
use erpn.Database.Types.{SalesOrderLineRecord, SalesOrderRecord}
use erpn.Prelude.{[], ◌∷◌, ◌≡◌, Text, String, List}
use erpn.Authorization.{CompanyContext}
use erpn.Database.Frame.{keeps, Keeps}
use erpn.Result.{ok}
use erpn.Database.Frame.Reads.{reads}
use erpn.Sales.Sequences.{allocate_sales_order_number}
use erpn.Database.Isolation.{append_audit-Keeps, others}
use erpn.Inventory.Reservations.Isolation.{reserve_for_order_line-Keeps}
use erpn.Database.Isolation.Statements.{apply_sales_order_transition-Keeps, allocate-Keeps}

module _ {X : Type 0} (view : Store → X) (session : Session) where
  pub validate_state-Keeps : (id : Text) → Keeps view (validate_state session id)
  unfolding validate_state
  validate_state-Keeps id = search (keeps, reads) depth 30

  pub validate_products-Keeps :
      (lines : List SalesOrderLineRecord) → Keeps view (validate_products session lines)
  unfolding validate_products
  validate_products-Keeps [] = search keeps
  validate_products-Keeps (line ∷ lines) =
      let rest : (u : Unit {0}) → Keeps view (validate_products session lines) =
        λ u. validate_products-Keeps lines in
      search (keeps, reads, rest) depth 30

  pub validate_master_data-Keeps :
      (order : SalesOrderRecord) (lines : List SalesOrderLineRecord)
      → Keeps view (validate_master_data session order lines)
  unfolding validate_master_data
  validate_master_data-Keeps order lines = search (keeps, reads, validate_products-Keeps) depth 30

  pub authorize-Keeps : (context : CompanyContext) → Keeps view (authorize session context)
  unfolding authorize
  authorize-Keeps context = search (keeps, reads) depth 30

module _ (session : Session) (c : CompanyScope) (subject : String)
    (acting : require_company_scope session.scope subject ≡ ok c) where
  reserve_lines-Keeps :
      (lines : List SalesOrderLineRecord) → Keeps (others c) (reserve_lines session lines)
  unfolding reserve_lines
  reserve_lines-Keeps [] = search keeps
  reserve_lines-Keeps (line ∷ lines) =
      let rest : (u : Unit {0}) → Keeps (others c) (reserve_lines session lines) =
        λ u. reserve_lines-Keeps lines in
      search (keeps, reserve_for_order_line-Keeps session c subject acting, rest) depth 30

  confirm_sales_order-Keeps :
      (context : CompanyContext) (id : Text)
      → Keeps (others c) (confirm_sales_order session context id)
  unfolding confirm_sales_order allocate_sales_order_number audit_confirmation
  confirm_sales_order-Keeps context id =
      search
        (
          keeps,
          validate_state-Keeps,
          validate_master_data-Keeps,
          authorize-Keeps,
          reserve_lines-Keeps,
          allocate-Keeps session c subject acting,
          apply_sales_order_transition-Keeps session c subject acting,
          append_audit-Keeps session c subject acting,
        )
        depth 30

  -- Confirming under the scope of a company leaves every row of the other companies as it was, in all the
  -- tables that the model writes.
  pub others-confirm_sales_order :
      (context : CompanyContext) (id : Text) (s t : Store) (a : ConfirmedSalesOrder)
      → confirm_sales_order session context id s ≡ ok (a, t)
      → others c t ≡ others c s
  others-confirm_sales_order context id s t a h =
      (confirm_sales_order-Keeps context id).kept s a t h
