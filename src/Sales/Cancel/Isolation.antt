-- ===== src/Sales/Cancel/Isolation.antt =====
-- Cancellation (apps/api/src/sales/cancel-sales-order.ts) and the rows of other companies.
use erpn.Database.Transaction.{Store, require_company_scope, CompanyScope, Session}
use erpn.Prelude.{[], ◌∷◌, Option, Text, List, ◌≡◌, String}
use erpn.Result.{ok}
use erpn.Sales.Cancel.{
  CancelledSalesOrder, audit_cancellation, authorize, cancel_sales_order, release_all,
}
use erpn.Decimal.{Decimal}
use erpn.Authorization.{CompanyContext}
use erpn.Database.Types.{StockReservationRecord}
use erpn.Database.Frame.{keeps, Keeps}
use erpn.Database.Isolation.{append_audit-Keeps, others}
use erpn.Database.Frame.Reads.{reads}
use erpn.Database.Isolation.Statements.{
  release_under_balance_lock-Keeps, apply_sales_order_transition-Keeps,
}

module _ (session : Session) (c : CompanyScope) (subject : String)
    (acting : require_company_scope session.scope subject ≡ ok c) where
  authorize-Keeps : (context : CompanyContext) → Keeps (others c) (authorize session context)
  unfolding authorize
  authorize-Keeps context = search (keeps, reads) depth 30

  release_all-Keeps :
      (sum : Decimal) (held : List StockReservationRecord)
      → Keeps (others c) (release_all session sum held)
  unfolding release_all
  release_all-Keeps sum [] = search keeps
  release_all-Keeps sum (reservation ∷ held) =
      let rest : (total : Decimal) → Keeps (others c) (release_all session total held) =
        λ total. release_all-Keeps total held in
      search (keeps, reads, release_under_balance_lock-Keeps session c subject acting, rest) depth
        30

  cancel_sales_order-Keeps :
      (context : CompanyContext) (id : Text) (reason : Option Text)
      → Keeps (others c) (cancel_sales_order session context id reason)
  unfolding cancel_sales_order audit_cancellation
  cancel_sales_order-Keeps context id reason =
      search
        (
          keeps,
          reads,
          authorize-Keeps,
          release_all-Keeps,
          apply_sales_order_transition-Keeps session c subject acting,
          append_audit-Keeps session c subject acting,
        )
        depth 30

  -- Cancelling under the scope of a company leaves every row of the other companies as it was, in all the
  -- tables that the model writes.
  pub others-cancel_sales_order :
      (context : CompanyContext) (id : Text) (reason : Option Text) (s t : Store)
      (a : CancelledSalesOrder)
      → cancel_sales_order session context id reason s ≡ ok (a, t)
      → others c t ≡ others c s
  others-cancel_sales_order context id reason s t a h =
      (cancel_sales_order-Keeps context id reason).kept s a t h
