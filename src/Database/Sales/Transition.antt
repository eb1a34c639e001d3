-- ===== src/Database/Sales/Transition.antt =====
-- The guarded update of an order's status (`applyTransition` of
-- apps/api/src/database/repositories/sales.repository.ts).
use erpn.Database.Transaction.{
  ◌>>=◌, unless_absent, write, query, select_first, update_where, lift, Store,
  require_company_scope, CompanyScope, Session,
}
use erpn.Prelude.{Text, text_eq_refl, arith, true, some, ◌≡◌}
use erpn.Result.{ok}
use erpn.Database.Sales.{
  moved_order, is_sales_order, is_expected_order, ◌>>=◌, find_sales_order,
  apply_sales_order_transition,
}
use erpn.Database.Types.{SalesOrderRecord, SalesOrderTransition}
use erpn.Database.Transaction.Rows.{
  select_first-update_where, select_first-narrow, select_first-matches,
}

module _ (session : Session) (c : CompanyScope)
    (acting : require_company_scope session.scope "Sales documents" ≡ ok c) where
  pub find_sales_order_lem :
      (id : Text) (s : Store)
      → find_sales_order session id s ≡ ok (select_first (is_sales_order c id) s.sales_orders, s)
  unfolding find_sales_order ◌>>=◌ lift query
  find_sales_order_lem id s = rw (acting, lift)

  abbrev pub moved : SalesOrderTransition → Store → Store
  moved input s = record s {
    sales_orders = update_where (is_expected_order c input) (moved_order input) s.sales_orders;
  }

  pub apply_some :
      (input : SalesOrderTransition) (s : Store) (row : SalesOrderRecord)
      → select_first (is_expected_order c input) s.sales_orders ≡ some row
      → apply_sales_order_transition session input s ≡ ok (moved_order input row, moved input s)
  unfolding apply_sales_order_transition ◌>>=◌ lift query write unless_absent
  apply_some input s row h = rw (acting, lift, h, unless_absent)

  -- The transition of an order as it was read, in tables that still have it: it is made, and the order is
  -- found in its new state.
  pub apply_to_found :
      (input : SalesOrderTransition) (s : Store) (order : SalesOrderRecord)
      → select_first (is_sales_order c input.id) s.sales_orders ≡ some order
      → input.expected_version ≡ order.version
      → input.expected_status ≡ order.status
      → (apply_sales_order_transition session input s ≡ ok (moved_order input order, moved input s))
        × (select_first (is_sales_order c input.id) (moved input s).sales_orders
            ≡ some (moved_order input order))
  apply_to_found input s order h v w =
      let own : is_sales_order c input.id order ≡ true =
        select_first-matches (is_sales_order c input.id) s.sales_orders order h in
      let expected : is_expected_order c input order ≡ true =
        rw (own, v, w) (ground (arith, text_eq_refl order.status)) in
      (
        apply_some input s order (
            select_first-narrow (is_sales_order c input.id) (is_expected_order c input)
              s.sales_orders order (λ x n. ground arith) expected h),
        select_first-update_where (is_sales_order c input.id) (is_expected_order c input)
            (moved_order input) s.sales_orders order (λ x n. ground arith) (λ x n. n) expected h,
      )
