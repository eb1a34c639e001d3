-- ===== src/Sales/Confirm/Stock.antt =====
-- Confirmation (apps/api/src/sales/confirm-sales-order.ts) and the stock of the company.
use erpn.Database.Frame.Inversion.{after, after_read, unchanged}
use erpn.Database.Frame.Writes.{
  append_audit-Keeps, apply_sales_order_transition-Keeps, allocate-Keeps,
}
use mathlib.Core.Path.{subst}
use erpn.Sales.Confirm.Isolation.{validate_state-Keeps, validate_master_data-Keeps, authorize-Keeps}
use erpn.Database.Transaction.{
  select_first, pure, require_company_scope, Store, CompanyScope, Session,
}
use erpn.Prelude.{refl, ◌∙◌, [], ◌∷◌, Text, All, ap, sym, List, ◌≡◌}
use erpn.Inventory.Reservations.Availability.{held_quantities, StockColumns}
use erpn.Database.Types.{SalesOrderLineRecord, StockReservationRecord, StockBalanceRecord}
use erpn.Inventory.Reservations.Stock.{held-NotOversold, held-StockColumns, NotOversold}
use erpn.Result.{ok}
use erpn.Sales.Confirm.{
  authorize, validate_master_data, validate_state, ConfirmedSalesOrder, audit_confirmation,
  confirm_sales_order, reserve_lines,
}
use erpn.Sales.Sequences.{sales_order_doc_type, allocate_sales_order_number}
use erpn.Inventory.Reservations.Available.{quantities_total, IsQuantity}
use erpn.Authorization.{CompanyContext}
use erpn.Inventory.Reservations.{reserve_for_order_line}
use erpn.Prelude.Int.{◌≤ℤ◌}
use erpn.Decimal.Scales.{units_of}
use erpn.Inventory.Reservations.Oversell.{reserve_for_order_line_lem}
use erpn.Database.Inventory.{is_balance, on_hand_or_zero, quantity_scale}
use erpn.Database.Sales.{apply_sales_order_transition, allocate}
use erpn.Database.Access.{append_audit}

-- The tables that the stock of a product is worked out from.
stock_tables : Store → List StockBalanceRecord × List StockReservationRecord
stock_tables s = (s.stock_balances, s.stock_reservations)

abbrev pub Sound : CompanyScope → Store → Type 0
Sound c s = StockColumns s × NotOversold c s

same_tables-Sound :
    (c : CompanyScope) (s t : Store) → stock_tables t ≡ stock_tables s → Sound c s → Sound c t
unfolding stock_tables
same_tables-Sound c s t e (columns, within) =
    let balances : s.stock_balances ≡ t.stock_balances = sym (ap (λ p. p.0) e) in
    let reservations : s.stock_reservations ≡ t.stock_reservations = sym (ap (λ p. p.1) e) in
    (
      record {
        balances =
            subst (All (λ (row : StockBalanceRecord). IsQuantity row.on_hand)) balances
              columns.balances;
        reservations =
            subst (All (λ (row : StockReservationRecord). IsQuantity row.quantity)) reservations
              columns.reservations;
      },
      λ product warehouse.
          subst
            (λ (p : List StockBalanceRecord × List StockReservationRecord).
              quantities_total (held_quantities c product warehouse (p.1))
              ≤ℤ units_of quantity_scale
                  (on_hand_or_zero (select_first (is_balance c product warehouse) (p.0))))
            (sym e) (within product warehouse),
    )

module _ (session : Session) (c : CompanyScope)
    (stock : require_company_scope session.scope "Stock" ≡ ok c)
    (reservations : require_company_scope session.scope "Stock reservations" ≡ ok c) where
  reserve_lines-Sound :
      (lines : List SalesOrderLineRecord) (s t : Store) (ids : List Text)
      → Sound c s
      → reserve_lines session lines s ≡ ok (ids, t)
      → Sound c t
  unfolding reserve_lines pure
  reserve_lines-Sound [] s t ids sound h = let same : s ≡ t = cc h in subst (Sound c) same sound
  reserve_lines-Sound (line ∷ lines) s t ids sound h =
      after s t ids (reserve_for_order_line session line.id line.quantity) _ h (λ r u e h.
        after u t ids (reserve_lines session lines) _ h (λ rest v e' h.
          let held =
            reserve_for_order_line_lem session c stock reservations line.id line.quantity s u r
              (sound.0) e in
          let next : Sound c u = (
            held-StockColumns c line.quantity s u r held (sound.0),
            held-NotOversold c line.quantity s u r held (sound.1),
          ) in
          let same : v ≡ t = cc h in
          subst (Sound c) same (reserve_lines-Sound lines u v rest next e')))

  -- In tables whose quantities stand as their columns print them, and where no product of the company was
  -- promised beyond its stock in any warehouse, none is after a confirmation that returns, whatever the
  -- lines of the order are.
  pub confirm_sales_order-NotOversold :
      (context : CompanyContext) (id : Text) (s t : Store) (a : ConfirmedSalesOrder)
      → StockColumns s
      → NotOversold c s
      → confirm_sales_order session context id s ≡ ok (a, t)
      → NotOversold c t
  unfolding confirm_sales_order allocate_sales_order_number audit_confirmation stock_tables pure
  confirm_sales_order-NotOversold context id s t a columns within h =
      after_read s t a (validate_state session id) _ (validate_state-Keeps unchanged session id) h
        (λ read e h.
          after_read s t a (validate_master_data session read.0 read.1) _
            (validate_master_data-Keeps unchanged session read.0 read.1) h
            (λ done e' h.
              after_read s t a (authorize session context) _
                (authorize-Keeps unchanged session context) h
                (λ grants e'' h. after s t a (reserve_lines session _) _ h (λ ids r1 k1 h.
                  after r1 t a (allocate session sales_order_doc_type) _ h (λ allocated r2 k2 h.
                    after r2 t a (apply_sales_order_transition session _) _ h (λ order r3 k3 h.
                      after r3 t a (append_audit session _) _ h (λ done' r4 k4 h.
                        let kept : stock_tables r4 ≡ stock_tables r1 =
                          (append_audit-Keeps stock_tables session _ (λ v rows. refl)).kept r3 done'
                            r4 k4
                          ∙ (apply_sales_order_transition-Keeps stock_tables session _
                                (λ v rows. refl)).kept
                              r2 order r3 k3
                          ∙ (allocate-Keeps stock_tables session sales_order_doc_type
                                (λ v rows. refl)).kept
                              r1 allocated r2 k2 in
                        let same : r4 ≡ t = cc h in
                        subst (NotOversold c) same (
                          (same_tables-Sound c r1 r4 kept
                            (reserve_lines-Sound _ s r1 ids (columns, within) k1)).1))))))))
