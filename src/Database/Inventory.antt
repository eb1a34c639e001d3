-- ===== src/Database/Inventory.antt =====
-- apps/api/src/database/repositories/inventory.repository.ts and stock-reservation.repository.ts.
use erpn.Prelude.{
  map, ◌++◌, is_some, is_none, ◌==◌, none, text_lt, List, ◌&&◌, text_eq, codes, if◌then◌else◌, ◌+◌,
  Bool, some, Text, Option, ℕ, [], ◌∷◌,
}
use erpn.Decimal.{max_scale, parse_decimal, subtract, to_fixed}
use erpn.Database.Transaction.{
  unless_absent, pure, update_where, select_where, select_first, returning_first, write, query,
  require_company_scope, lift, Store, Tx, Session, CompanyScope, ◌>>=◌, ◌>>◌,
}
use erpn.Database.Types.{
  SalesOrderLineRecord, StockAvailability, StockBalanceRecord, NewStockReservation,
  StockReservationRecord,
}
use erpn.Prelude.Sort.{sort_by}
use erpn.Database.Numeric.{sum_text}
use erpn.Failure.{concurrency_conflict}

abbrev pub quantity_scale : ℕ
quantity_scale = 6

abbrev pub is_balance : CompanyScope → Text → Text → StockBalanceRecord → Bool
is_balance c product warehouse row =
    text_eq row.tenant_id c.tenant_id
    && (text_eq row.company_id c.company_id
        && (text_eq row.product_id product && text_eq row.warehouse_id warehouse))

-- A reservation of the key that has not been released.
abbrev pub is_active_for : CompanyScope → Text → Text → StockReservationRecord → Bool
is_active_for c product warehouse row =
    text_eq row.tenant_id c.tenant_id
    && (text_eq row.company_id c.company_id
        && (text_eq row.product_id product
            && (text_eq row.warehouse_id warehouse && is_none row.released_at)))

abbrev pub on_hand_or_zero : Option StockBalanceRecord → Text
on_hand_or_zero none = codes "0"
on_hand_or_zero (some balance) = balance.on_hand

unfoldable pub availability_for_update : Session → Text → Text → Tx StockAvailability
availability_for_update session product warehouse = do
  c ← lift (require_company_scope session.scope "Stock")
  balance ← query (λ s. select_first (is_balance c product warehouse) s.stock_balances)
  on_hand ← lift (parse_decimal (on_hand_or_zero balance) max_scale)
  quantities ← query (λ s.
      map (λ (r : StockReservationRecord). r.quantity)
        (select_where (is_active_for c product warehouse) s.stock_reservations))
  total ← lift (sum_text quantities)
  reserved ← lift (parse_decimal total max_scale)
  on_hand_text ← lift (to_fixed on_hand quantity_scale)
  reserved_text ← lift (to_fixed reserved quantity_scale)
  available ← lift (subtract on_hand reserved)
  available_text ← lift (to_fixed available quantity_scale)
  pure (record {
    product_id = product;
    warehouse_id = warehouse;
    on_hand = on_hand_text;
    reserved = reserved_text;
    available = available_text;
    locked = is_some balance;
  })

unfoldable pub create_under_balance_lock : Session → NewStockReservation → Tx StockReservationRecord
create_under_balance_lock session input = do
  c ← lift (require_company_scope session.scope "Stock reservations")
  let row : StockReservationRecord = record {
    id = input.id;
    tenant_id = c.tenant_id;
    company_id = c.company_id;
    sales_order_line_id = input.sales_order_line_id;
    product_id = input.product_id;
    warehouse_id = input.warehouse_id;
    quantity = input.quantity;
    reserved_at = session.now;
    released_at = none;
    version = 1;
  }
  write (λ s. record s { stock_reservations = s.stock_reservations ++ (row ∷ []) })
  pure row

-- The line of a reservation belongs to the order: the inner join.
abbrev pub is_held_for : CompanyScope → Text → Store → StockReservationRecord → Bool
is_held_for c sales_order_id s row =
    text_eq row.tenant_id c.tenant_id
    && (text_eq row.company_id c.company_id
        && (is_none row.released_at
            && is_some (
                select_first
                  (λ (line : SalesOrderLineRecord).
                    text_eq line.id row.sales_order_line_id
                    && text_eq line.sales_order_id sales_order_id)
                  s.sales_order_lines)))

-- By product, then warehouse, then identifier.
abbrev pub reservation_before : StockReservationRecord → StockReservationRecord → Bool
reservation_before a b =
    if text_eq a.product_id b.product_id
    then if text_eq a.warehouse_id b.warehouse_id
      then text_lt a.id b.id
      else text_lt a.warehouse_id b.warehouse_id
    else text_lt a.product_id b.product_id

unfoldable pub list_active_for_order : Session → Text → Tx (List StockReservationRecord)
list_active_for_order session sales_order_id = do
  c ← lift (require_company_scope session.scope "Stock reservations")
  query (λ s.
      sort_by reservation_before
        (select_where (is_held_for c sales_order_id s) s.stock_reservations))

abbrev pub is_releasable : CompanyScope → Text → ℕ → StockReservationRecord → Bool
is_releasable c id expected_version row =
    text_eq row.tenant_id c.tenant_id
    && (text_eq row.company_id c.company_id
        && (text_eq row.id id && (row.version == expected_version && is_none row.released_at)))

abbrev pub released : ℕ → StockReservationRecord → StockReservationRecord
released now row = record row { released_at = some now; version = row.version + 1 }

unfoldable pub release_under_balance_lock : Session → Text → ℕ → Tx StockReservationRecord
release_under_balance_lock session id expected_version = do
  c ← lift (require_company_scope session.scope "Stock reservations")
  row ← query (λ s.
      returning_first (is_releasable c id expected_version) (released session.now)
        s.stock_reservations)
  write (λ s. record s {
    stock_reservations =
        update_where (is_releasable c id expected_version) (released session.now)
          s.stock_reservations;
  })
  unless_absent row (concurrency_conflict "Stock reservation" id)
