-- ===== src/Inventory/Reservations.antt =====
-- apps/api/src/inventory/reservations.ts: stock held for an order line.
pub mod Isolation
pub mod Available
pub mod Availability
pub mod Oversell
pub mod Stock
use erpn.Prelude.{some, not, none, true, false, Bool, Text}
use erpn.Database.Transaction.{
  random_uuid, unless_absent, refuse_unless, ◌>>◌, lift, ◌>>=◌, Tx, Session,
}
use erpn.Decimal.{
  to_fixed, zero_at, compare, greater, less, equal, parse_decimal, Decimal, Comparison,
}
use erpn.Result.{rethrow_as, Result}
use erpn.Database.Types.{StockReservationRecord}
use erpn.Database.Inventory.{create_under_balance_lock, availability_for_update, quantity_scale}
use erpn.Failure.{
  insufficient_stock, Shortfall, order_not_found, line_not_found, invalid_quantity,
  stock_reservation,
}
use erpn.Database.Sales.{find_sales_order, find_sales_order_line}

unfoldable pub parse_quantity : Text → Result Decimal
parse_quantity value =
    rethrow_as (parse_decimal value quantity_scale) (stock_reservation invalid_quantity none)

abbrev pub is_greater : Comparison → Bool
is_greater equal = false
is_greater less = false
is_greater greater = true

abbrev pub is_less : Comparison → Bool
is_less equal = false
is_less less = true
is_less greater = false

unfoldable pub reserve_for_order_line : Session → Text → Text → Tx StockReservationRecord
reserve_for_order_line session sales_order_line_id requested = do
  quantity ← lift (parse_quantity requested)
  sign ← lift (compare quantity (zero_at 0))
  refuse_unless (is_greater sign) (stock_reservation invalid_quantity none)
  found_line ← find_sales_order_line session sales_order_line_id
  line ← unless_absent found_line (stock_reservation line_not_found none)
  found_order ← find_sales_order session line.sales_order_id
  order ← unless_absent found_order (stock_reservation order_not_found none)
  availability ← availability_for_update session line.product_id order.warehouse_id
  available ← lift (parse_quantity availability.available)
  comparison ← lift (compare available quantity)
  quantity_text ← lift (to_fixed quantity quantity_scale)
  let shortfall : Shortfall = record {
    requested = quantity_text;
    available = availability.available;
    on_hand = availability.on_hand;
    reserved = availability.reserved;
  }
  refuse_unless (not (is_less comparison)) (stock_reservation insufficient_stock (some shortfall))
  id ← random_uuid session
  create_under_balance_lock session (record {
    id = id;
    sales_order_line_id = line.id;
    product_id = line.product_id;
    warehouse_id = order.warehouse_id;
    quantity = quantity_text;
  })
