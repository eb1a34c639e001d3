-- ===== src/Tests/Shop/Reserved.antt =====
-- A reservation in the company of erpn.Tests.Shop.
use erpn.Database.Inventory.{availability_for_update, create_under_balance_lock}
use erpn.Database.Numeric.{
  has_remainder, numeric_of, numeric_plus, sum_numeric, sum_text, to_numeric,
}
use erpn.Database.Sales.{find_sales_order, find_sales_order_line}
use erpn.Database.Transaction.{
  Store, acting_user_id, company_id_of, lift, pure, query, random_uuid, refuse_unless,
  require_company_scope, select_first, select_where, tenant_id_of, throw, unless_absent,
  update_where, write, ◌>>=◌,
}
use erpn.Decimal.{
  add, compare, emit_digits, exec_pattern, is_negative, is_zero, match_digits, match_fraction,
  multiply, pad_start, parse_decimal, read_digits, render, round, round_down_to, shift, span_digits,
  subtract, ten_to, to_fixed, to_string, zero_at,
}
use erpn.Decimal.Scales.{units_of}
use erpn.Inventory.Reservations.{parse_quantity, reserve_for_order_line}
use erpn.Prelude.{refl, none, ◌≡◌, [], codes, text_eq, text_lt}
use erpn.Prelude.Int.{◌≤ℤ◌, pos, tdiv, tmod, ◌*ℤ◌, ◌+ℤ◌, ◌-ℤ◌}
use erpn.Prelude.Sort.{insert_sorted, sort_by}
use erpn.Database.Types.{StockReservationRecord}
use erpn.Inventory.Reservations.Availability.{on_hand_units, reserved_units, StockColumns}
use erpn.Inventory.Reservations.Oversell.{
  reserve_for_order_line-fits, reserve_for_order_line_lem, Held,
}
use erpn.Tests.Shop.{outcome, shop, tables, session}
use erpn.Result.{ok}

abbrev no_row : StockReservationRecord
no_row = record {
  id = [];
  tenant_id = [];
  company_id = [];
  sales_order_line_id = [];
  product_id = [];
  warehouse_id = [];
  quantity = [];
  reserved_at = 0;
  released_at = none;
  version = 0;
}

abbrev reservation : StockReservationRecord × Store
reservation =
    outcome (no_row, tables (codes "draft"))
      (reserve_for_order_line session (codes "l") (codes "3.5") (tables (codes "draft")))

reserves :
    reserve_for_order_line session (codes "l") (codes "3.5") (tables (codes "draft"))
    ≡ ok reservation
unfolding acting_user_id add company_id_of compare emit_digits exec_pattern has_remainder
    insert_sorted is_negative is_zero lift match_digits match_fraction multiply numeric_of
    numeric_plus pad_start parse_decimal parse_quantity pure query random_uuid read_digits
    refuse_unless render require_company_scope reserve_for_order_line round round_down_to
    select_first select_where shift sort_by span_digits subtract sum_numeric sum_text tdiv ten_to
    tenant_id_of text_eq text_lt throw tmod to_fixed to_numeric to_string units_of unless_absent
    update_where write zero_at ◌*ℤ◌ ◌+ℤ◌ ◌-ℤ◌ ◌>>=◌ find_sales_order find_sales_order_line
    availability_for_update create_under_balance_lock
reserves = refl

pub acting_on_stock : require_company_scope session.scope "Stock" ≡ ok shop
unfolding require_company_scope tenant_id_of company_id_of
acting_on_stock = refl

pub acting_on_reservations : require_company_scope session.scope "Stock reservations" ≡ ok shop
unfolding require_company_scope tenant_id_of company_id_of
acting_on_reservations = refl

pub columns : StockColumns (tables (codes "draft"))
unfolding render to_string emit_digits pad_start
columns = record { balances = ((pos 5000000, refl), tt); reservations = tt }

reserve_for_order_line_lem_example :
    Held shop (codes "3.5") (tables (codes "draft")) (reservation.1) (reservation.0)
reserve_for_order_line_lem_example =
    reserve_for_order_line_lem session shop acting_on_stock acting_on_reservations (codes "l")
      (codes "3.5") (tables (codes "draft")) (reservation.1) (reservation.0) columns reserves

reserve_for_order_line-fits_example :
    reserved_units shop (reservation.0.product_id) (reservation.0.warehouse_id) (reservation.1)
    ≤ℤ on_hand_units shop (reservation.0.product_id) (reservation.0.warehouse_id) (reservation.1)
reserve_for_order_line-fits_example =
    reserve_for_order_line-fits session shop acting_on_stock acting_on_reservations (codes "l")
      (codes "3.5") (tables (codes "draft")) (reservation.1) (reservation.0) columns reserves
