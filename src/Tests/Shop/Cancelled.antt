-- ===== src/Tests/Shop/Cancelled.antt =====
-- A cancellation in the company of erpn.Tests.Shop.
use erpn.Authorization.{grants_in, is_permission}
use erpn.Database.Access.{
  append_audit, distinct, find_company, find_customer, find_product, find_warehouse, is_active,
  joined_permissions, joined_roles, list_for_membership, list_permissions_for_membership,
  text_member,
}
use erpn.Database.Accounting.{find_for_purpose, record_journal, record_lines}
use erpn.Database.Billing.{apply_invoice_transition, find_invoice, list_lines_for_invoice}
use erpn.Database.Inventory.{
  availability_for_update, create_under_balance_lock, list_active_for_order,
  release_under_balance_lock,
}
use erpn.Database.Numeric.{
  has_remainder, numeric_of, numeric_plus, sum_numeric, sum_text, to_numeric,
}
use erpn.Database.Sales.{
  allocate, apply_sales_order_transition, consume_invoiced_quantity, create_sequence,
  find_for_doc_type, find_sales_order, find_sales_order_line, list_lines_for_order,
}
use erpn.Database.Transaction.{
  Store, acting_user_id, company_id_of, lift, pure, query, random_uuid, refuse_unless,
  require_company_scope, select_first, select_where, tenant_id_of, throw, unless_absent,
  update_where, write, ◌>>=◌,
}
use erpn.Decimal.{
  add, compare, emit_digits, exec_pattern, is_negative, is_zero, match_digits, match_fraction,
  multiply, pad_start, parse_decimal, read_digits, render, round, round_down_to, shift, span_digits,
  subtract, ten_to, to_fixed, to_string, zero_at,
}
use erpn.Inventory.LockOrder.{
  by_balance_key, by_sales_order_line_id, in_lock_order, in_sales_order_line_lock_order,
}
use erpn.Inventory.Reservations.{parse_quantity, reserve_for_order_line}
use erpn.Prelude.{refl, [], some, ◌≡◌, codes, text_eq, text_lt}
use erpn.Prelude.Int.{tdiv, tmod, ◌*ℤ◌, ◌+ℤ◌, ◌-ℤ◌}
use erpn.Prelude.Sort.{insert_sorted, sort_by}
use erpn.Sales.Cancel.{
  CancelledSalesOrder, audit_cancellation, authorize, cancel_sales_order, is_space, reason_change,
  release_all, reservation_key, summary_for, trim, trim_end, trim_start, trimmed_reason,
}
use erpn.Sales.Status.{
  assert_transition, can_transition, includes, is_sales_order_status, named_by, status_of,
  status_text, transitions,
}
use erpn.Tests.Shop.{acting, order, tables, outcome, shop, context, session}
use erpn.Database.Isolation.{others}
use erpn.Result.{ok}
use erpn.Sales.Cancel.Isolation.{others-cancel_sales_order}

abbrev pub cancellation : CancelledSalesOrder × Store
cancellation =
    outcome
      (
        record {
          order = order (codes "c") (codes "draft");
          released_reservation_ids = [];
          released_quantity = [];
        },
        tables (codes "confirmed"),
      )
      (cancel_sales_order session context (codes "o") (some (codes " lost "))
        (tables (codes "confirmed")))

pub cancels :
    cancel_sales_order session context
      (codes "o")
      (some (codes " lost "))
      (tables (codes "confirmed"))
    ≡ ok cancellation
unfolding acting_user_id add allocate append_audit apply_invoice_transition
    apply_sales_order_transition assert_transition audit_cancellation authorize
    availability_for_update by_balance_key by_sales_order_line_id can_transition cancel_sales_order
    company_id_of compare consume_invoiced_quantity create_sequence create_under_balance_lock
    distinct emit_digits exec_pattern find_company find_customer find_for_doc_type find_for_purpose
    find_invoice find_product find_sales_order find_sales_order_line find_warehouse grants_in
    has_remainder in_lock_order in_sales_order_line_lock_order includes insert_sorted is_active
    is_negative is_permission is_sales_order_status is_space is_zero joined_permissions joined_roles
    lift list_active_for_order list_for_membership list_lines_for_invoice list_lines_for_order
    list_permissions_for_membership match_digits match_fraction multiply named_by numeric_of
    numeric_plus pad_start parse_decimal parse_quantity pure query random_uuid read_digits
    reason_change record_journal record_lines refuse_unless release_all release_under_balance_lock
    render require_company_scope reservation_key reserve_for_order_line round round_down_to
    select_first select_where shift sort_by span_digits status_of status_text subtract sum_numeric
    sum_text summary_for tdiv ten_to tenant_id_of text_eq text_lt text_member throw tmod to_fixed
    to_numeric to_string transitions trim trim_end trim_start trimmed_reason unless_absent
    update_where write zero_at ◌*ℤ◌ ◌+ℤ◌ ◌-ℤ◌ ◌>>=◌
cancels = refl

others-cancel_sales_order_example :
    others shop (cancellation.1) ≡ others shop (tables (codes "confirmed"))
others-cancel_sales_order_example =
    others-cancel_sales_order session shop "Sales documents" acting context (codes "o")
      (some (codes " lost ")) (tables (codes "confirmed")) (cancellation.1) (cancellation.0) cancels
