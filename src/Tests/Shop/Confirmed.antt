-- ===== src/Tests/Shop/Confirmed.antt =====
-- A confirmation in the company of erpn.Tests.Shop.
use erpn.Statuses.SalesOrderStatus.{confirmed}
use erpn.Authorization.{grants_in, is_permission}
use erpn.Database.Access.{
  append_audit, distinct, find_company, find_customer, find_product, find_warehouse, is_active,
  is_active_product, joined_permissions, joined_roles, list_for_membership,
  list_permissions_for_membership, text_member,
}
use erpn.Database.Accounting.{find_for_purpose, record_journal, record_lines}
use erpn.Database.Billing.{apply_invoice_transition, find_invoice, list_lines_for_invoice}
use erpn.Database.Inventory.{
  is_balance, availability_for_update, create_under_balance_lock, list_active_for_order,
  release_under_balance_lock,
}
use erpn.Database.Numeric.{
  has_remainder, numeric_of, numeric_plus, sum_numeric, sum_text, to_numeric,
}
use erpn.Database.Sales.{
  allocate, apply_sales_order_transition, consume_invoiced_quantity, create_sequence,
  find_for_doc_type, find_sales_order, find_sales_order_line, list_lines_for_order,
}
use erpn.Database.Transaction.{
  Store, acting_user_id, company_id_of, lift, pure, query, random_uuid, refuse_unless,
  require_company_scope, select_first, select_where, tenant_id_of, throw, unless_absent,
  update_where, write, ◌>>=◌,
}
use erpn.Decimal.{
  add, compare, emit_digits, exec_pattern, is_negative, is_zero, match_digits, match_fraction,
  multiply, pad_start, parse_decimal, read_digits, render, round, round_down_to, shift, span_digits,
  subtract, ten_to, to_fixed, to_string, zero_at,
}
use erpn.Inventory.LockOrder.{
  by_balance_key, by_sales_order_line_id, in_lock_order, in_sales_order_line_lock_order,
}
use erpn.Inventory.Reservations.{parse_quantity, reserve_for_order_line}
use erpn.Prelude.{inr, arith, inl, Bool-cases, refl, [], ◌≡◌, codes, text_eq, text_lt}
use erpn.Prelude.Int.{tdiv, tmod, ◌*ℤ◌, ◌+ℤ◌, ◌-ℤ◌}
use erpn.Prelude.Sort.{insert_sorted, sort_by}
use erpn.Sales.Confirm.{
  ConfirmedSalesOrder, audit_confirmation, authorize, confirm_sales_order, line_key, reserve_lines,
  validate_master_data, validate_products, validate_state,
}
use erpn.Sales.DocumentNumber.{format_document_number}
use erpn.Sales.Sequences.{
  allocate_customer_invoice_number, allocate_sales_order_number,
  provision_customer_invoice_sequence, provision_sales_order_sequence,
}
use erpn.Sales.Status.{
  assert_transition, can_transition, includes, is_sales_order_status, named_by, status_of,
  status_text, transitions,
}
use erpn.Tests.Shop.{balance, acting, order, tables, outcome, shop, context, session}
use erpn.Database.Isolation.{others}
use erpn.Result.{err, ok}
use erpn.Sales.Confirm.Isolation.{others-confirm_sales_order}
use erpn.Sales.Confirm.Outcome.{
  confirm_sales_order-confirm_sales_order, confirm_sales_order_lem, Confirmed,
}
use erpn.Failure.{illegal_sales_order_transition}
use erpn.Inventory.Reservations.Stock.{NotOversold}
use erpn.Inventory.Reservations.Available.{quantities_total}
use erpn.Decimal.Scales.{units_of}
use erpn.Sales.Confirm.Stock.{confirm_sales_order-NotOversold}
use erpn.Tests.Shop.Reserved.{columns, acting_on_reservations, acting_on_stock}
use erpn.Decimal.Round.{units_at}

abbrev pub confirmation : ConfirmedSalesOrder × Store
confirmation =
    outcome
      (
        record { order = order (codes "c") (codes "draft"); reservation_ids = [] },
        tables (codes "draft"),
      )
      (confirm_sales_order session context (codes "o") (tables (codes "draft")))

pub confirms :
    confirm_sales_order session context (codes "o") (tables (codes "draft")) ≡ ok confirmation
unfolding acting_user_id add allocate allocate_customer_invoice_number allocate_sales_order_number
    append_audit apply_invoice_transition apply_sales_order_transition assert_transition
    audit_confirmation authorize availability_for_update by_balance_key by_sales_order_line_id
    can_transition company_id_of compare confirm_sales_order consume_invoiced_quantity
    create_sequence create_under_balance_lock distinct emit_digits exec_pattern find_company
    find_customer find_for_doc_type find_for_purpose find_invoice find_product find_sales_order
    find_sales_order_line find_warehouse format_document_number grants_in has_remainder
    in_lock_order in_sales_order_line_lock_order includes insert_sorted is_active is_active_product
    is_negative is_permission is_sales_order_status is_zero joined_permissions joined_roles lift
    line_key list_active_for_order list_for_membership list_lines_for_invoice list_lines_for_order
    list_permissions_for_membership match_digits match_fraction multiply named_by numeric_of
    numeric_plus pad_start parse_decimal parse_quantity provision_customer_invoice_sequence
    provision_sales_order_sequence pure query random_uuid read_digits record_journal record_lines
    refuse_unless release_under_balance_lock render require_company_scope reserve_for_order_line
    reserve_lines round round_down_to select_first select_where shift sort_by span_digits status_of
    status_text subtract sum_numeric sum_text tdiv ten_to tenant_id_of text_eq text_lt text_member
    throw tmod to_fixed to_numeric to_string transitions unless_absent update_where
    validate_master_data validate_products validate_state write zero_at ◌*ℤ◌ ◌+ℤ◌ ◌-ℤ◌ ◌>>=◌
confirms = refl

others-confirm_sales_order_example :
    others shop (confirmation.1) ≡ others shop (tables (codes "draft"))
others-confirm_sales_order_example =
    others-confirm_sales_order session shop "Sales documents" acting context (codes "o")
      (tables (codes "draft")) (confirmation.1) (confirmation.0) confirms

confirm_sales_order_lem_example :
    Confirmed session shop acting context
      (codes "o")
      (tables (codes "draft"))
      (confirmation.1)
      (confirmation.0)
confirm_sales_order_lem_example =
    confirm_sales_order_lem session shop acting context (codes "o") (tables (codes "draft"))
      (confirmation.1) (confirmation.0) confirms

confirm_sales_order-confirm_sales_order_example :
    confirm_sales_order session context (codes "o") (confirmation.1)
    ≡ err (illegal_sales_order_transition confirmed confirmed)
confirm_sales_order-confirm_sales_order_example =
    confirm_sales_order-confirm_sales_order session shop acting context context (codes "o")
      (tables (codes "draft")) (confirmation.1) (confirmation.0) confirms

none_promised : NotOversold shop (tables (codes "draft"))
unfolding select_where select_first quantities_total units_of units_at parse_decimal exec_pattern
    match_digits match_fraction span_digits read_digits ◌*ℤ◌
none_promised product warehouse = elim (Bool-cases (is_balance shop product warehouse balance)) [
  | inl there ↦ rw there (omega arith)
  | inr elsewhere ↦ rw elsewhere (omega arith)
]

confirm_sales_order-NotOversold_example : NotOversold shop (confirmation.1)
confirm_sales_order-NotOversold_example =
    confirm_sales_order-NotOversold session shop acting_on_stock acting_on_reservations context
      (codes "o") (tables (codes "draft")) (confirmation.1) (confirmation.0) columns none_promised
      confirms
