-- ===== src/Tests/Shop/Posted.antt =====
-- A posting in the company of erpn.Tests.Shop.
use erpn.Sales.Status as orders
use erpn.Authorization.{grants_in, is_permission}
use erpn.Billing.Arithmetic.{
  amount_scale, billed_amounts, divide_by_hundred, document_totals, sum_lines,
}
use erpn.Billing.Document.{
  is_positive_amount, journal_lines_for, resolve_tax_rate, same_amounts, same_totals, validate_line,
  validate_lines, validate_totals,
}
use erpn.Billing.Post.{
  PostedCustomerInvoice, account_for, audit_posting, authorize, consume_lines,
  post_customer_invoice, record_posting,
}
use erpn.Billing.PostChecks.{
  in_set_order, validate_document, validate_orders, validate_state, without,
}
use erpn.Billing.Status.{
  assert_transition, can_transition, includes, status_of, status_text, transitions,
}
use erpn.Database.Access.{
  append_audit, distinct, find_company, find_customer, find_product, find_warehouse, is_active,
  joined_permissions, joined_roles, list_for_membership, list_permissions_for_membership,
  text_member,
}
use erpn.Database.Accounting.{find_for_purpose, record_journal, record_lines}
use erpn.Database.Billing.{
  is_invoice, apply_invoice_transition, find_invoice, list_lines_for_invoice,
}
use erpn.Database.Inventory.{
  availability_for_update, create_under_balance_lock, list_active_for_order,
  release_under_balance_lock,
}
use erpn.Database.Numeric.{
  has_remainder, numeric_of, numeric_plus, sum_numeric, sum_text, to_numeric,
}
use erpn.Database.Sales.{
  allocate, apply_sales_order_transition, consume_invoiced_quantity, create_sequence,
  find_for_doc_type, find_sales_order, find_sales_order_line, list_lines_for_order,
}
use erpn.Database.Transaction.{
  Store, acting_user_id, company_id_of, lift, pure, query, random_uuid, refuse_unless,
  require_company_scope, select_first, select_where, tenant_id_of, throw, unless_absent,
  update_where, write, ◌>>=◌,
}
use erpn.Decimal.{
  add, compare, emit_digits, exec_pattern, is_negative, is_zero, match_digits, match_fraction,
  multiply, pad_start, parse_decimal, read_digits, render, round, round_down_to, shift, span_digits,
  subtract, ten_to, to_fixed, to_string, zero_at,
}
use erpn.Inventory.LockOrder.{
  by_balance_key, by_sales_order_line_id, in_lock_order, in_sales_order_line_lock_order,
}
use erpn.Inventory.Reservations.{parse_quantity, reserve_for_order_line}
use erpn.Prelude.{false, some, refl, none, ◌≡◌, codes, [], text_eq, text_lt}
use erpn.Prelude.Int.{is_neg, tdiv, tmod, ◌*ℤ◌, ◌+ℤ◌, ◌-ℤ◌}
use erpn.Prelude.Sort.{insert_sorted, sort_by}
use erpn.Sales.DocumentNumber.{format_document_number}
use erpn.Sales.Sequences.{
  allocate_customer_invoice_number, allocate_sales_order_number,
  provision_customer_invoice_sequence, provision_sales_order_sequence,
}
use erpn.Tests.Shop.{acting, tables, outcome, shop, invoice, context, session}
use erpn.Database.Isolation.{others}
use erpn.Result.{ok}
use erpn.Billing.Post.Isolation.{others-post_customer_invoice}
use erpn.Billing.Post.Outcome.{post_customer_invoice-Balances, Balances}
use erpn.Billing.Post.Journal.{Journaled}
use erpn.Decimal.Scales.{units_of}
use erpn.Decimal.Round.{units_at}

abbrev pub unposted : PostedCustomerInvoice
unposted = record {
  invoice = invoice;
  journal_entry = record {
    entry = record {
      id = [];
      tenant_id = [];
      company_id = [];
      entry_date = [];
      memo = [];
      currency = [];
      source_doc_type = none;
      source_doc_id = none;
    };
    lines = [];
  };
  consumed_lines = [];
}

abbrev pub posting : PostedCustomerInvoice × Store
posting =
    outcome (unposted, tables (codes "confirmed"))
      (post_customer_invoice session context (codes "i") (tables (codes "confirmed")))

pub posts :
    post_customer_invoice session context (codes "i") (tables (codes "confirmed")) ≡ ok posting
unfolding account_for acting_user_id add allocate allocate_customer_invoice_number
    allocate_sales_order_number append_audit apply_invoice_transition apply_sales_order_transition
    assert_transition audit_posting authorize availability_for_update billed_amounts by_balance_key
    by_sales_order_line_id can_transition company_id_of compare consume_invoiced_quantity
    consume_lines create_sequence create_under_balance_lock distinct divide_by_hundred
    document_totals emit_digits exec_pattern find_company find_customer find_for_doc_type
    find_for_purpose find_invoice find_product find_sales_order find_sales_order_line find_warehouse
    format_document_number grants_in has_remainder in_lock_order in_sales_order_line_lock_order
    in_set_order includes insert_sorted is_active is_negative is_permission is_positive_amount
    is_zero joined_permissions joined_roles journal_lines_for lift list_active_for_order
    list_for_membership list_lines_for_invoice list_lines_for_order list_permissions_for_membership
    match_digits match_fraction multiply numeric_of numeric_plus pad_start parse_decimal
    parse_quantity post_customer_invoice provision_customer_invoice_sequence
    provision_sales_order_sequence pure query random_uuid read_digits record_journal record_lines
    record_posting refuse_unless release_under_balance_lock render require_company_scope
    reserve_for_order_line resolve_tax_rate round round_down_to same_amounts same_totals
    select_first select_where shift sort_by span_digits status_of status_text subtract sum_lines
    sum_numeric sum_text tdiv ten_to tenant_id_of text_eq text_lt text_member throw tmod to_fixed
    to_numeric to_string transitions unless_absent update_where validate_document validate_line
    validate_lines validate_orders validate_state validate_totals without write zero_at ◌*ℤ◌ ◌+ℤ◌
    ◌-ℤ◌ ◌>>=◌ orders.status_text orders.includes orders.is_sales_order_status orders.named_by
    orders.status_of
posts = refl

others-post_customer_invoice_example :
    others shop (posting.1) ≡ others shop (tables (codes "confirmed"))
others-post_customer_invoice_example =
    others-post_customer_invoice session shop "Sales documents" acting context (codes "i")
      (tables (codes "confirmed")) (posting.1) (posting.0) posts

acting_on_invoices : require_company_scope session.scope "Customer invoices" ≡ ok shop
unfolding require_company_scope tenant_id_of company_id_of
acting_on_invoices = refl

stored_invoice :
    select_first (is_invoice shop (codes "i")) ((tables (codes "confirmed")).customer_invoices)
    ≡ some invoice
unfolding select_first text_eq
stored_invoice = refl

taxed : is_neg (units_of amount_scale (invoice.tax_total)) ≡ false
unfolding units_of units_at parse_decimal exec_pattern match_digits match_fraction span_digits
    read_digits ◌*ℤ◌
taxed = refl

post_customer_invoice-Balances_example :
    Balances (posting.0.journal_entry)
    × Journaled (tables (codes "confirmed")) (posting.0.journal_entry) (posting.1)
post_customer_invoice-Balances_example =
    post_customer_invoice-Balances session shop acting_on_invoices context (codes "i")
      (tables (codes "confirmed")) (posting.1) (posting.0) invoice stored_invoice taxed posts
