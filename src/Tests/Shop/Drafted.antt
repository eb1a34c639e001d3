-- ===== src/Tests/Shop/Drafted.antt =====
-- A draft of the company of erpn.Tests.Shop, created and edited.
use erpn.Sales.Status.{status_of, status_text, named_by, includes, is_sales_order_status}
use erpn.Tests.Shop.{acting, outcome, session, shop, tables, order}
use erpn.Prelude.{text_eq, refl, ◌∷◌, ◌≡◌, [], none, some, codes, Text}
use erpn.Sales.Draft.{
  remove_lines, editable_order, update_draft_in, UpdateDraftInput, total, create_lines, price,
  price_lines, check_parties, acting_company, CreateDraftInput, create_draft_in, SalesOrderDraft,
}
use erpn.Database.Transaction.{
  select_where, ◌>>=◌, update_where, write, random_uuid, pure, unless_absent, query, company_id_of,
  tenant_id_of, require_company_scope, lift, refuse_unless, Store, select_first,
}
use erpn.Sales.Draft.Outcome.{create_draft_in-Drafted, Drafted}
use erpn.Decimal.{
  pad_start, zero_at, ten_to, render, to_fixed, round_down_to, round, add, subtract, multiply,
  is_zero, is_negative, shift, compare, read_digits, span_digits, match_fraction, match_digits,
  exec_pattern, parse_decimal, emit_digits, to_string,
}
use erpn.Sales.DraftFigures.{
  stored_totals, sum_stored, line_figures, decimal_or, discount_or_zero, draft_discount,
  draft_quantity, DraftLineInput,
}
use erpn.Result.{ok}
use erpn.Database.Sales.{list_lines_for_order, find_sales_order, is_sales_order}
use erpn.Database.Access.{
  is_active_product, find_product, find_warehouse, is_active, find_customer, find_company,
}
use erpn.Billing.Arithmetic.{divide_by_hundred}
use erpn.Billing.Document.{resolve_tax_rate}
use erpn.Database.SalesDrafts.{
  remove_sales_order_line, update_draft_order, set_totals, create_sales_order_line,
  create_sales_order,
}
use erpn.Prelude.Int.{◌-ℤ◌, ◌+ℤ◌, ◌*ℤ◌, tmod, tdiv}
use erpn.Sales.Draft.Editable.{UniqueIds}
use erpn.Sales.Draft.Edited.{update_draft_in-Edited, Edited}
use erpn.Prelude.Sort.{insert_sorted, sort_by}
use erpn.Database.Isolation.{others}
use erpn.Sales.Draft.Isolation.{others-update_draft_in}

abbrev pens : Text → Text → DraftLineInput
pens quantity discount = record {
  product_id = codes "p";
  quantity = quantity;
  discount_percent = some discount;
}

abbrev asked : CreateDraftInput
asked = record {
  customer_id = codes "k";
  warehouse_id = codes "w";
  order_date = codes "2026-01-01";
  expected_delivery_date = none;
  sales_rep_user_id = none;
  lines = pens (codes "3") (codes "12.5") ∷ pens (codes "1.5") [] ∷ [];
}

abbrev drafted : SalesOrderDraft × Store
drafted =
    outcome
      (record { order = order (codes "c") (codes "draft"); lines = [] }, tables (codes "draft"))
      (create_draft_in session (codes "c") asked (tables (codes "draft")))

drafts : create_draft_in session (codes "c") asked (tables (codes "draft")) ≡ ok drafted
unfolding create_draft_in refuse_unless acting_company find_company lift require_company_scope
    tenant_id_of company_id_of query unless_absent select_first text_eq check_parties find_customer
    is_active find_warehouse pure price_lines price divide_by_hundred resolve_tax_rate find_product
    is_active_product create_sales_order create_sales_order_line set_totals create_lines total
    draft_quantity draft_discount discount_or_zero decimal_or line_figures sum_stored stored_totals
    parse_decimal exec_pattern match_digits match_fraction span_digits read_digits compare shift
    is_negative is_zero multiply subtract add round round_down_to to_fixed render ten_to tdiv tmod
    zero_at pad_start to_string emit_digits random_uuid write update_where ◌*ℤ◌ ◌+ℤ◌ ◌-ℤ◌ ◌>>=◌
drafts = refl

nothing_drawn :
    select_first (is_sales_order shop (session.uuid 0)) (tables (codes "draft")).sales_orders ≡ none
unfolding select_first to_string emit_digits erpn.Prelude.text_eq
nothing_drawn = refl

create_draft_in-Drafted_example :
    Drafted session shop acting (codes "c") asked (tables (codes "draft")) (drafted.1) (drafted.0)
create_draft_in-Drafted_example =
    create_draft_in-Drafted session shop acting (codes "c") asked (tables (codes "draft"))
      (drafted.1) (drafted.0) nothing_drawn drafts

-- The order of the shop, edited.
abbrev changed : UpdateDraftInput
changed = record { draft = asked; sales_order_id = codes "o"; expected_version = 1 }

-- The tables with one order of each identifier.
abbrev one_order : Store
one_order = record (tables (codes "draft")) {
  sales_orders = order (codes "c") (codes "draft") ∷ [];
}

abbrev edited : SalesOrderDraft × Store
edited =
    outcome
      (record { order = order (codes "c") (codes "draft"); lines = [] }, tables (codes "draft"))
      (update_draft_in session (codes "c") changed one_order)

edits : update_draft_in session (codes "c") changed one_order ≡ ok edited
unfolding update_draft_in refuse_unless acting_company find_company lift require_company_scope
    tenant_id_of company_id_of query unless_absent select_first text_eq check_parties find_customer
    is_active find_warehouse pure price_lines price divide_by_hundred resolve_tax_rate find_product
    is_active_product create_sales_order create_sales_order_line set_totals create_lines total
    draft_quantity draft_discount discount_or_zero decimal_or line_figures sum_stored stored_totals
    parse_decimal exec_pattern match_digits match_fraction span_digits read_digits compare shift
    is_negative is_zero multiply subtract add round round_down_to to_fixed render ten_to tdiv tmod
    zero_at pad_start to_string emit_digits random_uuid write update_where ◌*ℤ◌ ◌+ℤ◌ ◌-ℤ◌ ◌>>=◌
    editable_order find_sales_order status_of status_text named_by includes is_sales_order_status
    update_draft_order list_lines_for_order sort_by insert_sorted select_where remove_lines
    remove_sales_order_line
edits = refl

one_of_each : UniqueIds one_order.sales_orders
one_of_each = (tt, tt)

update_draft_in-Edited_example :
    Edited session shop acting (codes "c") changed one_order (edited.1) (edited.0)
update_draft_in-Edited_example =
    update_draft_in-Edited session shop acting (codes "c") changed one_order (edited.1) (edited.0)
      one_of_each edits

others-update_draft_in_example : others shop (edited.1) ≡ others shop one_order
others-update_draft_in_example =
    others-update_draft_in session shop "Sales documents" acting (codes "c") changed one_order
      (edited.1) (edited.0) edits

drafted_total : drafted.0.order.total ≡ codes "9.4875"
unfolding create_draft_in refuse_unless acting_company find_company lift require_company_scope
    tenant_id_of company_id_of query unless_absent select_first text_eq check_parties find_customer
    is_active find_warehouse pure price_lines price divide_by_hundred resolve_tax_rate find_product
    is_active_product create_sales_order create_sales_order_line set_totals create_lines total
    draft_quantity draft_discount discount_or_zero decimal_or line_figures sum_stored stored_totals
    parse_decimal exec_pattern match_digits match_fraction span_digits read_digits compare shift
    is_negative is_zero multiply subtract add round round_down_to to_fixed render ten_to tdiv tmod
    zero_at pad_start to_string emit_digits random_uuid write update_where ◌*ℤ◌ ◌+ℤ◌ ◌-ℤ◌ ◌>>=◌
drafted_total = refl
