-- ===== src/Sales/Draft.antt =====
-- `createDraftIn` and `updateDraftIn` of apps/api/src/sales/sales-order.service.ts.
pub mod Priced
pub mod Stored
pub mod Written
pub mod Outcome
pub mod Replaced
pub mod Editable
pub mod Rewritten
pub mod Edited
pub mod Isolation
use erpn.Database.Transaction.{
  random_uuid, lift, unless_absent, pure, refuse_unless, Tx, Session, ◌>>=◌, ◌>>◌,
}
use erpn.Sales.Status.{status_of, status_text}
use erpn.Prelude.{codes, ◌+◌, text_eq, [], ◌∷◌, is_nil, not, Option, ℕ, List, Text}
use erpn.Database.Types.{SalesOrderLineRecord, CompanyRecord, SalesOrderRecord}
use erpn.Sales.DraftFigures.{
  line_figures, draft_discount, rejection, rejection_of, stored_totals, draft_quantity,
  DraftLineInput, PricedLine,
}
use erpn.Database.Sales.{list_lines_for_order, find_sales_order}
use erpn.Database.Access.{
  is_active_product, find_warehouse, find_product, is_active, find_customer, find_company,
}
use erpn.Database.Types.Drafts.{NewSalesOrderLine}
use erpn.Failure.{
  currency_mismatch, product_not_found, not_a_draft, warehouse_not_found, no_lines,
  customer_not_found, order_not_found, unreachable,
}
use erpn.Database.SalesDrafts.{
  create_sales_order, update_draft_order, create_sales_order_line, remove_sales_order_line,
  set_totals,
}

pub record CreateDraftInput : Type 0 where
  pub customer_id : Text
  pub warehouse_id : Text
  pub order_date : Text
  pub expected_delivery_date : Option Text
  pub sales_rep_user_id : Option Text
  pub lines : List DraftLineInput

pub record UpdateDraftInput : Type 0 where
  pub draft : CreateDraftInput
  pub sales_order_id : Text
  pub expected_version : ℕ

pub record SalesOrderDraft : Type 0 where
  pub order : SalesOrderRecord
  pub lines : List SalesOrderLineRecord

unfoldable pub price : Session → CompanyRecord → DraftLineInput → Tx PricedLine
price session company line = do
  quantity ← lift (draft_quantity line)
  discount ← lift (draft_discount line)
  found ← find_product session line.product_id
  refuse_unless (is_active_product found) (rejection_of product_not_found line.product_id)
  product ← unless_absent found (rejection_of product_not_found line.product_id)
  refuse_unless (text_eq product.sales_price_currency company.base_currency)
      (rejection_of currency_mismatch line.product_id)
  lift (line_figures company product quantity discount)

unfoldable pub price_lines : Session → CompanyRecord → List DraftLineInput → Tx (List PricedLine)
price_lines session company [] = pure []
price_lines session company (line ∷ lines) = do
  priced ← price session company line
  rest ← price_lines session company lines
  pure (priced ∷ rest)

abbrev pub line_input : Text → Text → Text → ℕ → PricedLine → NewSalesOrderLine
line_input id sales_order_id currency line_number line = record {
  id = id;
  sales_order_id = sales_order_id;
  line_number = line_number;
  product_id = line.product_id;
  product_sku = line.product_sku;
  product_name = line.product_name;
  quantity = line.quantity;
  unit_price = line.unit_price;
  currency = currency;
  discount_percent = line.discount_percent;
  tax_rate_percent = line.tax_rate_percent;
  line_subtotal = line.line_subtotal;
  line_tax = line.line_tax;
  line_total = line.line_total;
}

-- The loop over the priced lines, from a line number.
unfoldable pub create_lines :
    Session → Text → Text → ℕ → List PricedLine → Tx (List SalesOrderLineRecord)
create_lines session sales_order_id currency line_number [] = pure []
create_lines session sales_order_id currency line_number (line ∷ lines) = do
  id ← random_uuid session
  created ← create_sales_order_line session (line_input id sales_order_id currency line_number line)
  rest ← create_lines session sales_order_id currency (line_number + 1) lines
  pure (created ∷ rest)

unfoldable pub remove_lines : Session → List SalesOrderLineRecord → Tx (Unit {0})
remove_lines session [] = pure tt
remove_lines session (line ∷ lines) = do
  remove_sales_order_line session line.id
  remove_lines session lines

unfoldable pub total : Session → SalesOrderRecord → List SalesOrderLineRecord → Tx SalesOrderRecord
total session order lines = do
  totals ← lift (stored_totals order.id lines)
  set_totals session totals

unfoldable pub acting_company : Session → Text → Tx CompanyRecord
acting_company session company_id = do
  found ← find_company session company_id
  unless_absent found (unreachable "The acting company disappeared inside its own transaction")

-- The customer and the warehouse are in use, and are the ones asked for.
unfoldable pub check_parties : Session → CreateDraftInput → Tx (Text × Text)
check_parties session input = do
  customer ← find_customer session input.customer_id
  refuse_unless (is_active customer) (rejection_of customer_not_found input.customer_id)
  customer_row ← unless_absent customer (rejection_of customer_not_found input.customer_id)
  warehouse ← find_warehouse session input.warehouse_id
  refuse_unless (is_active warehouse) (rejection_of warehouse_not_found input.warehouse_id)
  warehouse_row ← unless_absent warehouse (rejection_of warehouse_not_found input.warehouse_id)
  pure (customer_row.id, warehouse_row.id)

unfoldable pub create_draft_in : Session → Text → CreateDraftInput → Tx SalesOrderDraft
create_draft_in session company_id input = do
  refuse_unless (not (is_nil input.lines)) (rejection no_lines)
  company ← acting_company session company_id
  (customer_id, warehouse_id) ← check_parties session input
  priced ← price_lines session company input.lines
  order_id ← random_uuid session
  order ← create_sales_order session (record {
    id = order_id;
    customer_id = customer_id;
    warehouse_id = warehouse_id;
    sales_rep_user_id = input.sales_rep_user_id;
    order_date = input.order_date;
    expected_delivery_date = input.expected_delivery_date;
    currency = company.base_currency;
  })
  lines ← create_lines session order_id company.base_currency 1 priced
  totalled ← total session order lines
  pure (record { order = totalled; lines = lines })

-- The order that is edited: found, and a draft.
unfoldable pub editable_order : Session → Text → Tx SalesOrderRecord
editable_order session sales_order_id = do
  found ← find_sales_order session sales_order_id
  existing ← unless_absent found (rejection_of order_not_found sales_order_id)
  status ← lift (status_of existing.status)
  refuse_unless (text_eq (status_text status) (codes "draft")) (rejection not_a_draft)
  pure existing

unfoldable pub update_draft_in : Session → Text → UpdateDraftInput → Tx SalesOrderDraft
update_draft_in session company_id input = do
  refuse_unless (not (is_nil input.draft.lines)) (rejection no_lines)
  company ← acting_company session company_id
  existing ← editable_order session input.sales_order_id
  (customer_id, warehouse_id) ← check_parties session input.draft
  priced ← price_lines session company input.draft.lines
  header ← update_draft_order session (record {
    id = existing.id;
    expected_version = input.expected_version;
    customer_id = customer_id;
    warehouse_id = warehouse_id;
    order_date = input.draft.order_date;
    expected_delivery_date = input.draft.expected_delivery_date;
    sales_rep_user_id = input.draft.sales_rep_user_id;
  })
  old_lines ← list_lines_for_order session existing.id
  remove_lines session old_lines
  lines ← create_lines session existing.id company.base_currency 1 priced
  totalled ← total session header lines
  pure (record { order = totalled; lines = lines })
