-- ===== src/Database/SalesDrafts.antt =====
-- The writes of drafts in apps/api/src/database/repositories/sales.repository.ts. An amount comes with
-- the places of its column, and is held as it comes.
use erpn.Database.Types.Drafts.{
  NewSalesOrderLine, NewSalesOrder, SalesOrderTotals, SalesOrderDraftUpdate,
}
use erpn.Database.Transaction.{
  pure, unless_absent, update_where, select_where, returning_first, ◌>>◌, write, query,
  require_company_scope, lift, ◌>>=◌, Tx, CompanyScope, Session,
}
use erpn.Prelude.{[], not, ◌∷◌, text_eq, ◌++◌, ◌==◌, ◌&&◌, codes, Bool, ◌+◌, none, Text}
use erpn.Database.Types.{SalesOrderLineRecord, SalesOrderRecord}
use erpn.Database.Sales.{is_sales_order_line, is_sales_order}
use erpn.Failure.{concurrency_conflict, record_not_found}

abbrev pub new_sales_order : CompanyScope → NewSalesOrder → SalesOrderRecord
new_sales_order c input = record {
  id = input.id;
  tenant_id = c.tenant_id;
  company_id = c.company_id;
  doc_number = none;
  status = codes "draft";
  customer_id = input.customer_id;
  warehouse_id = input.warehouse_id;
  sales_rep_user_id = input.sales_rep_user_id;
  order_date = input.order_date;
  expected_delivery_date = input.expected_delivery_date;
  currency = input.currency;
  subtotal = codes "0.0000";
  tax_total = codes "0.0000";
  total = codes "0.0000";
  version = 1;
}

unfoldable pub create_sales_order : Session → NewSalesOrder → Tx SalesOrderRecord
create_sales_order session input = do
  c ← lift (require_company_scope session.scope "Sales documents")
  write (λ s. record s { sales_orders = s.sales_orders ++ (new_sales_order c input ∷ []) })
  pure (new_sales_order c input)

-- A draft, in the version that the caller read.
abbrev pub is_editable : CompanyScope → SalesOrderDraftUpdate → SalesOrderRecord → Bool
is_editable c input row =
    is_sales_order c input.id row
    && (row.version == input.expected_version && text_eq row.status (codes "draft"))

abbrev pub edited_order : SalesOrderDraftUpdate → SalesOrderRecord → SalesOrderRecord
edited_order input row = record row {
  customer_id = input.customer_id;
  warehouse_id = input.warehouse_id;
  order_date = input.order_date;
  expected_delivery_date = input.expected_delivery_date;
  sales_rep_user_id = input.sales_rep_user_id;
  version = row.version + 1;
}

unfoldable pub update_draft_order : Session → SalesOrderDraftUpdate → Tx SalesOrderRecord
update_draft_order session input = do
  c ← lift (require_company_scope session.scope "Sales documents")
  row ← query (λ s. returning_first (is_editable c input) (edited_order input) s.sales_orders)
  write (λ s. record s {
    sales_orders = update_where (is_editable c input) (edited_order input) s.sales_orders;
  })
  unless_absent row (concurrency_conflict "Sales order" input.id)

abbrev pub totalled_order : SalesOrderTotals → SalesOrderRecord → SalesOrderRecord
totalled_order input row = record row {
  subtotal = input.subtotal;
  tax_total = input.tax_total;
  total = input.total;
}

unfoldable pub set_totals : Session → SalesOrderTotals → Tx SalesOrderRecord
set_totals session input = do
  c ← lift (require_company_scope session.scope "Sales documents")
  row ←
      query (λ s. returning_first (is_sales_order c input.id) (totalled_order input) s.sales_orders)
  write (λ s. record s {
    sales_orders = update_where (is_sales_order c input.id) (totalled_order input) s.sales_orders;
  })
  unless_absent row (record_not_found "Sales order" input.id)

abbrev pub new_sales_order_line : CompanyScope → NewSalesOrderLine → SalesOrderLineRecord
new_sales_order_line c input = record {
  id = input.id;
  tenant_id = c.tenant_id;
  company_id = c.company_id;
  sales_order_id = input.sales_order_id;
  line_number = input.line_number;
  product_id = input.product_id;
  product_sku = input.product_sku;
  product_name = input.product_name;
  quantity = input.quantity;
  unit_price = input.unit_price;
  discount_percent = input.discount_percent;
  tax_rate_percent = input.tax_rate_percent;
  currency = input.currency;
  line_subtotal = input.line_subtotal;
  line_tax = input.line_tax;
  line_total = input.line_total;
  delivered_quantity = codes "0.000000";
  invoiced_quantity = codes "0.000000";
  version = 1;
}

unfoldable pub create_sales_order_line : Session → NewSalesOrderLine → Tx SalesOrderLineRecord
create_sales_order_line session input = do
  c ← lift (require_company_scope session.scope "Sales documents")
  write (λ s. record s {
    sales_order_lines = s.sales_order_lines ++ (new_sales_order_line c input ∷ []);
  })
  pure (new_sales_order_line c input)

-- `DELETE … WHERE`
unfoldable pub remove_sales_order_line : Session → Text → Tx (Unit {0})
remove_sales_order_line session id = do
  c ← lift (require_company_scope session.scope "Sales documents")
  write (λ s. record s {
    sales_order_lines =
        select_where (λ row. not (is_sales_order_line c id row)) s.sales_order_lines;
  })
