-- ===== src/Database/Types/Drafts.antt =====
-- What drafting an order hands to the repositories (apps/api/src/database/repositories/types.ts).
use erpn.Prelude.{ℕ, Option, Text}

pub record NewSalesOrder : Type 0 where
  pub id : Text
  pub customer_id : Text
  pub warehouse_id : Text
  pub sales_rep_user_id : Option Text
  pub order_date : Text
  pub expected_delivery_date : Option Text
  pub currency : Text

-- The optional amounts are always given by the code here.
pub record NewSalesOrderLine : Type 0 where
  pub id : Text
  pub sales_order_id : Text
  pub line_number : ℕ
  pub product_id : Text
  pub product_sku : Text
  pub product_name : Text
  pub quantity : Text
  pub unit_price : Text
  pub currency : Text
  pub discount_percent : Text
  pub tax_rate_percent : Text
  pub line_subtotal : Text
  pub line_tax : Text
  pub line_total : Text

pub record SalesOrderDraftUpdate : Type 0 where
  pub id : Text
  pub expected_version : ℕ
  pub customer_id : Text
  pub warehouse_id : Text
  pub order_date : Text
  pub expected_delivery_date : Option Text
  pub sales_rep_user_id : Option Text

pub record SalesOrderTotals : Type 0 where
  pub id : Text
  pub subtotal : Text
  pub tax_total : Text
  pub total : Text
