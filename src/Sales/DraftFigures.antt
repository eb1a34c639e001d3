-- ===== src/Sales/DraftFigures.antt =====
-- What apps/api/src/sales/sales-order.service.ts computes of a draft: the checks and the figures of a
-- line, and the totals.
pub mod Billed
pub mod Summed
use erpn.Result.{ensure, rethrow_as, Result, ok, ◌>>=◌, ◌>>◌}
use erpn.Failure.{invalid_discount, sales_order_draft, invalid_quantity, Failure, DraftRejection}
use erpn.Prelude.{[], ◌||◌, not, none, some, ◌∷◌, List, Text, Option}
use erpn.Database.Types.{SalesOrderLineRecord, ProductRecord, CompanyRecord}
use erpn.Decimal.{
  round, subtract, add, multiply, to_fixed, max_scale, compare, parse_decimal, zero_at, Decimal,
}
use erpn.Database.Transaction.{present}
use erpn.Billing.Arithmetic.{divide_by_hundred, amount_scale, one_hundred, rate_scale}
use erpn.Database.Types.Drafts.{SalesOrderTotals}
use erpn.Inventory.Reservations.{is_less, is_greater}
use erpn.Billing.Document.{resolve_tax_rate}

abbrev pub rejection : DraftRejection → Failure
rejection reason = sales_order_draft reason none

abbrev pub rejection_of : DraftRejection → Text → Failure
rejection_of reason subject = sales_order_draft reason (some subject)

pub record DraftLineInput : Type 0 where
  pub product_id : Text
  pub quantity : Text
  pub discount_percent : Option Text

-- A line as it will be stored, without its identifiers, its number and its currency.
pub record PricedLine : Type 0 where
  pub product_id : Text
  pub product_sku : Text
  pub product_name : Text
  pub quantity : Text
  pub unit_price : Text
  pub discount_percent : Text
  pub tax_rate_percent : Text
  pub line_subtotal : Text
  pub line_tax : Text
  pub line_total : Text

unfoldable pub decimal_or : Text → DraftRejection → Result Decimal
decimal_or value reason = rethrow_as (parse_decimal value rate_scale) (rejection reason)

unfoldable pub draft_quantity : DraftLineInput → Result Decimal
draft_quantity line = do
  quantity ← decimal_or line.quantity invalid_quantity
  sign ← compare quantity (zero_at 0)
  ensure (is_greater sign) (rejection_of invalid_quantity line.product_id)
  ok quantity

-- A discount that is missing or empty is none.
unfoldable pub discount_or_zero : Option Text → Result Decimal
discount_or_zero none = ok (zero_at rate_scale)
discount_or_zero (some value) = decimal_or value invalid_discount

unfoldable pub draft_discount : DraftLineInput → Result Decimal
draft_discount line = do
  discount ← discount_or_zero (present line.discount_percent)
  sign ← compare discount (zero_at 0)
  whole ← compare discount one_hundred
  ensure (not (is_less sign || is_greater whole)) (rejection_of invalid_discount line.product_id)
  ok discount

-- The figures of a line: gross of discount, discounted, rounded once, and taxed on what was rounded.
unfoldable pub line_figures : CompanyRecord → ProductRecord → Decimal → Decimal → Result PricedLine
line_figures company product quantity discount = do
  unit_price ← parse_decimal product.sales_price max_scale
  tax_rate ← parse_decimal (resolve_tax_rate company) max_scale
  let gross = multiply quantity unit_price
  kept_fraction ← subtract one_hundred discount
  let discounted = divide_by_hundred (multiply gross kept_fraction)
  line_subtotal ← round discounted amount_scale
  line_tax ← round (divide_by_hundred (multiply line_subtotal tax_rate)) amount_scale
  line_total ← add line_subtotal line_tax
  quantity_text ← to_fixed quantity rate_scale
  unit_price_text ← to_fixed unit_price rate_scale
  discount_text ← to_fixed discount rate_scale
  tax_rate_text ← to_fixed tax_rate rate_scale
  subtotal_text ← to_fixed line_subtotal amount_scale
  tax_text ← to_fixed line_tax amount_scale
  total_text ← to_fixed line_total amount_scale
  ok (record {
    product_id = product.id;
    product_sku = product.sku;
    product_name = product.name;
    quantity = quantity_text;
    unit_price = unit_price_text;
    discount_percent = discount_text;
    tax_rate_percent = tax_rate_text;
    line_subtotal = subtotal_text;
    line_tax = tax_text;
    line_total = total_text;
  })

-- The loop of `total`, from the sums so far.
unfoldable pub sum_stored :
    Decimal → Decimal → List SalesOrderLineRecord → Result (Decimal × Decimal)
sum_stored subtotal tax_total [] = ok (subtotal, tax_total)
sum_stored subtotal tax_total (line ∷ lines) = do
  line_subtotal ← parse_decimal line.line_subtotal amount_scale
  subtotal' ← add subtotal line_subtotal
  line_tax ← parse_decimal line.line_tax amount_scale
  tax_total' ← add tax_total line_tax
  sum_stored subtotal' tax_total' lines

unfoldable pub stored_totals : Text → List SalesOrderLineRecord → Result SalesOrderTotals
stored_totals id lines = do
  (subtotal, tax_total) ← sum_stored (zero_at amount_scale) (zero_at amount_scale) lines
  subtotal_text ← to_fixed subtotal amount_scale
  tax_text ← to_fixed tax_total amount_scale
  total ← add subtotal tax_total
  total_text ← to_fixed total amount_scale
  ok (record { id = id; subtotal = subtotal_text; tax_total = tax_text; total = total_text })
