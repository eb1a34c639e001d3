-- ===== src/Billing/Arithmetic.antt =====
-- apps/api/src/billing/invoice-arithmetic.ts: the money on an invoice line and on a document.
pub mod Coherent
use erpn.Prelude.{ℕ, ◌+◌, Text, codes, List, [], ◌∷◌}
use erpn.Prelude.Int.{ℤ, pos}
use erpn.Result.{Result, ok, ◌>>=◌}
use erpn.Decimal.{Decimal, parse_decimal, multiply, add, subtract, round, to_fixed}

abbrev pub amount_scale : ℕ
amount_scale = 4

abbrev pub rate_scale : ℕ
rate_scale = 6

-- `parseDecimal('100')`
abbrev pub one_hundred : Decimal
one_hundred = record { units = pos 100; scale = 0 }

pub record BillableAmounts : Type 0 where
  pub quantity : Decimal
  pub unit_price : Decimal
  pub discount_percent : Decimal
  pub tax_rate_percent : Decimal

pub record BilledAmounts : Type 0 where
  pub line_subtotal : Text
  pub line_tax : Text
  pub line_total : Text

unfoldable pub divide_by_hundred : Decimal → Decimal
divide_by_hundred value = record { units = value.units; scale = value.scale + 2 }

unfoldable pub billed_amounts : BillableAmounts → Result BilledAmounts
unfolding divide_by_hundred
billed_amounts input = do
  let gross = multiply input.quantity input.unit_price
  kept_fraction ← subtract one_hundred input.discount_percent
  let discounted = divide_by_hundred (multiply gross kept_fraction)
  subtotal ← round discounted amount_scale
  tax ← round (divide_by_hundred (multiply subtotal input.tax_rate_percent)) amount_scale
  subtotal_text ← to_fixed subtotal amount_scale
  tax_text ← to_fixed tax amount_scale
  total ← add subtotal tax
  total_text ← to_fixed total amount_scale
  ok (record { line_subtotal = subtotal_text; line_tax = tax_text; line_total = total_text })

-- The part of a line that the totals read.
pub record LineAmounts : Type 0 where
  pub line_subtotal : Text
  pub line_tax : Text

pub record DocumentTotals : Type 0 where
  pub subtotal : Text
  pub tax_total : Text
  pub total : Text

-- The loop of `documentTotals`, from the sums so far.
unfoldable pub sum_lines : Decimal → Decimal → List LineAmounts → Result (Decimal × Decimal)
sum_lines subtotal tax_total [] = ok (subtotal, tax_total)
sum_lines subtotal tax_total (line ∷ lines) = do
  line_subtotal ← parse_decimal line.line_subtotal amount_scale
  subtotal' ← add subtotal line_subtotal
  line_tax ← parse_decimal line.line_tax amount_scale
  tax_total' ← add tax_total line_tax
  sum_lines subtotal' tax_total' lines

unfoldable pub document_totals : List LineAmounts → Result DocumentTotals
document_totals lines = do
  subtotal ← parse_decimal (codes "0") amount_scale
  tax_total ← parse_decimal (codes "0") amount_scale
  (subtotal, tax_total) ← sum_lines subtotal tax_total lines
  subtotal_text ← to_fixed subtotal amount_scale
  tax_text ← to_fixed tax_total amount_scale
  total ← add subtotal tax_total
  total_text ← to_fixed total amount_scale
  ok (record { subtotal = subtotal_text; tax_total = tax_text; total = total_text })
