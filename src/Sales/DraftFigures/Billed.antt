-- ===== src/Sales/DraftFigures/Billed.antt =====
-- The figures of a draft line (`price` of apps/api/src/sales/sales-order.service.ts) and the arithmetic
-- of invoices.
use erpn.Result.{having_read, ok}
use erpn.Database.Types.{ProductRecord, CompanyRecord}
use erpn.Sales.DraftFigures.{line_figures, PricedLine}
use erpn.Decimal.{max_scale, render, parse_decimal, Decimal}
use erpn.Billing.Arithmetic.{
  amount_scale, billed_amounts, rate_scale, BilledAmounts, BillableAmounts,
}
use erpn.Prelude.{refl, ◌≡◌}
use erpn.Decimal.Round.{to_fixed_lem, round_lem, units_at}
use erpn.Billing.Document.{resolve_tax_rate}
use erpn.Billing.Arithmetic.Coherent.{tax_units, subtotal_units, billed_amounts_lem}
use erpn.Decimal.Sums.{units_at_same, add_same, subtract_lem}
use erpn.Prelude.Int.{◌+ℤ◌}

abbrev pub figures_of : PricedLine → BilledAmounts
figures_of line = record {
  line_subtotal = line.line_subtotal;
  line_tax = line.line_tax;
  line_total = line.line_total;
}

abbrev pub inputs_of : Decimal → Decimal → Decimal → Decimal → BillableAmounts
inputs_of quantity discount unit_price tax_rate = record {
  quantity = quantity;
  unit_price = unit_price;
  discount_percent = discount;
  tax_rate_percent = tax_rate;
}

module _ (company : CompanyRecord) (product : ProductRecord) (quantity discount : Decimal)
    (line : PricedLine) where
  -- What a priced line is: the product's own names, and the amounts that its inputs are billed at.
  pub record Figured : Type 0 where
    pub unit_price : Decimal
    pub tax_rate : Decimal
    pub read_price : parse_decimal product.sales_price max_scale ≡ ok unit_price
    pub read_rate : parse_decimal (resolve_tax_rate company) max_scale ≡ ok tax_rate
    pub named :
        (line.product_id ≡ product.id)
        × (line.product_sku ≡ product.sku)
        × (line.product_name ≡ product.name)
    pub billed :
        billed_amounts (inputs_of quantity discount unit_price tax_rate) ≡ ok (figures_of line)
    pub subtotal_text :
        line.line_subtotal
        ≡ render (subtotal_units (inputs_of quantity discount unit_price tax_rate)) amount_scale
    pub tax_text :
        line.line_tax
        ≡ render (tax_units (inputs_of quantity discount unit_price tax_rate)) amount_scale

  abbrev figured : Decimal → Decimal → PricedLine
  figured unit_price tax_rate = record {
    product_id = product.id;
    product_sku = product.sku;
    product_name = product.name;
    quantity = render (units_at quantity rate_scale) rate_scale;
    unit_price = render (units_at unit_price rate_scale) rate_scale;
    discount_percent = render (units_at discount rate_scale) rate_scale;
    tax_rate_percent = render (units_at tax_rate rate_scale) rate_scale;
    line_subtotal =
        render (subtotal_units (inputs_of quantity discount unit_price tax_rate)) amount_scale;
    line_tax = render (tax_units (inputs_of quantity discount unit_price tax_rate)) amount_scale;
    line_total =
        render
          (subtotal_units (inputs_of quantity discount unit_price tax_rate)
            +ℤ tax_units (inputs_of quantity discount unit_price tax_rate))
          amount_scale;
  }

  line_figures_lem :
      (unit_price tax_rate : Decimal)
      → parse_decimal product.sales_price max_scale ≡ ok unit_price
      → parse_decimal (resolve_tax_rate company) max_scale ≡ ok tax_rate
      → line_figures company product quantity discount ≡ ok (figured unit_price tax_rate)
  unfolding line_figures subtotal_units tax_units
  line_figures_lem unit_price tax_rate p q =
      rw (p, q) (simp (subtract_lem, round_lem, to_fixed_lem, add_same, units_at_same))

  -- The amounts that a draft stores for a line are those that `billedAmounts` computes for an invoice of
  -- the same quantity, price, discount and rate; price and rate are the product's and the company's.
  pub line_figures-Figured : line_figures company product quantity discount ≡ ok line → Figured
  unfolding line_figures
  line_figures-Figured h =
      having_read (parse_decimal product.sales_price max_scale) _ h (λ unit_price read_price k.
        having_read (parse_decimal (resolve_tax_rate company) max_scale) _ k
          (λ tax_rate read_rate l.
            let same : line ≡ figured unit_price tax_rate =
              cc (h, line_figures_lem unit_price tax_rate read_price read_rate) in
            record {
              unit_price = unit_price;
              tax_rate = tax_rate;
              read_price = read_price;
              read_rate = read_rate;
              named = rw same (refl, refl, refl);
              billed =
                  rw same (billed_amounts_lem (inputs_of quantity discount unit_price tax_rate));
              subtotal_text = rw same refl;
              tax_text = rw same refl;
            }))
