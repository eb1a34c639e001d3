-- ===== src/Billing/Arithmetic/Coherent.antt =====
-- The lines and the totals of apps/api/src/billing/invoice-arithmetic.ts.
use erpn.Prelude.{refl, codes, ◌∷◌, [], List, ◌-◌, max, ◌^◌, ◌≡◌}
use erpn.Billing.Arithmetic.{
  sum_lines, LineAmounts, divide_by_hundred, amount_scale, BillableAmounts, billed_amounts,
  document_totals,
}
use erpn.Result.{ok}
use erpn.Prelude.Int.{zero_+ℤ, +ℤ_assoc, +ℤ_zero, ◌-ℤ◌, ◌+ℤ◌, ◌*ℤ◌, pos, ℤ}
use erpn.Decimal.{
  read_digits, span_digits, match_fraction, match_digits, exec_pattern, add, parse_decimal,
  multiply, render, Decimal,
}
use erpn.Decimal.Round.{*ℤ_one, to_fixed_lem, round_lem, units_at}
use erpn.Decimal.Sums.{add_lem, units_at_same, add_same, subtract_lem}

-- The units of a line's subtotal and tax at the amount scale.
module _ (input : BillableAmounts) where
  kept : Decimal
  kept = record {
    units =
        pos 100 *ℤ pos (10 ^ (max 0 input.discount_percent.scale - 0))
        -ℤ input.discount_percent.units
          *ℤ pos (10 ^ (max 0 input.discount_percent.scale - input.discount_percent.scale));
    scale = max 0 input.discount_percent.scale;
  }

  unfoldable pub subtotal_units : ℤ
  unfolding kept
  subtotal_units =
      units_at (divide_by_hundred (multiply (multiply input.quantity input.unit_price) kept))
        amount_scale

  unfoldable pub tax_units : ℤ
  tax_units =
      units_at
        (divide_by_hundred (
          multiply (record { units = subtotal_units; scale = amount_scale })
            input.tax_rate_percent))
        amount_scale

  -- `billedAmounts` never throws, and the line total is the sum of the subtotal and the tax.
  pub billed_amounts_lem :
      billed_amounts input
      ≡ ok (record {
        line_subtotal = render subtotal_units amount_scale;
        line_tax = render tax_units amount_scale;
        line_total = render (subtotal_units +ℤ tax_units) amount_scale;
      })
  unfolding billed_amounts subtotal_units tax_units
  billed_amounts_lem = simp (subtract_lem, round_lem, to_fixed_lem, add_same, units_at_same)

-- The stored texts of a line are these amounts, at the amount scale.
pub record ReadsAs (line : LineAmounts) (subtotal tax : ℤ) : Type 0 where
  pub reads_subtotal :
      parse_decimal line.line_subtotal amount_scale
      ≡ ok (record { units = subtotal; scale = amount_scale })
  pub reads_tax :
      parse_decimal line.line_tax amount_scale ≡ ok (record { units = tax; scale = amount_scale })

abbrev pub AllReadAs : List LineAmounts → List (ℤ × ℤ) → Type 0
AllReadAs [] [] = Unit
AllReadAs (line ∷ lines) ((subtotal, tax) ∷ amounts) =
    ReadsAs line subtotal tax × AllReadAs lines amounts
AllReadAs _ _ = ⊥

abbrev pub sum_subtotals : List (ℤ × ℤ) → ℤ
sum_subtotals [] = pos 0
sum_subtotals ((subtotal, tax) ∷ amounts) = subtotal +ℤ sum_subtotals amounts

abbrev pub sum_taxes : List (ℤ × ℤ) → ℤ
sum_taxes [] = pos 0
sum_taxes ((subtotal, tax) ∷ amounts) = tax +ℤ sum_taxes amounts

abbrev pub at_scale : ℤ → Decimal
at_scale u = record { units = u; scale = amount_scale }

pub sum_lines_lem :
    (lines : List LineAmounts) (amounts : List (ℤ × ℤ)) (s t : ℤ)
    → AllReadAs lines amounts
    → sum_lines (at_scale s) (at_scale t) lines
      ≡ ok (at_scale (s +ℤ sum_subtotals amounts), at_scale (t +ℤ sum_taxes amounts))
unfolding sum_lines
sum_lines_lem [] [] s t h = rw (+ℤ_zero s) (rw (+ℤ_zero t))
sum_lines_lem [] (a ∷ amounts) s t h = elim h [ ]
sum_lines_lem (line ∷ lines) [] s t h = elim h [ ]
sum_lines_lem (line ∷ lines) ((u, v) ∷ amounts) s t h =
    rw
      (
        h.0.reads_subtotal,
        add_same s u amount_scale,
        h.0.reads_tax,
        add_same t v amount_scale,
        sum_lines_lem lines amounts (s +ℤ u) (t +ℤ v) h.1,
      )
      simp +ℤ_assoc

-- The sums begin at scale zero, and the first line widens them.
add_to_zero : (u : ℤ) → add (record { units = pos 0; scale = 0 }) (at_scale u) ≡ ok (at_scale u)
add_to_zero u = rw add_lem (rw (*ℤ_one u) (unfold ◌*ℤ◌ in rw (zero_+ℤ u)))

sum_lines_from_zero :
    (line : LineAmounts) (lines : List LineAmounts) (amounts : List (ℤ × ℤ))
    → AllReadAs (line ∷ lines) amounts
    → sum_lines
        (record { units = pos 0; scale = 0 })
        (record { units = pos 0; scale = 0 })
        (line ∷ lines)
      ≡ ok (at_scale (sum_subtotals amounts), at_scale (sum_taxes amounts))
unfolding sum_lines
sum_lines_from_zero line lines [] h = elim h [ ]
sum_lines_from_zero line lines ((u, v) ∷ amounts) h = rw (
  h.0.reads_subtotal,
  add_to_zero u,
  h.0.reads_tax,
  add_to_zero v,
  sum_lines_lem lines amounts u v h.1,
)

pub parse_zero : parse_decimal (codes "0") amount_scale ≡ ok (record { units = pos 0; scale = 0 })
unfolding parse_decimal exec_pattern match_digits match_fraction span_digits read_digits
parse_zero = refl

-- `documentTotals` of stored lines never throws: the totals are the exact sums of the lines, and the
-- total is the sum of the subtotal and the tax.
pub document_totals_lem :
    (lines : List LineAmounts) (amounts : List (ℤ × ℤ))
    → AllReadAs lines amounts
    → document_totals lines
      ≡ ok (record {
        subtotal = render (sum_subtotals amounts) amount_scale;
        tax_total = render (sum_taxes amounts) amount_scale;
        total = render (sum_subtotals amounts +ℤ sum_taxes amounts) amount_scale;
      })
unfolding document_totals
document_totals_lem [] [] h =
    rw parse_zero
      (unfold sum_lines in simp (to_fixed_lem, add_same) (unfold units_at ◌*ℤ◌ ◌+ℤ◌ in refl))
document_totals_lem [] (a ∷ amounts) h = elim h [ ]
document_totals_lem (line ∷ lines) amounts h =
    rw (parse_zero, sum_lines_from_zero line lines amounts h)
      (simp (to_fixed_lem, add_same, units_at_same))
