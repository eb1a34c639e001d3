-- ===== src/Tests/Arithmetic.antt =====
-- The theorems on apps/api/src/shared/decimal.ts and billing/invoice-arithmetic.ts at concrete values.
use erpn.Prelude.Int.{signed, ◌+ℤ◌, ◌*ℤ◌, pos, negsuc}
use erpn.Decimal.{
  read_digits, span_digits, compare_ℤ, match_fraction, match_digits, render, exec_pattern,
  parse_decimal, Decimal, round, compare,
}
use erpn.Billing.Arithmetic.{
  amount_scale, billed_amounts, BillableAmounts, document_totals, LineAmounts,
}
use erpn.Prelude.{
  ◌≤◌, false, is_nil, length, ◌^◌, All, arith, refl, [], ◌++◌, codes, ◌∷◌, ◌≡◌, Text, Bool,
}
use erpn.Decimal.Round.{round_lem, units_at}
use erpn.Decimal.Scan.{fraction_text, sign_text}
use erpn.Result.{ok}
use erpn.Billing.Arithmetic.Coherent.{
  billed_amounts_lem, ReadsAs, tax_units, document_totals_lem, subtotal_units,
}
use erpn.Decimal.RoundTrip.{parse_decimal_sound, parse_decimal-render}
use erpn.Decimal.Digits.{IsDigit}
use erpn.Decimal.Order.{compare_lem}

-- 12.50 and -0.075
abbrev price : Decimal
price = record { units = pos 1250; scale = 2 }

abbrev loss : Decimal
loss = record { units = negsuc 74; scale = 3 }

parse_decimal-render_example :
    parse_decimal (render (pos 1250) 2) 4 ≡ ok (record { units = pos 1250; scale = 2 })
parse_decimal-render_example = parse_decimal-render (pos 1250) 2 4 (omega arith)

read_price : parse_decimal (codes "12.50") 4 ≡ ok price
unfolding parse_decimal exec_pattern match_digits match_fraction span_digits read_digits
read_price = refl

parse_decimal_sound_example :
    (sign : Bool) × (whole : Text) × (fraction : Text) × (codes "12.50"
      ≡ sign_text sign ++ (whole ++ fraction_text fraction))
    × All IsDigit whole
    × (is_nil whole ≡ false)
    × All IsDigit fraction
    × (length fraction ≤ 4)
    × (price ≡ record {
      units = signed sign (read_digits 0 (whole ++ fraction));
      scale = length fraction;
    })
parse_decimal_sound_example = parse_decimal_sound (codes "12.50") 4 price read_price

round_lem_example : round loss 2 ≡ ok (record { units = units_at loss 2; scale = 2 })
round_lem_example = round_lem loss 2

-- -0.075 is -0.08 at two places.
loss_units : units_at loss 2 ≡ negsuc 7
unfolding units_at
loss_units = refl

compare_lem_example :
    compare price loss ≡ ok (compare_ℤ (pos 1250 *ℤ pos (10 ^ 3)) (negsuc 74 *ℤ pos (10 ^ 2)))
compare_lem_example = compare_lem price loss

-- three at 12.50, less ten per cent, at fifteen per cent of tax
abbrev three_units : BillableAmounts
three_units = record {
  quantity = record { units = pos 3; scale = 0 };
  unit_price = price;
  discount_percent = record { units = pos 10; scale = 0 };
  tax_rate_percent = record { units = pos 15; scale = 0 };
}

billed_amounts_lem_example :
    billed_amounts three_units
    ≡ ok (record {
      line_subtotal = render (subtotal_units three_units) amount_scale;
      line_tax = render (tax_units three_units) amount_scale;
      line_total = render (subtotal_units three_units +ℤ tax_units three_units) amount_scale;
    })
billed_amounts_lem_example = billed_amounts_lem three_units

abbrev stored_line : LineAmounts
stored_line = record { line_subtotal = codes "33.7500"; line_tax = codes "5.0625" }

reads_stored_line : ReadsAs stored_line (pos 337500) (pos 50625)
unfolding parse_decimal exec_pattern match_digits match_fraction span_digits read_digits
reads_stored_line = record { reads_subtotal = refl; reads_tax = refl }

document_totals_lem_example :
    document_totals (stored_line ∷ stored_line ∷ [])
    ≡ ok (record {
      subtotal = render (pos 675000) amount_scale;
      tax_total = render (pos 101250) amount_scale;
      total = render (pos 776250) amount_scale;
    })
unfolding ◌+ℤ◌
document_totals_lem_example =
    document_totals_lem (stored_line ∷ stored_line ∷ [])
      ((pos 337500, pos 50625) ∷ (pos 337500, pos 50625) ∷ [])
      (reads_stored_line, (reads_stored_line, tt))
