-- ===== src/Sales/DraftFigures/Summed.antt =====
-- The totals of a draft (`total` of apps/api/src/sales/sales-order.service.ts), and those of an invoice.
use erpn.Result.{◌>>=◌, Result, err, Result, ok}
use erpn.Sales.DraftFigures.{stored_totals, sum_stored}
use erpn.Database.Types.{SalesOrderLineRecord}
use erpn.Decimal.{add, parse_decimal, render, Decimal, zero_at}
use erpn.Billing.Arithmetic.{amount_scale, LineAmounts, sum_lines}
use erpn.Prelude.{refl, [], ◌∷◌, map, ◌≡◌, List, Text}
use erpn.Prelude.Int.{zero_+ℤ, pos, ◌+ℤ◌, ℤ}
use erpn.Billing.Arithmetic.Coherent.{sum_lines_lem, at_scale, sum_taxes, sum_subtotals, AllReadAs}
use erpn.Decimal.Round.{to_fixed_lem}
use erpn.Decimal.Sums.{units_at_same, add_same}

abbrev pub stored_amounts : SalesOrderLineRecord → LineAmounts
stored_amounts line = record { line_subtotal = line.line_subtotal; line_tax = line.line_tax }

same_rest :
    {A B : Type 0} (call : Result A) (rest other : A → Result B)
    → ((a : A) → rest a ≡ other a)
    → (call >>= rest) ≡ (call >>= other)
same_rest (ok a) rest other h = h a
same_rest (err e) rest other h = refl

sum_stored-sum_lines :
    (s t : Decimal) (lines : List SalesOrderLineRecord)
    → sum_stored s t lines ≡ sum_lines s t (map stored_amounts lines)
unfolding sum_stored sum_lines
sum_stored-sum_lines s t [] = refl
sum_stored-sum_lines s t (line ∷ lines) =
    same_rest (parse_decimal line.line_subtotal amount_scale) _ _ (λ (a : Decimal).
      same_rest (add s a) _ _ (λ (s' : Decimal).
        same_rest (parse_decimal line.line_tax amount_scale) _ _ (λ (b : Decimal).
          same_rest (add t b) _ _ (λ (t' : Decimal). sum_stored-sum_lines s' t' lines))))

-- A draft's totals never throw when its lines' amounts can be read: they are the exact sums.
pub stored_totals_lem :
    (id : Text) (lines : List SalesOrderLineRecord) (amounts : List (ℤ × ℤ))
    → AllReadAs (map stored_amounts lines) amounts
    → stored_totals id lines
      ≡ ok (record {
        id = id;
        subtotal = render (sum_subtotals amounts) amount_scale;
        tax_total = render (sum_taxes amounts) amount_scale;
        total = render (sum_subtotals amounts +ℤ sum_taxes amounts) amount_scale;
      })
unfolding stored_totals zero_at
stored_totals_lem id lines amounts h =
    rw
      (
        sum_stored-sum_lines (at_scale (pos 0)) (at_scale (pos 0)) lines,
        sum_lines_lem (map stored_amounts lines) amounts (pos 0) (pos 0) h,
        zero_+ℤ (sum_subtotals amounts),
        zero_+ℤ (sum_taxes amounts),
      )
      (simp (to_fixed_lem, add_same, units_at_same))
