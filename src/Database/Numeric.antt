-- ===== src/Database/Numeric.antt =====
-- The exact numbers of SQL, which the statements of apps/api/src/database/repositories compute with.
use erpn.Prelude.{[], ◌∷◌, true, false, length, Bool, List, Text}
use erpn.Result.{Result, ok, err, ◌>>=◌}
use erpn.Decimal.{
  greater, equal, less, zero_at, render, parse_decimal, Decimal, Comparison, add, subtract, compare,
  to_fixed,
}
use erpn.Prelude.Int.{pos}

-- A `NUMERIC` column holds the text of a decimal; `::numeric` of a text that is none is an error.
unfoldable pub to_numeric : Text → Result Decimal
to_numeric t = parse_decimal t (length t)

unfoldable pub numeric_of : Text → Decimal
numeric_of t = elim (to_numeric t) [ ok d ↦ d | err _ ↦ record { units = pos 0; scale = 0 } ]

abbrev at_least : Result Comparison → Bool
at_least (ok less) = false
at_least (ok equal) = true
at_least (ok greater) = true
at_least (err _) = false

-- `quantity - invoiced_quantity >= q`
unfoldable pub has_remainder : Decimal → Text → Text → Bool
has_remainder q quantity invoiced_quantity = at_least (do
  remainder ← subtract (numeric_of quantity) (numeric_of invoiced_quantity)
  compare remainder q)

abbrev pub text_or : Text → Result Text → Text
text_or t (ok sum) = sum
text_or t (err _) = t

-- `invoiced_quantity + q`, stored at the six places of the column
unfoldable pub numeric_plus : Text → Decimal → Text
numeric_plus t q = text_or t (do total ← add (numeric_of t) q; to_fixed total 6)

-- `sum(quantity)`, from the rows' texts
unfoldable pub sum_numeric : List Text → Result Decimal
sum_numeric [] = ok (zero_at 0)
sum_numeric (t ∷ ts) = do rest ← sum_numeric ts; add (numeric_of t) rest

-- `coalesce(sum(quantity), 0)::text`
unfoldable pub sum_text : List Text → Result Text
sum_text ts = do total ← sum_numeric ts; ok (render total.units total.scale)

-- What a quantity column holds of a text that is written to it, which it rounds to six places.
unfoldable pub numeric_column : Text → Result Text
numeric_column t = do d ← to_numeric t; to_fixed d 6
