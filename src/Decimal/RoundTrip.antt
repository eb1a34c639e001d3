-- ===== src/Decimal/RoundTrip.antt =====
-- `parseDecimal` of apps/api/src/shared/decimal.ts and the texts that `toFixed` writes.
use erpn.Prelude.{
  none, refl, ℕ, ◌+◌, ◌-◌, ◌≤◌, ◌<◌, ◌≡◌, ◌∙◌, ap, Bool, [], ◌∷◌, ◌++◌, Text, length, take, drop,
  length-take, length-drop, take-append-drop, All, All-take, All-drop, arith, ltb, if◌then◌else◌,
}
use erpn.Prelude.Int.{ℤ, is_neg, mag, signed, signed-mag}
use erpn.Failure.{too_many_places, decimal_parse}
use erpn.Result.{ok, err}
use erpn.Decimal.{
  some, false, exec_pattern, Option, is_nil, Decimal, read_digits, parse_decimal, render, or_zero,
  pad_start, to_string,
}
use erpn.Decimal.Digits.{
  IsDigit, to_string-IsDigit, pad_start-IsDigit, le-length-pad_start, read_digits-pad_start,
}
use erpn.Decimal.Scan.{sign_text, fraction_text, exec_pattern_complete, exec_pattern_sound}

-- What is read from a text of the grammar.
pub parse_decimal_complete :
    (limit : ℕ) (sign : Bool) (d : ℕ) (whole fraction : Text)
    → All IsDigit (d ∷ whole)
    → All IsDigit fraction
    → parse_decimal (sign_text sign ++ (d ∷ whole ++ fraction_text fraction)) limit ≡ (
        if ltb limit (length fraction)
        then err (decimal_parse too_many_places)
        else ok (record {
          units = signed sign (read_digits 0 (d ∷ whole ++ fraction));
          scale = length fraction;
        }))
unfolding parse_decimal
parse_decimal_complete limit sign d whole fraction hw hf =
    rw (exec_pattern_complete sign d whole fraction hw hf, parse_decimal)

-- The text that `render` writes, for any digits that are long enough.
assemble : (sign : Bool) (ds : Text) (scale : ℕ) → Text
assemble sign ds scale =
    sign_text sign
    ++ (or_zero (take (length ds - scale) ds)
        ++ (if ltb 0 scale then b'.' ∷ drop (length ds - scale) ds else []))

fraction_text-drop :
    (scale : ℕ) (fraction : Text)
    → length fraction ≡ scale
    → (if ltb 0 scale then b'.' ∷ fraction else []) ≡ fraction_text fraction
fraction_text-drop scale [] h = ground arith
fraction_text-drop scale (c ∷ s) h = ground arith

parse-pieces :
    (limit scale : ℕ) (sign : Bool) (whole fraction : Text)
    → length fraction ≡ scale
    → scale ≤ limit
    → 0 < length whole
    → All IsDigit whole
    → All IsDigit fraction
    → parse_decimal
        (sign_text sign ++ (or_zero whole ++ (if ltb 0 scale then b'.' ∷ fraction else [])))
        limit
      ≡ ok (record { units = signed sign (read_digits 0 (whole ++ fraction)); scale = scale })
parse-pieces limit scale sign [] fraction e le pos hw hf = absurd (omega arith)
parse-pieces limit scale sign (d ∷ whole) fraction e le pos hw hf =
    rw (fraction_text-drop scale fraction e)
      (rw (parse_decimal_complete limit sign d whole fraction hw hf) (ground arith))

-- The digits of a rendering, cut where the source cuts them.
module _ (z : ℤ) (scale : ℕ) where
  digits : Text
  digits = pad_start (scale + 1) (to_string (mag z))

  digits-IsDigit : All IsDigit digits
  unfolding digits
  digits-IsDigit = pad_start-IsDigit (scale + 1) _ (to_string-IsDigit (mag z))

  lt-length-digits : scale < length digits
  unfolding digits
  lt-length-digits = omega (arith, le-length-pad_start (scale + 1) (to_string (mag z)))

  read_digits-digits : read_digits 0 digits ≡ mag z
  unfolding digits
  read_digits-digits = read_digits-pad_start (scale + 1) (mag z)

  read_pieces :
      signed
        (is_neg z)
        (read_digits 0 (take (length digits - scale) digits ++ drop (length digits - scale) digits))
      ≡ z
  read_pieces =
      rw (take-append-drop (length digits - scale) digits, read_digits-digits) (signed-mag z)

  -- A rendering at a scale within the limit is read back exactly.
  pub parse_decimal-render :
      (limit : ℕ)
      → scale ≤ limit
      → parse_decimal (render z scale) limit ≡ ok (record { units = z; scale = scale })
  unfolding render digits
  parse_decimal-render limit le =
      parse-pieces limit scale (is_neg z) (take (length digits - scale) digits)
        (drop (length digits - scale) digits)
        (omega (arith, length-drop (length digits - scale) digits, lt-length-digits)) le
        (omega (arith, length-take (length digits - scale) digits (omega arith), lt-length-digits))
        (All-take IsDigit _ digits digits-IsDigit) (All-drop IsDigit _ digits digits-IsDigit)
      ∙ ap (λ (u : ℤ). ok (record { units = u; scale = scale })) read_pieces

parsed_by :
    (v : Text) (limit : ℕ) (d : Decimal) (m : Option (Bool × Text × Text))
    → exec_pattern v ≡ m
    → parse_decimal v limit ≡ ok d
    → (sign : Bool) × (whole : Text) × (fraction : Text) × (v
        ≡ sign_text sign ++ (whole ++ fraction_text fraction))
      × All IsDigit whole
      × (is_nil whole ≡ false)
      × All IsDigit fraction
      × (length fraction ≤ limit)
      × (d ≡ record {
        units = signed sign (read_digits 0 (whole ++ fraction));
        scale = length fraction;
      })
unfolding parse_decimal
parsed_by v limit d none e h = ground arith
parsed_by v limit d (some (sign, whole, fraction)) e h =
    let (digits_of_whole, full, digits_of_fraction, shape) =
      exec_pattern_sound v sign whole fraction e in
    (
      sign,
      whole,
      fraction,
      shape,
      digits_of_whole,
      full,
      digits_of_fraction,
      ground arith,
      ground arith,
    )

-- Nothing outside the grammar is read.
pub parse_decimal_sound :
    (v : Text) (limit : ℕ) (d : Decimal)
    → parse_decimal v limit ≡ ok d
    → (sign : Bool) × (whole : Text) × (fraction : Text) × (v
        ≡ sign_text sign ++ (whole ++ fraction_text fraction))
      × All IsDigit whole
      × (is_nil whole ≡ false)
      × All IsDigit fraction
      × (length fraction ≤ limit)
      × (d ≡ record {
        units = signed sign (read_digits 0 (whole ++ fraction));
        scale = length fraction;
      })
parse_decimal_sound v limit d h = parsed_by v limit d (exec_pattern v) refl h
