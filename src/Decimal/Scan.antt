-- ===== src/Decimal/Scan.antt =====
-- The regular expression of `parseDecimal` in apps/api/src/shared/decimal.ts: what it matches.
use erpn.Prelude.{
  ℕ, ◌≡◌, refl, Bool, true, false, some, [], ◌∷◌, ◌++◌, Text, append-nil, is_nil, All, arith,
  if◌then◌else◌,
}
use erpn.Decimal.{is_digit, span_digits, match_fraction, match_digits, exec_pattern}
use erpn.Decimal.Digits.{IsDigit}

-- The text does not begin with a digit.
abbrev pub EndsDigits : Text → Type 0
EndsDigits [] = Unit
EndsDigits (c ∷ s) = is_digit c ≡ false

pub span_digits-append :
    (ds rest : Text) → All IsDigit ds → EndsDigits rest → span_digits (ds ++ rest) ≡ (ds, rest)
unfolding span_digits
span_digits-append [] [] h e = refl
span_digits-append [] (c ∷ s) h e = ground arith
span_digits-append (d ∷ ds) rest h e = ground (arith, span_digits-append ds rest h.1 e)

-- The text of a fraction: nothing, or a point and the digits.
abbrev pub fraction_text : Text → Text
fraction_text [] = []
fraction_text (c ∷ s) = b'.' ∷ c ∷ s

abbrev pub sign_text : Bool → Text
sign_text sign = if sign then b'-' ∷ [] else []

EndsDigits-fraction_text : (fraction : Text) → EndsDigits (fraction_text fraction)
EndsDigits-fraction_text [] = tt
EndsDigits-fraction_text (c ∷ s) = refl

match_fraction_lem :
    (fraction : Text)
    → All IsDigit fraction
    → match_fraction (fraction_text fraction) ≡ some fraction
unfolding match_fraction
match_fraction_lem [] h = refl
match_fraction_lem (c ∷ s) h =
    ground (arith, span_digits-append (c ∷ s) [] h tt, append-nil (c ∷ s))

match_digits_lem :
    (d : ℕ) (whole fraction : Text)
    → All IsDigit (d ∷ whole)
    → All IsDigit fraction
    → match_digits (d ∷ whole ++ fraction_text fraction) ≡ some (d ∷ whole, fraction)
unfolding match_digits
match_digits_lem d whole fraction hw hf = ground (
  arith,
  span_digits-append (d ∷ whole) (fraction_text fraction) hw (EndsDigits-fraction_text fraction),
  match_fraction_lem fraction hf,
)

pub exec_pattern_complete :
    (sign : Bool) (d : ℕ) (whole fraction : Text)
    → All IsDigit (d ∷ whole)
    → All IsDigit fraction
    → exec_pattern (sign_text sign ++ (d ∷ whole ++ fraction_text fraction))
      ≡ some (sign, d ∷ whole, fraction)
unfolding exec_pattern
exec_pattern_complete true d whole fraction hw hf =
    ground (arith, match_digits_lem d whole fraction hw hf)
exec_pattern_complete false d whole fraction hw hf =
    ground (arith, match_digits_lem d whole fraction hw hf)

-- What `span_digits` takes are digits, and it loses nothing.
span_digits_sound : (s : Text) → let (ds, rest) = span_digits s in All IsDigit ds × (s ≡ ds ++ rest)
unfolding span_digits
span_digits_sound [] = (tt, refl)
span_digits_sound (c ∷ s) = ground (arith, span_digits_sound s)

match_fraction_sound :
    (s fraction : Text)
    → match_fraction s ≡ some fraction
    → All IsDigit fraction × (s ≡ fraction_text fraction)
unfolding match_fraction
match_fraction_sound [] fraction h = ground arith
match_fraction_sound (c ∷ s) fraction h =
    ground (arith, span_digits_sound s, append-nil (span_digits s).0)

match_digits_sound :
    (s whole fraction : Text)
    → match_digits s ≡ some (whole, fraction)
    → All IsDigit whole
      × (is_nil whole ≡ false)
      × All IsDigit fraction
      × (s ≡ whole ++ fraction_text fraction)
unfolding match_digits
match_digits_sound s h = ground (arith, span_digits_sound s, match_fraction_sound (span_digits s).1)

-- A match is a sign, one or more digits, and possibly a point with one or more digits.
pub exec_pattern_sound :
    (s : Text) (sign : Bool) (whole fraction : Text)
    → exec_pattern s ≡ some (sign, whole, fraction)
    → All IsDigit whole
      × (is_nil whole ≡ false)
      × All IsDigit fraction
      × (s ≡ sign_text sign ++ (whole ++ fraction_text fraction))
unfolding exec_pattern
exec_pattern_sound [] sign whole fraction h = cc
exec_pattern_sound (c ∷ s) sign whole fraction h =
    ground (arith, match_digits_sound s whole fraction, match_digits_sound (c ∷ s) whole fraction)
