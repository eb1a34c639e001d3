-- ===== src/Decimal.antt =====
-- apps/api/src/shared/decimal.ts: exact decimals as scaled integers. The proofs are in the children.
pub mod Digits
pub mod Scan
pub mod Round
pub mod Order
pub mod Sums
pub mod Scales
pub mod RoundTrip
use erpn.Prelude.{
  ℕ, zero, suc, ◌+◌, ◌-◌, ◌*◌, ◌/◌, ◌%◌, ◌^◌, max, Bool, true, false, not, ◌&&◌, List, [], ◌∷◌,
  ◌++◌, Option, none, some, Text, codes, length, is_nil, take, drop, replicate, ltb, leb, ◌==◌,
  if◌then◌else◌,
}
use erpn.Prelude.Int.{ℤ, pos, negsuc, is_neg, mag, signed, ◌+ℤ◌, ◌-ℤ◌, ◌*ℤ◌, tdiv, tmod, ltb_ℤ}
use erpn.Failure.{malformed, too_many_places, decimal_parse, shift_narrows}
use erpn.Result.{Result, ok, err, ◌>>=◌}

pub record Decimal : Type 0 where
  pub units : ℤ
  pub scale : ℕ

abbrev pub max_scale : ℕ
max_scale = 6

-- `\d`
abbrev pub is_digit : ℕ → Bool
is_digit c = leb b'0' c && leb c b'9'

-- The longest prefix of digits, and the rest: what `\d+` or `\d*` takes here, where no digit follows.
unfoldable pub span_digits : Text → Text × Text
span_digits [] = ([], [])
span_digits (c ∷ s) =
    let (taken, rest) = span_digits s in if is_digit c then (c ∷ taken, rest) else ([], c ∷ s)

-- `(?:\.(\d+))?$`: the fraction, empty where there is none, if the whole rest is matched.
unfoldable pub match_fraction : Text → Option Text
match_fraction [] = some []
match_fraction (c ∷ s) =
    let (taken, rest) = span_digits s in
    if c == b'.' && not (is_nil taken) && is_nil rest then some taken else none

-- `(\d+)(?:\.(\d+))?$`
unfoldable pub match_digits : Text → Option (Text × Text)
match_digits s =
    let (whole, rest) = span_digits s in
    if is_nil whole
    then none
    else elim (match_fraction rest) [ none ↦ none | some fraction ↦ some (whole, fraction) ]

-- `PATTERN.exec(value)`: the sign, the whole part and the fraction.
unfoldable pub exec_pattern : Text → Option (Bool × Text × Text)
exec_pattern [] = none
exec_pattern (c ∷ s) =
    if c == b'-'
    then elim (match_digits s) [
      | none ↦ none
      | some (whole, fraction) ↦ some (true, whole, fraction)
    ]
    else elim (match_digits (c ∷ s)) [
      | none ↦ none
      | some (whole, fraction) ↦ some (false, whole, fraction)
    ]

-- `BigInt` of a text of digits, behind `n`
unfoldable pub read_digits : ℕ → Text → ℕ
read_digits n [] = n
read_digits n (c ∷ s) = read_digits (n * 10 + (c - b'0')) s

unfoldable pub parse_decimal : Text → ℕ → Result Decimal
parse_decimal value limit = elim (exec_pattern value) [
  | none ↦ err (decimal_parse malformed)
  | some (sign, whole, fraction) ↦
      if ltb limit (length fraction)
      then err (decimal_parse too_many_places)
      else ok (record {
        units = signed sign (read_digits 0 (whole ++ fraction));
        scale = length fraction;
      })
]

-- `zero` of the source
unfoldable pub zero_at : ℕ → Decimal
zero_at scale = record { units = pos 0; scale = scale }

unfoldable pub is_negative : Decimal → Bool
is_negative value = ltb_ℤ value.units (pos 0)

unfoldable pub is_zero : Decimal → Bool
is_zero value = mag value.units == 0

unfoldable pub ten_to : ℕ → ℤ
ten_to power = pos (10 ^ power)

-- The guard of the source throws; every caller asks for a scale that is at least the value's.
unfoldable pub shift : Decimal → ℕ → Result Decimal
unfolding ten_to
shift value scale =
    if scale == value.scale
    then ok value
    else if ltb scale value.scale
    then err (shift_narrows scale value.scale)
    else ok (record { units = value.units *ℤ ten_to (scale - value.scale); scale = scale })

-- The answers 0, -1 and 1 of `compare`.
pub data Comparison : Type 0 where
  equal less greater : Comparison

abbrev pub compare_ℤ : ℤ → ℤ → Comparison
compare_ℤ left right =
    if ltb_ℤ left right then less else if ltb_ℤ right left then greater else equal

unfoldable pub compare : Decimal → Decimal → Result Comparison
compare a b = do
  let scale = max a.scale b.scale
  left ← shift a scale
  right ← shift b scale
  ok (compare_ℤ left.units right.units)

unfoldable pub multiply : Decimal → Decimal → Decimal
multiply a b = record { units = a.units *ℤ b.units; scale = a.scale + b.scale }

unfoldable pub add : Decimal → Decimal → Result Decimal
add a b = do
  let scale = max a.scale b.scale
  left ← shift a scale
  right ← shift b scale
  ok (record { units = left.units +ℤ right.units; scale = scale })

unfoldable pub subtract : Decimal → Decimal → Result Decimal
subtract a b = do
  let scale = max a.scale b.scale
  left ← shift a scale
  right ← shift b scale
  ok (record { units = left.units -ℤ right.units; scale = scale })

-- The part of `round` below its first line.
unfoldable pub round_down_to : Decimal → ℕ → Decimal
unfolding ten_to tdiv tmod
round_down_to value scale =
    let factor = ten_to (value.scale - scale) in
    let quotient = tdiv value.units factor in
    let remainder = tmod value.units factor in
    let twice = mag remainder * 2 in
    record {
      units =
          if ltb_ℤ (pos twice) factor
          then quotient
          else quotient +ℤ (if is_neg value.units then negsuc 0 else pos 1);
      scale = scale;
    }

unfoldable pub round : Decimal → ℕ → Result Decimal
round value scale =
    if leb value.scale scale then shift value scale else ok (round_down_to value scale)

-- `n.toString()`: the last digit, behind the digits of the tenth, for at most `fuel` digits.
unfoldable pub emit_digits : ℕ → ℕ → Text → Text
emit_digits zero n out = out
emit_digits (suc fuel) n out =
    let last = b'0' + n % 10 in
    let rest = emit_digits fuel (n / 10) (last ∷ out) in if n / 10 == 0 then last ∷ out else rest

unfoldable pub to_string : ℕ → Text
unfolding emit_digits
to_string n = emit_digits (suc n) n []

unfoldable pub pad_start : ℕ → Text → Text
pad_start width s = replicate (width - length s) b'0' ++ s

-- `text || '0'`
abbrev pub or_zero : Text → Text
or_zero [] = b'0' ∷ []
or_zero (c ∷ s) = c ∷ s

-- The rendering in `toFixed`, of units that are at the scale already.
unfoldable pub render : ℤ → ℕ → Text
unfolding to_string pad_start
render units scale =
    let digits = pad_start (scale + 1) (to_string (mag units)) in
    let whole = or_zero (take (length digits - scale) digits) in
    let fraction = if ltb 0 scale then b'.' ∷ drop (length digits - scale) digits else [] in
    (if is_neg units then b'-' ∷ [] else []) ++ (whole ++ fraction)

unfoldable pub to_fixed : Decimal → ℕ → Result Text
to_fixed value scale = do at ← round value scale; ok (render at.units scale)
