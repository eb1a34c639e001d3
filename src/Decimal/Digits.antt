-- ===== src/Decimal/Digits.antt =====
-- The digits of a number: `toString` and `padStart` of apps/api/src/shared/decimal.ts are read back
-- by `BigInt`.
use erpn.Prelude.{
  ℕ, zero, suc, ◌+◌, ◌-◌, ◌/◌, ◌%◌, ◌≤◌, ◌<◌, ◌≡◌, ◌∙◌, refl, [], ◌∷◌, ◌++◌, Text, length,
  length-append, replicate, length-replicate, All, All-append, All-replicate, arith,
}
use erpn.Decimal.{emit_digits, to_string, pad_start, read_digits}

abbrev pub IsDigit : ℕ → Type 0
IsDigit c = (b'0' ≤ c) × (c ≤ b'9')

emit_digits-IsDigit :
    (fuel n : ℕ) (out : Text) → All IsDigit out → All IsDigit (emit_digits fuel n out)
unfolding emit_digits
emit_digits-IsDigit zero n out h = h
emit_digits-IsDigit (suc fuel) n out h =
    ground (arith, emit_digits-IsDigit fuel (n / 10) ((b'0' + n % 10) ∷ out))

read_last : (n : ℕ) (out : Text) → read_digits (n / 10) ((b'0' + n % 10) ∷ out) ≡ read_digits n out
unfolding read_digits
read_last n out = ground arith

-- The fuel is enough: `n < fuel`.
read_digits-emit_digits :
    (fuel n : ℕ) (out : Text)
    → n < fuel
    → read_digits 0 (emit_digits fuel n out) ≡ read_digits n out
unfolding emit_digits
read_digits-emit_digits zero n out h = elim h [ ]
read_digits-emit_digits (suc fuel) n out h =
    ground (arith, read_last n out, read_digits-emit_digits fuel (n / 10) ((b'0' + n % 10) ∷ out))

length-emit_digits : (fuel n : ℕ) (out : Text) → length out ≤ length (emit_digits fuel n out)
unfolding emit_digits
length-emit_digits zero n out = omega arith
length-emit_digits (suc fuel) n out =
    ground (arith, length-emit_digits fuel (n / 10) ((b'0' + n % 10) ∷ out))

pub to_string-IsDigit : (n : ℕ) → All IsDigit (to_string n)
unfolding to_string
to_string-IsDigit n = emit_digits-IsDigit (suc n) n [] tt

-- `BigInt(n.toString())` is `n`.
pub read_digits-to_string : (n : ℕ) → read_digits 0 (to_string n) ≡ n
unfolding to_string read_digits
read_digits-to_string n = read_digits-emit_digits (suc n) n [] (omega arith)

pub read_digits-zeros : (k : ℕ) (s : Text) → read_digits 0 (replicate k b'0' ++ s) ≡ read_digits 0 s
unfolding read_digits
read_digits-zeros zero s = refl
read_digits-zeros (suc k) s = read_digits-zeros k s

pub pad_start-IsDigit : (w : ℕ) (s : Text) → All IsDigit s → All IsDigit (pad_start w s)
unfolding pad_start
pad_start-IsDigit w s h =
    All-append IsDigit _ s (All-replicate IsDigit (w - length s) b'0' (omega arith)) h

pub le-length-pad_start : (w : ℕ) (s : Text) → w ≤ length (pad_start w s)
unfolding pad_start
le-length-pad_start w s = omega (
  arith,
  length-append (replicate (w - length s) b'0') s,
  length-replicate {A = ℕ} (w - length s) b'0',
)

-- Padding does not change the number that is read.
pub read_digits-pad_start : (w n : ℕ) → read_digits 0 (pad_start w (to_string n)) ≡ n
unfolding pad_start
read_digits-pad_start w n =
    read_digits-zeros (w - length (to_string n)) (to_string n) ∙ read_digits-to_string n
