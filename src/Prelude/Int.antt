-- ===== src/Prelude/Int.antt =====
-- Signed integers over the native numbers, under the library's names, for the source's `bigint`.
use Prim.Native.Nat.{ℕ, zero, suc, ◌+◌, ◌-◌, ◌*◌, ◌/◌, ◌%◌, ◌≤◌}
use mathlib.Core.Path.{◌≡◌, refl}
use mathlib.Core.Bool.{Bool, true, false, not}
use native.Mathlib.Omega.{arith}
use erpn.Prelude.Tests.{ltb, leb, if◌then◌else◌}

-- `negsuc n` is -(n + 1).
pub data ℤ : Type 0 where
  pos : ℕ → ℤ
  negsuc : ℕ → ℤ

abbrev pub pos_part : ℤ → ℕ
pos_part (pos n) = n
pos_part (negsuc n) = 0

abbrev pub neg_part : ℤ → ℕ
neg_part (pos n) = 0
neg_part (negsuc n) = suc n

-- a - b, as an integer.
abbrev pub sub_ℕ : ℕ → ℕ → ℤ
sub_ℕ a b = if leb b a then pos (a - b) else negsuc (b - a - 1)

-- `z < 0n`
abbrev pub is_neg : ℤ → Bool
is_neg (pos n) = false
is_neg (negsuc n) = true

abbrev pub mag : ℤ → ℕ
mag (pos n) = n
mag (negsuc n) = suc n

-- The integer of a given magnitude, negated on `true`.
abbrev pub signed : Bool → ℕ → ℤ
signed false n = pos n
signed true zero = pos zero
signed true (suc n) = negsuc n

-- The sign of a product: the signs of the factors differ.
abbrev pub xor : Bool → Bool → Bool
xor false b = b
xor true b = not b

infixl 65 ◌+ℤ◌ ◌-ℤ◌
infixl 70 ◌*ℤ◌
infix 50 ◌≤ℤ◌
unfoldable pub ◌+ℤ◌ : ℤ → ℤ → ℤ
a +ℤ b = sub_ℕ (pos_part a + pos_part b) (neg_part a + neg_part b)

unfoldable pub ◌-ℤ◌ : ℤ → ℤ → ℤ
a -ℤ b = sub_ℕ (pos_part a + neg_part b) (neg_part a + pos_part b)

unfoldable pub ◌*ℤ◌ : ℤ → ℤ → ℤ
a *ℤ b = signed (xor (is_neg a) (is_neg b)) (mag a * mag b)

-- `a / b` and `a % b` of `bigint`, which round towards zero.
unfoldable pub tdiv : ℤ → ℤ → ℤ
tdiv a b = signed (xor (is_neg a) (is_neg b)) (mag a / mag b)

unfoldable pub tmod : ℤ → ℤ → ℤ
tmod a b = signed (is_neg a) (mag a % mag b)

abbrev pub ◌≤ℤ◌ : ℤ → ℤ → Type 0
a ≤ℤ b = pos_part a + neg_part b ≤ pos_part b + neg_part a

-- `a < b`
abbrev pub ltb_ℤ : ℤ → ℤ → Bool
ltb_ℤ a b = ltb (pos_part a + neg_part b) (pos_part b + neg_part a)

pub +ℤ_parts :
    (a b : ℤ)
    → pos_part (a +ℤ b) + neg_part a + neg_part b ≡ neg_part (a +ℤ b) + pos_part a + pos_part b
unfolding ◌+ℤ◌
+ℤ_parts a b = ground arith

pub -ℤ_parts :
    (a b : ℤ)
    → pos_part (a -ℤ b) + neg_part a + pos_part b ≡ neg_part (a -ℤ b) + pos_part a + neg_part b
unfolding ◌-ℤ◌
-ℤ_parts a b = ground arith

pub eq_of_parts : (a b : ℤ) → pos_part a + neg_part b ≡ pos_part b + neg_part a → a ≡ b
eq_of_parts a b h = ground arith

pub ruleset int_laws = (arith, +ℤ_parts, -ℤ_parts, eq_of_parts)

pub mag-signed : (b : Bool) (n : ℕ) → mag (signed b n) ≡ n
mag-signed false n = refl
mag-signed true zero = refl
mag-signed true (suc n) = refl

pub signed-mag : (z : ℤ) → signed (is_neg z) (mag z) ≡ z
signed-mag (pos n) = refl
signed-mag (negsuc n) = refl

pub pos_part-signed : (b : Bool) (n : ℕ) → pos_part (signed b n) ≡ (if b then 0 else n)
pos_part-signed false n = refl
pos_part-signed true zero = refl
pos_part-signed true (suc n) = refl

pub neg_part-signed : (b : Bool) (n : ℕ) → neg_part (signed b n) ≡ (if b then n else 0)
neg_part-signed false n = refl
neg_part-signed true zero = refl
neg_part-signed true (suc n) = refl

-- Multiplying by a number keeps the two parts apart.
pub pos_part-*ℤ : (a : ℤ) (n : ℕ) → pos_part (a *ℤ pos n) ≡ pos_part a * n
unfolding ◌*ℤ◌
pos_part-*ℤ (pos a) n = refl
pos_part-*ℤ (negsuc a) n = rw pos_part-signed (omega arith)

pub neg_part-*ℤ : (a : ℤ) (n : ℕ) → neg_part (a *ℤ pos n) ≡ neg_part a * n
unfolding ◌*ℤ◌
neg_part-*ℤ (pos a) n = omega arith
neg_part-*ℤ (negsuc a) n = rw neg_part-signed

pub +ℤ_comm : (a b : ℤ) → a +ℤ b ≡ b +ℤ a
+ℤ_comm a b = omega int_laws

pub +ℤ_assoc : (a b c : ℤ) → a +ℤ b +ℤ c ≡ a +ℤ (b +ℤ c)
+ℤ_assoc a b c = omega int_laws

pub +ℤ_zero : (a : ℤ) → a +ℤ pos 0 ≡ a
+ℤ_zero a = omega int_laws

pub zero_+ℤ : (a : ℤ) → pos 0 +ℤ a ≡ a
zero_+ℤ a = omega int_laws
