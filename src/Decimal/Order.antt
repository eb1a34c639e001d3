-- ===== src/Decimal/Order.antt =====
-- `compare` of apps/api/src/shared/decimal.ts and the order of the rational numbers.
use native.Mathlib.Nat
use erpn.Prelude.{
  ap, ltb→lt, lt→ltb, sym, Bool-cases, ℕ, zero, suc, ◌+◌, ◌-◌, ◌*◌, ◌^◌, ◌≤◌, ◌<◌, max, ◌≡◌, ◌∙◌,
  arith, ltb, inl, inr,
}
use erpn.Prelude.Int.{neg_part-*ℤ, eq_of_parts, pos_part-*ℤ, pos, ◌*ℤ◌, ℤ}
use erpn.Decimal.{Comparison, compare, Decimal, compare_ℤ}
use erpn.Result.{Result, ok}
use erpn.Decimal.Round.{ten_pos, shift_wide}

pub pow-add : (m n : ℕ) → 10 ^ (m + n) ≡ 10 ^ m * 10 ^ n
pow-add m zero = rw (Nat.add-zero m) (omega arith)
pow-add m (suc n) =
    rw Nat.add-suc
      (rw (Nat.pow-suc 10 (m + n)) (rw (Nat.pow-suc 10 n) (grind (arith, pow-add m n))))

mul_le : (x y z : ℕ) → x ≤ y → x * z ≤ y * z
mul_le x y z h = grind arith

ltb-mul : (a b k : ℕ) → 0 < k → ltb (a * k) (b * k) ≡ ltb a b
ltb-mul a b k h = elim (Bool-cases (ltb a b)) [
  | inl less_than ↦
      rw less_than (lt→ltb _ _ (grind (arith, mul_le (suc a) b k (ltb→lt a b less_than))))
  | inr not_less ↦ rw not_less (ground (arith, mul_le b a k))
]

pub *ℤ_assoc : (z : ℤ) (a b : ℕ) → z *ℤ pos a *ℤ pos b ≡ z *ℤ pos (a * b)
*ℤ_assoc z a b = eq_of_parts _ _ (simp (pos_part-*ℤ, neg_part-*ℤ) (grind arith))

-- A common positive factor does not change a comparison.
pub compare_ℤ-*ℤ : (x y : ℤ) (k : ℕ) → 0 < k → compare_ℤ (x *ℤ pos k) (y *ℤ pos k) ≡ compare_ℤ x y
compare_ℤ-*ℤ x y k h = simp (pos_part-*ℤ, neg_part-*ℤ, ← Nat.add-mul, ltb-mul _ _ k h)

-- The power by which a value is widened, and the one that remains to the common denominator.
pub widen : (u v m rest : ℕ) → u ≤ m → m + rest ≡ u + v → 10 ^ (m - u) * 10 ^ rest ≡ 10 ^ v
widen u v m rest h e = sym (pow-add (m - u) rest) ∙ ap (λ (n : ℕ). 10 ^ n) (omega arith)

module _ (a b : Decimal) where
  widest : ℕ
  widest = max a.scale b.scale

  rest : ℕ
  unfolding widest
  rest = a.scale + b.scale - widest

  to_common :
      compare_ℤ
        (a.units *ℤ pos (10 ^ (widest - a.scale)))
        (b.units *ℤ pos (10 ^ (widest - b.scale)))
      ≡ compare_ℤ (a.units *ℤ pos (10 ^ b.scale)) (b.units *ℤ pos (10 ^ a.scale))
  unfolding rest
  to_common =
      sym (
        compare_ℤ-*ℤ (a.units *ℤ pos (10 ^ (widest - a.scale)))
          (b.units *ℤ pos (10 ^ (widest - b.scale))) (10 ^ rest) (ten_pos rest))
      ∙ simp (
        *ℤ_assoc,
        widen a.scale b.scale widest rest (omega arith) (omega arith),
        widen b.scale a.scale widest rest (omega arith) (omega arith),
      )

  -- `compare` never throws, and answers how the two rational numbers are ordered: the units are
  -- compared over the common denominator.
  pub compare_lem :
      compare a b ≡ ok (compare_ℤ (a.units *ℤ pos (10 ^ b.scale)) (b.units *ℤ pos (10 ^ a.scale)))
  unfolding compare widest
  compare_lem =
      rw (shift_wide a widest (omega arith))
        (rw (shift_wide b widest (omega arith)) (ap {B = Result Comparison} ok to_common))
