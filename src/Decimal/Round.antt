-- ===== src/Decimal/Round.antt =====
-- `shift`, `round` and `toFixed` of apps/api/src/shared/decimal.ts.
use native.Mathlib.Nat.{one-le-pow, div-eq_of_lt-le, div-add-mod', mod-lt}
use erpn.Prelude.{
  ◌==◌, leb, ◌≤◌, refl, zero, ◌-◌, suc, true, ◌^◌, sym, ℕ, ◌+◌, ◌*◌, ◌/◌, ◌%◌, ◌<◌, ◌≡◌, inl, inr,
  arith, ltb, if◌then◌else◌, Bool-cases,
}
use erpn.Prelude.Int.{◌*ℤ◌, mag-signed, pos, is_neg, negsuc, mag, ℤ, signed, tmod, ◌+ℤ◌, tdiv}
use erpn.Decimal.{render, shift, to_fixed, Decimal, round, round_down_to}
use erpn.Result.{ok}

-- The quotient rounded half up is the quotient of the doubled number and the divisor.
half_up :
    (n f : ℕ) → 0 < f → (if ltb (n % f * 2) f then n / f else n / f + 1) ≡ (2 * n + f) / (2 * f)
half_up n f h = sym (elim (Bool-cases (ltb (n % f * 2) f)) [
  | inl below ↦ rw below (
      div-eq_of_lt-le _ (grind (arith, div-add-mod' n f, mod-lt n h))
        (grind (arith, div-add-mod' n f, mod-lt n h)))
  | inr above ↦ rw above (
      div-eq_of_lt-le _ (grind (arith, div-add-mod' n f, mod-lt n h))
        (grind (arith, div-add-mod' n f, mod-lt n h)))
])

-- The factor of a shift.
pub ten_pos : (p : ℕ) → 0 < 10 ^ p
ten_pos p = one-le-pow p 10 (omega arith)

one_further : (q : ℕ) → signed true q +ℤ negsuc 0 ≡ signed true (q + 1)
unfolding ◌+ℤ◌
one_further zero = refl
one_further (suc q) = ground arith

-- The steps of `round` for any factor: a quotient towards zero, and one further from a half on.
rounded :
    (z : ℤ) (f : ℕ)
    → 0 < f
    → (if ltb (mag (tmod z (pos f)) * 2) f
        then tdiv z (pos f)
        else tdiv z (pos f) +ℤ (if is_neg z then negsuc 0 else pos 1))
      ≡ signed (is_neg z) ((2 * mag z + f) / (2 * f))
unfolding tdiv tmod
rounded (pos n) f h = unfold ◌+ℤ◌ in ground (arith, half_up n f h)
rounded (negsuc n) f h =
    ground (arith, half_up (suc n) f h, one_further (suc n / f), mag-signed true (suc n % f))

-- `round` to a smaller scale: the magnitude is rounded half up, so a half goes away from zero.
pub round_down_to_lem :
    (z : ℤ) (v s : ℕ)
    → round_down_to (record { units = z; scale = v }) s ≡ record {
      units = signed (is_neg z) ((2 * mag z + 10 ^ (v - s)) / (2 * 10 ^ (v - s)));
      scale = s;
    }
unfolding round_down_to
round_down_to_lem z v s = ground (arith, rounded z (10 ^ (v - s)) (ten_pos (v - s)))

-- The units of a value at another scale: exact where the scale widens, and otherwise rounded half
-- away from zero.
unfoldable pub units_at : Decimal → ℕ → ℤ
units_at d s =
    if leb d.scale s
    then d.units *ℤ pos (10 ^ (s - d.scale))
    else signed (is_neg d.units) ((2 * mag d.units + 10 ^ (d.scale - s)) / (2 * 10 ^ (d.scale - s)))

pub *ℤ_one : (z : ℤ) → z *ℤ pos 1 ≡ z
unfolding ◌*ℤ◌
*ℤ_one (pos n) = ground arith
*ℤ_one (negsuc n) = ground arith

shift_same :
    (d : Decimal) (s : ℕ)
    → d.scale ≡ s
    → ok d ≡ ok (record { units = d.units *ℤ pos (10 ^ (s - d.scale)); scale = s })
shift_same d s h = let e : s - d.scale ≡ 0 = omega arith in rw e (rw (*ℤ_one d.units) (cc))

pub shift_wide :
    (d : Decimal) (s : ℕ)
    → d.scale ≤ s
    → shift d s ≡ ok (record { units = d.units *ℤ pos (10 ^ (s - d.scale)); scale = s })
unfolding shift
shift_wide d s h = elim (Bool-cases (s == d.scale)) [
  | inl same ↦ rw same (shift_same d s (ground arith))
  | inr wider ↦ rw (wider, shift) (ground arith)
]

-- `round` never throws, and returns the value at the scale that was asked for.
pub round_lem : (d : Decimal) (s : ℕ) → round d s ≡ ok (record { units = units_at d s; scale = s })
unfolding round units_at
round_lem d s = ground (arith, shift_wide d s, round_down_to_lem d.units d.scale s)

-- `toFixed` never throws, and writes the rounded units.
pub to_fixed_lem : (d : Decimal) (s : ℕ) → to_fixed d s ≡ ok (render (units_at d s) s)
unfolding to_fixed
to_fixed_lem d s = rw round_lem
