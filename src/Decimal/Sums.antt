-- ===== src/Decimal/Sums.antt =====
-- `add` and `subtract` of apps/api/src/shared/decimal.ts never throw and lose nothing.
use erpn.Prelude.{ℕ, ◌-◌, ◌^◌, max, ◌≡◌, refl, arith}
use erpn.Decimal.Round.{*ℤ_one, units_at, shift_wide}
use erpn.Decimal.{shift, subtract, add, Decimal}
use erpn.Result.{ok}
use erpn.Prelude.Int.{pos, ◌*ℤ◌, ◌+ℤ◌, ◌-ℤ◌, ℤ}

module _ (a b : Decimal) where
  pub add_lem :
      add a b
      ≡ ok (record {
        units =
            a.units *ℤ pos (10 ^ (max a.scale b.scale - a.scale))
            +ℤ b.units *ℤ pos (10 ^ (max a.scale b.scale - b.scale));
        scale = max a.scale b.scale;
      })
  unfolding add
  add_lem =
      rw (shift_wide a (max a.scale b.scale) (omega arith))
        (rw (shift_wide b (max a.scale b.scale) (omega arith)) refl)

  pub subtract_lem :
      subtract a b
      ≡ ok (record {
        units =
            a.units *ℤ pos (10 ^ (max a.scale b.scale - a.scale))
            -ℤ b.units *ℤ pos (10 ^ (max a.scale b.scale - b.scale));
        scale = max a.scale b.scale;
      })
  unfolding subtract
  subtract_lem =
      rw (shift_wide a (max a.scale b.scale) (omega arith))
        (rw (shift_wide b (max a.scale b.scale) (omega arith)) refl)

-- At one scale the units add up.
pub add_same :
    (u v : ℤ) (s : ℕ)
    → add (record { units = u; scale = s }) (record { units = v; scale = s })
      ≡ ok (record { units = u +ℤ v; scale = s })
unfolding add shift
add_same u v s = ground arith

pub subtract_same :
    (u v : ℤ) (s : ℕ)
    → subtract (record { units = u; scale = s }) (record { units = v; scale = s })
      ≡ ok (record { units = u -ℤ v; scale = s })
unfolding subtract shift
subtract_same u v s = ground arith

-- At its own scale a value keeps its units.
pub units_at_same : (u : ℤ) (s : ℕ) → units_at (record { units = u; scale = s }) s ≡ u
unfolding units_at
units_at_same u s = let e : s - s ≡ 0 = omega arith in ground (arith, *ℤ_one u, e)
