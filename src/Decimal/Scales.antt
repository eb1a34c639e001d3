-- ===== src/Decimal/Scales.antt =====
-- Sums of decimals of a limited scale (apps/api/src/shared/decimal.ts), in units of that scale.
use erpn.Prelude.{sym, ◌*◌, ap, ◌-◌, ◌+◌, ◌∙◌, ◌^◌, arith, max, ◌≡◌, ◌≤◌, Text, ℕ}
use erpn.Decimal.{add, render, parse_decimal, Decimal}
use erpn.Decimal.Round.{units_at}
use erpn.Prelude.Int.{
  eq_of_parts, pos_part-*ℤ, neg_part-*ℤ, +ℤ_parts, neg_part, pos_part, pos, ◌*ℤ◌, ◌+ℤ◌, ℤ,
}
use erpn.Result.{err, ok}
use erpn.Decimal.RoundTrip.{parse_decimal-render, parse_decimal_sound}
use erpn.Decimal.Sums.{add_lem, units_at_same}
use erpn.Decimal.Order.{widen, *ℤ_assoc}

*ℤ_distrib : (a b : ℤ) (n : ℕ) → (a +ℤ b) *ℤ pos n ≡ a *ℤ pos n +ℤ b *ℤ pos n
*ℤ_distrib a b n =
    let scaled : (pos_part (a +ℤ b) + neg_part a + neg_part b) * n
        ≡ (neg_part (a +ℤ b) + pos_part a + pos_part b) * n =
      ap (λ x. x * n) (+ℤ_parts a b) in
    let parts : pos_part (a *ℤ pos n +ℤ b *ℤ pos n) + neg_part a * n + neg_part b * n
        ≡ neg_part (a *ℤ pos n +ℤ b *ℤ pos n) + pos_part a * n + pos_part b * n =
      rw (← neg_part-*ℤ a n, ← neg_part-*ℤ b n, ← pos_part-*ℤ a n, ← pos_part-*ℤ b n)
        (+ℤ_parts (a *ℤ pos n) (b *ℤ pos n)) in
    eq_of_parts _ _ (simp (pos_part-*ℤ, neg_part-*ℤ) (grind arith))

-- A value of at most the scale is widened exactly.
pub units_at_wide :
    (d : Decimal) (s : ℕ) → d.scale ≤ s → units_at d s ≡ d.units *ℤ pos (10 ^ (s - d.scale))
unfolding units_at
units_at_wide d s h = ground arith

pub widened :
    (z : ℤ) (u m s : ℕ)
    → u ≤ m
    → m ≤ s
    → z *ℤ pos (10 ^ (m - u)) *ℤ pos (10 ^ (s - m)) ≡ z *ℤ pos (10 ^ (s - u))
widened z u m s h k =
    *ℤ_assoc z (10 ^ (m - u)) (10 ^ (s - m))
    ∙ ap (λ n. z *ℤ pos n) (widen u (s - u) m (s - m) h (omega arith))

-- A sum has the larger scale, and its units at a scale that covers both are the sum of theirs.
pub record IsSum (a b c : Decimal) (s : ℕ) : Type 0 where
  pub scale_within : c.scale ≤ s
  pub units_add : units_at c s ≡ units_at a s +ℤ units_at b s

pub add-IsSum :
    (a b c : Decimal) (s : ℕ) → a.scale ≤ s → b.scale ≤ s → add a b ≡ ok c → IsSum a b c s
add-IsSum a b c s h k e =
    let m = max a.scale b.scale in
    let sum : Decimal = record {
      units = a.units *ℤ pos (10 ^ (m - a.scale)) +ℤ b.units *ℤ pos (10 ^ (m - b.scale));
      scale = m;
    } in
    let same : c ≡ sum = cc (add_lem a b, e) in
    rw same (record {
      scale_within = omega arith;
      units_add =
          units_at_wide sum s (omega arith)
          ∙ *ℤ_distrib (a.units *ℤ pos (10 ^ (m - a.scale))) (b.units *ℤ pos (10 ^ (m - b.scale)))
              (10 ^ (s - m))
          ∙ ap {B = ℤ} (λ x. x +ℤ b.units *ℤ pos (10 ^ (m - b.scale)) *ℤ pos (10 ^ (s - m)))
              (widened a.units a.scale m s (omega arith) (omega arith) ∙ sym (units_at_wide a s h))
          ∙ ap (λ x. units_at a s +ℤ x)
              (widened b.units b.scale m s (omega arith) (omega arith) ∙ sym (units_at_wide b s k));
    })

-- What is read has at most the scale that is asked for.
pub parse_decimal-le :
    (v : Text) (limit : ℕ) (d : Decimal) → parse_decimal v limit ≡ ok d → d.scale ≤ limit
parse_decimal-le v limit d h =
    let (sign, whole, fraction, _, _, _, _, short, same) = parse_decimal_sound v limit d h in
    rw same short

-- The units of a text at a scale; a text that is no decimal counts as nothing.
unfoldable pub units_of : ℕ → Text → ℤ
units_of scale t = elim (parse_decimal t scale) [ ok d ↦ units_at d scale | err _ ↦ pos 0 ]

pub units_of-parsed :
    (scale : ℕ) (t : Text) (d : Decimal)
    → parse_decimal t scale ≡ ok d
    → units_of scale t ≡ units_at d scale
unfolding units_of
units_of-parsed scale t d h = rw (h, units_of)

pub units_of-render : (scale : ℕ) (z : ℤ) → units_of scale (render z scale) ≡ z
units_of-render scale z =
    units_of-parsed scale (render z scale) _ (parse_decimal-render z scale scale (omega arith))
    ∙ units_at_same z scale
