-- ===== src/Inventory/Reservations/Available.antt =====
-- What `availabilityForUpdate` of apps/api/src/database/repositories/inventory.repository.ts reports, in
-- units of the quantity scale.
use erpn.Prelude.{
  ◌*◌, ◌^◌, sym, max, ◌∙◌, ℕ, ap, length-drop, drop, ◌-◌, take, if◌then◌else◌, refl, [], arith, ◌+◌,
  ◌∷◌, ◌++◌, ◌≤◌, ◌≡◌, All, length, Text, List,
}
use erpn.Decimal.{
  max_scale, parse_decimal, subtract, or_zero, to_string, zero_at, pad_start, render, Decimal,
}
use erpn.Database.Numeric.{sum_text, to_numeric, sum_numeric, numeric_of}
use erpn.Prelude.Int.{
  eq_of_parts, pos_part-*ℤ, neg_part-*ℤ, -ℤ_parts, -ℤ_parts, neg_part, pos_part, ◌-ℤ◌, is_neg, mag,
  ◌*ℤ◌, ◌+ℤ◌, pos, ℤ,
}
use erpn.Database.Inventory.{quantity_scale}
use erpn.Decimal.Round.{units_at}
use erpn.Result.{◌>>=◌, ok}
use erpn.Decimal.RoundTrip.{parse_decimal-render}
use erpn.Decimal.Scales.{widened, add-IsSum, units_at_wide, units_of-render, units_of}
use erpn.Decimal.Digits.{le-length-pad_start}
use erpn.Decimal.Sums.{add_lem, subtract_lem, units_at_same}

-- A text as a quantity column gives it back.
abbrev pub IsQuantity : Text → Type 0
IsQuantity t = (z : ℤ) × (t ≡ render z quantity_scale)

unfoldable pub quantities_total : List Text → ℤ
quantities_total [] = pos 0
quantities_total (t ∷ ts) = units_of quantity_scale t +ℤ quantities_total ts

-- A rendering is at least as long as its scale.
length-append-le : (a b : Text) → length b ≤ length (a ++ b)
length-append-le [] b = omega arith
length-append-le (x ∷ a) b = omega (arith, length-append-le a b)

render_long : (z : ℤ) → quantity_scale ≤ length (render z quantity_scale)
unfolding render
render_long z =
    let digits = pad_start (quantity_scale + 1) (to_string (mag z)) in
    omega (
      arith,
      length-append-le (if is_neg z then b'-' ∷ [] else []) (
          or_zero (take (length digits - quantity_scale) digits)
          ++ (b'.' ∷ drop (length digits - quantity_scale) digits)),
      length-append-le (or_zero (take (length digits - quantity_scale) digits))
          (b'.' ∷ drop (length digits - quantity_scale) digits),
      length-drop (length digits - quantity_scale) digits,
      le-length-pad_start (quantity_scale + 1) (to_string (mag z)),
    )

pub numeric_of-render :
    (z : ℤ) → numeric_of (render z quantity_scale) ≡ record { units = z; scale = quantity_scale }
unfolding numeric_of to_numeric
numeric_of-render z = rw (
  parse_decimal-render z quantity_scale (length (render z quantity_scale)) (render_long z),
  numeric_of,
)

-- A decimal within the quantity scale, of so many units.
pub record Counts (d : Decimal) (u : ℤ) : Type 0 where
  pub within : d.scale ≤ quantity_scale
  pub counts : units_at d quantity_scale ≡ u

-- `SUM` over a quantity column.
pub sum_numeric_lem :
    (ts : List Text)
    → All IsQuantity ts
    → (d : Decimal) × (sum_numeric ts ≡ ok d) × Counts d (quantities_total ts)
unfolding sum_numeric quantities_total
sum_numeric_lem [] h = (
  zero_at 0,
  refl,
  record { within = unfold zero_at in omega arith; counts = unfold zero_at units_at ◌*ℤ◌ in refl },
)
sum_numeric_lem (t ∷ ts) ((z, is_z), h) =
    let (rest, e, counted) = sum_numeric_lem ts h in
    let first : Decimal = record { units = z; scale = quantity_scale } in
    let units : units_of quantity_scale t ≡ units_at first quantity_scale =
      ap (units_of quantity_scale) is_z
      ∙ units_of-render quantity_scale z
      ∙ sym (units_at_same z quantity_scale) in
    let sum =
      add-IsSum first rest _ quantity_scale (omega arith) counted.within (add_lem first rest) in
    (
      _,
      rw (e, is_z, numeric_of-render z, ◌>>=◌) (add_lem first rest),
      record {
        within = sum.scale_within;
        counts =
            sum.units_add
            ∙ ap (λ u. units_at first quantity_scale +ℤ u) counted.counts
            ∙ ap {B = ℤ} (λ u. u +ℤ quantities_total ts) (sym units);
      },
    )

-- `parseDecimal` of what PostgreSQL prints of a decimal within the scale.
pub parse_printed :
    (d : Decimal)
    → d.scale ≤ quantity_scale
    → parse_decimal (render d.units d.scale) max_scale ≡ ok d
parse_printed d h = parse_decimal-render d.units d.scale max_scale h

-ℤ_*ℤ : (a b : ℤ) (n : ℕ) → (a -ℤ b) *ℤ pos n ≡ a *ℤ pos n -ℤ b *ℤ pos n
-ℤ_*ℤ a b n =
    let scaled : (pos_part (a -ℤ b) + neg_part a + pos_part b) * n
        ≡ (neg_part (a -ℤ b) + pos_part a + neg_part b) * n =
      ap (λ x. x * n) (-ℤ_parts a b) in
    let parts : pos_part (a *ℤ pos n -ℤ b *ℤ pos n) + neg_part a * n + pos_part b * n
        ≡ neg_part (a *ℤ pos n -ℤ b *ℤ pos n) + pos_part a * n + neg_part b * n =
      rw (← neg_part-*ℤ a n, ← neg_part-*ℤ b n, ← pos_part-*ℤ a n, ← pos_part-*ℤ b n)
        (-ℤ_parts (a *ℤ pos n) (b *ℤ pos n)) in
    eq_of_parts _ _ (simp (pos_part-*ℤ, neg_part-*ℤ) (grind arith))

pub difference :
    (a b : Decimal) (u v : ℤ)
    → Counts a u
    → Counts b v
    → (c : Decimal) × (subtract a b ≡ ok c) × Counts c (u -ℤ v)
difference a b u v p q =
    let m = max a.scale b.scale in
    let c : Decimal = record {
      units = a.units *ℤ pos (10 ^ (m - a.scale)) -ℤ b.units *ℤ pos (10 ^ (m - b.scale));
      scale = m;
    } in
    let s : ℕ = quantity_scale in
    let h : a.scale ≤ s = p.within in
    let k : b.scale ≤ s = q.within in
    (
      c,
      subtract_lem a b,
      record {
        within = omega arith;
        counts =
            units_at_wide c s (omega arith)
            ∙ -ℤ_*ℤ (a.units *ℤ pos (10 ^ (m - a.scale))) (b.units *ℤ pos (10 ^ (m - b.scale)))
                (10 ^ (s - m))
            ∙ ap {B = ℤ} (λ x. x -ℤ b.units *ℤ pos (10 ^ (m - b.scale)) *ℤ pos (10 ^ (s - m)))
                (widened a.units a.scale m s (omega arith) (omega arith)
                  ∙ sym (units_at_wide a s h)
                  ∙ p.counts)
            ∙ ap {B = ℤ} (λ x. u -ℤ x)
                (widened b.units b.scale m s (omega arith) (omega arith)
                  ∙ sym (units_at_wide b s k)
                  ∙ q.counts);
      },
    )

pub sum_text_lem :
    (ts : List Text) (d : Decimal)
    → sum_numeric ts ≡ ok d
    → sum_text ts ≡ ok (render d.units d.scale)
unfolding sum_text
sum_text_lem ts d h = rw h
