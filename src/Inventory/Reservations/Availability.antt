-- ===== src/Inventory/Reservations/Availability.antt =====
-- What `availabilityForUpdate` of apps/api/src/database/repositories/inventory.repository.ts reports on
-- tables that hold quantities.
use erpn.Database.Transaction.{◌>>=◌, lift, query, pure}
use erpn.Inventory.Reservations.Available.{
  IsQuantity, quantities_total, Counts, sum_numeric_lem, sum_text_lem, parse_printed, difference,
}
use erpn.Prelude.{
  is_some, inr, inl, Bool-cases, map, Option, sym, ◌∙◌, ap, refl, [], arith, ◌∷◌, ◌≡◌, All, Text,
  List,
}
use erpn.Decimal.{
  read_digits, span_digits, match_fraction, match_digits, exec_pattern, max_scale, parse_decimal,
  subtract, render, Decimal,
}
use erpn.Database.Numeric.{sum_text}
use erpn.Prelude.Int.{◌-ℤ◌, ℤ}
use erpn.Database.Inventory.{
  is_active_for, is_balance, on_hand_or_zero, availability_for_update, quantity_scale,
}
use erpn.Decimal.Round.{to_fixed_lem, units_at}
use erpn.Result.{Result, ok}
use erpn.Decimal.RoundTrip.{parse_decimal-render}
use erpn.Decimal.Scales.{units_of-parsed, parse_decimal-le, units_of}
use erpn.Database.Transaction.{
  require_company_scope, Session, pure, query, lift, select_first, select_where, CompanyScope,
  Store,
}
use erpn.Database.Types.{StockAvailability, StockReservationRecord, StockBalanceRecord}

-- The tables hold quantities as their columns give them back.
pub record StockColumns (s : Store) : Type 0 where
  pub balances : All (λ (row : StockBalanceRecord). IsQuantity row.on_hand) s.stock_balances
  pub reservations :
      All (λ (row : StockReservationRecord). IsQuantity row.quantity) s.stock_reservations

module _ (c : CompanyScope) (product warehouse : Text) where
  abbrev pub balance_of : Store → Option StockBalanceRecord
  balance_of s = select_first (is_balance c product warehouse) s.stock_balances

  abbrev pub held_quantities : List StockReservationRecord → List Text
  held_quantities rows =
      map (λ (r : StockReservationRecord). r.quantity)
        (select_where (is_active_for c product warehouse) rows)

  -- What is on hand of a product in a warehouse, and what its active reservations hold.
  abbrev pub on_hand_units : Store → ℤ
  on_hand_units s = units_of quantity_scale (on_hand_or_zero (balance_of s))

  abbrev pub reserved_units : Store → ℤ
  reserved_units s = quantities_total (held_quantities s.stock_reservations)

  held_quantities-IsQuantity :
      (rows : List StockReservationRecord)
      → All (λ (row : StockReservationRecord). IsQuantity row.quantity) rows
      → All IsQuantity (held_quantities rows)
  unfolding select_where
  held_quantities-IsQuantity [] h = tt
  held_quantities-IsQuantity (row ∷ rows) (q, h) =
      elim (Bool-cases (is_active_for c product warehouse row)) [
        | inl active ↦ rw active (q, held_quantities-IsQuantity rows h)
        | inr other ↦ rw other (held_quantities-IsQuantity rows h)
      ]

  read_on_hand :
      (rows : List StockBalanceRecord)
      → All (λ (row : StockBalanceRecord). IsQuantity row.on_hand) rows
      → (d : Decimal) × (parse_decimal
            (on_hand_or_zero (select_first (is_balance c product warehouse) rows))
            max_scale
          ≡ ok d)
  unfolding select_first parse_decimal exec_pattern match_digits match_fraction span_digits
      read_digits
  read_on_hand [] h = (_, refl)
  read_on_hand (row ∷ rows) ((z, is_z), h) =
      elim (Bool-cases (is_balance c product warehouse row)) [
        | inl found ↦ rw found (
          _,
          ap (λ t. parse_decimal t max_scale) is_z
              ∙ parse_decimal-render z quantity_scale max_scale (omega arith),
        )
        | inr other ↦ rw other (read_on_hand rows h)
      ]

  available_from :
      (session : Session) (s : Store) (on_hand total available : Decimal)
      → require_company_scope session.scope "Stock" ≡ ok c
      → parse_decimal (on_hand_or_zero (balance_of s)) max_scale ≡ ok on_hand
      → sum_text (held_quantities s.stock_reservations) ≡ ok (render total.units total.scale)
      → parse_decimal (render total.units total.scale) max_scale ≡ ok total
      → subtract on_hand total ≡ ok available
      → availability_for_update session product warehouse s
        ≡ ok (
          record {
            product_id = product;
            warehouse_id = warehouse;
            on_hand = render (units_at on_hand quantity_scale) quantity_scale;
            reserved = render (units_at total quantity_scale) quantity_scale;
            available = render (units_at available quantity_scale) quantity_scale;
            locked = is_some (balance_of s);
          },
          s,
        )
  unfolding availability_for_update ◌>>=◌ lift query pure
  available_from session s on_hand total available acting e e' e'' d = rw (
    acting,
    lift,
    e,
    lift,
    e',
    lift,
    e'',
    lift,
    to_fixed_lem on_hand quantity_scale,
    lift,
    to_fixed_lem total quantity_scale,
    lift,
    d,
    lift,
    to_fixed_lem available quantity_scale,
    lift,
  )

  pub availability_for_update_lem :
      (session : Session) (s : Store)
      → require_company_scope session.scope "Stock" ≡ ok c
      → StockColumns s
      → availability_for_update session product warehouse s
        ≡ ok (
          record {
            product_id = product;
            warehouse_id = warehouse;
            on_hand = render (on_hand_units s) quantity_scale;
            reserved = render (reserved_units s) quantity_scale;
            available = render (on_hand_units s -ℤ reserved_units s) quantity_scale;
            locked = is_some (balance_of s);
          },
          s,
        )
  availability_for_update_lem session s acting columns =
      let (on_hand, e) = read_on_hand s.stock_balances columns.balances in
      let (total, e', counted) =
        sum_numeric_lem (held_quantities s.stock_reservations)
          (held_quantities-IsQuantity s.stock_reservations columns.reservations) in
      let read : Counts on_hand (on_hand_units s) = record {
        within = parse_decimal-le _ max_scale on_hand e;
        counts = sym (units_of-parsed quantity_scale _ on_hand e);
      } in
      let (available, e'', rest) =
        difference on_hand total (on_hand_units s) (reserved_units s) read counted in
      available_from session s on_hand total available acting e (sum_text_lem _ total e')
        (parse_printed total counted.within) e''
      ∙ ap {B = Result (StockAvailability × Store)}
          (λ (u : ℤ × ℤ × ℤ). ok (
            record {
              product_id = product;
              warehouse_id = warehouse;
              on_hand = render (u.0) quantity_scale;
              reserved = render (u.1) quantity_scale;
              available = render (u.2) quantity_scale;
              locked = is_some (balance_of s);
            },
            s,
          ))
          (cc (read.counts, counted.counts, rest.counts))
