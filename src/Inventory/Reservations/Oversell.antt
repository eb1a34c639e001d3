-- ===== src/Inventory/Reservations/Oversell.antt =====
-- Reservations (apps/api/src/inventory/reservations.ts) and the stock on hand.
use mathlib.Core.Path.{subst}
use erpn.Database.Transaction.{
  select_first, random_uuid, pure, write, lift, require_company_scope, Store, Session, select_where,
  CompanyScope, ◌>>=◌,
}
use erpn.Database.Frame.Inversion.{
  after, after_read, after_lift, after_found, after_guard, unchanged,
}
use erpn.Decimal.Order.{compare_ℤ-*ℤ}
use erpn.Decimal.{zero_at, to_fixed, parse_decimal, render, compare, compare_ℤ, Comparison, Decimal}
use erpn.Prelude.Int.{+ℤ_parts, -ℤ_parts, +ℤ_assoc, +ℤ_comm, ◌≤ℤ◌, ◌+ℤ◌, pos, ◌-ℤ◌, ◌*ℤ◌, ℤ}
use erpn.Prelude.{
  refl, text_eq_refl, none, ◌+◌, inr, inl, Bool-cases, arith, ℕ, [], ◌-◌, ◌∷◌, sym, ◌++◌, ap, true,
  ◌∙◌, ◌^◌, not, List, ◌≡◌, Text, ◌≤◌,
}
use erpn.Database.Inventory.{
  is_balance, on_hand_or_zero, availability_for_update, create_under_balance_lock, is_active_for,
  quantity_scale,
}
use erpn.Decimal.Round.{to_fixed_lem, ten_pos, units_at}
use erpn.Inventory.Reservations.Available.{quantities_total}
use erpn.Result.{err, rethrow_as, Result, ok}
use erpn.Database.Types.{
  StockBalanceRecord, StockAvailability, NewStockReservation, StockReservationRecord,
}
use erpn.Decimal.Order.{pow-add, *ℤ_assoc, compare_lem}
use erpn.Inventory.Reservations.{parse_quantity, reserve_for_order_line, is_less}
use erpn.Decimal.Scales.{
  units_of-render, units_of-parsed, parse_decimal-le, units_of, units_at_wide,
}
use erpn.Inventory.Reservations.Availability.{
  availability_for_update_lem, StockColumns, on_hand_units, reserved_units, held_quantities,
}
use erpn.Decimal.RoundTrip.{parse_decimal-render}
use erpn.Failure.{invalid_quantity, stock_reservation}
use erpn.Database.Sales.{find_sales_order, find_sales_order_line}
use erpn.Database.Frame.Reads.{
  availability_for_update-Keeps, find_sales_order-Keeps, find_sales_order_line-Keeps,
}
use erpn.Database.Frame.{random_uuid-Keeps}

-- Against an amount at the quantity scale, a decimal within the scale compares as its units do.
scaled_up :
    (q : Decimal)
    → q.scale ≤ quantity_scale
    → units_at q quantity_scale *ℤ pos (10 ^ q.scale) ≡ q.units *ℤ pos (10 ^ quantity_scale)
scaled_up q h =
    let whole : quantity_scale - q.scale + q.scale ≡ quantity_scale = omega arith in
    ap {B = ℤ} (λ u. u *ℤ pos (10 ^ q.scale)) (units_at_wide q quantity_scale h)
    ∙ *ℤ_assoc q.units (10 ^ (quantity_scale - q.scale)) (10 ^ q.scale)
    ∙ ap (λ n. q.units *ℤ pos n)
        (sym (pow-add (quantity_scale - q.scale) q.scale) ∙ ap (λ (n : ℕ). 10 ^ n) whole)

compare_units :
    (a : ℤ) (q : Decimal)
    → q.scale ≤ quantity_scale
    → compare (record { units = a; scale = quantity_scale }) q
      ≡ ok (compare_ℤ a (units_at q quantity_scale))
compare_units a q h =
    compare_lem (record { units = a; scale = quantity_scale }) q
    ∙ ap {B = Result Comparison} ok (
        ap (compare_ℤ (a *ℤ pos (10 ^ q.scale))) (sym (scaled_up q h))
        ∙ compare_ℤ-*ℤ a (units_at q quantity_scale) (10 ^ q.scale) (ten_pos q.scale))

within_difference :
    (h r q : ℤ) (x : Comparison) → x ≡ compare_ℤ (h -ℤ r) q → not (is_less x) ≡ true → r +ℤ q ≤ℤ h
within_difference h r q x e n = ground (arith, -ℤ_parts h r, +ℤ_parts r q)

module _ (c : CompanyScope) (product warehouse : Text) where
  -- A new active reservation of the key adds its quantity.
  reserved-insert :
      (rows : List StockReservationRecord) (row : StockReservationRecord)
      → is_active_for c product warehouse row ≡ true
      → quantities_total (held_quantities c product warehouse (rows ++ (row ∷ [])))
        ≡ quantities_total (held_quantities c product warehouse rows)
          +ℤ units_of quantity_scale row.quantity
  unfolding select_where quantities_total
  reserved-insert [] row h = rw h (+ℤ_comm (units_of quantity_scale row.quantity) (pos 0))
  reserved-insert (x ∷ rows) row h = elim (Bool-cases (is_active_for c product warehouse x)) [
    | inl active ↦ rw active (
        ap (λ u. units_of quantity_scale x.quantity +ℤ u) (reserved-insert rows row h)
        ∙ sym (
            +ℤ_assoc (units_of quantity_scale x.quantity)
              (quantities_total (held_quantities c product warehouse rows))
              (units_of quantity_scale row.quantity)))
    | inr other ↦ rw other (reserved-insert rows row h)
  ]

-- What a reservation that returns has done: it appended one active row for the product of the line, of
-- the quantity that was asked for, within what was available.
pub record Held (c : CompanyScope) (requested : Text) (s t : Store) (r : StockReservationRecord)
    : Type 0 where
  pub quantity_is : r.quantity ≡ render (units_of quantity_scale requested) quantity_scale
  pub active : is_active_for c r.product_id r.warehouse_id r ≡ true
  pub fits :
      reserved_units c r.product_id r.warehouse_id s +ℤ units_of quantity_scale requested
      ≤ℤ on_hand_units c r.product_id r.warehouse_id s
  pub appended : t.stock_reservations ≡ s.stock_reservations ++ (r ∷ [])
  pub same_balances : t.stock_balances ≡ s.stock_balances

-- The active reservations of the key come to no more than is on hand.
pub held-fits :
    (c : CompanyScope) (requested : Text) (s t : Store) (r : StockReservationRecord)
    → Held c requested s t r
    → reserved_units c r.product_id r.warehouse_id t
      ≤ℤ on_hand_units c r.product_id r.warehouse_id t
held-fits c requested s t r held =
    let quantity : units_of quantity_scale r.quantity ≡ units_of quantity_scale requested =
      ap (units_of quantity_scale) held.quantity_is
      ∙ units_of-render quantity_scale (units_of quantity_scale requested) in
    let reserved : reserved_units c r.product_id r.warehouse_id t
        ≡ reserved_units c r.product_id r.warehouse_id s +ℤ units_of quantity_scale requested =
      ap (λ rows. quantities_total (held_quantities c r.product_id r.warehouse_id rows))
        held.appended
      ∙ reserved-insert c r.product_id r.warehouse_id s.stock_reservations r held.active
      ∙ ap (λ u. reserved_units c r.product_id r.warehouse_id s +ℤ u) quantity in
    let on_hand : on_hand_units c r.product_id r.warehouse_id t
        ≡ on_hand_units c r.product_id r.warehouse_id s =
      ap
        (λ (rows : List StockBalanceRecord).
          units_of quantity_scale
            (on_hand_or_zero (select_first (is_balance c r.product_id r.warehouse_id) rows)))
        held.same_balances in
    subst (λ (u : ℤ). u ≤ℤ on_hand_units c r.product_id r.warehouse_id t) (sym reserved)
      (subst
        (λ (u : ℤ).
          reserved_units c r.product_id r.warehouse_id s +ℤ units_of quantity_scale requested ≤ℤ u)
        (sym on_hand) held.fits)

module _ (session : Session) (c : CompanyScope)
    (stock : require_company_scope session.scope "Stock" ≡ ok c)
    (reservations : require_company_scope session.scope "Stock reservations" ≡ ok c) where
  created :
      (input : NewStockReservation) (requested : Text) (s u t : Store) (r : StockReservationRecord)
      → u.stock_reservations ≡ s.stock_reservations
      → u.stock_balances ≡ s.stock_balances
      → input.quantity ≡ render (units_of quantity_scale requested) quantity_scale
      → reserved_units c input.product_id input.warehouse_id s +ℤ units_of quantity_scale requested
        ≤ℤ on_hand_units c input.product_id input.warehouse_id s
      → create_under_balance_lock session input u ≡ ok (r, t)
      → Held c requested s t r
  unfolding create_under_balance_lock ◌>>=◌ lift write pure
  created input requested s u t r same balances quantity fits h =
      let row : StockReservationRecord = record {
        id = input.id;
        tenant_id = c.tenant_id;
        company_id = c.company_id;
        sales_order_line_id = input.sales_order_line_id;
        product_id = input.product_id;
        warehouse_id = input.warehouse_id;
        quantity = input.quantity;
        reserved_at = session.now;
        released_at = none;
        version = 1;
      } in
      let run : create_under_balance_lock session input u
          ≡ ok (row, record u { stock_reservations = u.stock_reservations ++ (row ∷ []) }) =
        rw (reservations, lift) in
      let is_row : row ≡ r = cc (run, h) in
      let held : Held c requested s t row = record {
        quantity_is = quantity;
        active = rw (
          text_eq_refl c.tenant_id,
          text_eq_refl c.company_id,
          text_eq_refl input.product_id,
          text_eq_refl input.warehouse_id,
        );
        fits = fits;
        appended = cc (run, h, same);
        same_balances = cc (run, h, balances);
      } in
      subst (λ (x : StockReservationRecord). Held c requested s t x) is_row held

  -- The quantity that is asked for, as the checks read it.
  parsed_quantity :
      (requested : Text) (q : Decimal)
      → parse_quantity requested ≡ ok q
      → parse_decimal requested quantity_scale ≡ ok q
  unfolding parse_quantity
  parsed_quantity requested q h = by_parse (parse_decimal requested quantity_scale) h
    where
      by_parse :
          (x : Result Decimal)
          → rethrow_as x (stock_reservation invalid_quantity none) ≡ ok q
          → x ≡ ok q
      by_parse (ok d) h = h
      by_parse (err e) h = absurd (cc h)

  parse_available :
      (z : ℤ) (d : Decimal)
      → parse_quantity (render z quantity_scale) ≡ ok d
      → record { units = z; scale = quantity_scale } ≡ d
  parse_available z d h = cc (
    parse_decimal-render z quantity_scale quantity_scale (omega arith),
    parsed_quantity (render z quantity_scale) d h,
  )

  fitting :
      (requested : Text) (q available : Decimal) (x : Comparison) (h r : ℤ)
      → parse_decimal requested quantity_scale ≡ ok q
      → parse_quantity (render (h -ℤ r) quantity_scale) ≡ ok available
      → compare available q ≡ ok x
      → not (is_less x) ≡ true
      → r +ℤ units_of quantity_scale requested ≤ℤ h
  fitting requested q available x h r read there compared enough =
      let within : q.scale ≤ quantity_scale = parse_decimal-le requested quantity_scale q read in
      let exact : x ≡ compare_ℤ (h -ℤ r) (units_at q quantity_scale) =
        cc (compare_units (h -ℤ r) q within, compared, parse_available (h -ℤ r) available there) in
      rw (units_of-parsed quantity_scale requested q read)
        (within_difference h r (units_at q quantity_scale) x exact enough)

  available_fits :
      (product warehouse requested : Text) (s : Store) (av : StockAvailability)
      (q available : Decimal) (x : Comparison)
      → StockColumns s
      → parse_decimal requested quantity_scale ≡ ok q
      → availability_for_update session product warehouse s ≡ ok (av, s)
      → parse_quantity av.available ≡ ok available
      → compare available q ≡ ok x
      → not (is_less x) ≡ true
      → reserved_units c product warehouse s +ℤ units_of quantity_scale requested
        ≤ℤ on_hand_units c product warehouse s
  available_fits product warehouse requested s av q available x columns read reported is_available
        compared enough =
      let exact : av.available
          ≡ render (on_hand_units c product warehouse s -ℤ reserved_units c product warehouse s)
              quantity_scale =
        cc (availability_for_update_lem c product warehouse session s stock columns, reported) in
      fitting requested q available x (on_hand_units c product warehouse s)
        (reserved_units c product warehouse s) read (ap parse_quantity (sym exact) ∙ is_available)
        compared enough

  quantity_text :
      (requested t : Text) (q : Decimal)
      → parse_decimal requested quantity_scale ≡ ok q
      → to_fixed q quantity_scale ≡ ok t
      → t ≡ render (units_of quantity_scale requested) quantity_scale
  quantity_text requested t q read printed =
      let exact : t ≡ render (units_at q quantity_scale) quantity_scale =
        cc (to_fixed_lem q quantity_scale, printed) in
      exact
      ∙ ap (λ u. render u quantity_scale) (sym (units_of-parsed quantity_scale requested q read))

  -- A reservation that returns, in tables whose quantities stand as their columns print them, appends one
  -- active row of exactly what was asked for, which with what its product and warehouse had reserved
  -- before is within what is on hand, and leaves the balances as they were.
  pub reserve_for_order_line_lem :
      (line_id requested : Text) (s t : Store) (r : StockReservationRecord)
      → StockColumns s
      → reserve_for_order_line session line_id requested s ≡ ok (r, t)
      → Held c requested s t r
  unfolding reserve_for_order_line
  reserve_for_order_line_lem line_id requested s t r columns h =
      after_lift s t r (parse_quantity requested) _ h (λ q is_q h.
        after_lift s t r (compare q (zero_at 0)) _ h (λ sign e h.
          after_guard s t r _ _ _ h (λ positive h.
            after_read s t r (find_sales_order_line session line_id) _
              (find_sales_order_line-Keeps unchanged session line_id) h
              (λ found e1 h. after_found s t r found _ _ h (λ line is_line h.
                after_read s t r (find_sales_order session line.sales_order_id) _
                  (find_sales_order-Keeps unchanged session line.sales_order_id) h
                  (λ found' e2 h. after_found s t r found' _ _ h (λ order is_order h.
                    after_read s t r
                      (availability_for_update session line.product_id order.warehouse_id) _
                      (availability_for_update-Keeps unchanged session line.product_id
                        order.warehouse_id)
                      h
                      (λ av e3 h.
                        after_lift s t r (parse_quantity av.available) _ h
                          (λ available is_available h.
                            after_lift s t r (compare available q) _ h (λ x compared h.
                              after_lift s t r (to_fixed q quantity_scale) _ h (λ text printed h.
                                after_guard s t r _ _ _ h (λ enough h.
                                  after s t r (random_uuid session) _ h (λ id u e4 h.
                                    let read : parse_decimal requested quantity_scale ≡ ok q =
                                      parsed_quantity requested q is_q in
                                    created _ requested s u t r
                                      ((random_uuid-Keeps (λ (v : Store). v.stock_reservations)
                                          session (λ v n. refl)).kept
                                        s id u e4)
                                      ((random_uuid-Keeps (λ (v : Store). v.stock_balances) session
                                          (λ v n. refl)).kept
                                        s id u e4)
                                      (quantity_text requested text q read printed)
                                      (available_fits line.product_id order.warehouse_id requested s
                                        av q available x columns read e3 is_available compared
                                        enough)
                                      h)))))))))))))

  -- After a reservation that returns, in tables whose quantities stand as their columns print them, the
  -- active reservations of its product and warehouse come to no more than is on hand there.
  pub reserve_for_order_line-fits :
      (line_id requested : Text) (s t : Store) (r : StockReservationRecord)
      → StockColumns s
      → reserve_for_order_line session line_id requested s ≡ ok (r, t)
      → reserved_units c r.product_id r.warehouse_id t
        ≤ℤ on_hand_units c r.product_id r.warehouse_id t
  reserve_for_order_line-fits line_id requested s t r columns h =
      held-fits c requested s t r (reserve_for_order_line_lem line_id requested s t r columns h)
