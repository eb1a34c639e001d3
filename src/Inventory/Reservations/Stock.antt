-- ===== src/Inventory/Reservations/Stock.antt =====
-- The stock of a company and its reservations (apps/api/src/inventory/reservations.ts).
use mathlib.Core.Path.{subst}
use erpn.Database.Transaction.{select_first, Store, CompanyScope, select_where}
use erpn.Prelude.{
  All-append, sym, All, inr, [], ◌∷◌, arith, ◌∙◌, ◌++◌, text_eq→eq, ap, inl, false, ◌≡◌, Bool-cases,
  List, Text,
}
use erpn.Database.Types.{StockBalanceRecord, StockReservationRecord}
use erpn.Inventory.Reservations.Availability.{
  held_quantities, on_hand_units, StockColumns, reserved_units,
}
use erpn.Database.Inventory.{is_balance, on_hand_or_zero, quantity_scale, is_active_for}
use erpn.Prelude.Int.{ℤ, ◌≤ℤ◌}
use erpn.Inventory.Reservations.Oversell.{held-fits, Held}
use erpn.Inventory.Reservations.Available.{IsQuantity, quantities_total}
use erpn.Decimal.Scales.{units_of}

-- In every warehouse the active reservations of a product come to no more than is on hand.
abbrev pub NotOversold : CompanyScope → Store → Type 0
NotOversold c s =
    (product warehouse : Text)
    → reserved_units c product warehouse s ≤ℤ on_hand_units c product warehouse s

-- A new row of another key.
reserved-other :
    (c : CompanyScope) (product warehouse : Text) (rows : List StockReservationRecord)
    (row : StockReservationRecord)
    → is_active_for c product warehouse row ≡ false
    → held_quantities c product warehouse (rows ++ (row ∷ []))
      ≡ held_quantities c product warehouse rows
unfolding select_where
reserved-other c product warehouse [] row h = rw h
reserved-other c product warehouse (x ∷ rows) row h =
    elim (Bool-cases (is_active_for c product warehouse x)) [
      | inl active ↦
          rw active (ap (λ ts. x.quantity ∷ ts) (reserved-other c product warehouse rows row h))
      | inr other ↦ rw other (reserved-other c product warehouse rows row h)
    ]

module _ (c : CompanyScope) (requested : Text) (s t : Store) (r : StockReservationRecord)
    (held : Held c requested s t r) where
  pub held-StockColumns : StockColumns s → StockColumns t
  held-StockColumns columns = record {
    balances =
        subst (All (λ (row : StockBalanceRecord). IsQuantity row.on_hand)) (sym held.same_balances)
          columns.balances;
    reservations =
        subst (All (λ (row : StockReservationRecord). IsQuantity row.quantity)) (sym held.appended)
          (All-append _ s.stock_reservations (r ∷ []) columns.reservations
            ((_, held.quantity_is), tt));
  }

  on_hand_kept :
      (product warehouse : Text)
      → on_hand_units c product warehouse t ≡ on_hand_units c product warehouse s
  on_hand_kept product warehouse =
      ap
        (λ (rows : List StockBalanceRecord).
          units_of quantity_scale
            (on_hand_or_zero (select_first (is_balance c product warehouse) rows)))
        held.same_balances

  other_key :
      (product warehouse : Text)
      → is_active_for c product warehouse r ≡ false
      → reserved_units c product warehouse s ≤ℤ on_hand_units c product warehouse s
      → reserved_units c product warehouse t ≤ℤ on_hand_units c product warehouse t
  other_key product warehouse other h =
      let reserved : reserved_units c product warehouse t ≡ reserved_units c product warehouse s =
        ap (λ rows. quantities_total (held_quantities c product warehouse rows)) held.appended
        ∙ ap quantities_total (reserved-other c product warehouse s.stock_reservations r other) in
      subst (λ (u : ℤ). u ≤ℤ on_hand_units c product warehouse t) (sym reserved)
        (subst (λ (u : ℤ). reserved_units c product warehouse s ≤ℤ u)
          (sym (on_hand_kept product warehouse)) h)

  pub held-NotOversold : NotOversold c s → NotOversold c t
  held-NotOversold h product warehouse = elim (Bool-cases (is_active_for c product warehouse r)) [
    | inl active ↦
        let of_product : r.product_id ≡ product =
          text_eq→eq r.product_id product (ground (arith, active)) in
        let of_warehouse : r.warehouse_id ≡ warehouse =
          text_eq→eq r.warehouse_id warehouse (ground (arith, active)) in
        subst (λ (p : Text). reserved_units c p warehouse t ≤ℤ on_hand_units c p warehouse t)
          of_product
          (subst
            (λ (w : Text). reserved_units c r.product_id w t ≤ℤ on_hand_units c r.product_id w t)
            of_warehouse (held-fits c requested s t r held))
    | inr other ↦ other_key product warehouse other (h product warehouse)
  ]
