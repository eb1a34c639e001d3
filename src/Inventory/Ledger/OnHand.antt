-- ===== src/Inventory/Ledger/OnHand.antt =====
-- The balance of `record` in apps/api/src/database/repositories/inventory.repository.ts against the
-- ledger.
use mathlib.Core.Path.{subst}
use erpn.Inventory.Ledger.{ledger_units, on_hand_text, is_movement}
use erpn.Inventory.Reservations.Available.{numeric_of-render}
use erpn.Database.Numeric.{numeric_plus, numeric_column, numeric_of, to_numeric}
use erpn.Database.Transaction.{update_where, Store, select_first, CompanyScope}
use erpn.Prelude.{
  ◌∙◌, ap, refl, text_eq_refl, ◌≤◌, none, Option-cases, inr, sym, inl, Bool-cases, [], ◌∷◌, arith,
  ◌++◌, some, true, ◌≡◌, List, Text,
}
use erpn.Database.Types.{StockMovementRecord, StockBalanceRecord}
use erpn.Database.Ledger.{moved_by, is_locked_balance, new_balance, is_balance_key, ensure_balance}
use erpn.Database.Inventory.{quantity_scale, is_balance}
use erpn.Prelude.Int.{ℤ, +ℤ_assoc, pos, +ℤ_comm, ◌+ℤ◌}
use erpn.Decimal.Scales.{units_of-render, add-IsSum, units_of}
use erpn.Decimal.{render, Decimal}
use erpn.Result.{ok}
use erpn.Database.Transaction.Rows.{
  select_first-changed, changed_if_found, select_first-narrow, select_first-append,
  select_first-none,
}
use erpn.Decimal.Round.{to_fixed_lem, units_at}
use erpn.Decimal.Sums.{units_at_same, add_lem}

module _ (c : CompanyScope) (product warehouse : Text) where
  -- A new movement of the key is added to the sum.
  pub ledger_units-append :
      (rows : List StockMovementRecord) (row : StockMovementRecord)
      → is_movement c product warehouse row ≡ true
      → ledger_units c product warehouse (rows ++ (row ∷ []))
        ≡ ledger_units c product warehouse rows +ℤ units_of quantity_scale row.quantity
  unfolding ledger_units
  ledger_units-append [] row h = rw h (+ℤ_comm (units_of quantity_scale row.quantity) (pos 0))
  ledger_units-append (x ∷ rows) row h = elim (Bool-cases (is_movement c product warehouse x)) [
    | inl e ↦ rw e (
        rw (ledger_units-append rows row h) (
          sym (
            +ℤ_assoc (units_of quantity_scale x.quantity) (ledger_units c product warehouse rows)
              (units_of quantity_scale row.quantity))))
    | inr e ↦ rw e (ledger_units-append rows row h)
  ]

  narrower :
      (row : StockBalanceRecord)
      → is_balance c product warehouse row ≡ true
      → is_balance_key c product warehouse row ≡ true
  narrower row h = ground arith

  -- After the insert there is a balance, of what there was or of zero.
  pub ensure_balance_lem :
      (id : Text) (rows : List StockBalanceRecord)
      → ((row : StockBalanceRecord)
          → select_first (is_balance_key c product warehouse) rows ≡ some row
          → is_balance c product warehouse row ≡ true)
      → (row : StockBalanceRecord) × (select_first
            (is_balance c product warehouse)
            (ensure_balance c id product warehouse rows)
          ≡ some row)
        × (row.on_hand ≡ on_hand_text c product warehouse rows)
        × (is_balance c product warehouse row ≡ true)
        × ((x : StockBalanceRecord)
            → select_first
                (is_balance_key c product warehouse)
                (ensure_balance c id product warehouse rows)
              ≡ some x
            → is_balance c product warehouse x ≡ true)
  unfolding ensure_balance on_hand_text
  ensure_balance_lem id rows one =
      elim (Option-cases (select_first (is_balance_key c product warehouse) rows)) [
        | inl e ↦
            let gone : select_first (is_balance c product warehouse) rows ≡ none =
              select_first-none (is_balance_key c product warehouse)
                (is_balance c product warehouse) rows narrower e in
            let row : StockBalanceRecord = new_balance c id product warehouse in
            let here : is_balance c product warehouse row ≡ true =
              rw
                (
                  text_eq_refl c.tenant_id,
                  text_eq_refl c.company_id,
                  text_eq_refl product,
                  text_eq_refl warehouse,
                )
                refl in
            (
              row,
              rw (e, ensure_balance)
                  (select_first-append (is_balance c product warehouse) rows row gone here),
              rw (gone, on_hand_text) refl,
              here,
              λ x h.
                  let last : select_first (is_balance_key c product warehouse) (rows ++ (row ∷ []))
                      ≡ some row =
                    select_first-append (is_balance_key c product warehouse) rows row e
                      (narrower row here) in
                  let same : row ≡ x = cc (last, rw (e, ensure_balance) at h) in
                  subst (λ (y : StockBalanceRecord). is_balance c product warehouse y ≡ true) same
                    here,
            )
        | inr (row, e) ↦
            let found : select_first (is_balance c product warehouse) rows ≡ some row =
              select_first-narrow (is_balance_key c product warehouse)
                (is_balance c product warehouse) rows row narrower (one row e) e in
            (
              row,
              rw (e, ensure_balance) found,
              rw (found, on_hand_text) refl,
              one row e,
              λ x h. one x (rw (e, ensure_balance) at h),
            )
      ]

-- What is added to a quantity column.
pub numeric_plus_lem :
    (h : ℤ) (q : Decimal)
    → q.scale ≤ quantity_scale
    → numeric_plus (render h quantity_scale) q
      ≡ render (h +ℤ units_at q quantity_scale) quantity_scale
unfolding numeric_plus
numeric_plus_lem h q within =
    let a : Decimal = record { units = h; scale = quantity_scale } in
    let sum = add-IsSum a q _ quantity_scale (omega arith) within (add_lem a q) in
    rw (numeric_of-render h, add_lem a q, numeric_plus, to_fixed_lem _ quantity_scale)
      (ap (λ (u : ℤ). render u quantity_scale)
        (sum.units_add
          ∙ ap {B = ℤ} (λ u. u +ℤ units_at q quantity_scale) (units_at_same h quantity_scale)))

pub numeric_column_lem :
    (t : Text) (q : Decimal)
    → to_numeric t ≡ ok q
    → numeric_column t ≡ ok (render (units_at q quantity_scale) quantity_scale)
unfolding numeric_column
numeric_column_lem t q h = rw (h, numeric_column) (to_fixed_lem q quantity_scale)

pub numeric_of_lem : (t : Text) (q : Decimal) → to_numeric t ≡ ok q → numeric_of t ≡ q
unfolding numeric_of
numeric_of_lem t q h = rw (h, numeric_of) refl

module _ (c : CompanyScope) (product warehouse t : Text) where
  -- The balance after a movement shows the sum with it.
  pub moved_on_hand :
      (q : Decimal) (s : Store) (rows : List StockBalanceRecord) (row : StockBalanceRecord)
      (m : StockMovementRecord)
      → to_numeric t ≡ ok q
      → q.scale ≤ quantity_scale
      → on_hand_text c product warehouse s.stock_balances
        ≡ render (ledger_units c product warehouse s.stock_movements) quantity_scale
      → select_first (is_balance c product warehouse) rows ≡ some (moved_by t row)
      → row.on_hand ≡ on_hand_text c product warehouse s.stock_balances
      → is_movement c product warehouse m ≡ true
      → m.quantity ≡ render (units_at q quantity_scale) quantity_scale
      → on_hand_text c product warehouse rows
        ≡ render (ledger_units c product warehouse (s.stock_movements ++ (m ∷ []))) quantity_scale
  unfolding on_hand_text
  moved_on_hand q s rows row m numeric within before changed holds here text =
      rw (changed, on_hand_text, numeric_of_lem t q numeric, holds, before)
        (numeric_plus_lem (ledger_units c product warehouse s.stock_movements) q within
          ∙ ap (λ (u : ℤ). render u quantity_scale)
              (sym (
                ledger_units-append c product warehouse s.stock_movements m here
                ∙ ap {B = ℤ} (λ u. ledger_units c product warehouse s.stock_movements +ℤ u)
                    (ap (units_of quantity_scale) text
                      ∙ units_of-render quantity_scale (units_at q quantity_scale)))))

  one_changed :
      (before : StockBalanceRecord) (rows : List StockBalanceRecord)
      → ((x : StockBalanceRecord)
          → select_first (is_balance_key c product warehouse) rows ≡ some x
          → is_balance c product warehouse x ≡ true)
      → (x : StockBalanceRecord)
      → changed_if_found
          (is_locked_balance before)
          (moved_by t)
          (select_first (is_balance_key c product warehouse) rows)
        ≡ some x
      → is_balance c product warehouse x ≡ true
  one_changed before rows one x h =
      elim (Option-cases (select_first (is_balance_key c product warehouse) rows)) [
        | inl e ↦ absurd (cc (rw e at h))
        | inr (row, e) ↦ elim (Bool-cases (is_locked_balance before row)) [
          | inl y ↦
              let same : moved_by t row ≡ x = cc (rw (e, y) at h) in
              subst (λ (z : StockBalanceRecord). is_balance c product warehouse z ≡ true) same
                (one row e)
          | inr n ↦
              let same : row ≡ x = cc (rw (e, n) at h) in
              subst (λ (z : StockBalanceRecord). is_balance c product warehouse z ≡ true) same
                (one row e)
        ]
      ]

  -- The rows keep their keys.
  pub one_after :
      (before : StockBalanceRecord) (rows : List StockBalanceRecord)
      → ((x : StockBalanceRecord)
          → select_first (is_balance_key c product warehouse) rows ≡ some x
          → is_balance c product warehouse x ≡ true)
      → (x : StockBalanceRecord)
      → select_first
          (is_balance_key c product warehouse)
          (update_where (is_locked_balance before) (moved_by t) rows)
        ≡ some x
      → is_balance c product warehouse x ≡ true
  one_after before rows one x h = one_changed before rows one x (
      sym (
        select_first-changed (is_balance_key c product warehouse) (is_locked_balance before)
          (moved_by t) (λ y. refl) rows)
      ∙ h)
