-- ===== src/Inventory/Ledger.antt =====
-- The stock ledger and its balance (`record` of
-- apps/api/src/database/repositories/inventory.repository.ts), in units of the quantity scale.
pub mod OnHand
pub mod Accepted
pub mod Recorded
use erpn.Database.Inventory.{quantity_scale, on_hand_or_zero, is_balance}
use erpn.Database.Ledger.{record_movement, is_balance_key}
use erpn.Database.Types.{
  NewStockMovement, RecordedMovement, StockBalanceRecord, StockMovementRecord,
}
use erpn.Database.Transaction.{lift, Store, Tx, Session, CompanyScope, select_first, pure, ◌>>=◌}
use erpn.Decimal.Scales.{units_of}
use erpn.Prelude.Int.{ℤ, pos, ◌+ℤ◌}
use erpn.Prelude.{
  none, true, ◌&&◌, some, [], text_eq, if◌then◌else◌, codes, ◌∷◌, Bool, ◌≡◌, Option, Text, List,
}
use erpn.Decimal.{render}

-- Movements one after another.
unfoldable pub record_movements : Session → List NewStockMovement → Tx (List RecordedMovement)
record_movements session [] = pure []
record_movements session (input ∷ inputs) = do
  first ← record_movement session input
  rest ← record_movements session inputs
  pure (first ∷ rest)

module _ (c : CompanyScope) (product warehouse : Text) where
  abbrev pub is_movement : StockMovementRecord → Bool
  is_movement row =
      text_eq row.tenant_id c.tenant_id
      && (text_eq row.company_id c.company_id
          && (text_eq row.product_id product && text_eq row.warehouse_id warehouse))

  -- The sum of the movements.
  unfoldable pub ledger_units : List StockMovementRecord → ℤ
  ledger_units [] = pos 0
  ledger_units (row ∷ rows) =
      let rest = ledger_units rows in
      if is_movement row then units_of quantity_scale row.quantity +ℤ rest else rest

  abbrev pub on_hand_of : Option StockBalanceRecord → Text
  on_hand_of none = codes "0.000000"
  on_hand_of (some row) = row.on_hand

  unfoldable pub on_hand_text : List StockBalanceRecord → Text
  on_hand_text rows = on_hand_of (select_first (is_balance c product warehouse) rows)

  -- The balance is what the ledger adds up to.
  pub record Balanced (s : Store) : Type 0 where
    pub balanced :
        on_hand_text s.stock_balances ≡ render (ledger_units s.stock_movements) quantity_scale
    -- a company belongs to one tenant
    pub one_tenant :
        (row : StockBalanceRecord)
        → select_first (is_balance_key c product warehouse) s.stock_balances ≡ some row
        → is_balance c product warehouse row ≡ true
