-- ===== src/Database/Ledger.antt =====
-- `record` of apps/api/src/database/repositories/inventory.repository.ts: a stock movement, and the
-- balance that it moves.
use erpn.Database.Numeric.{numeric_column, numeric_of, numeric_plus}
use erpn.Database.Inventory.{is_balance}
use erpn.Database.Transaction.{
  Session, Tx, CompanyScope, lift, query, random_uuid, require_company_scope, write, pure,
  unless_absent, refuse_unless, select_first, update_where, returning_first, ◌>>=◌, ◌>>◌,
}
use erpn.Database.Types.{
  NewStockMovement, RecordedMovement, StockBalanceRecord, StockMovementRecord,
}
use erpn.Database.MovementChecks.{check_references, check_movement, check_key, fits_column}
use erpn.Failure.{numeric_overflow, unreachable}
use erpn.Prelude.{
  none, ◌==◌, [], ◌&&◌, some, ◌∷◌, codes, Option, List, ◌+◌, text_eq, Bool, ◌++◌, Text, ℕ,
}

-- The unique key of `stock_balances`, which names no tenant.
abbrev pub is_balance_key : CompanyScope → Text → Text → StockBalanceRecord → Bool
is_balance_key c product warehouse row =
    text_eq row.company_id c.company_id
    && (text_eq row.product_id product && text_eq row.warehouse_id warehouse)

-- A balance of zero, as the column gives it back.
abbrev pub new_balance : CompanyScope → Text → Text → Text → StockBalanceRecord
new_balance c id product warehouse = record {
  id = id;
  tenant_id = c.tenant_id;
  company_id = c.company_id;
  product_id = product;
  warehouse_id = warehouse;
  on_hand = codes "0.000000";
  version = 1;
}

-- `INSERT … ON CONFLICT DO NOTHING`
unfoldable pub ensure_balance :
    CompanyScope → Text → Text → Text → List StockBalanceRecord → List StockBalanceRecord
ensure_balance c id product warehouse rows =
    elim (select_first (is_balance_key c product warehouse) rows) [
      | none ↦ rows ++ (new_balance c id product warehouse ∷ [])
      | some row ↦ rows
    ]

-- `input.occurredAt`, or the default of the column
abbrev occurred_or : ℕ → Option ℕ → ℕ
occurred_or now none = now
occurred_or now (some moment) = moment

abbrev pub movement_row : CompanyScope → ℕ → NewStockMovement → Text → StockMovementRecord
movement_row c now input quantity = record {
  id = input.id;
  tenant_id = c.tenant_id;
  company_id = c.company_id;
  product_id = input.product_id;
  warehouse_id = input.warehouse_id;
  quantity = quantity;
  reason = input.reason;
  source_doc_type = input.source_doc_type;
  source_doc_id = input.source_doc_id;
  occurred_at = occurred_or now input.occurred_at;
}

abbrev pub is_locked_balance : StockBalanceRecord → StockBalanceRecord → Bool
is_locked_balance before row = text_eq row.id before.id && row.version == before.version

abbrev pub moved_by : Text → StockBalanceRecord → StockBalanceRecord
moved_by quantity row = record row {
  on_hand = numeric_plus row.on_hand (numeric_of quantity);
  version = row.version + 1;
}

-- The constraints of the tables stand at the insert or the update that they may refuse. The row that the
-- update finds is the locked one, so the range is that of its new balance.
unfoldable pub record_movement : Session → NewStockMovement → Tx RecordedMovement
record_movement session input = do
  c ← lift (require_company_scope session.scope "Stock")
  id ← random_uuid session
  references ← query (check_references c input.product_id input.warehouse_id)
  lift references
  write (λ s. record s {
    stock_balances = ensure_balance c id input.product_id input.warehouse_id s.stock_balances;
  })
  locked ←
      query (λ s. select_first (is_balance c input.product_id input.warehouse_id) s.stock_balances)
  before ← unless_absent locked (unreachable "stock balance vanished")
  quantity ← lift (numeric_column input.quantity)
  lift (check_movement input quantity)
  key ← query (check_key input.id)
  lift key
  let movement : StockMovementRecord = movement_row c session.now input quantity
  write (λ s. record s { stock_movements = s.stock_movements ++ (movement ∷ []) })
  refuse_unless (fits_column (moved_by input.quantity before).on_hand) numeric_overflow
  updated ←
      query
        (λ s. returning_first (is_locked_balance before) (moved_by input.quantity) s.stock_balances)
  write (λ s. record s {
    stock_balances =
        update_where (is_locked_balance before) (moved_by input.quantity) s.stock_balances;
  })
  balance ← unless_absent updated (unreachable "stock balance changed under a lock")
  pure (record { movement = movement; balance = balance })
