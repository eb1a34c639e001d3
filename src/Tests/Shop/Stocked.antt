-- ===== src/Tests/Shop/Stocked.antt =====
-- Movements of the stock of erpn.Tests.Shop.
use erpn.Tests.Shop.{session, shop, tables}
use erpn.Inventory.Ledger.{record_movements, Balanced, ledger_units, on_hand_text}
use erpn.Inventory.Ledger.Recorded.{record_movements-Balanced}
use erpn.Database.Types.{NewStockMovement, RecordedMovement}
use erpn.Database.Transaction.{
  ◌>>=◌, some_row, lift, query, write, pure, random_uuid, unless_absent, Store,
  require_company_scope, tenant_id_of, company_id_of, select_first,
}
use erpn.Prelude.{◌+◌, ◌<◌, text_eq, arith, map, refl, ◌∷◌, [], none, codes, List, ◌≡◌, Text}
use erpn.Database.Numeric.{to_numeric, numeric_of, numeric_column}
use erpn.Decimal.{
  read_digits, span_digits, match_fraction, match_digits, pad_start, exec_pattern, emit_digits,
  to_string, parse_decimal, render, to_fixed, round,
}
use erpn.Inventory.Ledger.Accepted.{IsMovementOf, AllFresh, moved_mag}
use erpn.Database.MovementChecks.{
  check_references, check_movement, is_zero, fits_column, is_doc_type, all_word_codes, column_limit,
}
use erpn.Database.Ledger.{record_movement, ensure_balance}
use erpn.Database.Access.{text_member}
use erpn.Failure.{constraint_violated}
use erpn.Decimal.Round.{units_at}
use erpn.Result.{ok, err}
use erpn.Prelude.Int.{negsuc, pos, mag, ◌*ℤ◌}

acting_on_stock : require_company_scope session.scope "Stock" ≡ ok shop
unfolding require_company_scope tenant_id_of company_id_of
acting_on_stock = refl

-- A warehouse without any stock yet.
abbrev no_stock : Store
no_stock = record (tables (codes "draft")) { stock_balances = [] }

abbrev movement : Text → Text → Text → NewStockMovement
movement id quantity reason = record {
  id = id;
  product_id = codes "p";
  warehouse_id = codes "w";
  quantity = quantity;
  reason = reason;
  source_doc_type = codes "import_run";
  source_doc_id = codes "1";
  occurred_at = none;
}

abbrev arrives_then_leaves : List NewStockMovement
arrives_then_leaves =
    movement (codes "v1") (codes "12.5") (codes "adjustment")
    ∷ movement (codes "v2") (codes "-4") (codes "sales_delivery")
    ∷ []

nothing_moved : Balanced shop (codes "p") (codes "w") no_stock
unfolding on_hand_text ledger_units select_first render to_string emit_digits pad_start
nothing_moved = record { balanced = refl; one_tenant = λ row h. absurd (cc h) }

arrives :
    IsMovementOf (codes "p") (codes "w") (movement (codes "v1") (codes "12.5") (codes "adjustment"))
unfolding to_numeric parse_decimal exec_pattern match_digits match_fraction span_digits read_digits
    units_at ◌*ℤ◌ text_member text_eq is_doc_type all_word_codes
arrives = record {
  of_product = refl;
  of_warehouse = refl;
  amount = record { units = pos 125; scale = 1 };
  reads = refl;
  within = omega arith;
  moves = omega arith;
  reason_known = refl;
  document_known = refl;
}

leaves :
    IsMovementOf
      (codes "p")
      (codes "w")
      (movement (codes "v2") (codes "-4") (codes "sales_delivery"))
unfolding to_numeric parse_decimal exec_pattern match_digits match_fraction span_digits read_digits
    units_at ◌*ℤ◌ text_member text_eq is_doc_type all_word_codes
leaves = record {
  of_product = refl;
  of_warehouse = refl;
  amount = record { units = negsuc 3; scale = 0 };
  reads = refl;
  within = omega arith;
  moves = omega arith;
  reason_known = refl;
  document_known = refl;
}

all_new : AllFresh arrives_then_leaves []
unfolding AllFresh some_row text_eq
all_new = (refl, (refl, tt), (refl, tt, tt))

all_there : check_references shop (codes "p") (codes "w") no_stock ≡ ok tt
unfolding check_references some_row text_eq
all_there = refl

-- What the ledger says, which is nothing yet, and all that is moved.
little_moved :
    mag (ledger_units shop (codes "p") (codes "w") no_stock.stock_movements)
      + moved_mag arrives_then_leaves
    < column_limit
unfolding ledger_units moved_mag numeric_of to_numeric parse_decimal exec_pattern match_digits
    match_fraction span_digits read_digits units_at ◌*ℤ◌
little_moved = omega arith

-- A movement of nothing, also of what the column rounds to nothing.
nothing_to_move :
    record_movement session (movement (codes "v") (codes "0.0000001") (codes "adjustment")) no_stock
    ≡ err (constraint_violated "stock_movements_quantity_check")
unfolding record_movement ◌>>=◌ lift query write pure random_uuid unless_absent check_references
    check_movement is_zero fits_column some_row ensure_balance select_first numeric_column
    numeric_of to_numeric parse_decimal exec_pattern match_digits match_fraction span_digits
    read_digits to_fixed round render to_string emit_digits pad_start text_eq ◌*ℤ◌
    require_company_scope tenant_id_of company_id_of erpn.Decimal.round_down_to
nothing_to_move = refl

record_movements-Balanced_example :
    (rs : List RecordedMovement) × (t : Store) × (record_movements session arrives_then_leaves
        no_stock
      ≡ ok (rs, t))
    × Balanced shop (codes "p") (codes "w") t
    × (t.stock_movements ≡ map (λ (r : RecordedMovement). r.movement) rs)
    × (map (λ (r : RecordedMovement). r.movement.id) rs ≡ codes "v1" ∷ codes "v2" ∷ [])
record_movements-Balanced_example =
    record_movements-Balanced session shop acting_on_stock (codes "p") (codes "w")
      arrives_then_leaves no_stock (arrives, (leaves, tt)) all_new all_there little_moved
      nothing_moved
