-- ===== src/Inventory/Ledger/Accepted.antt =====
-- The movements that the tables of apps/api/migrations/0008_stock_ledger.sql take.
use erpn.Database.MovementChecks.{
  column_limit, fits_column, is_zero, movement_reasons, is_doc_type, check_movement, check_key,
  check_references, has_id,
}
use erpn.Database.Access.{text_member}
use erpn.Database.Numeric.{numeric_of, to_numeric, numeric_plus}
use erpn.Database.Inventory.{quantity_scale}
use erpn.Database.Transaction.{CompanyScope, Store, some_row}
use erpn.Database.Types.{NewStockMovement, StockMovementRecord}
use erpn.Database.Transaction.Rows.{some_row-append}
use erpn.Inventory.Ledger.OnHand.{numeric_plus_lem, numeric_of_lem}
use erpn.Inventory.Reservations.Available.{numeric_of-render}
use erpn.Decimal.{Decimal, render}
use erpn.Decimal.Round.{units_at}
use erpn.Prelude.{
  All, List, Text, ℕ, [], ◌∷◌, ◌++◌, ◌+◌, ◌<◌, ◌≤◌, ◌≡◌, arith, false, true, refl, text_eq, lt→ltb,
}
use erpn.Prelude.Int.{ℤ, mag, pos, negsuc, ◌+ℤ◌}
use erpn.Result.{ok}

-- A movement of the key, of a number of at most six places that is not zero, for a reason and from a kind
-- of document that the table knows.
pub record IsMovementOf (product warehouse : Text) (input : NewStockMovement) : Type 0 where
  pub of_product : input.product_id ≡ product
  pub of_warehouse : input.warehouse_id ≡ warehouse
  pub amount : Decimal
  pub reads : to_numeric input.quantity ≡ ok amount
  pub within : amount.scale ≤ quantity_scale
  pub moves : 0 < mag (units_at amount quantity_scale)
  pub reason_known : text_member input.reason movement_reasons ≡ true
  pub document_known : is_doc_type input.source_doc_type ≡ true

-- The identifiers are new, and not used twice.
unfoldable pub AllFresh : List NewStockMovement → List StockMovementRecord → Type 0
AllFresh [] rows = Unit {0}
AllFresh (input ∷ inputs) rows =
    (some_row (has_id input.id) rows ≡ false)
    × All (λ (later : NewStockMovement). text_eq input.id later.id ≡ false) inputs
    × AllFresh inputs rows

-- All that is moved, in or out.
unfoldable pub moved_mag : List NewStockMovement → ℕ
moved_mag [] = 0
moved_mag (input ∷ inputs) =
    mag (units_at (numeric_of input.quantity) quantity_scale) + moved_mag inputs

pub still_fresh :
    (inputs : List NewStockMovement) (rows : List StockMovementRecord) (row : StockMovementRecord)
    → All (λ (later : NewStockMovement). text_eq row.id later.id ≡ false) inputs
    → AllFresh inputs rows
    → AllFresh inputs (rows ++ (row ∷ []))
unfolding AllFresh
still_fresh [] rows row others fresh = tt
still_fresh (input ∷ inputs) rows row (other, others) (new, apart, fresh) = (
  ground (arith, some_row-append (has_id input.id) rows row, new, other),
  apart,
  still_fresh inputs rows row others fresh,
)

pub mag-add : (a b : ℤ) → mag (a +ℤ b) ≤ mag a + mag b
unfolding ◌+ℤ◌
mag-add (pos m) (pos n) = ground arith
mag-add (pos m) (negsuc n) = ground arith
mag-add (negsuc m) (pos n) = ground arith
mag-add (negsuc m) (negsuc n) = ground arith

fits-render : (u : ℤ) → mag u < column_limit → fits_column (render u quantity_scale) ≡ true
unfolding fits_column
fits-render u small = rw (numeric_of-render u) (lt→ltb (mag u) column_limit small)

not_zero : (u : ℤ) → 0 < mag u → is_zero (render u quantity_scale) ≡ false
unfolding is_zero
not_zero u moves = rw (numeric_of-render u) (ground (arith, moves))

pub check_movement_lem :
    (product warehouse : Text) (input : NewStockMovement)
    (accepted : IsMovementOf product warehouse input)
    → mag (units_at accepted.amount quantity_scale) < column_limit
    → check_movement input (render (units_at accepted.amount quantity_scale) quantity_scale) ≡ ok tt
unfolding check_movement
check_movement_lem product warehouse input accepted small =
    let u = units_at accepted.amount quantity_scale in
    rw
      (
        fits-render u small,
        not_zero u accepted.moves,
        accepted.reason_known,
        accepted.document_known,
      )
      refl

pub check_key_lem :
    (id : Text) (s : Store)
    → some_row (has_id id) s.stock_movements ≡ false
    → check_key id s ≡ ok tt
unfolding check_key
check_key_lem id s fresh = rw fresh refl

-- The new balance is within the range of its column.
pub moved_fits :
    (held t : Text) (before : ℤ) (q : Decimal)
    → held ≡ render before quantity_scale
    → to_numeric t ≡ ok q
    → q.scale ≤ quantity_scale
    → mag before + mag (units_at q quantity_scale) < column_limit
    → fits_column (numeric_plus held (numeric_of t)) ≡ true
moved_fits held t before q holds numeric within small =
    rw (holds, numeric_of_lem t q numeric, numeric_plus_lem before q within)
      (fits-render (before +ℤ units_at q quantity_scale)
        (omega (arith, mag-add before (units_at q quantity_scale))))

module _ (c : CompanyScope) (product warehouse : Text) where
  -- The rows that the keys name stay.
  pub references_kept :
      (s t : Store)
      → t.companies ≡ s.companies
      → t.products ≡ s.products
      → t.warehouses ≡ s.warehouses
      → check_references c product warehouse s ≡ ok tt
      → check_references c product warehouse t ≡ ok tt
  unfolding check_references
  references_kept s t companies products warehouses h = rw (companies, products, warehouses) h
