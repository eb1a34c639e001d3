-- ===== src/Database/MovementChecks.antt =====
-- What the table of stock movements refuses (apps/api/migrations/0008_stock_ledger.sql), in the order in
-- which the database looks: the range of a quantity column, the checks, the keys.
use erpn.Database.Numeric.{numeric_of}
use erpn.Database.Access.{text_member, is_master_data, is_product}
use erpn.Database.Transaction.{CompanyScope, Store, some_row}
use erpn.Database.Types.{CompanyRecord, NewStockMovement, StockMovementRecord}
use erpn.Failure.{constraint_violated, numeric_overflow}
use erpn.Prelude.{
  Bool, List, Text, ℕ, [], ◌∷◌, ◌&&◌, ◌||◌, ◌==◌, ◌^◌, not, true, false, leb, ltb, length, codes,
  text_eq,
}
use erpn.Prelude.Int.{mag}
use erpn.Result.{Result, ensure, ◌>>◌}

-- `numeric(19, 6)`, in units of its last place
abbrev pub column_limit : ℕ
column_limit = 10 ^ 19

-- Whether the column holds a number that has been rounded to its six places.
unfoldable pub fits_column : Text → Bool
fits_column quantity = ltb (mag (numeric_of quantity).units) column_limit

-- `quantity <> 0`
unfoldable pub is_zero : Text → Bool
is_zero quantity = mag (numeric_of quantity).units == 0

abbrev pub movement_reasons : List Text
movement_reasons =
    codes "purchase_receipt"
    ∷ codes "sales_delivery"
    ∷ codes "transfer_in"
    ∷ codes "transfer_out"
    ∷ codes "adjustment"
    ∷ codes "customer_return"
    ∷ codes "supplier_return"
    ∷ codes "scrap"
    ∷ []

abbrev is_lower_letter : ℕ → Bool
is_lower_letter a = leb 97 a && leb a 122

abbrev is_word_code : ℕ → Bool
is_word_code a = is_lower_letter a || ((leb 48 a && leb a 57) || a == 95)

unfoldable pub all_word_codes : Text → Bool
all_word_codes [] = true
all_word_codes (a ∷ t) = is_word_code a && all_word_codes t

-- `^[a-z][a-z0-9_]{1,62}$`
unfoldable pub is_doc_type : Text → Bool
is_doc_type [] = false
is_doc_type (a ∷ t) =
    is_lower_letter a && (all_word_codes t && (leb 1 (length t) && leb (length t) 62))

-- The row of a movement, but for its keys.
unfoldable pub check_movement : NewStockMovement → Text → Result (Unit {0})
check_movement input quantity = do
  ensure (fits_column quantity) numeric_overflow
  ensure (not (is_zero quantity)) (constraint_violated "stock_movements_quantity_check")
  ensure (text_member input.reason movement_reasons)
      (constraint_violated "stock_movements_reason_check")
  ensure (is_doc_type input.source_doc_type)
      (constraint_violated "stock_movements_source_doc_type_check")

abbrev pub has_id : Text → StockMovementRecord → Bool
has_id id row = text_eq row.id id

-- The primary key.
unfoldable pub check_key : Text → Store → Result (Unit {0})
check_key id s =
    ensure (not (some_row (has_id id) s.stock_movements))
      (constraint_violated "stock_movements_pkey")

abbrev pub is_company : CompanyScope → CompanyRecord → Bool
is_company c row = text_eq row.tenant_id c.tenant_id && text_eq row.id c.company_id

-- The foreign keys of the balance, which are those of the movement too.
unfoldable pub check_references : CompanyScope → Text → Text → Store → Result (Unit {0})
check_references c product warehouse s = do
  ensure (some_row (is_company c) s.companies) (constraint_violated "stock_balances_company_fkey")
  ensure (some_row (is_product c product) s.products)
      (constraint_violated "stock_balances_product_fkey")
  ensure (some_row (is_master_data c warehouse) s.warehouses)
      (constraint_violated "stock_balances_warehouse_fkey")
