-- ===== src/Inventory/LockOrder.antt =====
-- apps/api/src/inventory/lock-order.ts: the order in which contended rows are locked.
pub mod Deadlock
use erpn.Prelude.{not, ℕ, Text, text_eq, text_lt, Bool, true, false, List, ◌≡◌, if◌then◌else◌}
use erpn.Prelude.Sort.{sort_by}

pub record BalanceKey : Type 0 where
  pub product_id : Text
  pub warehouse_id : Text

-- The answers of a comparator: negative, zero and positive.
pub data Answer : Type 0 where
  minus_one zero_answer one : Answer

abbrev pub is_negative_answer : Answer → Bool
is_negative_answer minus_one = true
is_negative_answer zero_answer = false
is_negative_answer one = false

unfoldable pub by_balance_key : BalanceKey → BalanceKey → Answer
by_balance_key a b =
    if not (text_eq a.product_id b.product_id)
    then (if text_lt a.product_id b.product_id then minus_one else one)
    else if not (text_eq a.warehouse_id b.warehouse_id)
    then (if text_lt a.warehouse_id b.warehouse_id then minus_one else one)
    else zero_answer

-- `T extends BalanceKey` is a type whose items have a key.
module _ {ℓ} {T : Type ℓ} (key : T → BalanceKey) where
  abbrev pub locked_before : T → T → Bool
  locked_before a b = is_negative_answer (by_balance_key (key a) (key b))

  unfoldable pub in_lock_order : List T → List T
  in_lock_order items = sort_by locked_before items

unfoldable pub by_sales_order_line_id : Text → Text → Answer
by_sales_order_line_id a b =
    if text_eq a b then zero_answer else if text_lt a b then minus_one else one

module _ {ℓ} {T : Type ℓ} (id : T → Text) where
  abbrev pub line_locked_before : T → T → Bool
  line_locked_before a b = is_negative_answer (by_sales_order_line_id (id a) (id b))

  unfoldable pub in_sales_order_line_lock_order : List T → List T
  in_sales_order_line_lock_order items = sort_by line_locked_before items
