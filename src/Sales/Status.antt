-- ===== src/Sales/Status.antt =====
-- apps/api/src/sales/sales-order-status.ts: the transition table of a sales order.
pub mod Reachable
use erpn.Statuses.{SalesOrderStatus}
use erpn.Statuses.SalesOrderStatus.{
  draft, confirmed, partially_delivered, delivered, invoiced, cancelled,
}
use erpn.Failure.{unknown_status, illegal_sales_order_transition}
use erpn.Result.{err, or_throw, ensure, Result}
use erpn.Prelude.{
  some, ◌||◌, none, Option, false, [], ◌∷◌, if◌then◌else◌, codes, List, Bool, Text, text_eq,
}

-- The text that the status column stores.
unfoldable pub status_text : SalesOrderStatus → Text
status_text draft = codes "draft"
status_text confirmed = codes "confirmed"
status_text partially_delivered = codes "partially_delivered"
status_text delivered = codes "delivered"
status_text invoiced = codes "invoiced"
status_text cancelled = codes "cancelled"

abbrev pub statuses : List SalesOrderStatus
statuses = draft ∷ confirmed ∷ partially_delivered ∷ delivered ∷ invoiced ∷ cancelled ∷ []

unfoldable pub transitions : SalesOrderStatus → List SalesOrderStatus
transitions draft = confirmed ∷ cancelled ∷ []
transitions confirmed = cancelled ∷ []
transitions partially_delivered = []
transitions delivered = []
transitions invoiced = []
transitions cancelled = []

-- `list.includes(to)`, comparing the texts of the states
unfoldable pub includes : List SalesOrderStatus → Text → Bool
unfolding status_text text_eq
includes [] to = false
includes (s ∷ rest) to = text_eq (status_text s) to || includes rest to

unfoldable pub is_sales_order_status : Text → Bool
unfolding includes
is_sales_order_status value = includes statuses value

unfoldable pub can_transition : SalesOrderStatus → SalesOrderStatus → Bool
unfolding transitions includes
can_transition from to = includes (transitions from) (status_text to)

unfoldable pub assert_transition : SalesOrderStatus → SalesOrderStatus → Result (Unit {0})
assert_transition from to = ensure (can_transition from to) (illegal_sales_order_transition from to)

-- The state that a stored text names: what the cast of `statusOf` stands for.
unfoldable pub named_by : List SalesOrderStatus → Text → Option SalesOrderStatus
named_by [] value = none
named_by (s ∷ rest) value = if text_eq (status_text s) value then some s else named_by rest value

unfoldable pub status_of : Text → Result SalesOrderStatus
status_of value =
    if is_sales_order_status value
    then or_throw (named_by statuses value) (unknown_status value)
    else err (unknown_status value)
