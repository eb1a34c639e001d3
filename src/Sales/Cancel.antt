-- ===== src/Sales/Cancel.antt =====
-- `cancelSalesOrder` of apps/api/src/sales/cancel-sales-order.ts.
pub mod Isolation
use erpn.Sales.Status.{status_of, assert_transition}
use erpn.Statuses.SalesOrderStatus.{cancelled}
use erpn.Prelude.{
  ◌++◌, none, length, ◌==◌, ltb, ◌||◌, is_nil, some, ◌&&◌, [], leb, if◌then◌else◌, Bool, codes,
  List, ◌∷◌, Text, Option, ℕ,
}
use erpn.Database.Types.{SalesOrderRecord, StockReservationRecord}
use erpn.Failure.{
  forbidden, not_found, invalid_reason, sales_order_cancellation, Failure, CancellationRefusal,
}
use erpn.Database.Transaction.{refuse_unless, unless_absent, ◌>>◌, lift, ◌>>=◌, pure, Tx, Session}
use erpn.Inventory.LockOrder.{in_lock_order, BalanceKey}
use erpn.Result.{err, ok, Result}
use erpn.Decimal.{to_fixed, zero_at, add, parse_decimal, to_string, Decimal}
use erpn.Authorization.{grants_in, role_keys, Grants, CompanyContext}
use erpn.Database.Access.{text_member, append_audit}
use erpn.Database.Inventory.{
  list_active_for_order, quantity_scale, release_under_balance_lock, availability_for_update,
}
use erpn.Database.Sales.{apply_sales_order_transition, find_sales_order}

abbrev refusal : CancellationRefusal → Failure
refusal reason = sales_order_cancellation reason

pub record CancelledSalesOrder : Type 0 where
  pub order : SalesOrderRecord
  pub released_reservation_ids : List Text
  pub released_quantity : Text

abbrev pub required_permission : Text
required_permission = codes "sales:cancel"

abbrev pub max_reason_length : ℕ
max_reason_length = 500

-- The characters that `trim` takes off: white space and line ends of the language.
unfoldable pub is_space : ℕ → Bool
is_space c =
    (leb 9 c && leb c 13)
    || (c == 32
        || (c == 160
            || (c == 5760
                || ((leb 8192 c && leb c 8202)
                    || (c == 8232
                        || (c == 8233
                            || (c == 8239 || (c == 8287 || (c == 12288 || c == 65279)))))))))

unfoldable pub trim_start : Text → Text
trim_start [] = []
trim_start (c ∷ s) = let rest = trim_start s in if is_space c then rest else c ∷ s

unfoldable pub trim_end : Text → Text
trim_end [] = []
trim_end (c ∷ s) = let rest = trim_end s in if is_space c && is_nil rest then [] else c ∷ rest

unfoldable pub trim : Text → Text
trim s = trim_end (trim_start s)

unfoldable pub trimmed_reason : Option Text → Result (Option Text)
trimmed_reason none = ok none
trimmed_reason (some text) =
    if ltb max_reason_length (length (trim text))
    then err (refusal invalid_reason)
    else ok (some (trim text))

unfoldable pub authorize : Session → CompanyContext → Tx Grants
authorize session context = do
  grants ← grants_in session context.membership_id
  refuse_unless (text_member required_permission grants.permissions) (refusal forbidden)
  pure grants

unfoldable pub reservation_key : StockReservationRecord → BalanceKey
reservation_key held = record { product_id = held.product_id; warehouse_id = held.warehouse_id }

-- Step 4: each release, under the lock of its balance, with the sum so far.
unfoldable pub release_all :
    Session → Decimal → List StockReservationRecord → Tx (List Text × Decimal)
release_all session released_quantity [] = pure ([], released_quantity)
release_all session released_quantity (reservation ∷ held) = do
  locked ← availability_for_update session reservation.product_id reservation.warehouse_id
  released ← release_under_balance_lock session reservation.id reservation.version
  quantity ← lift (parse_decimal released.quantity quantity_scale)
  sum ← lift (add released_quantity quantity)
  (ids, total) ← release_all session sum held
  pure (released.id ∷ ids, total)

-- A document number that is absent or empty names nothing.
unfoldable pub summary_for : SalesOrderRecord → Text
summary_for order = elim order.doc_number [
  | none ↦ codes "Cancelled a draft sales order"
  | some number ↦
      if is_nil number
      then codes "Cancelled a draft sales order"
      else codes "Cancelled sales order " ++ number
]

unfoldable pub reason_change : Option Text → List (Text × Text)
reason_change none = []
reason_change (some reason) = if is_nil reason then [] else (codes "reason", reason) ∷ []

unfoldable pub audit_cancellation :
    Session
    → CompanyContext
    → Grants
    → SalesOrderRecord
    → SalesOrderRecord
    → List Text
    → Text
    → Option Text
    → Tx (Unit {0})
audit_cancellation session context grants order cancelled_order ids released_quantity reason =
    append_audit session (record {
      actor_roles = role_keys grants;
      request_id = context.request_id;
      action = codes "sales_order_cancelled";
      entity_type = codes "sales_order";
      entity_id = some order.id;
      ip_address = none;
      user_agent = none;
      summary = summary_for cancelled_order;
      changes =
          ((codes "status.from", order.status)
            ∷ (codes "status.to", codes "cancelled")
            ∷ (codes "releasedReservations", to_string (length ids))
            ∷ (codes "releasedQuantity", released_quantity)
            ∷ [])
          ++ reason_change reason;
    })

unfoldable pub cancel_sales_order :
    Session → CompanyContext → Text → Option Text → Tx CancelledSalesOrder
cancel_sales_order session context sales_order_id given_reason = do
  reason ← lift (trimmed_reason given_reason)
  found ← find_sales_order session sales_order_id
  order ← unless_absent found (refusal not_found)
  from ← lift (status_of order.status)
  lift (assert_transition from cancelled)
  grants ← authorize session context
  active ← list_active_for_order session order.id
  (ids, total) ← release_all session (zero_at quantity_scale) (in_lock_order reservation_key active)
  cancelled_order ← apply_sales_order_transition session (record {
    id = order.id;
    expected_version = order.version;
    expected_status = order.status;
    status = codes "cancelled";
    doc_number = order.doc_number;
  })
  released_quantity ← lift (to_fixed total quantity_scale)
  audit_cancellation session context grants order cancelled_order ids released_quantity reason
  pure (record {
    order = cancelled_order;
    released_reservation_ids = ids;
    released_quantity = released_quantity;
  })
