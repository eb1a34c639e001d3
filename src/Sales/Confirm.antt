-- ===== src/Sales/Confirm.antt =====
-- `confirmSalesOrder` of apps/api/src/sales/confirm-sales-order.ts.
pub mod Isolation
pub mod Outcome
pub mod Stock
use erpn.Sales.Status.{status_of, assert_transition}
use erpn.Statuses.SalesOrderStatus.{confirmed}
use erpn.Prelude.{none, is_nil, not, length, [], ◌++◌, some, ◌∷◌, codes, List, Text}
use erpn.Failure.{
  no_lines, forbidden, not_found, master_data_unusable, sales_order_confirmation, Failure,
  ConfirmationRefusal,
}
use erpn.Database.Transaction.{lift, refuse_unless, unless_absent, ◌>>◌, ◌>>=◌, pure, Tx, Session}
use erpn.Database.Types.{SalesOrderLineRecord, SalesOrderRecord}
use erpn.Authorization.{role_keys, grants_in, Grants, CompanyContext}
use erpn.Inventory.LockOrder.{in_lock_order, BalanceKey}
use erpn.Database.Access.{
  is_active_product, is_active, find_warehouse, text_member, find_product, append_audit,
  find_customer,
}
use erpn.Database.Sales.{list_lines_for_order, apply_sales_order_transition, find_sales_order}
use erpn.Inventory.Reservations.{reserve_for_order_line}
use erpn.Sales.Sequences.{allocate_sales_order_number}
use erpn.Decimal.{to_string}

abbrev refusal : ConfirmationRefusal → Failure
refusal reason = sales_order_confirmation reason

pub record ConfirmedSalesOrder : Type 0 where
  pub order : SalesOrderRecord
  pub reservation_ids : List Text

abbrev pub required_permission : Text
required_permission = codes "sales:confirm"

-- Step 1: the order as it stands, with its lines.
unfoldable pub validate_state : Session → Text → Tx (SalesOrderRecord × List SalesOrderLineRecord)
validate_state session sales_order_id = do
  found ← find_sales_order session sales_order_id
  order ← unless_absent found (refusal not_found)
  from ← lift (status_of order.status)
  lift (assert_transition from confirmed)
  lines ← list_lines_for_order session order.id
  refuse_unless (not (is_nil lines)) (refusal no_lines)
  pure (order, lines)

-- The loop over the lines' products.
unfoldable pub validate_products : Session → List SalesOrderLineRecord → Tx (Unit {0})
validate_products session [] = pure tt
validate_products session (line ∷ lines) = do
  product ← find_product session line.product_id
  refuse_unless (is_active_product product) (refusal master_data_unusable)
  validate_products session lines

-- Still step 1: the records that the order names are in use.
unfoldable pub validate_master_data :
    Session → SalesOrderRecord → List SalesOrderLineRecord → Tx (Unit {0})
validate_master_data session order lines = do
  customer ← find_customer session order.customer_id
  refuse_unless (is_active customer) (refusal master_data_unusable)
  warehouse ← find_warehouse session order.warehouse_id
  refuse_unless (is_active warehouse) (refusal master_data_unusable)
  validate_products session lines

-- Step 2
unfoldable pub authorize : Session → CompanyContext → Tx Grants
authorize session context = do
  grants ← grants_in session context.membership_id
  refuse_unless (text_member required_permission grants.permissions) (refusal forbidden)
  pure grants

-- `{ ...line, warehouseId: order.warehouseId }` is a line whose key has the order's warehouse.
unfoldable pub line_key : SalesOrderRecord → SalesOrderLineRecord → BalanceKey
line_key order line = record { product_id = line.product_id; warehouse_id = order.warehouse_id }

-- Step 3: one reservation for each line.
unfoldable pub reserve_lines : Session → List SalesOrderLineRecord → Tx (List Text)
reserve_lines session [] = pure []
reserve_lines session (line ∷ lines) = do
  reservation ← reserve_for_order_line session line.id line.quantity
  rest ← reserve_lines session lines
  pure (reservation.id ∷ rest)

-- Step 5: the record of the change.
unfoldable pub audit_confirmation :
    Session → CompanyContext → Grants → SalesOrderRecord → Text → List Text → Tx (Unit {0})
audit_confirmation session context grants order formatted reservation_ids =
    append_audit session (record {
      actor_roles = role_keys grants;
      request_id = context.request_id;
      action = codes "sales_order_confirmed";
      entity_type = codes "sales_order";
      entity_id = some order.id;
      ip_address = none;
      user_agent = none;
      summary = codes "Confirmed sales order " ++ formatted;
      changes =
          (codes "status.from", order.status)
          ∷ (codes "status.to", codes "confirmed")
          ∷ (codes "docNumber", formatted)
          ∷ (codes "reservations", to_string (length reservation_ids))
          ∷ [];
    })

unfoldable pub confirm_sales_order : Session → CompanyContext → Text → Tx ConfirmedSalesOrder
confirm_sales_order session context sales_order_id = do
  (order, lines) ← validate_state session sales_order_id
  validate_master_data session order lines
  grants ← authorize session context
  reservation_ids ← reserve_lines session (in_lock_order (line_key order) lines)
  allocated ← allocate_sales_order_number session
  confirmed_order ← apply_sales_order_transition session (record {
    id = order.id;
    expected_version = order.version;
    expected_status = order.status;
    status = codes "confirmed";
    doc_number = some allocated.formatted;
  })
  audit_confirmation session context grants order allocated.formatted reservation_ids
  pure (record { order = confirmed_order; reservation_ids = reservation_ids })
