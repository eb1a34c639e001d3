-- ===== src/Database/Frame/Reads.antt =====
-- The statements that only read keep every view of the tables.
use erpn.Database.Transaction.{Session, Store}
use erpn.Database.Sales.{
  find_for_doc_type, list_lines_for_order, find_sales_order, find_sales_order_line,
}
use erpn.Database.Billing.{find_invoice, list_lines_for_invoice}
use erpn.Database.Access.{
  list_for_membership, list_permissions_for_membership, find_company, find_customer, find_product,
  find_warehouse,
}
use erpn.Database.Inventory.{availability_for_update, list_active_for_order}
use erpn.Database.Accounting.{find_for_purpose}
use erpn.Authorization.{grants_in}
use erpn.Prelude.{Text}
use erpn.Database.Frame.{keeps, Keeps}

module _ {X : Type 0} (view : Store → X) (session : Session) where
  pub find_sales_order-Keeps : (id : Text) → Keeps view (find_sales_order session id)
  unfolding find_sales_order
  find_sales_order-Keeps id = search keeps

  pub find_sales_order_line-Keeps : (id : Text) → Keeps view (find_sales_order_line session id)
  unfolding find_sales_order_line
  find_sales_order_line-Keeps id = search keeps

  pub list_lines_for_order-Keeps : (id : Text) → Keeps view (list_lines_for_order session id)
  unfolding list_lines_for_order
  list_lines_for_order-Keeps id = search keeps

  pub find_for_doc_type-Keeps : (id : Text) → Keeps view (find_for_doc_type session id)
  unfolding find_for_doc_type
  find_for_doc_type-Keeps id = search keeps

  pub availability_for_update-Keeps :
      (product warehouse : Text) → Keeps view (availability_for_update session product warehouse)
  unfolding availability_for_update
  availability_for_update-Keeps product warehouse = search keeps depth 20

  pub list_active_for_order-Keeps : (id : Text) → Keeps view (list_active_for_order session id)
  unfolding list_active_for_order
  list_active_for_order-Keeps id = search keeps

  pub find_invoice-Keeps : (id : Text) → Keeps view (find_invoice session id)
  unfolding find_invoice
  find_invoice-Keeps id = search keeps

  pub list_lines_for_invoice-Keeps : (id : Text) → Keeps view (list_lines_for_invoice session id)
  unfolding list_lines_for_invoice
  list_lines_for_invoice-Keeps id = search keeps

  pub find_for_purpose-Keeps : (purpose : Text) → Keeps view (find_for_purpose session purpose)
  unfolding find_for_purpose
  find_for_purpose-Keeps purpose = search keeps

  pub find_customer-Keeps : (id : Text) → Keeps view (find_customer session id)
  unfolding find_customer
  find_customer-Keeps id = search keeps

  pub find_warehouse-Keeps : (id : Text) → Keeps view (find_warehouse session id)
  unfolding find_warehouse
  find_warehouse-Keeps id = search keeps

  pub find_product-Keeps : (id : Text) → Keeps view (find_product session id)
  unfolding find_product
  find_product-Keeps id = search keeps

  pub find_company-Keeps : (id : Text) → Keeps view (find_company session id)
  unfolding find_company
  find_company-Keeps id = search keeps

  pub list_for_membership-Keeps : (id : Text) → Keeps view (list_for_membership session id)
  unfolding list_for_membership
  list_for_membership-Keeps id = search keeps

  pub list_permissions_for_membership-Keeps :
      (id : Text) → Keeps view (list_permissions_for_membership session id)
  unfolding list_permissions_for_membership
  list_permissions_for_membership-Keeps id = search keeps

  pub grants_in-Keeps : (id : Text) → Keeps view (grants_in session id)
  unfolding grants_in
  grants_in-Keeps id =
      search (keeps, list_for_membership-Keeps, list_permissions_for_membership-Keeps)

pub ruleset reads = (
  find_sales_order-Keeps, find_sales_order_line-Keeps, list_lines_for_order-Keeps,
  find_for_doc_type-Keeps, availability_for_update-Keeps, list_active_for_order-Keeps,
  find_invoice-Keeps, list_lines_for_invoice-Keeps, find_for_purpose-Keeps, find_customer-Keeps,
  find_warehouse-Keeps, find_product-Keeps, find_company-Keeps, list_for_membership-Keeps,
  list_permissions_for_membership-Keeps, grants_in-Keeps,
)
