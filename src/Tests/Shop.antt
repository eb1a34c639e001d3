-- ===== src/Tests/Shop.antt =====
-- A company with one draft order, for the runs of the operations.
use erpn.Database.Transaction.{
  company_id_of, tenant_id_of, require_company_scope, Store, actor, CompanyScope, Session,
}
use erpn.Authorization.{CompanyContext}
use erpn.Prelude.{refl, ◌≡◌, String, [], none, ◌++◌, true, ◌∷◌, codes, Text}
use erpn.Database.Types.{
  StockBalanceRecord, RolePermissionRecord, MasterDataRecord, ProductRecord, MembershipRecord,
  DocumentNumberSequenceRecord, SalesOrderRecord, CompanyPostingAccountRecord,
  CustomerInvoiceRecord, SalesOrderLineRecord, CustomerInvoiceLineRecord,
}
use erpn.Decimal.{to_string}
use erpn.Result.{err, ok, Result}
mod Confirmed
mod Cancelled
mod Posted
mod Numbered
mod Reserved
mod Stocked
mod Charted
mod Drafted
mod Assigned
mod Expired

abbrev pub shop : CompanyScope
shop = record { tenant_id = codes "t"; company_id = codes "c" }

abbrev pub session : Session
session = record {
  scope = actor (codes "t") (codes "c") (codes "u");
  now = 7;
  uuid = λ n. codes "id" ++ to_string n;
}

abbrev pub context : CompanyContext
context = record { membership_id = codes "m"; company_id = codes "c"; request_id = none }

abbrev active : Text → MasterDataRecord
active id = record {
  id = id;
  tenant_id = codes "t";
  company_id = codes "c";
  status = codes "active";
}

abbrev member : Text → Text → MembershipRecord
member id user_id = record {
  id = id;
  tenant_id = codes "t";
  company_id = codes "c";
  user_id = user_id;
  status = codes "active";
  version = 1;
}

abbrev pen : ProductRecord
pen = record {
  id = codes "p";
  tenant_id = codes "t";
  company_id = codes "c";
  sku = codes "P";
  name = codes "Pen";
  type = codes "stockable";
  stocking_uom = codes "each";
  sales_price = codes "2.000000";
  sales_price_currency = codes "EUR";
  status = codes "active";
  version = 1;
}

abbrev line : SalesOrderLineRecord
line = record {
  id = codes "l";
  tenant_id = codes "t";
  company_id = codes "c";
  sales_order_id = codes "o";
  line_number = 1;
  product_id = codes "p";
  product_sku = codes "P";
  product_name = codes "Pen";
  quantity = codes "3.000000";
  unit_price = codes "2.0000";
  discount_percent = codes "0.000000";
  tax_rate_percent = codes "15.000000";
  currency = codes "EUR";
  line_subtotal = codes "6.0000";
  line_tax = codes "0.9000";
  line_total = codes "6.9000";
  delivered_quantity = codes "0.000000";
  invoiced_quantity = codes "0.000000";
  version = 1;
}

abbrev pub order : Text → Text → SalesOrderRecord
order company status = record {
  id = codes "o";
  tenant_id = codes "t";
  company_id = company;
  doc_number = none;
  status = status;
  customer_id = codes "k";
  warehouse_id = codes "w";
  sales_rep_user_id = none;
  order_date = codes "2026-01-02";
  expected_delivery_date = none;
  currency = codes "EUR";
  subtotal = codes "6.0000";
  tax_total = codes "0.9000";
  total = codes "6.9000";
  version = 1;
}

abbrev sequence : Text → Text → DocumentNumberSequenceRecord
sequence doc_type prefix = record {
  id = doc_type;
  tenant_id = codes "t";
  company_id = codes "c";
  doc_type = doc_type;
  prefix = prefix;
  gapless = true;
  next_value = 41;
  version = 1;
}

abbrev permission : Text → RolePermissionRecord
permission p = record {
  role_id = codes "r";
  tenant_id = codes "t";
  company_id = codes "c";
  permission = p;
}

abbrev pub invoice : CustomerInvoiceRecord
invoice = record {
  id = codes "i";
  tenant_id = codes "t";
  company_id = codes "c";
  doc_number = none;
  status = codes "draft";
  customer_id = codes "k";
  invoice_date = codes "2026-01-03";
  due_date = none;
  currency = codes "EUR";
  subtotal = codes "4.0000";
  tax_total = codes "0.6000";
  total = codes "4.6000";
  version = 1;
}

abbrev invoice_line : CustomerInvoiceLineRecord
invoice_line = record {
  id = codes "il";
  tenant_id = codes "t";
  company_id = codes "c";
  customer_invoice_id = codes "i";
  line_number = 1;
  source_sales_order_id = codes "o";
  source_sales_order_line_id = codes "l";
  product_id = codes "p";
  product_sku = codes "P";
  product_name = codes "Pen";
  quantity = codes "2.000000";
  unit_price = codes "2.0000";
  discount_percent = codes "0.000000";
  tax_rate_percent = codes "15.000000";
  currency = codes "EUR";
  line_subtotal = codes "4.0000";
  line_tax = codes "0.6000";
  line_total = codes "4.6000";
}

abbrev account : Text → Text → CompanyPostingAccountRecord
account purpose id = record {
  id = id;
  tenant_id = codes "t";
  company_id = codes "c";
  purpose = purpose;
  account_id = id;
  version = 1;
}

abbrev pub balance : StockBalanceRecord
balance = record {
  id = codes "b";
  tenant_id = codes "t";
  company_id = codes "c";
  product_id = codes "p";
  warehouse_id = codes "w";
  on_hand = codes "5.000000";
  version = 1;
}

-- The tables, with the order in a state. Another company has an order of the same identifier.
abbrev pub tables : Text → Store
tables status = record {
  companies =
      record {
        id = codes "c";
        tenant_id = codes "t";
        name = codes "Company";
        base_currency = codes "EUR";
        standard_tax_rate_percent = codes "15.000000";
      }
      ∷ [];
  customers = active (codes "k") ∷ [];
  warehouses = active (codes "w") ∷ [];
  products = pen ∷ [];
  sales_orders = order (codes "d") (codes "draft") ∷ order (codes "c") status ∷ [];
  sales_order_lines = line ∷ [];
  document_number_sequences =
      sequence (codes "sales_order") (codes "SO-")
      ∷ sequence (codes "customer_invoice") (codes "INV-")
      ∷ [];
  stock_balances = balance ∷ [];
  stock_movements = [];
  stock_reservations = [];
  customer_invoices = invoice ∷ [];
  customer_invoice_lines = invoice_line ∷ [];
  posting_accounts =
      account (codes "accounts_receivable") (codes "1100")
      ∷ account (codes "sales_revenue") (codes "4000")
      ∷ account (codes "tax_payable") (codes "2200")
      ∷ [];
  journal_entries = [];
  journal_lines = [];
  roles =
      record {
        id = codes "r";
        tenant_id = codes "t";
        company_id = codes "c";
        key = codes "manager";
        name = codes "Manager";
      }
      ∷ [];
  membership_roles =
      record {
        membership_id = codes "m";
        role_id = codes "r";
        tenant_id = codes "t";
        company_id = codes "c";
      }
      ∷ [];
  role_permissions =
      permission (codes "sales:confirm")
      ∷ permission (codes "sales:cancel")
      ∷ permission (codes "invoices:post")
      ∷ [];
  audit_events = [];
  accounts = [];
  idempotency_records = [];
  users = [];
  sessions = [];
  auth_throttle = [];
  tenants = record { id = codes "t"; slug = codes "tenant"; name = codes "Tenant" } ∷ [];
  memberships = member (codes "m") (codes "u") ∷ member (codes "n") (codes "v") ∷ [];
  drawn = 0;
}

-- The result and the tables of a run, or others where it throws.
abbrev pub outcome : {A : Type 0} → A × Store → Result (A × Store) → A × Store
outcome other (ok run) = run
outcome other (err e) = other

pub acting : require_company_scope session.scope "Sales documents" ≡ ok shop
unfolding require_company_scope tenant_id_of company_id_of
acting = refl
