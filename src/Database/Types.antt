-- ===== src/Database/Types.antt =====
-- The records of apps/api/src/database/repositories/types.ts. A decimal column is the text that the
-- database returns; a date is its text, or the number of its moment.
pub mod Identity
pub mod Drafts
pub mod Requests
use erpn.Prelude.{Bool, ℕ, Option, List, Text}

pub record TenantRecord : Type 0 where
  pub id : Text
  pub slug : Text
  pub name : Text

pub record CompanyRecord : Type 0 where
  pub id : Text
  pub tenant_id : Text
  pub name : Text
  pub base_currency : Text
  pub standard_tax_rate_percent : Text

pub record ProductRecord : Type 0 where
  pub id : Text
  pub tenant_id : Text
  pub company_id : Text
  pub sku : Text
  pub name : Text
  pub type : Text
  pub stocking_uom : Text
  pub sales_price : Text
  pub sales_price_currency : Text
  pub status : Text
  pub version : ℕ

-- A customer or a warehouse: the columns that the operations here read.
pub record MasterDataRecord : Type 0 where
  pub id : Text
  pub tenant_id : Text
  pub company_id : Text
  pub status : Text

pub record SalesOrderRecord : Type 0 where
  pub id : Text
  pub tenant_id : Text
  pub company_id : Text
  pub doc_number : Option Text
  pub status : Text
  pub customer_id : Text
  pub warehouse_id : Text
  pub sales_rep_user_id : Option Text
  pub order_date : Text
  pub expected_delivery_date : Option Text
  pub currency : Text
  pub subtotal : Text
  pub tax_total : Text
  pub total : Text
  pub version : ℕ

pub record SalesOrderLineRecord : Type 0 where
  pub id : Text
  pub tenant_id : Text
  pub company_id : Text
  pub sales_order_id : Text
  pub line_number : ℕ
  pub product_id : Text
  pub product_sku : Text
  pub product_name : Text
  pub quantity : Text
  pub unit_price : Text
  pub discount_percent : Text
  pub tax_rate_percent : Text
  pub currency : Text
  pub line_subtotal : Text
  pub line_tax : Text
  pub line_total : Text
  pub delivered_quantity : Text
  pub invoiced_quantity : Text
  pub version : ℕ

pub record DocumentNumberSequenceRecord : Type 0 where
  pub id : Text
  pub tenant_id : Text
  pub company_id : Text
  pub doc_type : Text
  pub prefix : Text
  pub gapless : Bool
  pub next_value : ℕ
  pub version : ℕ

pub record AllocatedDocumentNumber : Type 0 where
  pub doc_type : Text
  pub value : ℕ
  pub formatted : Text

pub record SalesOrderTransition : Type 0 where
  pub id : Text
  pub expected_version : ℕ
  pub expected_status : Text
  pub status : Text
  pub doc_number : Option Text

pub record StockBalanceRecord : Type 0 where
  pub id : Text
  pub tenant_id : Text
  pub company_id : Text
  pub product_id : Text
  pub warehouse_id : Text
  pub on_hand : Text
  pub version : ℕ

pub record StockMovementRecord : Type 0 where
  pub id : Text
  pub tenant_id : Text
  pub company_id : Text
  pub product_id : Text
  pub warehouse_id : Text
  pub quantity : Text
  pub reason : Text
  pub source_doc_type : Text
  pub source_doc_id : Text
  pub occurred_at : ℕ

pub record RecordedMovement : Type 0 where
  pub movement : StockMovementRecord
  pub balance : StockBalanceRecord

pub record NewStockMovement : Type 0 where
  pub id : Text
  pub product_id : Text
  pub warehouse_id : Text
  pub quantity : Text
  pub reason : Text
  pub source_doc_type : Text
  pub source_doc_id : Text
  pub occurred_at : Option ℕ

pub record StockAvailability : Type 0 where
  pub product_id : Text
  pub warehouse_id : Text
  pub on_hand : Text
  pub reserved : Text
  pub available : Text
  pub locked : Bool

pub record StockReservationRecord : Type 0 where
  pub id : Text
  pub tenant_id : Text
  pub company_id : Text
  pub sales_order_line_id : Text
  pub product_id : Text
  pub warehouse_id : Text
  pub quantity : Text
  pub reserved_at : ℕ
  pub released_at : Option ℕ
  pub version : ℕ

pub record NewStockReservation : Type 0 where
  pub id : Text
  pub sales_order_line_id : Text
  pub product_id : Text
  pub warehouse_id : Text
  pub quantity : Text

pub record CustomerInvoiceRecord : Type 0 where
  pub id : Text
  pub tenant_id : Text
  pub company_id : Text
  pub doc_number : Option Text
  pub status : Text
  pub customer_id : Text
  pub invoice_date : Text
  pub due_date : Option Text
  pub currency : Text
  pub subtotal : Text
  pub tax_total : Text
  pub total : Text
  pub version : ℕ

pub record CustomerInvoiceLineRecord : Type 0 where
  pub id : Text
  pub tenant_id : Text
  pub company_id : Text
  pub customer_invoice_id : Text
  pub line_number : ℕ
  pub source_sales_order_id : Text
  pub source_sales_order_line_id : Text
  pub product_id : Text
  pub product_sku : Text
  pub product_name : Text
  pub quantity : Text
  pub unit_price : Text
  pub discount_percent : Text
  pub tax_rate_percent : Text
  pub currency : Text
  pub line_subtotal : Text
  pub line_tax : Text
  pub line_total : Text

pub record CompanyPostingAccountRecord : Type 0 where
  pub id : Text
  pub tenant_id : Text
  pub company_id : Text
  pub purpose : Text
  pub account_id : Text
  pub version : ℕ

pub record AccountRecord : Type 0 where
  pub id : Text
  pub tenant_id : Text
  pub company_id : Text
  pub code : Text
  pub name : Text
  pub type : Text
  pub status : Text
  pub version : ℕ

pub record NewAccount : Type 0 where
  pub id : Text
  pub code : Text
  pub name : Text
  pub type : Text

pub record NewCompanyPostingAccount : Type 0 where
  pub id : Text
  pub purpose : Text
  pub account_id : Text

pub record JournalEntryRecord : Type 0 where
  pub id : Text
  pub tenant_id : Text
  pub company_id : Text
  pub entry_date : Text
  pub memo : Text
  pub currency : Text
  pub source_doc_type : Option Text
  pub source_doc_id : Option Text

pub record JournalLineRecord : Type 0 where
  pub id : Text
  pub tenant_id : Text
  pub company_id : Text
  pub journal_entry_id : Text
  pub line_number : ℕ
  pub account_id : Text
  pub debit : Text
  pub credit : Text
  pub currency : Text

-- An account with its debit, or an account with its credit: never both.
pub data NewJournalLine : Type 0 where
  debit_of credit_of : Text → Text → NewJournalLine

pub record NewJournalEntry : Type 0 where
  pub id : Text
  pub entry_date : Text
  pub memo : Text
  pub currency : Text
  pub source_doc_type : Option Text
  pub source_doc_id : Option Text
  pub lines : List NewJournalLine

pub record RecordedJournalEntry : Type 0 where
  pub entry : JournalEntryRecord
  pub lines : List JournalLineRecord

pub record RoleRecord : Type 0 where
  pub id : Text
  pub tenant_id : Text
  pub company_id : Text
  pub key : Text
  pub name : Text

pub record MembershipRecord : Type 0 where
  pub id : Text
  pub tenant_id : Text
  pub company_id : Text
  pub user_id : Text
  pub status : Text
  pub version : ℕ

-- A role held by a membership, and a permission that a role carries.
pub record MembershipRoleRecord : Type 0 where
  pub membership_id : Text
  pub role_id : Text
  pub tenant_id : Text
  pub company_id : Text

pub record RolePermissionRecord : Type 0 where
  pub role_id : Text
  pub tenant_id : Text
  pub company_id : Text
  pub permission : Text

-- An audit event. Its changes are the members of the JSON object, each with its path and its text.
pub record AuditEventRecord : Type 0 where
  pub tenant_id : Option Text
  pub company_id : Option Text
  pub actor_user_id : Option Text
  pub actor_roles : List Text
  pub request_id : Option Text
  pub action : Text
  pub entity_type : Text
  pub entity_id : Option Text
  pub summary : Text
  pub changes : List (Text × Text)
  pub ip_address : Option Text
  pub user_agent : Option Text
