-- ===== src/Database/Transaction.antt =====
-- A unit of work (apps/api/src/database/unit-of-work.ts, scope.ts, repositories/company-scope.ts): the
-- tables, the scope that a repository is opened under, and the SQL statements that it sends.
pub mod Rows
use erpn.Result.{Result, ok, err}
use erpn.Failure.{Failure, company_scope_missing}
use erpn.Database.Types.{
  CompanyRecord, MasterDataRecord, SalesOrderRecord, SalesOrderLineRecord,
  DocumentNumberSequenceRecord, StockBalanceRecord, StockMovementRecord, StockReservationRecord,
  CustomerInvoiceRecord, CustomerInvoiceLineRecord, CompanyPostingAccountRecord, JournalEntryRecord,
  JournalLineRecord, RoleRecord, MembershipRoleRecord, RolePermissionRecord, AuditEventRecord,
  AccountRecord, ProductRecord, MembershipRecord, TenantRecord,
}
use erpn.Database.Types.Identity.{UserRow, SessionRow, ThrottleRow}
use erpn.Database.Types.Requests.{IdempotencyRecord}
use erpn.Prelude.{
  ◌||◌, false, is_nil, [], some, ◌∷◌, none, if◌then◌else◌, suc, Text, Bool, List, Option, String, ℕ,
}

-- apps/api/src/database/scope.ts
pub data Scope : Type 0 where
  actor : Text → Text → Text → Scope
  principal : Text → Scope
  system : Option Text → Option Text → Scope

unfoldable pub tenant_id_of : Scope → Option Text
tenant_id_of (actor tenant company user) = some tenant
tenant_id_of (principal user) = none
tenant_id_of (system tenant company) = tenant

unfoldable pub company_id_of : Scope → Option Text
company_id_of (actor tenant company user) = some company
company_id_of (principal user) = none
company_id_of (system tenant company) = company

unfoldable pub acting_user_id : Scope → Option Text
acting_user_id (actor tenant company user) = some user
acting_user_id (principal user) = some user
acting_user_id (system tenant company) = none

pub record CompanyScope : Type 0 where
  pub tenant_id : Text
  pub company_id : Text

-- `!text` is true of an absent text and of the empty one.
abbrev pub present : Option Text → Option Text
present none = none
present (some t) = if is_nil t then none else some t

abbrev pub scope_of_parts : Option Text → Option Text → String → Result CompanyScope
scope_of_parts (some tenant) (some company) subject =
    ok (record { tenant_id = tenant; company_id = company })
scope_of_parts _ _ subject = err (company_scope_missing subject)

unfoldable pub require_company_scope : Scope → String → Result CompanyScope
unfolding tenant_id_of company_id_of
require_company_scope scope subject =
    scope_of_parts (present (tenant_id_of scope)) (present (company_id_of scope)) subject

-- The tables that the modelled operations read and write, a list of rows each.
pub record Store : Type 0 where
  pub companies : List CompanyRecord
  pub customers : List MasterDataRecord
  pub warehouses : List MasterDataRecord
  pub products : List ProductRecord
  pub sales_orders : List SalesOrderRecord
  pub sales_order_lines : List SalesOrderLineRecord
  pub document_number_sequences : List DocumentNumberSequenceRecord
  pub stock_balances : List StockBalanceRecord
  pub stock_movements : List StockMovementRecord
  pub stock_reservations : List StockReservationRecord
  pub customer_invoices : List CustomerInvoiceRecord
  pub customer_invoice_lines : List CustomerInvoiceLineRecord
  pub posting_accounts : List CompanyPostingAccountRecord
  pub journal_entries : List JournalEntryRecord
  pub journal_lines : List JournalLineRecord
  pub roles : List RoleRecord
  pub membership_roles : List MembershipRoleRecord
  pub role_permissions : List RolePermissionRecord
  pub audit_events : List AuditEventRecord
  pub accounts : List AccountRecord
  pub idempotency_records : List IdempotencyRecord
  pub users : List UserRow
  pub sessions : List SessionRow
  pub auth_throttle : List ThrottleRow
  pub memberships : List MembershipRecord
  pub tenants : List TenantRecord
  -- how many identifiers `randomUUID` has given out
  pub drawn : ℕ

-- What the code takes from outside: the scope, the moment of the transaction and `randomUUID`.
pub record Session : Type 0 where
  pub scope : Scope
  pub now : ℕ
  pub uuid : ℕ → Text

-- A call inside a transaction. What throws leaves no store: the transaction rolls back.
abbrev pub Tx : Type 0 → Type 0
Tx A = Store → Result (A × Store)

infixl 5 ◌>>=◌ ◌>>◌
unfoldable pub ◌>>=◌ : {A B : Type 0} → Tx A → (A → Tx B) → Tx B
◌>>=◌ m f s = elim (m s) [ err e ↦ err e | ok (a, s') ↦ f a s' ]

abbrev pub ◌>>◌ : {A B : Type 0} → Tx A → Tx B → Tx B
m >> k = m >>= λ _. k

module _ {A : Type 0} where
  unfoldable pub pure : A → Tx A
  pure a s = ok (a, s)

  unfoldable pub throw : Failure → Tx A
  throw e s = err e

  unfoldable pub lift : Result A → Tx A
  lift (ok a) s = ok (a, s)
  lift (err e) s = err e

  unfoldable pub query : (Store → A) → Tx A
  query f s = ok (f s, s)

  unfoldable pub unless_absent : Option A → Failure → Tx A
  unless_absent (some a) e s = ok (a, s)
  unless_absent none e s = err e

unfoldable pub refuse_unless : Bool → Failure → Tx (Unit {0})
refuse_unless test e s = if test then ok (tt, s) else err e

unfoldable pub write : (Store → Store) → Tx (Unit {0})
write f s = ok (tt, f s)

unfoldable pub random_uuid : Session → Tx Text
random_uuid session s = ok (session.uuid s.drawn, record s { drawn = suc s.drawn })

-- `SELECT … WHERE`, `… LIMIT 1`, `UPDATE … SET … WHERE` and its `RETURNING`.
module _ {A : Type 0} (matches : A → Bool) where
  -- `EXISTS`
  unfoldable pub some_row : List A → Bool
  some_row [] = false
  some_row (row ∷ rows) = matches row || some_row rows

  unfoldable pub select_where : List A → List A
  select_where [] = []
  select_where (row ∷ rows) =
      let rest = select_where rows in if matches row then row ∷ rest else rest

  unfoldable pub select_first : List A → Option A
  select_first [] = none
  select_first (row ∷ rows) = let rest = select_first rows in if matches row then some row else rest

  unfoldable pub update_where : (A → A) → List A → List A
  update_where change [] = []
  update_where change (row ∷ rows) =
      (if matches row then change row else row) ∷ update_where change rows

-- The first row that the update returns.
abbrev pub returning_first : {A : Type 0} → (A → Bool) → (A → A) → List A → Option A
returning_first matches change rows = elim (select_first matches rows) [
  | none ↦ none
  | some row ↦ some (change row)
]
