-- ===== src/Database/Access.antt =====
-- apps/api/src/database/repositories/implementations.ts and master-data.repository.ts: what the
-- operations read of companies, master data and roles, and the audit trail.
use erpn.Prelude.{
  none, codes, some, text_lt, ◌||◌, ◌&&◌, ◌++◌, map, false, text_eq, Option, Bool, if◌then◌else◌,
  Text, List, [], ◌∷◌,
}
use erpn.Database.Transaction.{
  write, select_first, acting_user_id, tenant_id_of, company_id_of, query, require_company_scope,
  select_where, lift, Tx, CompanyScope, Session, ◌>>=◌,
}
use erpn.Database.Types.{
  AuditEventRecord, RoleRecord, CompanyRecord, RolePermissionRecord, MembershipRoleRecord,
  MasterDataRecord, ProductRecord,
}
use erpn.Prelude.Sort.{sort_by}

abbrev pub is_master_data : CompanyScope → Text → MasterDataRecord → Bool
is_master_data c id row =
    text_eq row.id id && (text_eq row.tenant_id c.tenant_id && text_eq row.company_id c.company_id)

unfoldable pub find_customer : Session → Text → Tx (Option MasterDataRecord)
find_customer session id = do
  c ← lift (require_company_scope session.scope "Master data")
  query (λ s. select_first (is_master_data c id) s.customers)

unfoldable pub find_warehouse : Session → Text → Tx (Option MasterDataRecord)
find_warehouse session id = do
  c ← lift (require_company_scope session.scope "Master data")
  query (λ s. select_first (is_master_data c id) s.warehouses)

abbrev pub is_product : CompanyScope → Text → ProductRecord → Bool
is_product c id row =
    text_eq row.id id && (text_eq row.tenant_id c.tenant_id && text_eq row.company_id c.company_id)

unfoldable pub find_product : Session → Text → Tx (Option ProductRecord)
find_product session id = do
  c ← lift (require_company_scope session.scope "Master data")
  query (λ s. select_first (is_product c id) s.products)

-- The same test of a product.
unfoldable pub is_active_product : Option ProductRecord → Bool
is_active_product none = false
is_active_product (some product) = text_eq product.status (codes "active")

-- `!record || record.status !== 'active'`, negated
unfoldable pub is_active : Option MasterDataRecord → Bool
is_active none = false
is_active (some record') = text_eq record'.status (codes "active")

abbrev pub is_company : CompanyScope → Text → CompanyRecord → Bool
is_company c id row = text_eq row.id id && text_eq row.tenant_id c.tenant_id

unfoldable pub find_company : Session → Text → Tx (Option CompanyRecord)
find_company session id = do
  c ← lift (require_company_scope session.scope "Companies")
  query (λ s. select_first (is_company c id) s.companies)

abbrev pub is_membership_role : CompanyScope → Text → MembershipRoleRecord → Bool
is_membership_role c membership_id row =
    text_eq row.membership_id membership_id
    && (text_eq row.tenant_id c.tenant_id && text_eq row.company_id c.company_id)

abbrev pub is_role : CompanyScope → Text → RoleRecord → Bool
is_role c id row =
    text_eq row.id id && (text_eq row.tenant_id c.tenant_id && text_eq row.company_id c.company_id)

-- The join of the membership's rows with the roles.
unfoldable pub joined_roles :
    CompanyScope → List MembershipRoleRecord → List RoleRecord → List RoleRecord
joined_roles c [] rows = []
joined_roles c (m ∷ ms) rows = select_where (is_role c m.role_id) rows ++ joined_roles c ms rows

unfoldable pub list_for_membership : Session → Text → Tx (List RoleRecord)
list_for_membership session membership_id = do
  c ← lift (require_company_scope session.scope "Roles")
  query (λ s.
      sort_by (λ (a b : RoleRecord). text_lt a.name b.name)
        (joined_roles c (select_where (is_membership_role c membership_id) s.membership_roles)
          s.roles))

abbrev pub is_role_permission : CompanyScope → Text → RolePermissionRecord → Bool
is_role_permission c role_id row =
    text_eq row.role_id role_id
    && (text_eq row.tenant_id c.tenant_id && text_eq row.company_id c.company_id)

unfoldable pub joined_permissions :
    CompanyScope → List MembershipRoleRecord → List RolePermissionRecord → List Text
joined_permissions c [] rows = []
joined_permissions c (m ∷ ms) rows =
    map (λ (row : RolePermissionRecord). row.permission)
      (select_where (is_role_permission c m.role_id) rows)
    ++ joined_permissions c ms rows

unfoldable pub text_member : Text → List Text → Bool
text_member t [] = false
text_member t (x ∷ xs) = text_eq t x || text_member t xs

-- `SELECT DISTINCT`
unfoldable pub distinct : List Text → List Text
distinct [] = []
distinct (x ∷ xs) = let rest = distinct xs in if text_member x rest then rest else x ∷ rest

unfoldable pub list_permissions_for_membership : Session → Text → Tx (List Text)
list_permissions_for_membership session membership_id = do
  c ← lift (require_company_scope session.scope "Roles")
  query (λ s. sort_by text_lt (
      distinct (
        joined_permissions c (select_where (is_membership_role c membership_id) s.membership_roles)
          s.role_permissions)))

-- What a caller says of an event; the scope gives the rest.
pub record AuditEventInput : Type 0 where
  pub actor_roles : List Text
  pub request_id : Option Text
  pub action : Text
  pub entity_type : Text
  pub entity_id : Option Text
  pub summary : Text
  pub changes : List (Text × Text)
  pub ip_address : Option Text
  pub user_agent : Option Text

abbrev pub audit_row : Session → AuditEventInput → AuditEventRecord
audit_row session event = record {
  tenant_id = tenant_id_of session.scope;
  company_id = company_id_of session.scope;
  actor_user_id = acting_user_id session.scope;
  actor_roles = event.actor_roles;
  request_id = event.request_id;
  action = event.action;
  entity_type = event.entity_type;
  entity_id = event.entity_id;
  summary = event.summary;
  changes = event.changes;
  ip_address = event.ip_address;
  user_agent = event.user_agent;
}

unfoldable pub append_audit : Session → AuditEventInput → Tx (Unit {0})
append_audit session event =
    write (λ s. record s { audit_events = s.audit_events ++ (audit_row session event ∷ []) })
