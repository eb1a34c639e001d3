-- ===== src/Database/Roles.antt =====
-- Memberships and the roles they hold (apps/api/src/database/repositories/implementations.ts).
use erpn.Prelude.{
  [], ◌∷◌, ◌++◌, none, some, text_lt, not, map, ◌&&◌, text_eq, Option, List, Bool, Text,
}
use erpn.Database.Transaction.{
  select_where, query, write, select_first, require_company_scope, lift, Tx, Session, CompanyScope,
  ◌>>=◌,
}
use erpn.Database.Types.{RolePermissionRecord, MembershipRoleRecord, MembershipRecord, RoleRecord}
use erpn.Database.Access.{is_role_permission, is_membership_role}
use erpn.Prelude.Sort.{sort_by}

abbrev pub is_membership : CompanyScope → Text → MembershipRecord → Bool
is_membership c id row =
    text_eq row.id id && (text_eq row.tenant_id c.tenant_id && text_eq row.company_id c.company_id)

unfoldable pub find_membership : Session → Text → Tx (Option MembershipRecord)
find_membership session id = do
  c ← lift (require_company_scope session.scope "Memberships")
  query (λ s. select_first (is_membership c id) s.memberships)

abbrev pub is_company_role : CompanyScope → RoleRecord → Bool
is_company_role c row = text_eq row.tenant_id c.tenant_id && text_eq row.company_id c.company_id

unfoldable pub list_roles_for_company : Session → Tx (List RoleRecord)
list_roles_for_company session = do
  c ← lift (require_company_scope session.scope "Roles")
  query (λ s.
      sort_by (λ (a b : RoleRecord). text_lt a.name b.name)
        (select_where (is_company_role c) s.roles))

abbrev pub permissions_of_role : CompanyScope → Text → List RolePermissionRecord → List Text
permissions_of_role c role_id rows =
    map (λ (row : RolePermissionRecord). row.permission)
      (select_where (is_role_permission c role_id) rows)

unfoldable pub list_permissions_for_role : Session → Text → Tx (List Text)
list_permissions_for_role session role_id = do
  c ← lift (require_company_scope session.scope "Roles")
  query (λ s. sort_by text_lt (permissions_of_role c role_id s.role_permissions))

-- The primary key of `membership_roles`, which names no company.
abbrev pub is_held_key : Text → Text → MembershipRoleRecord → Bool
is_held_key membership_id role_id row =
    text_eq row.membership_id membership_id && text_eq row.role_id role_id

abbrev pub is_held : CompanyScope → Text → Text → MembershipRoleRecord → Bool
is_held c membership_id role_id row =
    text_eq row.role_id role_id && is_membership_role c membership_id row

abbrev pub held_role : CompanyScope → Text → Text → MembershipRoleRecord
held_role c membership_id role_id = record {
  membership_id = membership_id;
  role_id = role_id;
  tenant_id = c.tenant_id;
  company_id = c.company_id;
}

-- `INSERT … ON CONFLICT DO NOTHING`
unfoldable pub with_held_role :
    CompanyScope → Text → Text → List MembershipRoleRecord → List MembershipRoleRecord
with_held_role c membership_id role_id rows =
    elim (select_first (is_held_key membership_id role_id) rows) [
      | none ↦ rows ++ (held_role c membership_id role_id ∷ [])
      | some row ↦ rows
    ]

unfoldable pub assign_to_membership : Session → Text → Text → Tx (Unit {0})
assign_to_membership session membership_id role_id = do
  c ← lift (require_company_scope session.scope "Roles")
  write (λ s. record s {
    membership_roles = with_held_role c membership_id role_id s.membership_roles;
  })

unfoldable pub remove_from_membership : Session → Text → Text → Tx (Unit {0})
remove_from_membership session membership_id role_id = do
  c ← lift (require_company_scope session.scope "Roles")
  write (λ s. record s {
    membership_roles =
        select_where (λ row. not (is_held c membership_id role_id row)) s.membership_roles;
  })
