-- ===== src/Tests/Shop/Assigned.antt =====
-- A role assigned in the company of erpn.Tests.Shop.
use erpn.Tests.Shop.{context, outcome, session, shop, tables}
use erpn.Database.Transaction.{
  ◌>>=◌, select_where, select_first, pure, write, query, lift, acting_user_id, company_id_of,
  tenant_id_of, Store, require_company_scope,
}
use erpn.Prelude.{text_lt, text_eq, refl, codes, ◌≡◌}
use erpn.Authorization.Assignment.{
  audit_assignment, assign_unless_missing, missing_from, assign_found, with_membership, not_found,
  applied, assign_role_in, RoleChangeResult, assign_role,
}
use erpn.Authorization.{is_permission, grants_in, Grants}
use erpn.Database.Access.{
  append_audit, text_member, distinct, joined_permissions, joined_roles,
  list_permissions_for_membership, list_for_membership,
}
use erpn.Result.{ok}
use erpn.Authorization.Assignment.Escalation.{assign_role-GainsWithin, GainsWithin}
use erpn.Database.Roles.{
  with_held_role, assign_to_membership, list_permissions_for_role, find_membership,
  list_roles_for_company,
}
use erpn.Prelude.Sort.{insert_sorted, sort_by}

acting_on_roles : require_company_scope session.scope "Roles" ≡ ok shop
unfolding require_company_scope tenant_id_of company_id_of
acting_on_roles = refl

abbrev assignment : RoleChangeResult × Store
assignment =
    outcome (not_found, tables (codes "draft"))
      (assign_role session context (codes "n") (codes "manager") (tables (codes "draft")))

assigns_manager :
    assign_role session context (codes "n") (codes "manager") (tables (codes "draft"))
    ≡ ok assignment
unfolding assign_role assign_role_in grants_in list_for_membership list_permissions_for_membership
    joined_roles joined_permissions distinct text_member is_permission list_roles_for_company
    with_membership find_membership assign_found list_permissions_for_role missing_from
    assign_unless_missing assign_to_membership with_held_role audit_assignment append_audit
    acting_user_id require_company_scope tenant_id_of company_id_of lift query write pure
    select_first select_where sort_by insert_sorted text_eq text_lt ◌>>=◌
assigns_manager = refl

is_applied : assignment.0 ≡ applied
unfolding assign_role assign_role_in grants_in list_for_membership list_permissions_for_membership
    joined_roles joined_permissions distinct text_member is_permission list_roles_for_company
    with_membership find_membership assign_found list_permissions_for_role missing_from
    assign_unless_missing assign_to_membership with_held_role audit_assignment append_audit
    acting_user_id require_company_scope tenant_id_of company_id_of lift query write pure
    select_first select_where sort_by insert_sorted text_eq text_lt ◌>>=◌
is_applied = refl

assign_role-GainsWithin_example :
    (actor : Grants) × (grants_in session context.membership_id (tables (codes "draft"))
      ≡ ok (actor, tables (codes "draft")))
    × GainsWithin session shop acting_on_roles actor.permissions
        (tables (codes "draft"))
        (assignment.1)
assign_role-GainsWithin_example =
    assign_role-GainsWithin session shop acting_on_roles context (codes "n") (codes "manager")
      (tables (codes "draft")) (assignment.1) (assignment.0) assigns_manager
