-- ===== src/Authorization/Assignment.antt =====
-- `assignRole` and `removeRole` of apps/api/src/authorization/role-provisioning.service.ts.
pub mod Members
pub mod Escalation
use erpn.Prelude.{none, some, [], ◌∷◌, map, ◌++◌, codes, text_eq, Bool, not, Option, List, Text}
use erpn.Database.Transaction.{select_first, pure, select_where, Tx, Session, ◌>>=◌, ◌>>◌}
use erpn.Database.Types.{MembershipRecord, RoleRecord}
use erpn.Authorization.{grants_in, Grants, CompanyContext}
use erpn.Database.Roles.{
  assign_to_membership, find_membership, list_roles_for_company, remove_from_membership,
  list_permissions_for_role,
}
use erpn.Database.Access.{text_member, append_audit}

pub data RoleChangeResult : Type 0 where
  applied not_found : RoleChangeResult
  would_escalate : List Text → RoleChangeResult

-- `roles.find(…)`, by the key
abbrev pub has_key : Text → RoleRecord → Bool
has_key role_key role = text_eq role.key role_key

-- What the role grants and the actor does not hold.
unfoldable pub missing_from : List Text → List Text → List Text
missing_from held granted = select_where (λ p. not (text_member p held)) granted

unfoldable pub audit_assignment : Session → Text → RoleRecord → List Text → Tx (Unit {0})
audit_assignment session membership_id role granted = append_audit session (record {
  actor_roles = [];
  request_id = none;
  action = codes "role_assigned";
  entity_type = codes "membership";
  entity_id = some membership_id;
  ip_address = none;
  user_agent = none;
  summary = codes "Assigned the " ++ (role.name ++ codes " role");
  changes =
      (codes "role.key", role.key) ∷ map (λ (p : Text). (codes "role.permissions", p)) granted;
})

-- The escalation rule, and the write when nothing is missing.
unfoldable pub assign_unless_missing :
    Session → Text → RoleRecord → List Text → List Text → Tx RoleChangeResult
assign_unless_missing session membership_id role granted (p ∷ missing) =
    pure (would_escalate (p ∷ missing))
assign_unless_missing session membership_id role granted [] = do
  assign_to_membership session membership_id role.id
  audit_assignment session membership_id role granted
  pure applied

-- The role and the membership are found.
unfoldable pub assign_found : Session → Grants → Text → RoleRecord → Tx RoleChangeResult
assign_found session actor_grants membership_id role = do
  granted ← list_permissions_for_role session role.id
  assign_unless_missing session membership_id role granted
      (missing_from actor_grants.permissions granted)

abbrev pub if_found : Option MembershipRecord → Tx RoleChangeResult → Tx RoleChangeResult
if_found none change = pure not_found
if_found (some row) change = change

unfoldable pub with_membership :
    Session → Text → Option RoleRecord → (RoleRecord → Tx RoleChangeResult) → Tx RoleChangeResult
with_membership session membership_id none change = pure not_found
with_membership session membership_id (some role) change = do
  membership ← find_membership session membership_id
  if_found membership (change role)

-- The second unit of work of `assignRole`, given what the first one read of the actor.
unfoldable pub assign_role_in : Session → Grants → Text → Text → Tx RoleChangeResult
assign_role_in session actor_grants membership_id role_key = do
  roles ← list_roles_for_company session
  with_membership session membership_id (select_first (has_key role_key) roles)
      (assign_found session actor_grants membership_id)

unfoldable pub assign_role : Session → CompanyContext → Text → Text → Tx RoleChangeResult
assign_role session context membership_id role_key = do
  actor_grants ← grants_in session context.membership_id
  assign_role_in session actor_grants membership_id role_key

unfoldable pub remove_found : Session → Text → RoleRecord → Tx RoleChangeResult
remove_found session membership_id role = do
  remove_from_membership session membership_id role.id
  append_audit session (record {
    actor_roles = [];
    request_id = none;
    action = codes "role_removed";
    entity_type = codes "membership";
    entity_id = some membership_id;
    ip_address = none;
    user_agent = none;
    summary = codes "Removed the " ++ (role.name ++ codes " role");
    changes = (codes "role.key", role.key) ∷ [];
  })
  pure applied

unfoldable pub remove_role : Session → Text → Text → Tx RoleChangeResult
remove_role session membership_id role_key = do
  roles ← list_roles_for_company session
  with_membership session membership_id (select_first (has_key role_key) roles)
      (remove_found session membership_id)
