-- ===== src/Authorization.antt =====
-- apps/api/src/authorization/permissions.ts and authorization.service.ts: what a membership grants.
pub mod Assignment
use erpn.Database.Access.{list_permissions_for_membership, list_for_membership, text_member}
use erpn.Prelude.{[], ◌∷◌, Bool, codes, Option, map, List, Text}
use erpn.Database.Types.{RoleRecord}
use erpn.Database.Transaction.{select_where, pure, ◌>>=◌, Tx, Session}

-- The catalogue of the source, a closed list.
abbrev pub permissions : List Text
permissions =
    codes "sales:view"
    ∷ codes "sales:create"
    ∷ codes "sales:confirm"
    ∷ codes "sales:cancel"
    ∷ codes "purchasing:view"
    ∷ codes "purchasing:create"
    ∷ codes "purchasing:approve"
    ∷ codes "inventory:view"
    ∷ codes "inventory:move"
    ∷ codes "inventory:adjust"
    ∷ codes "customers:view"
    ∷ codes "customers:edit"
    ∷ codes "suppliers:view"
    ∷ codes "suppliers:edit"
    ∷ codes "invoices:view"
    ∷ codes "invoices:create"
    ∷ codes "invoices:post"
    ∷ codes "payments:view"
    ∷ codes "payments:register"
    ∷ codes "accounting:view"
    ∷ codes "accounting:post"
    ∷ codes "accounting:close_period"
    ∷ codes "reports:view"
    ∷ codes "reports:financial"
    ∷ codes "admin:users"
    ∷ codes "admin:settings"
    ∷ codes "audit:view"
    ∷ []

unfoldable pub is_permission : Text → Bool
is_permission value = text_member value permissions

pub record GrantedRole : Type 0 where
  pub key : Text
  pub name : Text

pub record Grants : Type 0 where
  pub roles : List GrantedRole
  pub permissions : List Text

-- What identity.service.ts resolves of a session: the membership that acts, and its company.
pub record CompanyContext : Type 0 where
  pub membership_id : Text
  pub company_id : Text
  pub request_id : Option Text

abbrev granted_role : RoleRecord → GrantedRole
granted_role role = record { key = role.key; name = role.name }

unfoldable pub grants_in : Session → Text → Tx Grants
grants_in session membership_id = do
  roles ← list_for_membership session membership_id
  stored ← list_permissions_for_membership session membership_id
  pure (record { roles = map granted_role roles; permissions = select_where is_permission stored })

abbrev pub role_keys : Grants → List Text
role_keys grants = map (λ (role : GrantedRole). role.key) grants.roles
