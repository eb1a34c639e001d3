-- ===== src/Authorization/Assignment/Escalation.antt =====
-- The escalation rule of `assignRole` (apps/api/src/authorization/role-provisioning.service.ts).
use erpn.Database.Frame.Writes.{append_audit-Keeps}
use erpn.Database.Transaction.{
  select_first, write, query, pure, lift, require_company_scope, CompanyScope, Store, Session,
  ◌>>=◌,
}
use erpn.Database.Roles.{
  permissions_of_role, with_held_role, assign_to_membership, list_roles_for_company,
  find_membership, list_permissions_for_role,
}
use erpn.Database.Frame.{keeps, Keeps}
use erpn.Prelude.{
  none, [], inr, ◌∷◌, some, ◌∙◌, refl, ◌⊎◌, text_lt, sym, ap, Option, true, inl, List, ◌≡◌, Text,
}
use erpn.Result.{ok}
use erpn.Authorization.Assignment.{
  if_found, has_key, missing_from, RoleChangeResult, assign_role_in, assign_role, with_membership,
  assign_unless_missing, audit_assignment, assign_found,
}
use erpn.Database.Access.{text_member}
use erpn.Authorization.{grants_in, CompanyContext, Grants}
use erpn.Authorization.Assignment.Members.{
  granted-held, with_held_role-grants, permissions_of_membership,
}
use erpn.Database.Types.{MembershipRecord, RoleRecord}
use erpn.Prelude.Sort.{sort_by}
use erpn.Database.Frame.Inversion.{after, unchanged, after_read}
use erpn.Database.Frame.Reads.{grants_in-Keeps}

module _ {X : Type 0} (view : Store → X) (session : Session) where
  list_roles_for_company-Keeps : Keeps view (list_roles_for_company session)
  unfolding list_roles_for_company
  list_roles_for_company-Keeps = search keeps

  list_permissions_for_role-Keeps : (id : Text) → Keeps view (list_permissions_for_role session id)
  unfolding list_permissions_for_role
  list_permissions_for_role-Keeps id = search keeps

  find_membership-Keeps : (id : Text) → Keeps view (find_membership session id)
  unfolding find_membership
  find_membership-Keeps id = search keeps

module _ (session : Session) (c : CompanyScope)
    (acting : require_company_scope session.scope "Roles" ≡ ok c) where
  -- What the roles of a membership grant in the tables.
  abbrev pub permissions_in : Store → Text → List Text
  permissions_in s m = permissions_of_membership c s.role_permissions m s.membership_roles

  -- No membership gained a permission that is not in the list.
  abbrev pub GainsWithin : List Text → Store → Store → Type 0
  GainsWithin held s t =
      (m p : Text)
      → text_member p (permissions_in t m) ≡ true
      → (text_member p (permissions_in s m) ≡ true) ⊎ (text_member p held ≡ true)

  same_tables : (held : List Text) (s t : Store) → t ≡ s → GainsWithin held s t
  same_tables held s t same m p h =
      inl (ap (λ (u : Store). text_member p (permissions_in u m)) (sym same) ∙ h)

  list_permissions_lem :
      (id : Text) (s : Store)
      → list_permissions_for_role session id s
        ≡ ok (sort_by text_lt (permissions_of_role c id s.role_permissions), s)
  unfolding list_permissions_for_role ◌>>=◌ lift query
  list_permissions_lem id s = rw (acting, lift) refl

  assigns :
      (holder id : Text) (s : Store)
      → assign_to_membership session holder id s
        ≡ ok (tt, record s { membership_roles = with_held_role c holder id s.membership_roles })
  unfolding assign_to_membership ◌>>=◌ lift write
  assigns holder id s = rw (acting, lift) refl

  audited :
      (holder : Text) (role : RoleRecord) (granted : List Text) (s t : Store) (u : Unit {0})
      → audit_assignment session holder role granted s ≡ ok (u, t)
      → (t.membership_roles ≡ s.membership_roles) × (t.role_permissions ≡ s.role_permissions)
  unfolding audit_assignment
  audited holder role granted s t u h = (
    (append_audit-Keeps (λ (v : Store). v.membership_roles) session _ (λ v rows. refl)).kept s u t
        h,
    (append_audit-Keeps (λ (v : Store). v.role_permissions) session _ (λ v rows. refl)).kept s u t
        h,
  )

  assigned :
      (held : List Text) (holder : Text) (role : RoleRecord) (granted missing : List Text)
      (s t : Store) (r : RoleChangeResult)
      → granted ≡ sort_by text_lt (permissions_of_role c role.id s.role_permissions)
      → missing ≡ missing_from held granted
      → assign_unless_missing session holder role granted missing s ≡ ok (r, t)
      → GainsWithin held s t
  unfolding assign_unless_missing pure
  assigned held holder role granted (x ∷ missing) s t r is_granted is_missing h =
      same_tables held s t (cc h)
  assigned held holder role granted [] s t r is_granted is_missing h = λ m p has.
      after s t r (assign_to_membership session holder role.id) _ h (λ u r1 k1 h.
        after r1 t r (audit_assignment session holder role granted) _ h (λ u' r2 k2 h.
          let last : t ≡ r2 = cc h in
          let tables : r1
              ≡ record s { membership_roles = with_held_role c holder role.id s.membership_roles } =
            cc (assigns holder role.id s, k1) in
          let (same_roles, same_grants) = audited holder role granted r1 r2 u' k2 in
          let rows : t.membership_roles ≡ with_held_role c holder role.id s.membership_roles =
            ap (λ (v : Store). v.membership_roles) last
            ∙ same_roles
            ∙ ap (λ (v : Store). v.membership_roles) tables in
          let grants : t.role_permissions ≡ s.role_permissions =
            ap (λ (v : Store). v.role_permissions) last
            ∙ same_grants
            ∙ ap (λ (v : Store). v.role_permissions) tables in
          let has' : text_member p (
                permissions_of_membership c s.role_permissions m
                  (with_held_role c holder role.id s.membership_roles))
              ≡ true =
            ap
              (λ g. text_member p (
                permissions_of_membership c g m
                  (with_held_role c holder role.id s.membership_roles)))
              (sym grants)
            ∙ ap (λ l. text_member p (permissions_of_membership c t.role_permissions m l))
                (sym rows)
            ∙ has in
          elim (with_held_role-grants c s.role_permissions holder role.id m p s.membership_roles
            has') [
              | inl before ↦ inl before
              | inr new ↦ inr (
                  granted-held c s.role_permissions role.id p held
                    (ap (missing_from held) (sym is_granted) ∙ sym is_missing) new)
            ]))

  assign_found-GainsWithin :
      (actor : Grants) (holder : Text) (role : RoleRecord) (s t : Store) (r : RoleChangeResult)
      → assign_found session actor holder role s ≡ ok (r, t)
      → GainsWithin actor.permissions s t
  unfolding assign_found
  assign_found-GainsWithin actor holder role s t r h =
      after_read s t r (list_permissions_for_role session role.id) _
        (list_permissions_for_role-Keeps unchanged session role.id) h
        (λ granted e h.
          assigned actor.permissions holder role granted (missing_from actor.permissions granted) s
            t r (cc (list_permissions_lem role.id s, e)) refl h)

  by_member :
      (actor : Grants) (holder : Text) (role : RoleRecord) (found : Option MembershipRecord)
      (s t : Store) (r : RoleChangeResult)
      → if_found found (assign_found session actor holder role) s ≡ ok (r, t)
      → GainsWithin actor.permissions s t
  unfolding pure
  by_member actor holder role none s t r h = same_tables actor.permissions s t (cc h)
  by_member actor holder role (some row) s t r h =
      assign_found-GainsWithin actor holder role s t r h

  with_membership-GainsWithin :
      (actor : Grants) (holder : Text) (found : Option RoleRecord) (s t : Store)
      (r : RoleChangeResult)
      → with_membership session holder found (assign_found session actor holder) s ≡ ok (r, t)
      → GainsWithin actor.permissions s t
  unfolding with_membership pure
  with_membership-GainsWithin actor holder none s t r h = same_tables actor.permissions s t (cc h)
  with_membership-GainsWithin actor holder (some role) s t r h =
      after_read s t r (find_membership session holder) _
        (find_membership-Keeps unchanged session holder) h
        (λ found e h. by_member actor holder role found s t r h)

  -- Assigning a role never escalates: whatever a membership of the company may do afterwards it could do
  -- before, or the actor may do it himself.
  pub assign_role-GainsWithin :
      (context : CompanyContext) (holder role_key : Text) (s t : Store) (r : RoleChangeResult)
      → assign_role session context holder role_key s ≡ ok (r, t)
      → (actor : Grants) × (grants_in session context.membership_id s ≡ ok (actor, s))
        × GainsWithin actor.permissions s t
  unfolding assign_role assign_role_in
  assign_role-GainsWithin context holder role_key s t r h =
      after_read s t r (grants_in session context.membership_id) _
        (grants_in-Keeps unchanged session context.membership_id) h
        (λ actor e h.
          after_read s t r (list_roles_for_company session) _
            (list_roles_for_company-Keeps unchanged session) h
            (λ roles e' h. (
              actor,
              e,
              with_membership-GainsWithin actor holder (select_first (has_key role_key) roles) s t r
                  h,
            )))
