-- ===== src/Authorization/Assignment/Members.antt =====
-- Which permissions the rows of apps/api/src/database/repositories/implementations.ts give a membership.
use erpn.Prelude.{
  none, some, append_assoc, sym, refl, ◌∙◌, text_eq→eq, ap, Option-cases, Bool-cases, arith, ◌∷◌,
  text_lt, ◌⊎◌, [], ◌++◌, text_eq, ◌≡◌, List, Text, true, inl, inr,
}
use erpn.Database.Transaction.{select_first, select_where, CompanyScope}
use erpn.Authorization.Assignment.{missing_from}
use erpn.Database.Access.{is_membership_role, joined_permissions, text_member}
use erpn.Prelude.Sort.{insert_sorted, sort_by}
use erpn.Database.Types.{MembershipRoleRecord, RolePermissionRecord}
use erpn.Database.Roles.{held_role, is_held_key, permissions_of_role, with_held_role}
use erpn.Database.Isolation.{select_where-append}

text_member-append :
    (p : Text) (xs ys : List Text)
    → text_member p (xs ++ ys) ≡ true
    → (text_member p xs ≡ true) ⊎ (text_member p ys ≡ true)
unfolding text_member
text_member-append p [] ys h = inr h
text_member-append p (x ∷ xs) ys h = elim (Bool-cases (text_eq p x)) [
  | inl here ↦ inl (rw here refl)
  | inr elsewhere ↦ elim (text_member-append p xs ys (rw elsewhere at h)) [
    | inl front ↦ inl (rw (elsewhere, front) refl)
    | inr back ↦ inr back
  ]
]

member_insert :
    (p x : Text) (xs : List Text)
    → (text_eq p x ≡ true) ⊎ (text_member p xs ≡ true)
    → text_member p (insert_sorted text_lt x xs) ≡ true
unfolding text_member insert_sorted
member_insert p x [] h = ground (arith, h)
member_insert p x (y ∷ ys) h = elim (Bool-cases (text_lt y x)) [
  | inl later ↦ elim (Bool-cases (text_eq p y)) [
    | inl here ↦ rw (later, here) refl
    | inr elsewhere ↦
        rw (later, elsewhere)
          (member_insert p x ys
            (elim h [ inl new ↦ inl new | inr tail ↦ inr (rw elsewhere at tail) ]))
  ]
  | inr first ↦ rw first (ground (arith, h))
]

member_sorted :
    (p : Text) (xs : List Text)
    → text_member p xs ≡ true
    → text_member p (sort_by text_lt xs) ≡ true
unfolding text_member sort_by
member_sorted p [] h = h
member_sorted p (x ∷ xs) h =
    member_insert p x (sort_by text_lt xs) (elim (Bool-cases (text_eq p x)) [
      | inl here ↦ inl here
      | inr elsewhere ↦ inr (member_sorted p xs (rw elsewhere at h))
    ])

-- With nothing missing, what is granted is held.
nothing_missing :
    (p : Text) (held granted : List Text)
    → missing_from held granted ≡ []
    → text_member p granted ≡ true
    → text_member p held ≡ true
unfolding missing_from select_where text_member
nothing_missing p held [] h k = absurd (cc k)
nothing_missing p held (x ∷ granted) h k = elim (Bool-cases (text_member x held)) [
  | inl has ↦ elim (Bool-cases (text_eq p x)) [
    | inl here ↦ let same : p ≡ x = text_eq→eq p x here in rw same has
    | inr elsewhere ↦ nothing_missing p held granted (rw has at h) (rw elsewhere at k)
  ]
  | inr lacks ↦ absurd (cc (rw lacks at h))
]

module _ (c : CompanyScope) (grants : List RolePermissionRecord) where
  joined_permissions-append :
      (ms ns : List MembershipRoleRecord)
      → joined_permissions c (ms ++ ns) grants
        ≡ joined_permissions c ms grants ++ joined_permissions c ns grants
  unfolding joined_permissions
  joined_permissions-append [] ns = refl
  joined_permissions-append (m ∷ ms) ns =
      ap (λ rest. permissions_of_role c m.role_id grants ++ rest) (joined_permissions-append ms ns)
      ∙ sym (
          append_assoc (permissions_of_role c m.role_id grants) (joined_permissions c ms grants)
            (joined_permissions c ns grants))

  -- What a membership may do, by the rows of the roles that it holds.
  abbrev pub permissions_of_membership : Text → List MembershipRoleRecord → List Text
  permissions_of_membership m rows =
      joined_permissions c (select_where (is_membership_role c m) rows) grants

  one_row :
      (m p : Text) (row : MembershipRoleRecord)
      → text_member p (permissions_of_membership m (row ∷ [])) ≡ true
      → text_member p (permissions_of_role c row.role_id grants) ≡ true
  unfolding select_where joined_permissions text_member
  one_row m p row h = elim (Bool-cases (is_membership_role c m row)) [
    | inl own ↦
        elim (text_member-append p (permissions_of_role c row.role_id grants) [] (rw own at h)) [
          | inl granted ↦ granted
          | inr more ↦ absurd (cc more)
        ]
    | inr other ↦ absurd (cc (rw other at h))
  ]

  takes_on :
      (holder role_id : Text) (rows : List MembershipRoleRecord)
      → select_first (is_held_key holder role_id) rows ≡ none
      → with_held_role c holder role_id rows ≡ rows ++ (held_role c holder role_id ∷ [])
  unfolding with_held_role
  takes_on holder role_id rows h = rw (h, with_held_role) refl

  holds_already :
      (holder role_id : Text) (rows : List MembershipRoleRecord) (row : MembershipRoleRecord)
      → select_first (is_held_key holder role_id) rows ≡ some row
      → with_held_role c holder role_id rows ≡ rows
  unfolding with_held_role
  holds_already holder role_id rows row h = rw (h, with_held_role) refl

  -- A role that a membership takes on gives nobody more than what the role grants.
  pub with_held_role-grants :
      (holder role_id m p : Text) (rows : List MembershipRoleRecord)
      → text_member p (permissions_of_membership m (with_held_role c holder role_id rows)) ≡ true
      → (text_member p (permissions_of_membership m rows) ≡ true)
        ⊎ (text_member p (permissions_of_role c role_id grants) ≡ true)
  with_held_role-grants holder role_id m p rows h =
      elim (Option-cases (select_first (is_held_key holder role_id) rows)) [
        | inl absent ↦
            let h' : text_member p
                  (permissions_of_membership m (rows ++ (held_role c holder role_id ∷ [])))
                ≡ true =
              ap (λ l. text_member p (permissions_of_membership m l))
                (sym (takes_on holder role_id rows absent))
              ∙ h in
            let split : permissions_of_membership m (rows ++ (held_role c holder role_id ∷ []))
                ≡ permissions_of_membership m rows
                  ++ permissions_of_membership m (held_role c holder role_id ∷ []) =
              ap (λ l. joined_permissions c l grants)
                (select_where-append (is_membership_role c m) rows
                  (held_role c holder role_id ∷ []))
              ∙ joined_permissions-append (select_where (is_membership_role c m) rows)
                  (select_where (is_membership_role c m) (held_role c holder role_id ∷ [])) in
            elim (text_member-append p (permissions_of_membership m rows)
              (permissions_of_membership m (held_role c holder role_id ∷ []))
              (ap (text_member p) (sym split) ∙ h')) [
                | inl before ↦ inl before
                | inr new ↦ inr (one_row m p (held_role c holder role_id) new)
              ]
        | inr (row, present) ↦ inl (
            ap (λ l. text_member p (permissions_of_membership m l))
              (sym (holds_already holder role_id rows row present))
            ∙ h)
      ]

  -- What a role grants is held by one to whom nothing of it is missing.
  pub granted-held :
      (role_id p : Text) (held : List Text)
      → missing_from held (sort_by text_lt (permissions_of_role c role_id grants)) ≡ []
      → text_member p (permissions_of_role c role_id grants) ≡ true
      → text_member p held ≡ true
  granted-held role_id p held h k =
      nothing_missing p held (sort_by text_lt (permissions_of_role c role_id grants)) h
        (member_sorted p (permissions_of_role c role_id grants) k)
