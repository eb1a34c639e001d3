-- ===== src/Sales/Draft/Editable.antt =====
-- The order that is edited (`updateDraftIn` of apps/api/src/sales/sales-order.service.ts), in a table
-- whose identifiers are its primary key.
use mathlib.Core.Path.{subst}
use erpn.Database.Transaction.{
  update_where, write, Store, query, unless_absent, require_company_scope, CompanyScope,
  select_first, lift, Session, ◌>>=◌,
}
use erpn.Prelude.{
  arith, none, Option-cases, text_eq_refl, codes, text_eq→eq, inr, [], inl, false, Bool-cases, true,
  text_eq, some, All, ◌≡◌, ◌∷◌, Bool, Text, List,
}
use erpn.Database.Types.{SalesOrderRecord}
use erpn.Result.{err, ok}
use erpn.Database.SalesDrafts.{edited_order, is_editable, update_draft_order}
use erpn.Database.Types.Drafts.{SalesOrderDraftUpdate}
use erpn.Database.Sales.{is_sales_order}
use erpn.Database.Transaction.Rows.{select_first-update_where, select_first-matches}
use erpn.Failure.{concurrency_conflict}

-- The primary key of a table of orders.
abbrev pub UniqueIds : List SalesOrderRecord → Type 0
UniqueIds [] = Unit
UniqueIds (row ∷ rows) =
    All (λ (other : SalesOrderRecord). text_eq other.id row.id ≡ false) rows × UniqueIds rows

All-select_first :
    (P : SalesOrderRecord → Type 0) (matches : SalesOrderRecord → Bool)
    (rows : List SalesOrderRecord) (row : SalesOrderRecord)
    → All P rows
    → select_first matches rows ≡ some row
    → P row
unfolding select_first
All-select_first P matches [] row h k = absurd (cc k)
All-select_first P matches (x ∷ rows) row (first, rest) k = elim (Bool-cases (matches x)) [
  | inl here ↦ let same : x ≡ row = cc (rw here at k) in subst P same first
  | inr later ↦ All-select_first P matches rows row rest (rw later at k)
]

-- Where identifiers are unique, the first row that passes a narrower test is the row.
pub select_first_unique :
    (id : Text) (wide narrow : SalesOrderRecord → Bool) (rows : List SalesOrderRecord)
    (row : SalesOrderRecord)
    → ((x : SalesOrderRecord) → wide x ≡ true → text_eq x.id id ≡ true)
    → ((x : SalesOrderRecord) → narrow x ≡ true → wide x ≡ true)
    → UniqueIds rows
    → select_first narrow rows ≡ some row
    → select_first wide rows ≡ some row
unfolding select_first
select_first_unique id wide narrow [] row by_id within unique h = absurd (cc h)
select_first_unique id wide narrow (x ∷ rows) row by_id within (first, rest) h =
    elim (Bool-cases (narrow x)) [
      | inl here ↦ rw (within x here) (rw here at h)
      | inr later ↦
          let h' : select_first narrow rows ≡ some row = rw later at h in
          elim (Bool-cases (wide x)) [
            | inl too ↦
                let apart : text_eq row.id x.id ≡ false =
                  All-select_first _ narrow rows row first h' in
                let named : row.id ≡ id =
                  text_eq→eq row.id id
                    (by_id row (within row (select_first-matches narrow rows row h'))) in
                let named' : x.id ≡ id = text_eq→eq x.id id (by_id x too) in
                absurd (cc (rw (named, named', text_eq_refl id) at apart))
            | inr neither ↦
                rw neither (select_first_unique id wide narrow rows row by_id within rest h')
          ]
    ]

module _ (session : Session) (c : CompanyScope)
    (acting : require_company_scope session.scope "Sales documents" ≡ ok c) where
  abbrev pub edited_store : SalesOrderDraftUpdate → Store → Store
  edited_store input s = record s {
    sales_orders = update_where (is_editable c input) (edited_order input) s.sales_orders;
  }

  edits_found :
      (input : SalesOrderDraftUpdate) (s : Store) (row : SalesOrderRecord)
      → select_first (is_editable c input) s.sales_orders ≡ some row
      → update_draft_order session input s ≡ ok (edited_order input row, edited_store input s)
  unfolding update_draft_order ◌>>=◌ lift query write unless_absent
  edits_found input s row h = rw (acting, lift, h, unless_absent)

  edits_missing :
      (input : SalesOrderDraftUpdate) (s : Store)
      → select_first (is_editable c input) s.sales_orders ≡ none
      → update_draft_order session input s ≡ err (concurrency_conflict "Sales order" input.id)
  unfolding update_draft_order ◌>>=◌ lift query write unless_absent
  edits_missing input s h = rw (acting, lift, h, unless_absent)

  -- An edit of the header that returns has found the order as a draft, in the version expected, and
  -- leaves it stored with the new fields and the next version.
  pub update_draft_order-edits :
      (input : SalesOrderDraftUpdate) (s t : Store) (header : SalesOrderRecord)
      → UniqueIds s.sales_orders
      → update_draft_order session input s ≡ ok (header, t)
      → (row : SalesOrderRecord) × (select_first (is_sales_order c input.id) s.sales_orders
          ≡ some row)
        × (row.status ≡ codes "draft")
        × (row.version ≡ input.expected_version)
        × (header ≡ edited_order input row)
        × (t ≡ edited_store input s)
        × (select_first (is_sales_order c input.id) t.sales_orders ≡ some header)
  unfolding unless_absent
  update_draft_order-edits input s t header unique h =
      elim (Option-cases (select_first (is_editable c input) s.sales_orders)) [
        | inl e ↦ absurd (cc (edits_missing input s e, h))
        | inr (row, e) ↦
            let made = edits_found input s row e in
            let editable : is_editable c input row ≡ true =
              select_first-matches (is_editable c input) s.sales_orders row e in
            let there : select_first (is_sales_order c input.id) s.sales_orders ≡ some row =
              select_first_unique input.id (is_sales_order c input.id) (is_editable c input)
                s.sales_orders row (λ x w. ground arith) (λ x n. ground arith) unique e in
            let answer : header ≡ edited_order input row = cc (made, h) in
            let tables : t ≡ edited_store input s = cc (made, h) in
            (
              row,
              there,
              text_eq→eq row.status (codes "draft") (ground arith),
              ground arith,
              answer,
              tables,
              rw (tables, answer)
                  (select_first-update_where (is_sales_order c input.id) (is_editable c input)
                    (edited_order input) s.sales_orders row (λ x n. ground arith) (λ x n. n)
                    editable there),
            )
      ]
