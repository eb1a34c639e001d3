-- ===== src/Sales/Draft/Replaced.antt =====
-- The removal of a draft's lines (`updateDraftIn` of apps/api/src/sales/sales-order.service.ts).
use mathlib.Core.Path.{subst}
use erpn.Database.Transaction.{
  Store, pure, write, require_company_scope, CompanyScope, lift, select_where, Session, ◌>>=◌,
}
use erpn.Prelude.{
  text_eq_refl, refl, arith, ◌∙◌, inr, ◌⊎◌, [], true, sym, All, inl, ap, Text, Bool-cases, ◌||◌,
  ◌∷◌, false, ◌≡◌, not, Bool, List,
}
use erpn.Result.{ok}
use erpn.Sales.Draft.{remove_lines}
use erpn.Database.Types.{SalesOrderLineRecord}
use erpn.Prelude.Sort.{insert_sorted, sort_by}
use erpn.Database.SalesDrafts.{remove_sales_order_line}
use erpn.Database.Sales.{is_sales_order_line, is_line_of_order}

module _ {A : Type 0} where
  select_where-taken :
      (p : A → Bool) (row : A) (rows : List A)
      → p row ≡ true
      → select_where p (row ∷ rows) ≡ row ∷ select_where p rows
  unfolding select_where
  select_where-taken p row rows h = rw h refl

  select_where-left :
      (p : A → Bool) (row : A) (rows : List A)
      → p row ≡ false
      → select_where p (row ∷ rows) ≡ select_where p rows
  unfolding select_where
  select_where-left p row rows h = rw h refl

  select_where-all : (rows : List A) → select_where (λ row. not false) rows ≡ rows
  unfolding select_where
  select_where-all [] = refl
  select_where-all (row ∷ rows) = ap (λ rest. row ∷ rest) (select_where-all rows)

  select_where-twice :
      (p q : A → Bool) (rows : List A)
      → select_where (λ row. not (q row)) (select_where (λ row. not (p row)) rows)
        ≡ select_where (λ row. not (p row || q row)) rows
  unfolding select_where
  select_where-twice p q [] = refl
  select_where-twice p q (row ∷ rows) = elim (Bool-cases (p row)) [
    | inl gone ↦ rw gone (select_where-twice p q rows)
    | inr kept ↦ elim (Bool-cases (q row)) [
      | inl gone ↦ rw (kept, gone) (select_where-twice p q rows)
      | inr here ↦ rw (kept, here) (ap (λ rest. row ∷ rest) (select_where-twice p q rows))
    ]
  ]

module _ (session : Session) (c : CompanyScope)
    (acting : require_company_scope session.scope "Sales documents" ≡ ok c) where
  -- The rows that are left when lines are deleted one after another.
  abbrev pub without :
      List SalesOrderLineRecord → List SalesOrderLineRecord → List SalesOrderLineRecord
  without [] rows = rows
  without (line ∷ lines) rows =
      without lines (select_where (λ row. not (is_sales_order_line c line.id row)) rows)

  pub remove_lines_lem :
      (lines : List SalesOrderLineRecord) (s : Store)
      → remove_lines session lines s
        ≡ ok (tt, record s { sales_order_lines = without lines s.sales_order_lines })
  unfolding remove_lines remove_sales_order_line ◌>>=◌ lift write pure
  remove_lines_lem [] s = refl
  remove_lines_lem (line ∷ lines) s =
      rw (acting, lift, ◌>>=◌)
        (remove_lines_lem lines (record s {
          sales_order_lines =
              select_where (λ row. not (is_sales_order_line c line.id row)) s.sales_order_lines;
        }))

  -- One of the lines has the row's identifier.
  abbrev named : List SalesOrderLineRecord → SalesOrderLineRecord → Bool
  named [] row = false
  named (line ∷ lines) row = is_sales_order_line c line.id row || named lines row

  without_lem :
      (lines rows : List SalesOrderLineRecord)
      → without lines rows ≡ select_where (λ row. not (named lines row)) rows
  unfolding select_where
  without_lem [] rows = sym (select_where-all rows)
  without_lem (line ∷ lines) rows =
      without_lem lines (select_where (λ row. not (is_sales_order_line c line.id row)) rows)
      ∙ select_where-twice (is_sales_order_line c line.id) (named lines) rows

  insert_sorted-named :
      (before : SalesOrderLineRecord → SalesOrderLineRecord → Bool) (line : SalesOrderLineRecord)
      (lines : List SalesOrderLineRecord) (row : SalesOrderLineRecord)
      → named lines row ≡ true ⊎ is_sales_order_line c line.id row ≡ true
      → named (insert_sorted before line lines) row ≡ true
  unfolding insert_sorted
  insert_sorted-named before line [] row h = ground (arith, h)
  insert_sorted-named before line (x ∷ lines) row h = elim (Bool-cases (before x line)) [
    | inl later ↦ elim (Bool-cases (is_sales_order_line c x.id row)) [
      | inl here ↦ rw (later, here) refl
      | inr elsewhere ↦
          rw (later, elsewhere)
            (insert_sorted-named before line lines row
              (elim h [ inl tail ↦ inl (rw elsewhere at tail) | inr new ↦ inr new ]))
    ]
    | inr here ↦ rw here (ground (arith, h))
  ]

  sort_by-named :
      (before : SalesOrderLineRecord → SalesOrderLineRecord → Bool)
      (lines : List SalesOrderLineRecord) (row : SalesOrderLineRecord)
      → named lines row ≡ true
      → named (sort_by before lines) row ≡ true
  unfolding sort_by
  sort_by-named before [] row h = h
  sort_by-named before (line ∷ lines) row h =
      insert_sorted-named before line (sort_by before lines) row
        (elim (Bool-cases (is_sales_order_line c line.id row)) [
          | inl here ↦ inr here
          | inr elsewhere ↦ inl (sort_by-named before lines row (rw elsewhere at h))
        ])

  module _ (id : Text) where
    -- A row of the order is among the lines.
    Covered : List SalesOrderLineRecord → SalesOrderLineRecord → Type 0
    Covered lines row = is_line_of_order c id row ≡ true → named lines row ≡ true

    one_more_line :
        (line : SalesOrderLineRecord) (lines rows : List SalesOrderLineRecord)
        → All (Covered lines) rows
        → All (Covered (line ∷ lines)) rows
    unfolding Covered
    one_more_line line lines [] h = tt
    one_more_line line lines (row ∷ rows) (first, rest) =
        (λ own. ground (arith, first own), one_more_line line lines rows rest)

    own_row :
        (row : SalesOrderLineRecord) (lines : List SalesOrderLineRecord) → Covered (row ∷ lines) row
    unfolding Covered
    own_row row lines own = ground (arith, own, text_eq_refl row.id)

    other_row :
        (row : SalesOrderLineRecord) (lines : List SalesOrderLineRecord)
        → is_line_of_order c id row ≡ false
        → Covered lines row
    unfolding Covered
    other_row row lines other = λ own. absurd (cc (own, other))

    each_is_listed :
        (rows : List SalesOrderLineRecord)
        → All (Covered (select_where (is_line_of_order c id) rows)) rows
    each_is_listed [] = tt
    each_is_listed (row ∷ rows) = elim (Bool-cases (is_line_of_order c id row)) [
      | inl own ↦
          subst (λ lines. All (Covered lines) (row ∷ rows))
            (sym (select_where-taken (is_line_of_order c id) row rows own))
            (
              own_row row (select_where (is_line_of_order c id) rows),
              one_more_line row (select_where (is_line_of_order c id) rows) rows
                  (each_is_listed rows),
            )
      | inr other ↦
          subst (λ lines. All (Covered lines) (row ∷ rows))
            (sym (select_where-left (is_line_of_order c id) row rows other))
            (other_row row (select_where (is_line_of_order c id) rows) other, each_is_listed rows)
    ]

    none_left :
        (lines rows : List SalesOrderLineRecord)
        → All (Covered lines) rows
        → select_where (is_line_of_order c id) (select_where (λ row. not (named lines row)) rows)
          ≡ []
    unfolding select_where Covered
    none_left lines [] h = refl
    none_left lines (row ∷ rows) (first, rest) = elim (Bool-cases (is_line_of_order c id row)) [
      | inl own ↦ rw (first own) (none_left lines rows rest)
      | inr other ↦ elim (Bool-cases (named lines row)) [
        | inl gone ↦ rw gone (none_left lines rows rest)
        | inr kept ↦ rw (kept, other) (none_left lines rows rest)
      ]
    ]

    sorting_keeps_each :
        (before : SalesOrderLineRecord → SalesOrderLineRecord → Bool)
        (lines rows : List SalesOrderLineRecord)
        → All (Covered lines) rows
        → All (Covered (sort_by before lines)) rows
    unfolding Covered
    sorting_keeps_each before lines [] h = tt
    sorting_keeps_each before lines (row ∷ rows) (first, rest) = (
      λ own. sort_by-named before lines row (first own),
      sorting_keeps_each before lines rows rest,
    )

    -- Deleting the lines that were listed for an order leaves none of the order.
    pub without-none :
        (before : SalesOrderLineRecord → SalesOrderLineRecord → Bool)
        (rows : List SalesOrderLineRecord)
        → select_where
            (is_line_of_order c id)
            (without (sort_by before (select_where (is_line_of_order c id) rows)) rows)
          ≡ []
    without-none before rows =
        let lines = sort_by before (select_where (is_line_of_order c id) rows) in
        ap (select_where (is_line_of_order c id)) (without_lem lines rows)
        ∙ none_left lines rows (
            sorting_keeps_each before (select_where (is_line_of_order c id) rows) rows
              (each_is_listed rows))
