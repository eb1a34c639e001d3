-- ===== src/Sales/Draft/Isolation.antt =====
-- Drafting (apps/api/src/sales/sales-order.service.ts) and the rows of other companies.
use erpn.Database.Transaction.{random_uuid, Store, require_company_scope, CompanyScope, Session}
use erpn.Prelude.{refl, arith, [], ◌+◌, ap, ◌∷◌, ℕ, List, Text, ◌≡◌, String}
use erpn.Result.{ok}
use erpn.Database.SalesDrafts.{
  edited_order, totalled_order, is_editable, new_sales_order_line, new_sales_order,
  create_sales_order, update_draft_order, set_totals, remove_sales_order_line,
  create_sales_order_line,
}
use erpn.Sales.Draft.{
  SalesOrderDraft, total, UpdateDraftInput, remove_lines, create_lines, update_draft_in,
}
use erpn.Database.Isolation.{foreign-delete, foreign-update, foreign-insert, own-Keeps, others}
use erpn.Database.Types.{SalesOrderRecord, SalesOrderLineRecord}
use erpn.Database.Types.Drafts.{
  SalesOrderTotals, NewSalesOrder, SalesOrderDraftUpdate, NewSalesOrderLine,
}
use erpn.Database.Frame.{
  unless_absent-Keeps, pure-Keeps, random_uuid-Keeps, write-Keeps, >>=-Keeps, update-Keeps, keeps,
  Keeps,
}
use erpn.Sales.DraftFigures.{PricedLine}
use erpn.Database.Frame.Reads.{reads}
use erpn.Sales.Draft.Outcome.{
  price_lines-Keeps, editable_order-Keeps, check_parties-Keeps, acting_company-Keeps,
}
use erpn.Database.Sales.{is_sales_order_line, is_sales_order}

module _ (session : Session) (c : CompanyScope) (subject : String)
    (acting : require_company_scope session.scope subject ≡ ok c) where
  create_sales_order-Keeps :
      (input : NewSalesOrder) → Keeps (others c) (create_sales_order session input)
  unfolding create_sales_order others
  create_sales_order-Keeps input = own-Keeps session c subject acting "Sales documents" _ (
      >>=-Keeps (others c) _ _
        (write-Keeps (others c) _ (λ s.
          ap (λ rows. record (others c s) { sales_orders = rows })
            (foreign-insert c (λ row. row.tenant_id) (λ row. row.company_id) s.sales_orders
              (new_sales_order c input) refl refl)))
        (λ done. pure-Keeps (others c) _))

  create_sales_order_line-Keeps :
      (input : NewSalesOrderLine) → Keeps (others c) (create_sales_order_line session input)
  unfolding create_sales_order_line others
  create_sales_order_line-Keeps input = own-Keeps session c subject acting "Sales documents" _ (
      >>=-Keeps (others c) _ _
        (write-Keeps (others c) _ (λ s.
          ap (λ rows. record (others c s) { sales_order_lines = rows })
            (foreign-insert c (λ row. row.tenant_id) (λ row. row.company_id) s.sales_order_lines
              (new_sales_order_line c input) refl refl)))
        (λ done. pure-Keeps (others c) _))

  set_totals-Keeps : (input : SalesOrderTotals) → Keeps (others c) (set_totals session input)
  unfolding set_totals others
  set_totals-Keeps input = own-Keeps session c subject acting "Sales documents" _ (
      update-Keeps (others c) _ _ _
        (λ s.
          ap (λ rows. record (others c s) { sales_orders = rows })
            (foreign-update c (λ row. row.tenant_id) (λ row. row.company_id)
              (is_sales_order c input.id) (totalled_order input) (λ row h. ground arith)
              (λ row. (refl, refl)) s.sales_orders))
        (λ row. unless_absent-Keeps (others c) row _))

  update_draft_order-Keeps :
      (input : SalesOrderDraftUpdate) → Keeps (others c) (update_draft_order session input)
  unfolding update_draft_order others
  update_draft_order-Keeps input = own-Keeps session c subject acting "Sales documents" _ (
      update-Keeps (others c) _ _ _
        (λ s.
          ap (λ rows. record (others c s) { sales_orders = rows })
            (foreign-update c (λ row. row.tenant_id) (λ row. row.company_id) (is_editable c input)
              (edited_order input) (λ row h. ground arith) (λ row. (refl, refl)) s.sales_orders))
        (λ row. unless_absent-Keeps (others c) row _))

  remove_sales_order_line-Keeps :
      (id : Text) → Keeps (others c) (remove_sales_order_line session id)
  unfolding remove_sales_order_line others
  remove_sales_order_line-Keeps id = own-Keeps session c subject acting "Sales documents" _ (
      write-Keeps (others c) _ (λ s.
        ap (λ rows. record (others c s) { sales_order_lines = rows })
          (foreign-delete c (λ row. row.tenant_id) (λ row. row.company_id)
            (is_sales_order_line c id) (λ row h. ground arith) s.sales_order_lines)))

  create_lines-Keeps :
      (id currency : Text) (n : ℕ) (lines : List PricedLine)
      → Keeps (others c) (create_lines session id currency n lines)
  unfolding create_lines others
  create_lines-Keeps id currency n [] = search keeps
  create_lines-Keeps id currency n (line ∷ lines) =
      let rest : (u : Unit {0})
          → Keeps (others c) (create_lines session id currency (n + 1) lines) =
        λ u. create_lines-Keeps id currency (n + 1) lines in
      let fresh : (u : Unit {0}) → Keeps (others c) (random_uuid session) =
        λ u. random_uuid-Keeps (others c) session (λ s m. refl) in
      search (keeps, fresh, create_sales_order_line-Keeps, rest) depth 30

  remove_lines-Keeps :
      (lines : List SalesOrderLineRecord) → Keeps (others c) (remove_lines session lines)
  unfolding remove_lines
  remove_lines-Keeps [] = search keeps
  remove_lines-Keeps (line ∷ lines) =
      let rest : (u : Unit {0}) → Keeps (others c) (remove_lines session lines) =
        λ u. remove_lines-Keeps lines in
      search (keeps, remove_sales_order_line-Keeps, rest) depth 30

  total-Keeps :
      (order : SalesOrderRecord) (lines : List SalesOrderLineRecord)
      → Keeps (others c) (total session order lines)
  unfolding total
  total-Keeps order lines = search (keeps, set_totals-Keeps) depth 30

  update_draft_in-Keeps :
      (company_id : Text) (input : UpdateDraftInput)
      → Keeps (others c) (update_draft_in session company_id input)
  unfolding update_draft_in
  update_draft_in-Keeps company_id input =
      search
        (
          keeps, reads, acting_company-Keeps, check_parties-Keeps, editable_order-Keeps,
          price_lines-Keeps, update_draft_order-Keeps, remove_lines-Keeps, create_lines-Keeps,
          total-Keeps,
        )
        depth 40

  -- Editing a draft under the scope of a company leaves every row of the other companies as it was, in all
  -- the tables that the isolation looks at.
  pub others-update_draft_in :
      (company_id : Text) (input : UpdateDraftInput) (s t : Store) (a : SalesOrderDraft)
      → update_draft_in session company_id input s ≡ ok (a, t)
      → others c t ≡ others c s
  others-update_draft_in company_id input s t a h =
      (update_draft_in-Keeps company_id input).kept s a t h
