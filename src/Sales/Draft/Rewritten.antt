-- ===== src/Sales/Draft/Rewritten.antt =====
-- The lines of an edited draft (`updateDraftIn` of apps/api/src/sales/sales-order.service.ts): out with
-- the old and in with the new.
use erpn.Sales.Draft.Replaced.{without, without-none, remove_lines_lem}
use erpn.Database.Transaction.{
  select_first, query, Store, lift, require_company_scope, select_where, CompanyScope, Session,
  ◌>>=◌,
}
use erpn.Prelude.{
  sym, ◌∙◌, map, length, ◌++◌, [], suc, ◌+◌, ap, some, text_eq_refl, refl, ◌∷◌, ltb, Bool, List, ℕ,
  Text, ◌≡◌,
}
use erpn.Result.{ok}
use erpn.Database.Types.{SalesOrderRecord, CompanyRecord, SalesOrderLineRecord}
use erpn.Database.Sales.{is_sales_order, is_line_of_order, list_lines_for_order}
use erpn.Sales.DraftFigures.{DraftLineInput, PricedLine}
use erpn.Prelude.Sort.{sort_by}
use erpn.Sales.Draft.Written.{total-Totalled, Totalled}
use erpn.Sales.Draft.Priced.{AllAccepted}
use erpn.Sales.Draft.Stored.{stored_amounts-AllReadAs, create_lines_lem, lines_from}
use erpn.Sales.Draft.{total, line_input, create_lines, remove_lines}
use erpn.Database.SalesDrafts.{new_sales_order_line}
use erpn.Billing.Arithmetic.Coherent.{AllReadAs}
use erpn.Sales.DraftFigures.Summed.{stored_amounts}
use erpn.Database.Isolation.{select_where-append}

module _ (session : Session) (c : CompanyScope) where
  own_lines :
      (id currency : Text) (n k : ℕ) (lines : List PricedLine)
      → select_where (is_line_of_order c id) (lines_from session c id currency n k lines)
        ≡ lines_from session c id currency n k lines
  unfolding select_where
  own_lines id currency n k [] = refl
  own_lines id currency n k (line ∷ lines) =
      rw (text_eq_refl id, text_eq_refl c.tenant_id, text_eq_refl c.company_id)
        (ap (λ rest. new_sales_order_line c (line_input (session.uuid k) id currency n line) ∷ rest)
          (own_lines id currency (n + 1) (suc k) lines))

  module _ (acting : require_company_scope session.scope "Sales documents" ≡ ok c) where
    abbrev by_number : SalesOrderLineRecord → SalesOrderLineRecord → Bool
    by_number a b = ltb a.line_number b.line_number

    list_lines_lem :
        (id : Text) (s : Store)
        → list_lines_for_order session id s
          ≡ ok (sort_by by_number (select_where (is_line_of_order c id) s.sales_order_lines), s)
    unfolding list_lines_for_order ◌>>=◌ lift query
    list_lines_lem id s = rw (acting, lift) refl

    -- The order after its lines were replaced: the lines stored for it are the new ones, numbered from
    -- one, and it is stored with their exact sums.
    pub record Rewritten (header : SalesOrderRecord) (currency : Text) (priced : List PricedLine)
        (t : Store) (order : SalesOrderRecord) (lines : List SalesOrderLineRecord) : Type 0 where
      pub totalled : Totalled order lines
      pub kept :
          (order.id ≡ header.id)
          × (order.status ≡ header.status)
          × (order.doc_number ≡ header.doc_number)
          × (order.version ≡ header.version)
      pub drawn : ℕ
      pub numbered : lines ≡ lines_from session c header.id currency 1 drawn priced
      pub stored : select_first (is_sales_order c header.id) t.sales_orders ≡ some order
      pub stored_lines : select_where (is_line_of_order c header.id) t.sales_order_lines ≡ lines

    pub replace-Rewritten :
        (company : CompanyRecord) (currency : Text) (asked : List DraftLineInput)
        (priced : List PricedLine) (before r1 r2 r3 t : Store) (header result : SalesOrderRecord)
        (old lines : List SalesOrderLineRecord) (u : Unit {0})
        → AllAccepted session c company before asked priced
        → select_first (is_sales_order c header.id) r1.sales_orders ≡ some header
        → list_lines_for_order session header.id r1 ≡ ok (old, r1)
        → remove_lines session old r1 ≡ ok (u, r2)
        → create_lines session header.id currency 1 priced r2 ≡ ok (lines, r3)
        → total session header lines r3 ≡ ok (result, t)
        → Rewritten header currency priced t result lines
    replace-Rewritten company currency asked priced before r1 r2 r3 t header result old lines u
          accepted there k0 k1 k2 k3 =
        let were : old
            ≡ sort_by by_number (select_where (is_line_of_order c header.id) r1.sales_order_lines) =
          cc (list_lines_lem header.id r1, k0) in
        let left : List SalesOrderLineRecord = without session c acting old r1.sales_order_lines in
        let tables2 : r2 ≡ record r1 { sales_order_lines = left } =
          cc (remove_lines_lem session c acting old r1, k1) in
        let gone : select_where (is_line_of_order c header.id) left ≡ [] =
          rw were (without-none session c acting header.id by_number r1.sales_order_lines) in
        let created = create_lines_lem session c acting header.id currency 1 priced r2 in
        let new : List SalesOrderLineRecord =
          lines_from session c header.id currency 1 r2.drawn priced in
        let are_new : lines ≡ new = cc (created, k2) in
        let tables3 : r3 ≡ record r2 {
          sales_order_lines = r2.sales_order_lines ++ new;
          drawn = length priced + r2.drawn;
        } =
          cc (created, k2) in
        let (amounts, read) =
          stored_amounts-AllReadAs session c company header.id currency 1 r2.drawn before asked
            priced accepted in
        let read' : AllReadAs (map stored_amounts lines) amounts = rw are_new read in
        let same_orders : r3.sales_orders ≡ r1.sales_orders = rw (tables3, tables2) refl in
        let there' : select_first (is_sales_order c header.id) r3.sales_orders ≡ some header =
          ap (select_first (is_sales_order c header.id)) same_orders ∙ there in
        let (totalled, answer, stored, kept) =
          total-Totalled session c acting header header result lines amounts r3 t read' there' k3 in
        let old_rows : r2.sales_order_lines ≡ left = rw tables2 refl in
        let rows : t.sales_order_lines ≡ left ++ new =
          kept ∙ ap (λ (s : Store). s.sales_order_lines) tables3 ∙ ap (λ l. l ++ new) old_rows in
        record {
          totalled = totalled;
          kept = rw answer (refl, refl, refl, refl);
          drawn = r2.drawn;
          numbered = are_new;
          stored = stored;
          stored_lines =
              ap (select_where (is_line_of_order c header.id)) rows
              ∙ select_where-append (is_line_of_order c header.id) left new
              ∙ ap (λ l. l ++ select_where (is_line_of_order c header.id) new) gone
              ∙ own_lines header.id currency 1 r2.drawn priced
              ∙ sym are_new;
        }
