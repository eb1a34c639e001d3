-- ===== src/Sales/Draft/Written.antt =====
-- What drafting leaves in the tables (`createDraftIn` of apps/api/src/sales/sales-order.service.ts).
use erpn.Database.Transaction.{
  update_where, select_first, pure, write, Store, require_company_scope, lift, CompanyScope,
  Session, ◌>>=◌,
}
use erpn.Database.Types.{CompanyRecord, SalesOrderLineRecord, SalesOrderRecord}
use erpn.Prelude.{
  ◌∙◌, ap, text_eq_refl, true, ◌+◌, length, refl, [], ◌∷◌, some, ◌++◌, none, codes, Text, map, ◌≡◌,
  List,
}
use erpn.Prelude.Int.{◌+ℤ◌, ℤ}
use erpn.Billing.Arithmetic.Coherent.{sum_taxes, sum_subtotals, AllReadAs}
use erpn.Result.{ok}
use erpn.Database.SalesDrafts.{totalled_order, new_sales_order, create_sales_order}
use erpn.Database.Types.Drafts.{SalesOrderTotals, NewSalesOrder}
use erpn.Sales.DraftFigures.{DraftLineInput, PricedLine}
use erpn.Sales.DraftFigures.Summed.{stored_totals_lem, stored_amounts}
use erpn.Decimal.{render}
use erpn.Database.Sales.{is_sales_order}
use erpn.Billing.Arithmetic.{amount_scale}
use erpn.Sales.Draft.Priced.{AllAccepted}
use erpn.Sales.Draft.Stored.{set_totals_lem, stored_amounts-AllReadAs, create_lines_lem, lines_from}
use erpn.Sales.Draft.{total, create_lines}
use erpn.Database.Transaction.Rows.{
  select_first-append, select_first-matches, select_first-update_where,
}

-- The totals of an order are the exact sums of the amounts of its lines.
pub record Totalled (order : SalesOrderRecord) (lines : List SalesOrderLineRecord) : Type 0 where
  pub amounts : List (ℤ × ℤ)
  pub read : AllReadAs (map stored_amounts lines) amounts
  pub subtotal : order.subtotal ≡ render (sum_subtotals amounts) amount_scale
  pub tax_total : order.tax_total ≡ render (sum_taxes amounts) amount_scale
  pub total_amount : order.total ≡ render (sum_subtotals amounts +ℤ sum_taxes amounts) amount_scale

module _ (session : Session) (c : CompanyScope)
    (acting : require_company_scope session.scope "Sales documents" ≡ ok c) where
  abbrev totals_of : Text → List (ℤ × ℤ) → SalesOrderTotals
  totals_of id amounts = record {
    id = id;
    subtotal = render (sum_subtotals amounts) amount_scale;
    tax_total = render (sum_taxes amounts) amount_scale;
    total = render (sum_subtotals amounts +ℤ sum_taxes amounts) amount_scale;
  }

  total_lem :
      (order row : SalesOrderRecord) (lines : List SalesOrderLineRecord) (amounts : List (ℤ × ℤ))
      (s : Store)
      → AllReadAs (map stored_amounts lines) amounts
      → select_first (is_sales_order c order.id) s.sales_orders ≡ some row
      → total session order lines s
        ≡ ok (
          totalled_order (totals_of order.id amounts) row,
          record s {
            sales_orders =
                update_where
                  (is_sales_order c order.id)
                  (totalled_order (totals_of order.id amounts))
                  s.sales_orders;
          },
        )
  unfolding total ◌>>=◌ lift
  total_lem order row lines amounts s read h =
      rw (stored_totals_lem order.id lines amounts read, lift, ◌>>=◌)
        (set_totals_lem session c acting (totals_of order.id amounts) s row h)

  -- The write of the totals of an order that is found: the order has the sums, is stored with them, and
  -- is otherwise as it was found.
  pub total-Totalled :
      (order row result : SalesOrderRecord) (lines : List SalesOrderLineRecord)
      (amounts : List (ℤ × ℤ)) (s t : Store)
      → AllReadAs (map stored_amounts lines) amounts
      → select_first (is_sales_order c order.id) s.sales_orders ≡ some row
      → total session order lines s ≡ ok (result, t)
      → Totalled result lines
        × (result ≡ totalled_order (totals_of order.id amounts) row)
        × (select_first (is_sales_order c order.id) t.sales_orders ≡ some result)
        × (t.sales_order_lines ≡ s.sales_order_lines)
  total-Totalled order row result lines amounts s t read h k =
      let made = total_lem order row lines amounts s read h in
      let answer : result ≡ totalled_order (totals_of order.id amounts) row = cc (made, k) in
      let tables : t ≡ record s {
        sales_orders =
            update_where (is_sales_order c order.id) (totalled_order (totals_of order.id amounts))
              s.sales_orders;
      } =
        cc (made, k) in
      (
        record {
          amounts = amounts;
          read = read;
          subtotal = rw answer refl;
          tax_total = rw answer refl;
          total_amount = rw answer refl;
        },
        answer,
        rw (tables, answer)
            (select_first-update_where (is_sales_order c order.id) (is_sales_order c order.id)
              (totalled_order (totals_of order.id amounts)) s.sales_orders row (λ x m. m) (λ x m. m)
              (select_first-matches (is_sales_order c order.id) s.sales_orders row h) h),
        rw tables refl,
      )

  create_order_lem :
      (input : NewSalesOrder) (s : Store)
      → create_sales_order session input s
        ≡ ok (
          new_sales_order c input,
          record s { sales_orders = s.sales_orders ++ (new_sales_order c input ∷ []) },
        )
  unfolding create_sales_order ◌>>=◌ lift write pure
  create_order_lem input s = rw (acting, lift, ◌>>=◌) refl

  -- An order that was written with its lines.
  pub record Written (input : NewSalesOrder) (currency : Text) (priced : List PricedLine)
      (s t : Store) (order : SalesOrderRecord) (lines : List SalesOrderLineRecord) : Type 0 where
    pub totalled : Totalled order lines
    pub is_draft : (order.status ≡ codes "draft") × (order.doc_number ≡ none) × (order.version ≡ 1)
    pub named :
        (order.id ≡ input.id)
        × (order.customer_id ≡ input.customer_id)
        × (order.warehouse_id ≡ input.warehouse_id)
        × (order.currency ≡ input.currency)
    pub numbered : lines ≡ lines_from session c input.id currency 1 s.drawn priced
    pub stored : select_first (is_sales_order c order.id) t.sales_orders ≡ some order
    pub stored_lines : t.sales_order_lines ≡ s.sales_order_lines ++ lines

  pub create-Written :
      (company : CompanyRecord) (input : NewSalesOrder) (currency : Text)
      (asked : List DraftLineInput) (priced : List PricedLine) (before s r1 r2 t : Store)
      (order result : SalesOrderRecord) (lines : List SalesOrderLineRecord)
      → select_first (is_sales_order c input.id) s.sales_orders ≡ none
      → AllAccepted session c company before asked priced
      → create_sales_order session input s ≡ ok (order, r1)
      → create_lines session input.id currency 1 priced r1 ≡ ok (lines, r2)
      → total session order lines r2 ≡ ok (result, t)
      → Written input currency priced s t result lines
  create-Written company input currency asked priced before s r1 r2 t order result lines fresh
        accepted k1 k2 k3 =
      let made = create_order_lem input s in
      let is_new : order ≡ new_sales_order c input = cc (made, k1) in
      let tables1 : r1
          ≡ record s { sales_orders = s.sales_orders ++ (new_sales_order c input ∷ []) } =
        cc (made, k1) in
      let k2' = rw tables1 at k2 in
      let drafted =
        create_lines_lem session c acting input.id currency 1 priced
          (record s { sales_orders = s.sales_orders ++ (new_sales_order c input ∷ []) }) in
      let are_new : lines ≡ lines_from session c input.id currency 1 s.drawn priced =
        cc (drafted, k2') in
      let tables2 : r2 ≡ record s {
        sales_orders = s.sales_orders ++ (new_sales_order c input ∷ []);
        sales_order_lines =
            s.sales_order_lines ++ lines_from session c input.id currency 1 s.drawn priced;
        drawn = length priced + s.drawn;
      } =
        cc (drafted, k2') in
      let (amounts, read) =
        stored_amounts-AllReadAs session c company input.id currency 1 s.drawn before asked priced
          accepted in
      let read' : AllReadAs (map stored_amounts lines) amounts = rw are_new read in
      let own : is_sales_order c input.id (new_sales_order c input) ≡ true =
        rw (text_eq_refl input.id, text_eq_refl c.tenant_id, text_eq_refl c.company_id) refl in
      let there : select_first (is_sales_order c order.id) r2.sales_orders
          ≡ some (new_sales_order c input) =
        rw (tables2, is_new)
          (select_first-append (is_sales_order c input.id) s.sales_orders (new_sales_order c input)
            fresh own) in
      let (totalled, answer, stored, kept) =
        total-Totalled order (new_sales_order c input) result lines amounts r2 t read' there k3 in
      let ids : result.id ≡ order.id = rw (answer, is_new) refl in
      record {
        totalled = totalled;
        is_draft = rw answer (refl, refl, refl);
        named = rw answer (refl, refl, refl, refl);
        numbered = are_new;
        stored = ap (λ i. select_first (is_sales_order c i) t.sales_orders) ids ∙ stored;
        stored_lines = rw (kept, tables2, are_new) refl;
      }
