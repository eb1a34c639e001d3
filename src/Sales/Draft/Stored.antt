-- ===== src/Sales/Draft/Stored.antt =====
-- The lines of a draft as they are stored, and the write of its totals
-- (apps/api/src/sales/sales-order.service.ts).
use erpn.Database.Transaction.{
  update_where, select_first, unless_absent, write, random_uuid, query, lift, pure, Store,
  require_company_scope, CompanyScope, Session, ◌>>=◌,
}
use erpn.Database.Types.{SalesOrderRecord, SalesOrderLineRecord, CompanyRecord}
use erpn.Prelude.{
  append_assoc, arith, some, suc, append-nil, refl, ◌+◌, length, [], map, ◌++◌, ◌∷◌, List, ◌≡◌, ℕ,
  Text,
}
use erpn.Result.{ok}
use erpn.Database.SalesDrafts.{
  totalled_order, new_sales_order_line, set_totals, create_sales_order_line,
}
use erpn.Sales.DraftFigures.{PricedLine, DraftLineInput}
use erpn.Sales.Draft.{line_input, create_lines}
use erpn.Sales.Draft.Priced.{AllAccepted}
use erpn.Prelude.Int.{ℤ}
use erpn.Database.Types.Drafts.{SalesOrderTotals, NewSalesOrderLine}
use erpn.Billing.Arithmetic.Coherent.{tax_units, subtotal_units, AllReadAs}
use erpn.Sales.DraftFigures.Summed.{stored_amounts}
use erpn.Billing.Arithmetic.{amount_scale, BillableAmounts}
use erpn.Database.Sales.{is_sales_order}
use erpn.Sales.DraftFigures.Billed.{inputs_of}
use erpn.Decimal.RoundTrip.{parse_decimal-render}

module _ (session : Session) (c : CompanyScope) where
  -- The lines that are stored, numbered from n, with the identifiers drawn from k on.
  abbrev pub lines_from : Text → Text → ℕ → ℕ → List PricedLine → List SalesOrderLineRecord
  lines_from id currency n k [] = []
  lines_from id currency n k (line ∷ lines) =
      new_sales_order_line c (line_input (session.uuid k) id currency n line)
      ∷ lines_from id currency (n + 1) (suc k) lines

  module _ (acting : require_company_scope session.scope "Sales documents" ≡ ok c) where
    pub create_line_lem :
        (input : NewSalesOrderLine) (s : Store)
        → create_sales_order_line session input s
          ≡ ok (
            new_sales_order_line c input,
            record s {
              sales_order_lines = s.sales_order_lines ++ (new_sales_order_line c input ∷ []);
            },
          )
    unfolding create_sales_order_line ◌>>=◌ lift write pure
    create_line_lem input s = rw (acting, lift, ◌>>=◌) refl

    pub create_lines_lem :
        (id currency : Text) (n : ℕ) (lines : List PricedLine) (s : Store)
        → create_lines session id currency n lines s
          ≡ ok (
            lines_from id currency n s.drawn lines,
            record s {
              sales_order_lines = s.sales_order_lines ++ lines_from id currency n s.drawn lines;
              drawn = length lines + s.drawn;
            },
          )
    unfolding create_lines ◌>>=◌ pure random_uuid
    create_lines_lem id currency n [] s =
        let none_drawn : 0 + s.drawn ≡ s.drawn = omega arith in
        rw (append-nil s.sales_order_lines, none_drawn) refl
    create_lines_lem id currency n (line ∷ lines) s =
        rw
          (
            create_line_lem (line_input (session.uuid s.drawn) id currency n line)
                (record s { drawn = suc s.drawn }),
            ◌>>=◌,
            create_lines_lem id currency (n + 1) lines (record s {
              sales_order_lines =
                  s.sales_order_lines
                  ++ (new_sales_order_line c (line_input (session.uuid s.drawn) id currency n line)
                      ∷ []);
              drawn = suc s.drawn;
            }),
            ◌>>=◌,
          )
          (let drawn_of_all : length lines + suc s.drawn ≡ suc (length lines) + s.drawn =
              omega arith in
            rw
              (
                drawn_of_all,
                append_assoc s.sales_order_lines
                    (new_sales_order_line c (line_input (session.uuid s.drawn) id currency n line)
                      ∷ [])
                    (lines_from id currency (n + 1) (suc s.drawn) lines),
              )
              refl)

    pub set_totals_lem :
        (input : SalesOrderTotals) (s : Store) (row : SalesOrderRecord)
        → select_first (is_sales_order c input.id) s.sales_orders ≡ some row
        → set_totals session input s
          ≡ ok (
            totalled_order input row,
            record s {
              sales_orders =
                  update_where (is_sales_order c input.id) (totalled_order input) s.sales_orders;
            },
          )
    unfolding set_totals ◌>>=◌ lift query write unless_absent
    set_totals_lem input s row h = rw (acting, lift, h, unless_absent)

-- The amounts of accepted lines are read back from the stored texts.
module _ (session : Session) (c : CompanyScope) (company : CompanyRecord) where
  pub stored_amounts-AllReadAs :
      (id currency : Text) (n k : ℕ) (s : Store) (lines : List DraftLineInput)
      (priced : List PricedLine)
      → AllAccepted session c company s lines priced
      → (amounts : List (ℤ × ℤ)) × AllReadAs
          (map stored_amounts (lines_from session c id currency n k priced))
          amounts
  stored_amounts-AllReadAs id currency n k s [] [] h = ([], tt)
  stored_amounts-AllReadAs id currency n k s (line ∷ lines) [] h = elim h [ ]
  stored_amounts-AllReadAs id currency n k s [] (p ∷ priced) h = elim h [ ]
  stored_amounts-AllReadAs id currency n k s (line ∷ lines) (p ∷ priced) (accepted, rest) =
      let (amounts, read) =
        stored_amounts-AllReadAs id currency (n + 1) (suc k) s lines priced rest in
      let f = accepted.figured in
      let b : BillableAmounts =
        inputs_of accepted.quantity accepted.discount f.unit_price f.tax_rate in
      (
        (subtotal_units b, tax_units b) ∷ amounts,
        (
          record {
            reads_subtotal =
                rw f.subtotal_text
                  (parse_decimal-render (subtotal_units b) amount_scale amount_scale (omega arith));
            reads_tax =
                rw f.tax_text
                  (parse_decimal-render (tax_units b) amount_scale amount_scale (omega arith));
          },
          read,
        ),
      )
