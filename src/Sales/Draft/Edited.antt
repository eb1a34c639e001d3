-- ===== src/Sales/Draft/Edited.antt =====
-- What an edit of a draft leaves (`updateDraftIn` of apps/api/src/sales/sales-order.service.ts).
use erpn.Database.Transaction.{
  ◌>>=◌, ◌>>◌, select_first, Store, pure, require_company_scope, CompanyScope, Session,
}
use erpn.Prelude.{sym, ◌∙◌, ap, arith, ◌+◌, text_eq→eq, true, List, codes, some, Text, ◌≡◌}
use erpn.Result.{ok}
use erpn.Sales.Draft.{
  total, create_lines, remove_lines, price_lines, status_of, check_parties, acting_company,
  SalesOrderDraft, UpdateDraftInput, update_draft_in, editable_order,
}
use erpn.Database.Types.{SalesOrderLineRecord, CompanyRecord, SalesOrderRecord}
use erpn.Database.Frame.Inversion.{
  after, after_lift, after_found, unchanged, after_guard, after_read,
}
use erpn.Sales.Draft.Editable.{update_draft_order-edits, UniqueIds}
use erpn.Database.Sales.{list_lines_for_order, is_sales_order, find_sales_order}
use erpn.Database.Frame.Reads.{list_lines_for_order-Keeps, find_sales_order-Keeps}
use erpn.Sales.Draft.Outcome.{
  check_parties-Parties, acting_company-found, price_lines-Keeps, Parties, check_parties-Keeps,
  editable_order-Keeps, acting_company-Keeps,
}
use erpn.Database.Access.{is_company}
use erpn.Database.Sales.Transition.{find_sales_order_lem}
use erpn.Sales.DraftFigures.{PricedLine}
use erpn.Database.Transaction.Rows.{select_first-matches}
use erpn.Sales.Draft.Priced.{price_lines-AllAccepted, AllAccepted}
use erpn.Database.Types.Drafts.{SalesOrderDraftUpdate}
use erpn.Database.SalesDrafts.{update_draft_order}
use erpn.Sales.Draft.Rewritten.{replace-Rewritten, Rewritten}

module _ (session : Session) (c : CompanyScope)
    (acting : require_company_scope session.scope "Sales documents" ≡ ok c) where
  editable_order-found :
      (id : Text) (s : Store) (existing : SalesOrderRecord)
      → editable_order session id s ≡ ok (existing, s)
      → existing.id ≡ id
  unfolding editable_order pure
  editable_order-found id s existing h =
      after_read s s existing (find_sales_order session id) _
        (find_sales_order-Keeps unchanged session id) h
        (λ found e h. after_found s s existing found _ _ h (λ row is_row h.
          after_lift s s existing (status_of row.status) _ h (λ status is_status h.
            after_guard s s existing _ _ _ h (λ draft h.
              let same : row ≡ existing = cc h in
              let there : select_first (is_sales_order c id) s.sales_orders ≡ some row =
                cc (find_sales_order_lem session c acting id s, e, is_row) in
              let at_row : is_sales_order c id row ≡ true =
                select_first-matches (is_sales_order c id) s.sales_orders row there in
              let named : row.id ≡ id = text_eq→eq row.id id (ground arith) in rw same at named))))

  -- What is true after a draft was edited.
  pub record Edited (company_id : Text) (input : UpdateDraftInput) (s t : Store)
      (a : SalesOrderDraft) : Type 0 where
    pub row : SalesOrderRecord
    pub found : select_first (is_sales_order c input.sales_order_id) s.sales_orders ≡ some row
    pub was_draft : row.status ≡ codes "draft"
    pub same_version : row.version ≡ input.expected_version
    pub company : CompanyRecord
    pub company_found : select_first (is_company c company_id) s.companies ≡ some company
    pub ids : Text × Text
    pub parties : Parties session c acting input.draft s ids
    pub priced : List PricedLine
    pub accepted : AllAccepted session c company s input.draft.lines priced
    pub header : SalesOrderRecord
    pub edited_header :
        (header.id ≡ input.sales_order_id)
        × (header.status ≡ row.status)
        × (header.doc_number ≡ row.doc_number)
        × (header.version ≡ row.version + 1)
        × (header.customer_id ≡ ids.0)
        × (header.warehouse_id ≡ ids.1)
    pub rewritten : Rewritten session c acting header company.base_currency priced t a.order a.lines

  abbrev update_of : UpdateDraftInput → Text → Text × Text → SalesOrderDraftUpdate
  update_of input id ids = record {
    id = id;
    expected_version = input.expected_version;
    customer_id = ids.0;
    warehouse_id = ids.1;
    order_date = input.draft.order_date;
    expected_delivery_date = input.draft.expected_delivery_date;
    sales_rep_user_id = input.draft.sales_rep_user_id;
  }

  -- The statements that write, one after another.
  record Ran (company : CompanyRecord) (input : UpdateDraftInput) (existing : SalesOrderRecord)
      (ids : Text × Text) (priced : List PricedLine) (s t : Store) (a : SalesOrderDraft)
      : Type 0 where
    header : SalesOrderRecord
    old : List SalesOrderLineRecord
    u : Unit {0}
    r1 : Store
    r2 : Store
    r3 : Store
    updated : update_draft_order session (update_of input existing.id ids) s ≡ ok (header, r1)
    listed : list_lines_for_order session existing.id r1 ≡ ok (old, r1)
    removed : remove_lines session old r1 ≡ ok (u, r2)
    created : create_lines session existing.id company.base_currency 1 priced r2 ≡ ok (a.lines, r3)
    summed : total session header a.lines r3 ≡ ok (a.order, t)

  outcome_of :
      (company : CompanyRecord) (company_id : Text) (input : UpdateDraftInput)
      (existing : SalesOrderRecord) (ids : Text × Text) (priced : List PricedLine) (s t : Store)
      (a : SalesOrderDraft)
      → UniqueIds s.sales_orders
      → acting_company session company_id s ≡ ok (company, s)
      → existing.id ≡ input.sales_order_id
      → Parties session c acting input.draft s ids
      → AllAccepted session c company s input.draft.lines priced
      → Ran company input existing ids priced s t a
      → Edited company_id input s t a
  outcome_of company company_id input existing ids priced s t a unique e named parties accepted
        ran =
      let (row, there, draft, version, answer, tables, stored) =
        update_draft_order-edits session c acting (update_of input existing.id ids) s ran.r1
          ran.header unique ran.updated in
      let at_row : is_sales_order c existing.id row ≡ true =
        select_first-matches (is_sales_order c existing.id) s.sales_orders row there in
      let row_id : row.id ≡ existing.id = text_eq→eq row.id existing.id (ground arith) in
      let header_id : ran.header.id ≡ existing.id =
        ap (λ (o : SalesOrderRecord). o.id) answer ∙ row_id in
      record {
        row = row;
        found = ap (λ i. select_first (is_sales_order c i) s.sales_orders) (sym named) ∙ there;
        was_draft = draft;
        same_version = version;
        company = company;
        company_found = acting_company-found session c acting company_id s company e;
        ids = ids;
        parties = parties;
        priced = priced;
        accepted = accepted;
        header = ran.header;
        edited_header = (
          header_id ∙ named,
          ap (λ (o : SalesOrderRecord). o.status) answer,
          ap (λ (o : SalesOrderRecord). o.doc_number) answer,
          ap (λ (o : SalesOrderRecord). o.version) answer,
          ap (λ (o : SalesOrderRecord). o.customer_id) answer,
          ap (λ (o : SalesOrderRecord). o.warehouse_id) answer,
        );
        rewritten =
            replace-Rewritten session c acting company company.base_currency input.draft.lines
              priced s ran.r1 ran.r2 ran.r3 t ran.header a.order ran.old a.lines ran.u accepted
              (ap (λ i. select_first (is_sales_order c i) ran.r1.sales_orders) header_id ∙ stored)
              (ap (λ i. list_lines_for_order session i ran.r1) header_id ∙ ran.listed) ran.removed
              (ap (λ i. create_lines session i company.base_currency 1 priced ran.r2) header_id
                ∙ ran.created)
              ran.summed;
      }

  -- The writes of an edit, from the state that its checks leave.
  statements_of :
      (company : CompanyRecord) (input : UpdateDraftInput) (existing : SalesOrderRecord)
      (ids : Text × Text) (priced : List PricedLine) (s t : Store) (a : SalesOrderDraft)
      → (update_draft_order session (update_of input existing.id ids) >>= λ header.
            list_lines_for_order session existing.id >>= λ old.
            remove_lines session old
            >> (create_lines session existing.id company.base_currency 1 priced >>= λ lines.
                total session header lines >>= λ totalled.
                pure (record { order = totalled; lines = lines })))
          s
        ≡ ok (a, t)
      → Ran company input existing ids priced s t a
  unfolding pure
  statements_of company input existing ids priced s t a h =
      after s t a (update_draft_order session _) _ h (λ header r1 k1 h.
        after_read r1 t a (list_lines_for_order session existing.id) _
          (list_lines_for_order-Keeps unchanged session existing.id) h
          (λ old k2 h. after r1 t a (remove_lines session old) _ h (λ u r2 k3 h.
            after r2 t a (create_lines session existing.id company.base_currency 1 priced) _ h
              (λ lines r3 k4 h. after r3 t a (total session header lines) _ h (λ totalled r4 k5 h.
                record {
                  header = header;
                  old = old;
                  u = u;
                  r1 = r1;
                  r2 = r2;
                  r3 = r3;
                  updated = k1;
                  listed = k2;
                  removed = k3;
                  created = cc (k4, h);
                  summed = cc (k5, h);
                })))))

  -- An edit that returns, in a table of orders with unique identifiers, found the order as a draft in the
  -- version that the caller read, and checked the new customer, warehouse and lines as creation does. The
  -- order keeps its status and number, has the next version, and is stored with the exact sums of its
  -- lines; the lines stored for it are then the new ones and no other, numbered from one.
  pub update_draft_in-Edited :
      (company_id : Text) (input : UpdateDraftInput) (s t : Store) (a : SalesOrderDraft)
      → UniqueIds s.sales_orders
      → update_draft_in session company_id input s ≡ ok (a, t)
      → Edited company_id input s t a
  unfolding update_draft_in pure
  update_draft_in-Edited company_id input s t a unique h = after_guard s t a _ _ _ h (λ full h.
      after_read s t a (acting_company session company_id) _
        (acting_company-Keeps unchanged session company_id) h
        (λ company e h.
          after_read s t a (editable_order session input.sales_order_id) _
            (editable_order-Keeps unchanged session input.sales_order_id) h
            (λ existing e0 h.
              after_read s t a (check_parties session input.draft) _
                (check_parties-Keeps unchanged session input.draft) h
                (λ ids e1 h.
                  after_read s t a (price_lines session company input.draft.lines) _
                    (price_lines-Keeps unchanged session company input.draft.lines) h
                    (λ priced e2 h.
                      outcome_of company company_id input existing ids priced s t a unique e
                        (editable_order-found input.sales_order_id s existing e0)
                        (check_parties-Parties session c acting input.draft s ids e1)
                        (price_lines-AllAccepted session c acting company s s input.draft.lines
                          priced e2).0
                        (statements_of company input existing ids priced s t a h))))))
