-- ===== src/Sales/Draft/Outcome.antt =====
-- What a draft that was created or edited is (apps/api/src/sales/sales-order.service.ts).
use erpn.Database.Transaction.{
  query, random_uuid, select_first, lift, pure, require_company_scope, CompanyScope, Store, Session,
  ◌>>=◌,
}
use erpn.Sales.Draft.{
  total, create_lines, create_draft_in, SalesOrderDraft, CreateDraftInput, price_lines,
  editable_order, acting_company, price, check_parties,
}
use erpn.Database.Types.{MasterDataRecord, CompanyRecord}
use erpn.Prelude.{
  ◌∙◌, arith, suc, refl, text_eq→eq, codes, none, ap, ◌≢◌, true, [], some, is_nil, ◌∷◌, not, ◌≡◌,
  List, Text,
}
use erpn.Sales.DraftFigures.{PricedLine, DraftLineInput}
use erpn.Database.Frame.{unless_absent-eq-ok, keeps, Keeps}
use erpn.Result.{ok}
use erpn.Database.Access.{
  is_company, find_company, is_master_data, find_customer, is_active, find_warehouse,
}
use erpn.Database.Frame.Reads.{find_company-Keeps, find_warehouse-Keeps, find_customer-Keeps, reads}
use erpn.Database.Frame.Inversion.{after, after_found, after_guard, unchanged, after_read}
use erpn.Database.Sales.{is_sales_order}
use erpn.Database.Transaction.Rows.{select_first-matches}
use erpn.Database.Isolation.{any_subject}
use erpn.Sales.Draft.Priced.{price_lines-AllAccepted, AllAccepted}
use erpn.Database.Types.Drafts.{NewSalesOrder}
use erpn.Sales.Draft.Written.{create-Written, Written}
use erpn.Database.SalesDrafts.{create_sales_order}

module _ {X : Type 0} (view : Store → X) (session : Session) where
  pub acting_company-Keeps : (id : Text) → Keeps view (acting_company session id)
  unfolding acting_company
  acting_company-Keeps id = search (keeps, reads) depth 30

  pub check_parties-Keeps : (input : CreateDraftInput) → Keeps view (check_parties session input)
  unfolding check_parties
  check_parties-Keeps input = search (keeps, reads) depth 30

  pub editable_order-Keeps : (id : Text) → Keeps view (editable_order session id)
  unfolding editable_order
  editable_order-Keeps id = search (keeps, reads) depth 30

  price-Keeps :
      (company : CompanyRecord) (line : DraftLineInput) → Keeps view (price session company line)
  unfolding price
  price-Keeps company line = search (keeps, reads) depth 30

  pub price_lines-Keeps :
      (company : CompanyRecord) (lines : List DraftLineInput)
      → Keeps view (price_lines session company lines)
  unfolding price_lines
  price_lines-Keeps company [] = search keeps
  price_lines-Keeps company (line ∷ lines) =
      let rest : (u : Unit {0}) → Keeps view (price_lines session company lines) =
        λ u. price_lines-Keeps company lines in
      search (keeps, price-Keeps, rest) depth 30

module _ (session : Session) (c : CompanyScope)
    (acting : require_company_scope session.scope "Sales documents" ≡ ok c) where
  -- The customer and the warehouse of a draft are the company's, in use, and those asked for.
  pub record Parties (input : CreateDraftInput) (s : Store) (ids : Text × Text) : Type 0 where
    pub customer : MasterDataRecord
    pub warehouse : MasterDataRecord
    pub customer_found :
        select_first (is_master_data c input.customer_id) s.customers ≡ some customer
    pub warehouse_found :
        select_first (is_master_data c input.warehouse_id) s.warehouses ≡ some warehouse
    pub in_use : (customer.status ≡ codes "active") × (warehouse.status ≡ codes "active")
    pub asked : (ids.0 ≡ input.customer_id) × (ids.1 ≡ input.warehouse_id)

  find_customer_lem :
      (id : Text) (s : Store)
      → find_customer session id s ≡ ok (select_first (is_master_data c id) s.customers, s)
  unfolding find_customer ◌>>=◌ lift query
  find_customer_lem id s =
      rw (any_subject session.scope "Sales documents" "Master data" c acting, lift) refl

  find_warehouse_lem :
      (id : Text) (s : Store)
      → find_warehouse session id s ≡ ok (select_first (is_master_data c id) s.warehouses, s)
  unfolding find_warehouse ◌>>=◌ lift query
  find_warehouse_lem id s =
      rw (any_subject session.scope "Sales documents" "Master data" c acting, lift) refl

  active_text : (row : MasterDataRecord) → is_active (some row) ≡ true → row.status ≡ codes "active"
  unfolding is_active
  active_text row h = text_eq→eq row.status (codes "active") h

  id_of :
      (id : Text) (rows : List MasterDataRecord) (row : MasterDataRecord)
      → select_first (is_master_data c id) rows ≡ some row
      → row.id ≡ id
  id_of id rows row h =
      let at_row : is_master_data c id row ≡ true =
        select_first-matches (is_master_data c id) rows row h in
      text_eq→eq row.id id (ground arith)

  pub check_parties-Parties :
      (input : CreateDraftInput) (s : Store) (ids : Text × Text)
      → check_parties session input s ≡ ok (ids, s)
      → Parties input s ids
  unfolding check_parties pure
  check_parties-Parties input s ids h =
      after_read s s ids (find_customer session input.customer_id) _
        (find_customer-Keeps unchanged session input.customer_id) h
        (λ found e h. after_guard s s ids _ _ _ h (λ active h.
          after_found s s ids found _ _ h (λ customer is_customer h.
            after_read s s ids (find_warehouse session input.warehouse_id) _
              (find_warehouse-Keeps unchanged session input.warehouse_id) h
              (λ found' e' h. after_guard s s ids _ _ _ h (λ active' h.
                after_found s s ids found' _ _ h (λ warehouse is_warehouse h.
                  let there : select_first (is_master_data c input.customer_id) s.customers
                      ≡ some customer =
                    cc (find_customer_lem input.customer_id s, e, is_customer) in
                  let there' : select_first (is_master_data c input.warehouse_id) s.warehouses
                      ≡ some warehouse =
                    cc (find_warehouse_lem input.warehouse_id s, e', is_warehouse) in
                  let pair : ids ≡ (customer.id, warehouse.id) = cc h in
                  record {
                    customer = customer;
                    warehouse = warehouse;
                    customer_found = there;
                    warehouse_found = there';
                    in_use = (
                      active_text customer (rw is_customer at active),
                      active_text warehouse (rw is_warehouse at active'),
                    );
                    asked = (
                      ap (λ (p : Text × Text). p.0) pair
                          ∙ id_of input.customer_id s.customers customer there,
                      ap (λ (p : Text × Text). p.1) pair
                          ∙ id_of input.warehouse_id s.warehouses warehouse there',
                    );
                  }))))))

  -- What is true after a draft was created.
  pub record Drafted (company_id : Text) (input : CreateDraftInput) (s t : Store)
      (a : SalesOrderDraft) : Type 0 where
    pub company : CompanyRecord
    pub company_found : select_first (is_company c company_id) s.companies ≡ some company
    pub priced : List PricedLine
    pub ids : Text × Text
    pub asked_lines : input.lines ≢ []
    pub parties : Parties input s ids
    pub accepted : AllAccepted session c company s input.lines priced
    pub order_input : NewSalesOrder
    pub of_company :
        (order_input.id ≡ session.uuid s.drawn)
        × (order_input.currency ≡ company.base_currency)
        × (order_input.customer_id ≡ ids.0)
        × (order_input.warehouse_id ≡ ids.1)
    pub written :
        Written session c acting order_input company.base_currency priced
          (record s { drawn = suc s.drawn })
          t
          a.order
          a.lines

  find_company_lem :
      (id : Text) (s : Store)
      → find_company session id s ≡ ok (select_first (is_company c id) s.companies, s)
  unfolding find_company ◌>>=◌ lift query
  find_company_lem id s =
      rw (any_subject session.scope "Sales documents" "Companies" c acting, lift) refl

  pub acting_company-found :
      (id : Text) (s : Store) (company : CompanyRecord)
      → acting_company session id s ≡ ok (company, s)
      → select_first (is_company c id) s.companies ≡ some company
  unfolding acting_company
  acting_company-found id s company h =
      after_read s s company (find_company session id) _ (find_company-Keeps unchanged session id) h
        (λ found e h.
          let (is_row, same) = unless_absent-eq-ok found _ s s company h in
          cc (find_company_lem id s, e, is_row))

  is_nil-not : (lines : List DraftLineInput) → not (is_nil lines) ≡ true → lines ≢ []
  is_nil-not lines h = λ e. absurd (cc (h, e))

  -- A draft that is created, under an identifier that no order of the company has, has checked its
  -- customer, its warehouse and each of its lines. It is stored as it is returned: in the status `draft`,
  -- without a number, with one stored line for each line asked for, numbered from one, and with totals
  -- that are the exact sums of the lines' amounts.
  pub create_draft_in-Drafted :
      (company_id : Text) (input : CreateDraftInput) (s t : Store) (a : SalesOrderDraft)
      → select_first (is_sales_order c (session.uuid s.drawn)) s.sales_orders ≡ none
      → create_draft_in session company_id input s ≡ ok (a, t)
      → Drafted company_id input s t a
  unfolding create_draft_in pure random_uuid
  create_draft_in-Drafted company_id input s t a fresh h = after_guard s t a _ _ _ h (λ full h.
      after_read s t a (acting_company session company_id) _
        (acting_company-Keeps unchanged session company_id) h
        (λ company e h.
          after_read s t a (check_parties session input) _
            (check_parties-Keeps unchanged session input) h
            (λ ids e' h.
              after_read s t a (price_lines session company input.lines) _
                (price_lines-Keeps unchanged session company input.lines) h
                (λ priced e'' h. after s t a (random_uuid session) _ h (λ id r0 k0 h.
                  let order_input : NewSalesOrder = record {
                    id = id;
                    customer_id = ids.0;
                    warehouse_id = ids.1;
                    sales_rep_user_id = input.sales_rep_user_id;
                    order_date = input.order_date;
                    expected_delivery_date = input.expected_delivery_date;
                    currency = company.base_currency;
                  } in
                  after r0 t a (create_sales_order session order_input) _ h (λ order r1 k1 h.
                    after r1 t a (create_lines session id company.base_currency 1 priced) _ h
                      (λ lines r2 k2 h.
                        after r2 t a (total session order lines) _ h (λ totalled r3 k3 h.
                          let (accepted, same) =
                            price_lines-AllAccepted session c acting company s s input.lines priced
                              e'' in
                          let drawn : id ≡ session.uuid s.drawn = cc k0 in
                          let tables0 : r0 ≡ record s { drawn = suc s.drawn } = cc k0 in
                          let fresh' : select_first (is_sales_order c id) r0.sales_orders ≡ none =
                            rw (tables0, drawn) fresh in
                          let result : a ≡ record { order = totalled; lines = lines } = cc h in
                          let tables : t ≡ r3 = cc h in
                          let all =
                            create-Written session c acting company order_input
                              company.base_currency input.lines priced s r0 r1 r2 r3 order totalled
                              lines fresh' accepted k1 k2 k3 in
                          record {
                            company = company;
                            company_found = acting_company-found company_id s company e;
                            priced = priced;
                            ids = ids;
                            asked_lines = is_nil-not input.lines full;
                            parties = check_parties-Parties input s ids e';
                            accepted = accepted;
                            order_input = order_input;
                            of_company = (drawn, refl, refl, refl);
                            written = rw (result, tables, ← tables0) all;
                          }))))))))
