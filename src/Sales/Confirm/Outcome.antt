-- ===== src/Sales/Confirm/Outcome.antt =====
-- What a confirmation that returns has done (apps/api/src/sales/confirm-sales-order.ts).
use erpn.Sales.Status.{status_text, status_of, assert_transition, can_transition}
use erpn.Sales.Confirm.{
  validate_master_data, required_permission, audit_confirmation, ConfirmedSalesOrder, reserve_lines,
  authorize, confirm_sales_order, validate_state,
}
use erpn.Database.Frame.Writes.{create_under_balance_lock-Keeps, allocate-Keeps, append_audit-Keeps}
use erpn.Sales.Confirm.Isolation.{validate_state-Keeps, validate_master_data-Keeps, authorize-Keeps}
use erpn.Statuses.SalesOrderStatus.{draft, confirmed}
use erpn.Database.Transaction.{
  unless_absent, lift, ◌>>=◌, random_uuid, pure, select_first, require_company_scope, CompanyScope,
  Store, Session,
}
use erpn.Prelude.{
  ap, ◌∙◌, arith, text_eq→eq, refl, [], ◌+◌, true, ◌∷◌, some, sym, codes, Text, ◌≡◌, List,
}
use erpn.Database.Types.{
  SalesOrderTransition, NewStockReservation, SalesOrderLineRecord, SalesOrderRecord,
}
use erpn.Result.{err, ok}
use erpn.Statuses.{SalesOrderStatus}
use erpn.Database.Sales.{
  allocate, moved_order, apply_sales_order_transition, list_lines_for_order, find_sales_order,
  is_sales_order,
}
use erpn.Sales.Status.Reachable.{status_of-status_text, status_of_sound}
use erpn.Database.Sales.Transition.{moved, apply_to_found, find_sales_order_lem}
use erpn.Database.Frame.Inversion.{
  after, after_guard, after_lift, after_found, unchanged, after_read,
}
use erpn.Database.Frame.Reads.{
  reads, grants_in-Keeps, list_lines_for_order-Keeps, find_sales_order-Keeps,
}
use erpn.Authorization.{grants_in, Grants, CompanyContext}
use erpn.Inventory.Reservations.{reserve_for_order_line}
use erpn.Sales.Sequences.{sales_order_doc_type, allocate_sales_order_number}
use erpn.Database.Frame.{random_uuid-Keeps, keeps, Keeps}
use erpn.Database.Access.{append_audit, text_member}
use erpn.Database.Inventory.{create_under_balance_lock}
use erpn.Database.Transaction.Rows.{select_first-matches}
use erpn.Failure.{illegal_sales_order_transition}

orders : Store → List SalesOrderRecord
orders s = s.sales_orders

-- Confirmation moves a draft and nothing else.
only_drafts :
    (from : SalesOrderStatus) (text : Text)
    → status_of text ≡ ok from
    → assert_transition from confirmed ≡ ok tt
    → text ≡ codes "draft"
unfolding status_text assert_transition can_transition
only_drafts draft text h k = sym (status_of_sound text draft h)
only_drafts confirmed text h k = cc
only_drafts _ text h k = cc

module _ (session : Session) (c : CompanyScope)
    (acting : require_company_scope session.scope "Sales documents" ≡ ok c) where
  -- Step 1 found the order, and it was a draft.
  validated :
      (id : Text) (s t : Store) (order : SalesOrderRecord) (lines : List SalesOrderLineRecord)
      → validate_state session id s ≡ ok ((order, lines), t)
      → (select_first (is_sales_order c id) s.sales_orders ≡ some order)
        × (order.status ≡ codes "draft")
  unfolding validate_state pure
  validated id s t order lines h =
      after_read s t (order, lines) (find_sales_order session id) _
        (find_sales_order-Keeps unchanged session id) h
        (λ found e h.
          after_found s t (order, lines) found _ _ h
            (λ row is_row h.
              after_lift s t (order, lines) (status_of row.status) _ h
                (λ from is_from h.
                  after_lift s t (order, lines) (assert_transition from confirmed) _ h
                    (λ done legal h.
                      after_read s t (order, lines) (list_lines_for_order session row.id) _
                        (list_lines_for_order-Keeps unchanged session row.id) h
                        (λ rows e' h.
                          after_guard s t (order, lines) _ _ _ h
                            (λ full h.
                              let same : row ≡ order = cc h in
                              let text : row.status ≡ codes "draft" =
                                only_drafts from row.status is_from legal in
                              (
                                cc (find_sales_order_lem session c acting id s, e, is_row, same),
                                rw same at text,
                              )))))))

  reserve_lines-Keeps :
      (lines : List SalesOrderLineRecord) → Keeps orders (reserve_lines session lines)
  unfolding reserve_lines reserve_for_order_line orders
  reserve_lines-Keeps [] = search keeps
  reserve_lines-Keeps (line ∷ lines) =
      let rest : (u : Unit {0}) → Keeps orders (reserve_lines session lines) =
        λ u. reserve_lines-Keeps lines in
      let fresh : (u : Unit {0}) → Keeps orders (random_uuid session) =
        λ u. random_uuid-Keeps orders session (λ s n. refl) in
      let held : (input : NewStockReservation)
          → Keeps orders (create_under_balance_lock session input) =
        λ input. create_under_balance_lock-Keeps orders session input (λ s rows. refl) in
      search (keeps, reads, rest, fresh, held) depth 40

  -- What is true after a confirmation.
  pub record Confirmed (context : CompanyContext) (id : Text) (s t : Store)
      (a : ConfirmedSalesOrder) : Type 0 where
    pub order : SalesOrderRecord
    pub found : select_first (is_sales_order c id) s.sales_orders ≡ some order
    pub was_draft : order.status ≡ codes "draft"
    pub grants : Grants
    pub granted : grants_in session context.membership_id s ≡ ok (grants, s)
    pub permitted : text_member required_permission grants.permissions ≡ true
    pub number : Text
    pub now_confirmed : a.order ≡ record order {
      status = codes "confirmed";
      doc_number = some number;
      version = order.version + 1;
    }
    pub stored : select_first (is_sales_order c id) t.sales_orders ≡ some a.order

  authorized :
      (context : CompanyContext) (s : Store) (grants : Grants)
      → authorize session context s ≡ ok (grants, s)
      → (grants_in session context.membership_id s ≡ ok (grants, s))
        × (text_member required_permission grants.permissions ≡ true)
  unfolding authorize pure
  authorized context s grants h =
      after_read s s grants (grants_in session context.membership_id) _
        (grants_in-Keeps unchanged session context.membership_id) h
        (λ granted e h. after_guard s s grants _ _ _ h (λ permitted h.
          let same : granted ≡ grants = cc h in (rw same at e, rw same at permitted)))

  abbrev confirming : SalesOrderRecord → Text → SalesOrderTransition
  confirming order number = record {
    id = order.id;
    expected_version = order.version;
    expected_status = order.status;
    status = codes "confirmed";
    doc_number = some number;
  }

  applied :
      (id : Text) (s r u : Store) (order result : SalesOrderRecord) (number : Text)
      → select_first (is_sales_order c id) s.sales_orders ≡ some order
      → r.sales_orders ≡ s.sales_orders
      → apply_sales_order_transition session (confirming order number) r ≡ ok (result, u)
      → (result ≡ moved_order (confirming order number) order)
        × (select_first (is_sales_order c id) u.sales_orders ≡ some result)
  applied id s r u order result number found same h =
      let at_row : is_sales_order c id order ≡ true =
        select_first-matches (is_sales_order c id) s.sales_orders order found in
      let named : order.id ≡ id = text_eq→eq order.id id (ground arith) in
      let there : select_first (is_sales_order c order.id) r.sales_orders ≡ some order =
        ap (λ i. select_first (is_sales_order c i) r.sales_orders) named
        ∙ ap (select_first (is_sales_order c id)) same
        ∙ found in
      let (made, stored) =
        apply_to_found session c acting (confirming order number) r order there refl refl in
      let answer : result ≡ moved_order (confirming order number) order = cc (made, h) in
      let tables : u ≡ moved session c acting (confirming order number) r = cc (made, h) in
      (
        answer,
        ap (λ i. select_first (is_sales_order c i) u.sales_orders) (sym named)
            ∙ ap (λ (v : Store). select_first (is_sales_order c order.id) v.sales_orders) tables
            ∙ stored
            ∙ ap some (sym answer),
      )

  -- A confirmation that returns found the order of the company as a draft, by an actor whose grants hold
  -- the permission, and leaves it in the tables as confirmed, with a number and the next version.
  pub confirm_sales_order_lem :
      (context : CompanyContext) (id : Text) (s t : Store) (a : ConfirmedSalesOrder)
      → confirm_sales_order session context id s ≡ ok (a, t)
      → Confirmed context id s t a
  unfolding confirm_sales_order allocate_sales_order_number audit_confirmation orders pure
  confirm_sales_order_lem context id s t a h =
      after_read s t a (validate_state session id) _ (validate_state-Keeps unchanged session id) h
        (λ read e h.
          after_read s t a (validate_master_data session read.0 read.1) _
            (validate_master_data-Keeps unchanged session read.0 read.1) h
            (λ done e' h.
              after_read s t a (authorize session context) _
                (authorize-Keeps unchanged session context) h
                (λ grants e'' h. after s t a (reserve_lines session _) _ h (λ ids r1 k1 h.
                  after r1 t a (allocate session sales_order_doc_type) _ h (λ allocated r2 k2 h.
                    after r2 t a (apply_sales_order_transition session _) _ h (λ order r3 k3 h.
                      after r3 t a (append_audit session _) _ h (λ done' r4 k4 h.
                        let (found, was_draft) = validated id s s (read.0) (read.1) e in
                        let kept : r2.sales_orders ≡ s.sales_orders =
                          (allocate-Keeps orders session sales_order_doc_type (λ s rows. refl)).kept
                            r1 allocated r2 k2
                          ∙ (reserve_lines-Keeps _).kept s ids r1 k1 in
                        let (answer, stored) =
                          applied id s r2 r3 (read.0) order allocated.formatted found kept k3 in
                        let last : r4.sales_orders ≡ r3.sales_orders =
                          (append_audit-Keeps orders session _ (λ s rows. refl)).kept r3 done' r4
                            k4 in
                        let result : a.order ≡ order = cc h in
                        let tables : t ≡ r4 = cc h in
                        record {
                          order = read.0;
                          found = found;
                          was_draft = was_draft;
                          grants = grants;
                          granted = (authorized context s grants e'').0;
                          permitted = (authorized context s grants e'').1;
                          number = allocated.formatted;
                          now_confirmed = result ∙ answer;
                          stored = rw (tables, last, result) stored;
                        })))))))

  refuses_state :
      (id : Text) (s : Store) (order : SalesOrderRecord)
      → select_first (is_sales_order c id) s.sales_orders ≡ some order
      → order.status ≡ codes "confirmed"
      → validate_state session id s ≡ err (illegal_sales_order_transition confirmed confirmed)
  unfolding validate_state ◌>>=◌ lift unless_absent status_text assert_transition can_transition
  refuses_state id s order found confirmed_already = rw (
    find_sales_order_lem session c acting id s,
    ◌>>=◌,
    found,
    unless_absent,
    confirmed_already,
    status_of-status_text confirmed,
  )

  refuses_confirmed :
      (context : CompanyContext) (id : Text) (s : Store) (order : SalesOrderRecord)
      → select_first (is_sales_order c id) s.sales_orders ≡ some order
      → order.status ≡ codes "confirmed"
      → confirm_sales_order session context id s
        ≡ err (illegal_sales_order_transition confirmed confirmed)
  unfolding confirm_sales_order ◌>>=◌
  refuses_confirmed context id s order found confirmed_already =
      rw (refuses_state id s order found confirmed_already, ◌>>=◌)

  -- A confirmed order cannot be confirmed a second time: the state decides, with no record of the first
  -- request.
  pub confirm_sales_order-confirm_sales_order :
      (context other : CompanyContext) (id : Text) (s t : Store) (a : ConfirmedSalesOrder)
      → confirm_sales_order session context id s ≡ ok (a, t)
      → confirm_sales_order session other id t
        ≡ err (illegal_sales_order_transition confirmed confirmed)
  confirm_sales_order-confirm_sales_order context other id s t a h =
      let done = confirm_sales_order_lem context id s t a h in
      refuses_confirmed other id t a.order done.stored
        (ap (λ (o : SalesOrderRecord). o.status) done.now_confirmed)
