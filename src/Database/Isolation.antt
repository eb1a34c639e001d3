-- ===== src/Database/Isolation.antt =====
-- The rows that other companies hold (apps/api/src/database/repositories/company-scope.ts).
pub mod Statements
use mathlib.Core.Path.{subst}
use erpn.Database.Transaction.{
  company_id_of, tenant_id_of, present, ◌>>=◌, lift, scope_of_parts, Tx, update_where, Store, Scope,
  select_where, CompanyScope, Session, require_company_scope,
}
use erpn.Prelude.{
  sym, ap, some, none, append-nil, inr, refl, ◌∙◌, inl, [], Bool-cases, arith, Option, ◌∷◌,
  text_eq_refl, ◌++◌, false, ◌&&◌, true, List, text_eq, ◌≡◌, String, not, Text, Bool,
}
use erpn.Database.Types.{
  JournalLineRecord, JournalEntryRecord, AuditEventRecord, CustomerInvoiceRecord,
  StockReservationRecord, DocumentNumberSequenceRecord, SalesOrderLineRecord, SalesOrderRecord,
}
use erpn.Result.{ok}
use erpn.Database.Access.{AuditEventInput, append_audit}
use erpn.Database.Frame.{scoped-Keeps, write-Keeps, Keeps}

module _ {A : Type 0} (keep : A → Bool) where
  pub select_where-append :
      (xs ys : List A) → select_where keep (xs ++ ys) ≡ select_where keep xs ++ select_where keep ys
  unfolding select_where
  select_where-append [] ys = refl
  select_where-append (x ∷ xs) ys = ground (arith, select_where-append xs ys)

  -- A new row of the company itself.
  select_where-insert :
      (xs : List A) (row : A)
      → keep row ≡ false
      → select_where keep (xs ++ (row ∷ [])) ≡ select_where keep xs
  unfolding select_where
  select_where-insert xs row h =
      select_where-append xs (row ∷ []) ∙ rw h (append-nil (select_where keep xs))

  -- A change of rows of the company itself.
  select_where-update :
      (matches : A → Bool) (change : A → A)
      → ((row : A) → matches row ≡ true → (keep row ≡ false) × (keep (change row) ≡ false))
      → (rows : List A)
      → select_where keep (update_where matches change rows) ≡ select_where keep rows
  unfolding select_where update_where
  select_where-update matches change own [] = refl
  select_where-update matches change own (row ∷ rows) = elim (Bool-cases (matches row)) [
    | inl yes_it_is ↦
        rw (yes_it_is, (own row yes_it_is).0, (own row yes_it_is).1)
          (select_where-update matches change own rows)
    | inr other ↦ rw other (ground (arith, select_where-update matches change own rows))
  ]

abbrev pub belongs : CompanyScope → Text → Text → Bool
belongs c tenant company = text_eq tenant c.tenant_id && text_eq company c.company_id

module _ {A : Type 0} (c : CompanyScope) (tenant company : A → Text) where
  -- The rows of the other companies.
  unfoldable pub foreign : List A → List A
  foreign rows = select_where (λ row. not (belongs c (tenant row) (company row))) rows

  pub foreign-insert :
      (rows : List A) (row : A)
      → tenant row ≡ c.tenant_id
      → company row ≡ c.company_id
      → foreign (rows ++ (row ∷ [])) ≡ foreign rows
  unfolding foreign
  foreign-insert rows row h k =
      select_where-insert _ rows row
        (rw (h, k, text_eq_refl c.tenant_id, text_eq_refl c.company_id))

  pub foreign-update :
      (matches : A → Bool) (change : A → A)
      → ((row : A) → matches row ≡ true → belongs c (tenant row) (company row) ≡ true)
      → ((row : A) → (tenant (change row) ≡ tenant row) × (company (change row) ≡ company row))
      → (rows : List A) → foreign (update_where matches change rows) ≡ foreign rows
  unfolding foreign
  foreign-update matches change own same rows =
      select_where-update _ matches change
        (λ row h. (rw (own row h), rw ((same row).0, (same row).1, own row h))) rows

pub select_where-delete :
    {A : Type 0} (keep gone : A → Bool)
    → ((row : A) → gone row ≡ true → keep row ≡ false)
    → (rows : List A)
    → select_where keep (select_where (λ row. not (gone row)) rows) ≡ select_where keep rows
unfolding select_where
select_where-delete keep gone own [] = refl
select_where-delete keep gone own (row ∷ rows) = elim (Bool-cases (gone row)) [
  | inl yes_it_is ↦ rw (yes_it_is, own row yes_it_is) (select_where-delete keep gone own rows)
  | inr other ↦ rw other (ground (arith, select_where-delete keep gone own rows))
]

-- A row of the company itself is deleted.
pub foreign-delete :
    {A : Type 0} (c : CompanyScope) (tenant company : A → Text) (gone : A → Bool)
    → ((row : A) → gone row ≡ true → belongs c (tenant row) (company row) ≡ true)
    → (rows : List A)
    → foreign c tenant company (select_where (λ row. not (gone row)) rows)
      ≡ foreign c tenant company rows
unfolding foreign
foreign-delete c tenant company gone own rows =
    select_where-delete _ gone (λ row h. (rw (own row h) refl)) rows

parts_of_any_subject :
    (t u : Option Text) (subject other : String) (c : CompanyScope)
    → scope_of_parts t u subject ≡ ok c
    → scope_of_parts t u other ≡ ok c
parts_of_any_subject (some t) (some u) subject other c h = cc h
parts_of_any_subject (some t) none subject other c h = absurd (cc h)
parts_of_any_subject none u subject other c h = absurd (cc h)

-- A scope that names a company names it for every repository.
pub any_subject :
    (scope : Scope) (subject other : String) (c : CompanyScope)
    → require_company_scope scope subject ≡ ok c
    → require_company_scope scope other ≡ ok c
unfolding require_company_scope
any_subject scope subject other c h = parts_of_any_subject _ _ subject other c h

-- An event of no company stands with the others'.
abbrev or_blank : Option Text → Text
or_blank none = []
or_blank (some t) = t

-- The tables without the rows of one company.
unfoldable pub others : CompanyScope → Store → Store
others c s = record s {
  sales_orders =
      foreign c (λ (row : SalesOrderRecord). row.tenant_id)
        (λ (row : SalesOrderRecord). row.company_id) s.sales_orders;
  sales_order_lines =
      foreign c (λ (row : SalesOrderLineRecord). row.tenant_id)
        (λ (row : SalesOrderLineRecord). row.company_id) s.sales_order_lines;
  document_number_sequences =
      foreign c (λ (row : DocumentNumberSequenceRecord). row.tenant_id)
        (λ (row : DocumentNumberSequenceRecord). row.company_id) s.document_number_sequences;
  stock_reservations =
      foreign c (λ (row : StockReservationRecord). row.tenant_id)
        (λ (row : StockReservationRecord). row.company_id) s.stock_reservations;
  customer_invoices =
      foreign c (λ (row : CustomerInvoiceRecord). row.tenant_id)
        (λ (row : CustomerInvoiceRecord). row.company_id) s.customer_invoices;
  journal_entries =
      foreign c (λ (row : JournalEntryRecord). row.tenant_id)
        (λ (row : JournalEntryRecord). row.company_id) s.journal_entries;
  journal_lines =
      foreign c (λ (row : JournalLineRecord). row.tenant_id)
        (λ (row : JournalLineRecord). row.company_id) s.journal_lines;
  audit_events =
      foreign c (λ (row : AuditEventRecord). or_blank row.tenant_id)
        (λ (row : AuditEventRecord). or_blank row.company_id) s.audit_events;
  drawn = 0;
}

same_parts :
    (t u : Option Text) (subject other : String) (c d : CompanyScope)
    → scope_of_parts t u subject ≡ ok c
    → scope_of_parts t u other ≡ ok d
    → d ≡ c
same_parts (some t) (some u) subject other c d h k = cc
same_parts (some t) none subject other c d h k = cc
same_parts none u subject other c d h k = cc

-- One scope has one company, whatever asks for it.
same_scope :
    (scope : Scope) (subject other : String) (c d : CompanyScope)
    → require_company_scope scope subject ≡ ok c
    → require_company_scope scope other ≡ ok d
    → d ≡ c
unfolding require_company_scope
same_scope scope subject other c d h k = same_parts _ _ subject other c d h k

scope_of_parts-present :
    (t u : Option Text) (subject : String) (c : CompanyScope)
    → scope_of_parts (present t) (present u) subject ≡ ok c
    → (t ≡ some c.tenant_id) × (u ≡ some c.company_id)
scope_of_parts-present none u subject c h = absurd (cc h)
scope_of_parts-present (some []) u subject c h = absurd (cc h)
scope_of_parts-present (some (x ∷ t)) none subject c h = absurd (cc h)
scope_of_parts-present (some (x ∷ t)) (some []) subject c h = absurd (cc h)
scope_of_parts-present (some (x ∷ t)) (some (y ∷ u)) subject c h = (cc h, cc h)

-- The company that a repository acts for is the one that the scope names.
pub require_company_scope-names :
    (scope : Scope) (subject : String) (c : CompanyScope)
    → require_company_scope scope subject ≡ ok c
    → (tenant_id_of scope ≡ some c.tenant_id) × (company_id_of scope ≡ some c.company_id)
unfolding require_company_scope
require_company_scope-names scope subject c h = scope_of_parts-present _ _ subject c h

module _ (session : Session) (c : CompanyScope) (subject : String)
    (acting : require_company_scope session.scope subject ≡ ok c) where
  -- A repository opened under the scope: its statements name the company of the scope.
  pub own-Keeps :
      {A : Type 0} (other : String) (f : CompanyScope → Tx A)
      → Keeps (others c) (f c)
      → Keeps (others c) (lift (require_company_scope session.scope other) >>= f)
  own-Keeps other f k = scoped-Keeps (others c) session other f (λ d e.
      subst (λ (x : CompanyScope). Keeps (others c) (f x))
        (sym (same_scope session.scope subject other c d acting e)) k)

  pub append_audit-Keeps : (event : AuditEventInput) → Keeps (others c) (append_audit session event)
  unfolding append_audit others
  append_audit-Keeps event =
      let named = require_company_scope-names session.scope subject c acting in
      write-Keeps (others c) _ (λ s.
        ap (λ rows. record (others c s) { audit_events = rows })
          (foreign-insert c (λ row. or_blank row.tenant_id) (λ row. or_blank row.company_id)
            s.audit_events _ (rw (named.0) refl) (rw (named.1) refl)))
