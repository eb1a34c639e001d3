-- ===== src/Billing/Post/Outcome.antt =====
-- What a posting that returns has written (apps/api/src/billing/post-customer-invoice.ts).
use erpn.Billing.Post.Balanced.{total_of, validate_totals-balance}
use erpn.Database.Frame.Inversion.{
  after, after_read, after_lift, after_found, after_guard, unchanged,
}
use erpn.Database.Transaction.{
  select_first, query, lift, require_company_scope, write, random_uuid, Store, pure, CompanyScope,
  Session, ◌>>=◌,
}
use erpn.Database.Accounting.{record_journal, credit_or_zero, debit_or_zero, record_lines}
use erpn.Database.Types.{
  RecordedJournalEntry, AllocatedDocumentNumber, CustomerInvoiceLineRecord, CustomerInvoiceRecord,
  JournalLineRecord, NewJournalLine, JournalEntryRecord,
}
use erpn.Prelude.{◌∙◌, sym, ap, false, some, Text, refl, [], ◌+◌, ◌∷◌, map, ◌≡◌, List, ℕ}
use erpn.Result.{ok}
use erpn.Billing.Post.{
  consume_lines, tax_purpose, revenue_purpose, receivable_purpose, account_for, authorize,
  PostedCustomerInvoice, post_customer_invoice, audit_posting, record_posting,
}
use erpn.Authorization.{Grants, CompanyContext}
use erpn.Database.Billing.{
  list_lines_for_invoice, is_invoice, find_invoice, apply_invoice_transition,
}
use erpn.Billing.Status.{status_of, assert_transition}
use erpn.Statuses.CustomerInvoiceStatus.{posted}
use erpn.Billing.PostChecks.{validate_state, validate_orders, validate_document}
use erpn.Billing.Document.{journal_lines_for, validate_lines, resolve_tax_rate, validate_totals}
use erpn.Database.Access.{is_active, find_customer, find_company}
use erpn.Database.Frame.Reads.{
  list_lines_for_invoice-Keeps, find_invoice-Keeps, find_customer-Keeps, find_company-Keeps,
}
use erpn.Billing.Post.Journal.{
  Journaled, Journaled-between, journal, record_posting_lem, consume_lines-Keeps, allocation-Keeps,
}
use erpn.Billing.Post.Isolation.{
  account_for-Keeps, authorize-Keeps, validate_document-Keeps, validate_state-Keeps,
  validate_orders-Keeps,
}
use erpn.Decimal.{parse_decimal}
use erpn.Billing.Arithmetic.{amount_scale, rate_scale}
use erpn.Database.Frame.{lift-eq-ok}
use erpn.Prelude.Int.{is_neg}
use erpn.Decimal.Scales.{units_of}
use erpn.Sales.Sequences.{allocate_customer_invoice_number}

-- The debits and the credits of the recorded lines come to the same.
abbrev pub Balances : RecordedJournalEntry → Type 0
Balances journal =
    total_of (map (λ (line : JournalLineRecord). line.debit) journal.lines)
    ≡ total_of (map (λ (line : JournalLineRecord). line.credit) journal.lines)

module _ (session : Session) where
  -- The recorded lines have the amounts of the entry that was asked for.
  record_lines_lem :
      (c : CompanyScope) (entry : JournalEntryRecord) (n : ℕ) (lines : List NewJournalLine)
      (s t : Store) (rows : List JournalLineRecord)
      → record_lines session c entry n lines s ≡ ok (rows, t)
      → (map (λ (row : JournalLineRecord). row.debit) rows ≡ map debit_or_zero lines)
        × (map (λ (row : JournalLineRecord). row.credit) rows ≡ map credit_or_zero lines)
  unfolding record_lines pure
  record_lines_lem c entry n [] s t rows h =
      let none_left : [] ≡ rows = cc h in rw (← none_left) (refl, refl)
  record_lines_lem c entry n (line ∷ lines) s t rows h =
      after s t rows (random_uuid session) _ h (λ id r1 e1 h.
        after r1 t rows (write _) _ h (λ done r2 e2 h.
          after r2 t rows (record_lines session c entry (n + 1) lines) _ h (λ rest r3 e3 h.
            let (debit, credit) = record_lines_lem c entry (n + 1) lines r2 r3 rest e3 in
            (cc (h, debit), cc (h, credit)))))

  recorded :
      (context : CompanyContext) (grants : Grants) (invoice : CustomerInvoiceRecord)
      (lines : List CustomerInvoiceLineRecord) (jl : List NewJournalLine)
      (allocated : AllocatedDocumentNumber) (s t : Store)
      (p : CustomerInvoiceRecord × RecordedJournalEntry)
      → record_posting session context grants invoice lines jl allocated s ≡ ok (p, t)
      → (map (λ (row : JournalLineRecord). row.debit) (p.1.lines) ≡ map debit_or_zero jl)
        × (map (λ (row : JournalLineRecord). row.credit) (p.1.lines) ≡ map credit_or_zero jl)
  unfolding record_posting record_journal pure
  recorded context grants invoice lines jl allocated s t p h =
      after s t p (random_uuid session) _ h (λ id r1 e1 h.
        after r1 t p (record_journal session _) _ h (λ journal r2 e2 h.
          after r2 t p (apply_invoice_transition session _) _ h (λ posted r3 e3 h.
            after r3 t p (audit_posting session context grants invoice lines _ _) _ h
              (λ done r4 e4 h.
                let same : journal ≡ p.1 = cc h in
                rw (← same) (
                  after_lift r1 r2 journal (require_company_scope session.scope "Journal") _ e2
                    (λ d e e'. after r1 r2 journal (write _) _ e' (λ done r5 e5 h.
                      after r5 r2 journal (record_lines session d _ 0 jl) _ h (λ rows r6 e6 h.
                        let (debit, credit) = record_lines_lem d _ 0 jl r5 r6 rows e6 in
                        (cc (h, debit), cc (h, credit))))))))))

  -- The checks of the document hold of a posting that goes on.
  documented :
      (context : CompanyContext) (invoice : CustomerInvoiceRecord)
      (lines : List CustomerInvoiceLineRecord) (s : Store) (done : Unit {0})
      → validate_document session context invoice lines s ≡ ok (done, s)
      → validate_totals invoice lines ≡ ok tt
  unfolding validate_document
  documented context invoice lines s done h =
      after_read s s done (find_company session context.company_id) _
        (find_company-Keeps unchanged session context.company_id) h
        (λ found e h. after_found s s done found _ _ h (λ company e h.
          after_read s s done (find_customer session invoice.customer_id) _
            (find_customer-Keeps unchanged session invoice.customer_id) h
            (λ customer e h. after_guard s s done (is_active customer) _ _ h (λ e h.
              after_read s s done (validate_orders session _) _
                (validate_orders-Keeps unchanged session _) h
                (λ done' e h.
                  after_lift s s done (parse_decimal (resolve_tax_rate company) rate_scale) _ h
                    (λ rate e h. after_lift s s done (validate_lines rate lines) _ h (λ done'' e h.
                      (lift-eq-ok (validate_totals invoice lines) s s done h).0)))))))

  recorded-Balances :
      (context : CompanyContext) (grants : Grants) (invoice : CustomerInvoiceRecord)
      (lines : List CustomerInvoiceLineRecord) (receivable revenue tax : Text)
      (jl : List NewJournalLine) (allocated : AllocatedDocumentNumber) (s t : Store)
      (p : CustomerInvoiceRecord × RecordedJournalEntry)
      → validate_totals invoice lines ≡ ok tt
      → is_neg (units_of amount_scale invoice.tax_total) ≡ false
      → journal_lines_for invoice receivable revenue tax ≡ ok jl
      → record_posting session context grants invoice lines jl allocated s ≡ ok (p, t)
      → Balances (p.1)
  recorded-Balances context grants invoice lines receivable revenue tax jl allocated s t p checked h
        entry k =
      let (debit, credit) = recorded context grants invoice lines jl allocated s t p k in
      ap total_of debit
      ∙ validate_totals-balance invoice lines receivable revenue tax jl checked h entry
      ∙ ap total_of (sym credit)

module _ (session : Session) (c : CompanyScope)
    (acting : require_company_scope session.scope "Customer invoices" ≡ ok c) where
  find_invoice_lem :
      (id : Text) (s : Store)
      → find_invoice session id s ≡ ok (select_first (is_invoice c id) s.customer_invoices, s)
  unfolding find_invoice ◌>>=◌ lift query
  find_invoice_lem id s = rw (acting, lift)

  validated :
      (id : Text) (s : Store) (invoice row : CustomerInvoiceRecord)
      (lines : List CustomerInvoiceLineRecord)
      → select_first (is_invoice c id) s.customer_invoices ≡ some row
      → validate_state session id s ≡ ok ((invoice, lines), s)
      → row ≡ invoice
  unfolding validate_state pure
  validated id s invoice row lines there h =
      after_read s s (invoice, lines) (find_invoice session id) _
        (find_invoice-Keeps unchanged session id) h
        (λ found e h.
          after_found s s (invoice, lines) found _ _ h
            (λ read is_read h.
              after_lift s s (invoice, lines) (status_of read.status) _ h
                (λ from is_from h.
                  after_lift s s (invoice, lines) (assert_transition from posted) _ h
                    (λ done legal h.
                      after_read s s (invoice, lines) (list_lines_for_invoice session read.id) _
                        (list_lines_for_invoice-Keeps unchanged session read.id) h
                        (λ rows e' h.
                          after_guard s s (invoice, lines) _ _ _ h
                            (λ full h.
                              let same : read ≡ invoice = cc h in
                              cc (find_invoice_lem id s, e, is_read, same, there)))))))

  -- Where the tax total of the invoice is not negative, a posting that returns has added one entry to the
  -- journal, the one that it returns, with its lines, as they stand in the table, and nothing else, and the
  -- entry balances: the debits and the credits of its lines come to the same.
  pub post_customer_invoice-Balances :
      (context : CompanyContext) (id : Text) (s t : Store) (a : PostedCustomerInvoice)
      (row : CustomerInvoiceRecord)
      → select_first (is_invoice c id) s.customer_invoices ≡ some row
      → is_neg (units_of amount_scale row.tax_total) ≡ false
      → post_customer_invoice session context id s ≡ ok (a, t)
      → Balances a.journal_entry × Journaled s a.journal_entry t
  unfolding post_customer_invoice pure
  post_customer_invoice-Balances context id s t a row there positive h =
      after_read s t a (validate_state session id) _ (validate_state-Keeps unchanged session id) h
        (λ read e h.
          after_read s t a (validate_document session context read.0 read.1) _
            (validate_document-Keeps unchanged session context (read.0) (read.1)) h
            (λ done e' h.
              after_read s t a (authorize session context) _
                (authorize-Keeps unchanged session context) h
                (λ grants e'' h.
                  after_read s t a (account_for session receivable_purpose) _
                    (account_for-Keeps unchanged session receivable_purpose) h
                    (λ receivable e1 h.
                      after_read s t a (account_for session revenue_purpose) _
                        (account_for-Keeps unchanged session revenue_purpose) h
                        (λ revenue e2 h.
                          after_read s t a (account_for session tax_purpose) _
                            (account_for-Keeps unchanged session tax_purpose) h
                            (λ tax e3 h.
                              after s t a (consume_lines session _) _ h (λ consumed r1 k1 h.
                                after r1 t a (allocate_customer_invoice_number session) _ h
                                  (λ allocated r2 k2 h.
                                    after_lift r2 t a
                                      (journal_lines_for (read.0) receivable revenue tax) _ h
                                      (λ jl entry h.
                                        after r2 t a
                                          (record_posting session context grants (read.0) (read.1)
                                            jl allocated)
                                          _ h
                                          (λ p r3 k3 h.
                                            let is_it : p.1 ≡ a.journal_entry = cc h in
                                            let last : t ≡ r3 = cc h in
                                            rw (← is_it) (
                                              recorded-Balances session context grants (read.0)
                                                  (read.1) receivable revenue tax jl allocated r2 r3
                                                  p
                                                  (documented session context (read.0) (read.1) s
                                                    done e')
                                                  (ap
                                                      (λ (r : CustomerInvoiceRecord).
                                                        is_neg (units_of amount_scale r.tax_total))
                                                      (sym (
                                                        validated id s (read.0) row (read.1) there
                                                          e))
                                                    ∙ positive)
                                                  entry k3,
                                              Journaled-between s r2 r3 t (p.1)
                                                  ((allocation-Keeps session).kept r1 allocated r2
                                                      k2
                                                    ∙ (consume_lines-Keeps session _).kept s
                                                        consumed r1 k1)
                                                  (ap journal last)
                                                  (record_posting_lem session context grants
                                                    (read.0) (read.1) jl allocated r2 r3 p k3),
                                            )))))))))))
