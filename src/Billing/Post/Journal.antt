-- ===== src/Billing/Post/Journal.antt =====
-- What a posting writes into the journal (apps/api/src/billing/post-customer-invoice.ts and `record` of
-- apps/api/src/database/repositories/accounting.repository.ts).
use erpn.Database.Transaction.{
  random_uuid, write, pure, require_company_scope, Store, CompanyScope, Session,
}
use erpn.Database.Accounting.{record_journal, record_lines, line_row, entry_row}
use erpn.Database.Types.{
  RecordedJournalEntry, AllocatedDocumentNumber, CustomerInvoiceLineRecord, CustomerInvoiceRecord,
  JournalLineRecord, NewJournalLine, NewJournalEntry, JournalEntryRecord, SalesOrderTransition,
}
use erpn.Database.Access.{append_audit}
use erpn.Database.Billing.{apply_invoice_transition}
use erpn.Billing.Post.{record_posting, audit_posting, consume_lines, BilledQuantity}
use erpn.Sales.Sequences.{allocate_customer_invoice_number, customer_invoice_doc_type}
use erpn.Authorization.{Grants, CompanyContext}
use erpn.Database.Frame.{Keeps, keeps, write-Keeps, random_uuid-Keeps}
use erpn.Database.Frame.Inversion.{after, after_lift}
use erpn.Database.Frame.Writes.{append_audit-Keeps, allocate-Keeps, consume_invoiced_quantity-Keeps}
use erpn.Prelude.{
  ◌∙◌, sym, ap, Text, refl, [], ◌+◌, ◌∷◌, ◌++◌, ◌≡◌, List, ℕ, append_assoc, append-nil,
}
use erpn.Result.{ok}
use erpn.Database.Sales.{consume_invoiced_quantity}

-- The two tables of the journal.
abbrev pub journal : Store → List JournalEntryRecord × List JournalLineRecord
journal s = (s.journal_entries, s.journal_lines)

-- The journal got this entry, with these lines, and nothing else.
abbrev pub Journaled : Store → RecordedJournalEntry → Store → Type 0
Journaled s r t =
    (t.journal_entries ≡ s.journal_entries ++ (r.entry ∷ []))
    × (t.journal_lines ≡ s.journal_lines ++ r.lines)

pub Journaled-between :
    (s s' t t' : Store) (r : RecordedJournalEntry)
    → journal s' ≡ journal s
    → journal t' ≡ journal t
    → Journaled s' r t
    → Journaled s r t'
Journaled-between s s' t t' r before later (entries, lines) = (
  ap {B = List JournalEntryRecord} (λ j. j.0) later
      ∙ entries
      ∙ ap (λ j. j.0 ++ (r.entry ∷ [])) before,
  ap {B = List JournalLineRecord} (λ j. j.1) later ∙ lines ∙ ap (λ j. j.1 ++ r.lines) before,
)

module _ (session : Session) where
  record_lines-Keeps :
      (c : CompanyScope) (entry : JournalEntryRecord) (n : ℕ) (lines : List NewJournalLine)
      → Keeps (λ s. s.journal_entries) (record_lines session c entry n lines)
  unfolding record_lines
  record_lines-Keeps c entry n [] = search keeps
  record_lines-Keeps c entry n (line ∷ lines) =
      let rest : (u : Unit {0})
          → Keeps (λ s. s.journal_entries) (record_lines session c entry (n + 1) lines) =
        λ u. record_lines-Keeps c entry (n + 1) lines in
      let fresh : (u : Unit {0}) → Keeps (λ s. s.journal_entries) (random_uuid session) =
        λ u. random_uuid-Keeps (λ s. s.journal_entries) session (λ s m. refl) in
      search (keeps, fresh, write-Keeps, rest) depth 30

  record_lines-append :
      (c : CompanyScope) (entry : JournalEntryRecord) (n : ℕ) (lines : List NewJournalLine)
      (s t : Store) (rows : List JournalLineRecord)
      → record_lines session c entry n lines s ≡ ok (rows, t)
      → t.journal_lines ≡ s.journal_lines ++ rows
  unfolding record_lines pure write
  record_lines-append c entry n [] s t rows h =
      let none_left : [] ≡ rows = cc h in
      let same : s ≡ t = cc h in rw (← none_left, ← same) (sym (append-nil s.journal_lines))
  record_lines-append c entry n (line ∷ lines) s t rows h =
      after s t rows (random_uuid session) _ h (λ id r1 e1 h.
        after r1 t rows (write _) _ h (λ done r2 e2 h.
          after r2 t rows (record_lines session c entry (n + 1) lines) _ h (λ rest r3 e3 h.
            let row : JournalLineRecord = line_row c entry n id line in
            let drawn : r1.journal_lines ≡ s.journal_lines =
              (random_uuid-Keeps (λ v. v.journal_lines) session (λ v m. refl)).kept s id r1 e1 in
            let written : r2 ≡ record r1 { journal_lines = r1.journal_lines ++ (row ∷ []) } =
              cc e2 in
            let more = record_lines-append c entry (n + 1) lines r2 r3 rest e3 in
            let last : t ≡ r3 = cc h in
            let all : row ∷ rest ≡ rows = cc h in
            ap (λ (v : Store). v.journal_lines) last
            ∙ more
            ∙ ap (λ (v : Store). v.journal_lines ++ rest) written
            ∙ ap (λ l. (l ++ (row ∷ [])) ++ rest) drawn
            ∙ append_assoc s.journal_lines (row ∷ []) rest
            ∙ ap (λ l. s.journal_lines ++ l) all)))

  transition-Keeps :
      (input : SalesOrderTransition) → Keeps journal (apply_invoice_transition session input)
  unfolding apply_invoice_transition
  transition-Keeps input = search (keeps, write-Keeps) depth 20

  record_journal_lem :
      (input : NewJournalEntry) (s t : Store) (r : RecordedJournalEntry)
      → record_journal session input s ≡ ok (r, t)
      → Journaled s r t
  unfolding record_journal pure write
  record_journal_lem input s t r h =
      after_lift s t r (require_company_scope session.scope "Journal") _ h (λ c acting h.
        after s t r (write _) _ h (λ done r1 e1 h.
          after r1 t r (record_lines session c _ 0 input.lines) _ h (λ rows r2 e2 h.
            let written : r1
                ≡ record s { journal_entries = s.journal_entries ++ (entry_row c input ∷ []) } =
              cc e1 in
            let last : t ≡ r2 = cc h in
            let is_it : r ≡ record { entry = entry_row c input; lines = rows } = cc h in
            let entries =
              (record_lines-Keeps c (entry_row c input) 0 input.lines).kept r1 rows r2 e2 in
            let lines = record_lines-append c (entry_row c input) 0 input.lines r1 r2 rows e2 in
            rw is_it (
              ap (λ (v : Store). v.journal_entries) last
                  ∙ entries
                  ∙ ap (λ (v : Store). v.journal_entries) written,
              ap (λ (v : Store). v.journal_lines) last
                  ∙ lines
                  ∙ ap (λ (v : Store). v.journal_lines ++ rows) written,
            ))))

  -- A posting records the entry that it returns.
  pub record_posting_lem :
      (context : CompanyContext) (grants : Grants) (invoice : CustomerInvoiceRecord)
      (lines : List CustomerInvoiceLineRecord) (jl : List NewJournalLine)
      (allocated : AllocatedDocumentNumber) (s t : Store)
      (p : CustomerInvoiceRecord × RecordedJournalEntry)
      → record_posting session context grants invoice lines jl allocated s ≡ ok (p, t)
      → Journaled s (p.1) t
  unfolding record_posting pure audit_posting
  record_posting_lem context grants invoice lines jl allocated s t p h =
      after s t p (random_uuid session) _ h (λ id r1 e1 h.
        after r1 t p (record_journal session _) _ h (λ recorded r2 e2 h.
          after r2 t p (apply_invoice_transition session _) _ h (λ posted r3 e3 h.
            after r3 t p (append_audit session _) _ h (λ done r4 e4 h.
              let is_it : recorded ≡ p.1 = cc h in
              let last : t ≡ r4 = cc h in
              rw (← is_it) (
                Journaled-between s r1 r2 t recorded
                  ((random_uuid-Keeps journal session (λ v m. refl)).kept s id r1 e1)
                  (ap journal last
                    ∙ (append_audit-Keeps journal session _ (λ v rows. refl)).kept r3 done r4 e4
                    ∙ (transition-Keeps _).kept r2 posted r3 e3)
                  (record_journal_lem _ r1 r2 recorded e2))))))

  pub consume_lines-Keeps :
      (lines : List BilledQuantity) → Keeps journal (consume_lines session lines)
  unfolding consume_lines
  consume_lines-Keeps [] = search keeps
  consume_lines-Keeps (line ∷ lines) =
      let rest : (u : Unit {0}) → Keeps journal (consume_lines session lines) =
        λ u. consume_lines-Keeps lines in
      let consume : (id quantity : Text)
          → Keeps journal (consume_invoiced_quantity session id quantity) =
        λ id quantity. consume_invoiced_quantity-Keeps journal session id quantity (λ s r. refl) in
      search (keeps, consume, rest) depth 30

  pub allocation-Keeps : Keeps journal (allocate_customer_invoice_number session)
  unfolding allocate_customer_invoice_number
  allocation-Keeps = allocate-Keeps journal session customer_invoice_doc_type (λ s rows. refl)
