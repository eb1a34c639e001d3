-- ===== src/Sales/Sequences/Gapless.antt =====
-- The numbers that `allocate` of apps/api/src/database/repositories/sales.repository.ts issues.
use erpn.Database.Transaction.{
  pure, write, unless_absent, query, select_first, update_where, lift, ◌>>=◌, Store,
  require_company_scope, CompanyScope, Session,
}
use erpn.Prelude.{
  ◌∙◌, sym, ap, ℕ, ◌≢◌, refl, ◌-◌, ◌+◌, arith, text_eq_refl, none, true, some, Option, Text, ◌≡◌,
}
use erpn.Result.{err, Result, ok}
use erpn.Database.Sales.{advanced, is_sequence, is_locked_sequence, allocate}
use erpn.Database.Types.{AllocatedDocumentNumber, DocumentNumberSequenceRecord}
use erpn.Database.Transaction.Rows.{
  select_first-update_where, select_first-narrow, select_first-matches,
}
use erpn.Failure.{sequence_missing}
use erpn.Sales.DocumentNumber.{format_document_number_injective, format_document_number}

module _ (session : Session) (c : CompanyScope)
    (acting : require_company_scope session.scope "Sales documents" ≡ ok c) (doc_type : Text) where
  -- The tables after the counter of a row is taken.
  abbrev taken : Store → DocumentNumberSequenceRecord → Store
  taken s row = record s {
    document_number_sequences =
        update_where (is_locked_sequence c doc_type row.id) advanced s.document_number_sequences;
  }

  abbrev issued :
      Store → DocumentNumberSequenceRecord → Result Text → Result (AllocatedDocumentNumber × Store)
  issued s row (err e) = err e
  issued s row (ok formatted) =
      ok
        (record { doc_type = doc_type; value = row.next_value; formatted = formatted }, taken s row)

  abbrev counter : Store → Option DocumentNumberSequenceRecord
  counter s = select_first (is_sequence c doc_type) s.document_number_sequences

  locks_itself :
      (s : Store) (row : DocumentNumberSequenceRecord)
      → counter s ≡ some row
      → is_locked_sequence c doc_type row.id row ≡ true
  locks_itself s row h =
      rw (text_eq_refl row.id)
        (select_first-matches (is_sequence c doc_type) s.document_number_sequences row h)

  locked_row :
      (s : Store) (row : DocumentNumberSequenceRecord)
      → counter s ≡ some row
      → select_first (is_locked_sequence c doc_type row.id) s.document_number_sequences ≡ some row
  locked_row s row h =
      select_first-narrow (is_sequence c doc_type) (is_locked_sequence c doc_type row.id)
        s.document_number_sequences row (λ y n. ground arith) (locks_itself s row h) h

  one_back : (n : ℕ) → n + 1 - 1 ≡ n
  one_back n = omega arith

  allocate_found :
      (s : Store) (row : DocumentNumberSequenceRecord) (x : Result Text)
      → counter s ≡ some row
      → format_document_number row.prefix row.next_value ≡ x
      → allocate session doc_type s ≡ issued s row x
  unfolding allocate ◌>>=◌ lift query unless_absent write pure
  allocate_found s row (ok formatted) h e = rw (
    acting,
    lift,
    h,
    unless_absent,
    locked_row s row h,
    unless_absent,
    one_back row.next_value,
    e,
  )
  allocate_found s row (err f) h e = rw (
    acting,
    lift,
    h,
    unless_absent,
    locked_row s row h,
    unless_absent,
    one_back row.next_value,
    e,
  )

  allocate_missing :
      (s : Store) → counter s ≡ none → allocate session doc_type s ≡ err (sequence_missing doc_type)
  unfolding allocate ◌>>=◌ lift query unless_absent
  allocate_missing s h = rw (acting, lift, h, unless_absent)

  -- The counter after a number is taken from it.
  counter-taken :
      (s : Store) (row : DocumentNumberSequenceRecord)
      → counter s ≡ some row
      → counter (taken s row) ≡ some (advanced row)
  counter-taken s row h =
      select_first-update_where (is_sequence c doc_type) (is_locked_sequence c doc_type row.id)
        advanced s.document_number_sequences row (λ y n. ground arith) (λ y n. n)
        (locks_itself s row h) h

  -- What a success of `allocate` says.
  pub record Allocated (s t : Store) (a : AllocatedDocumentNumber) : Type 0 where
    pub row : DocumentNumberSequenceRecord
    pub found : counter s ≡ some row
    pub value_is : a.value ≡ row.next_value
    pub printed : format_document_number row.prefix a.value ≡ ok a.formatted
    pub after : t ≡ taken s row
    pub advanced_row : counter t ≡ some (advanced row)

  issued_from :
      (s t : Store) (a : AllocatedDocumentNumber) (row : DocumentNumberSequenceRecord)
      (x : Result Text)
      → counter s ≡ some row
      → format_document_number row.prefix row.next_value ≡ x
      → issued s row x ≡ ok (a, t)
      → Allocated s t a
  issued_from s t a row (err f) h e i = absurd (cc i)
  issued_from s t a row (ok formatted) h e i =
      let moved : t ≡ taken s row = cc i in
      record {
        row = row;
        found = h;
        value_is = cc i;
        printed = cc (i, e);
        after = moved;
        advanced_row = ap counter moved ∙ counter-taken s row h;
      }

  issued_by :
      (s t : Store) (a : AllocatedDocumentNumber) (x : Option DocumentNumberSequenceRecord)
      → counter s ≡ x
      → allocate session doc_type s ≡ ok (a, t)
      → Allocated s t a
  issued_by s t a none e h = absurd (cc (allocate_missing s e, h))
  issued_by s t a (some row) e h =
      issued_from s t a row _ e refl (sym (allocate_found s row _ e refl) ∙ h)

  pub allocate_lem :
      (s t : Store) (a : AllocatedDocumentNumber)
      → allocate session doc_type s ≡ ok (a, t)
      → Allocated s t a
  allocate_lem s t a h = issued_by s t a (counter s) refl h

  -- While the counter of a company stands, two numbers taken one after another are consecutive and are
  -- printed differently: none is skipped and none is issued twice.
  pub allocate-allocate :
      (s t u : Store) (a b : AllocatedDocumentNumber)
      → allocate session doc_type s ≡ ok (a, t)
      → allocate session doc_type t ≡ ok (b, u)
      → (b.value ≡ a.value + 1) × (a.formatted ≢ b.formatted)
  allocate-allocate s t u a b h k =
      let first = allocate_lem s t a h in
      let second = allocate_lem t u b k in
      let same : advanced first.row ≡ second.row = cc (first.advanced_row, second.found) in
      let next : b.value ≡ a.value + 1 =
        second.value_is
        ∙ sym (ap (λ (row : DocumentNumberSequenceRecord). row.next_value) same)
        ∙ ap (λ n. n + 1) (sym first.value_is) in
      let prefixes : first.row.prefix ≡ second.row.prefix =
        ap (λ (row : DocumentNumberSequenceRecord). row.prefix) same in
      (
        next,
        λ e.
            let equal_values : a.value ≡ b.value =
              format_document_number_injective second.row.prefix a.value b.value b.formatted
                (cc (first.printed, prefixes, e)) second.printed in
            omega (arith, next, equal_values),
      )
