-- ===== src/Database/Accounting.antt =====
-- apps/api/src/database/repositories/accounting.repository.ts: posting accounts and the journal.
use erpn.Prelude.{◌+◌, ◌++◌, ◌&&◌, text_eq, List, Bool, codes, ℕ, Text, Option, [], ◌∷◌}
use erpn.Database.Transaction.{
  random_uuid, select_first, pure, write, query, require_company_scope, lift, Tx, Session,
  CompanyScope, ◌>>=◌, ◌>>◌,
}
use erpn.Database.Types.{
  credit_of, debit_of, JournalLineRecord, NewJournalLine, RecordedJournalEntry,
  CompanyPostingAccountRecord, JournalEntryRecord, NewJournalEntry,
}

abbrev pub is_posting_account : CompanyScope → Text → CompanyPostingAccountRecord → Bool
is_posting_account c purpose row =
    text_eq row.purpose purpose
    && (text_eq row.tenant_id c.tenant_id && text_eq row.company_id c.company_id)

unfoldable pub find_for_purpose : Session → Text → Tx (Option CompanyPostingAccountRecord)
find_for_purpose session purpose = do
  c ← lift (require_company_scope session.scope "Posting accounts")
  query (λ s. select_first (is_posting_account c purpose) s.posting_accounts)

abbrev pub account_of : NewJournalLine → Text
account_of (debit_of account amount) = account
account_of (credit_of account amount) = account

-- `line.debit ?? '0'` and `line.credit ?? '0'`, as the columns of four places give them back
abbrev pub debit_or_zero : NewJournalLine → Text
debit_or_zero (debit_of account amount) = amount
debit_or_zero (credit_of account amount) = codes "0.0000"

abbrev pub credit_or_zero : NewJournalLine → Text
credit_or_zero (debit_of account amount) = codes "0.0000"
credit_or_zero (credit_of account amount) = amount

-- The row of a line, where so many are before it.
abbrev pub line_row :
    CompanyScope → JournalEntryRecord → ℕ → Text → NewJournalLine → JournalLineRecord
line_row c entry line_number id line = record {
  id = id;
  tenant_id = c.tenant_id;
  company_id = c.company_id;
  journal_entry_id = entry.id;
  line_number = line_number + 1;
  account_id = account_of line;
  debit = debit_or_zero line;
  credit = credit_or_zero line;
  currency = entry.currency;
}

-- The loop of `record`: one insert for each line, numbered from one.
unfoldable pub record_lines :
    Session
    → CompanyScope
    → JournalEntryRecord
    → ℕ
    → List NewJournalLine
    → Tx (List JournalLineRecord)
record_lines session c entry line_number [] = pure []
record_lines session c entry line_number (line ∷ lines) = do
  id ← random_uuid session
  let row : JournalLineRecord = line_row c entry line_number id line
  write (λ s. record s { journal_lines = s.journal_lines ++ (row ∷ []) })
  rest ← record_lines session c entry (line_number + 1) lines
  pure (row ∷ rest)

-- The row of an entry.
abbrev pub entry_row : CompanyScope → NewJournalEntry → JournalEntryRecord
entry_row c input = record {
  id = input.id;
  tenant_id = c.tenant_id;
  company_id = c.company_id;
  entry_date = input.entry_date;
  memo = input.memo;
  currency = input.currency;
  source_doc_type = input.source_doc_type;
  source_doc_id = input.source_doc_id;
}

unfoldable pub record_journal : Session → NewJournalEntry → Tx RecordedJournalEntry
record_journal session input = do
  c ← lift (require_company_scope session.scope "Journal")
  let entry : JournalEntryRecord = entry_row c input
  write (λ s. record s { journal_entries = s.journal_entries ++ (entry ∷ []) })
  lines ← record_lines session c entry 0 input.lines
  pure (record { entry = entry; lines = lines })
