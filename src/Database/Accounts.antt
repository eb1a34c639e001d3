-- ===== src/Database/Accounts.antt =====
-- apps/api/src/database/repositories/accounting.repository.ts: the chart of accounts, and the account
-- that each kind of posting uses.
use erpn.Database.Types.{
  AccountRecord, NewAccount, CompanyPostingAccountRecord, NewCompanyPostingAccount,
}
use erpn.Database.Accounting.{is_posting_account, find_for_purpose}
use erpn.Database.Transaction.{
  Session, Tx, CompanyScope, query, write, pure, lift, throw, require_company_scope, select_first,
  select_where, refuse_unless, some_row, update_where, returning_first, ◌>>=◌, ◌>>◌,
}
use erpn.Prelude.Sort.{sort_by}
use erpn.Database.Access.{text_member}
use erpn.Failure.{constraint_violated, record_not_found, concurrency_conflict}
use erpn.Prelude.{
  false, not, leb, length, none, ◌==◌, ◌&&◌, some, [], String, text_eq, ◌∷◌, ◌+◌, text_lt, ℕ, Bool,
  List, Option, codes, ◌++◌, Text,
}

abbrev pub is_account : CompanyScope → Text → AccountRecord → Bool
is_account c id row =
    text_eq row.id id && (text_eq row.tenant_id c.tenant_id && text_eq row.company_id c.company_id)

abbrev pub is_account_code : CompanyScope → Text → AccountRecord → Bool
is_account_code c code row =
    text_eq row.code code
    && (text_eq row.tenant_id c.tenant_id && text_eq row.company_id c.company_id)

abbrev pub is_company_account : CompanyScope → AccountRecord → Bool
is_company_account c row = text_eq row.tenant_id c.tenant_id && text_eq row.company_id c.company_id

abbrev pub code_before : AccountRecord → AccountRecord → Bool
code_before a b = text_lt a.code b.code

unfoldable pub find_account : Session → Text → Tx (Option AccountRecord)
find_account session id = do
  c ← lift (require_company_scope session.scope "Accounts")
  query (λ s. select_first (is_account c id) s.accounts)

unfoldable pub find_account_by_code : Session → Text → Tx (Option AccountRecord)
find_account_by_code session code = do
  c ← lift (require_company_scope session.scope "Accounts")
  query (λ s. select_first (is_account_code c code) s.accounts)

unfoldable pub list_accounts : Session → Tx (List AccountRecord)
list_accounts session = do
  c ← lift (require_company_scope session.scope "Accounts")
  query (λ s. sort_by code_before (select_where (is_company_account c) s.accounts))

-- The status and the version are the columns' defaults.
abbrev pub account_row : CompanyScope → NewAccount → AccountRecord
account_row c input = record {
  id = input.id;
  tenant_id = c.tenant_id;
  company_id = c.company_id;
  code = input.code;
  name = input.name;
  type = input.type;
  status = codes "active";
  version = 1;
}

unfoldable pub ends_with_space : Text → Bool
ends_with_space [] = false
ends_with_space (a ∷ []) = a == 32
ends_with_space (a ∷ (b ∷ t)) = ends_with_space (b ∷ t)

unfoldable pub starts_with_space : Text → Bool
starts_with_space [] = false
starts_with_space (a ∷ t) = a == 32

-- `value = btrim(value) AND length(value) BETWEEN 1 AND most`
unfoldable pub is_trimmed_within : ℕ → Text → Bool
is_trimmed_within most value =
    (not (starts_with_space value) && not (ends_with_space value))
    && (leb 1 (length value) && leb (length value) most)

abbrev pub account_type_texts : List Text
account_type_texts =
    codes "asset" ∷ codes "liability" ∷ codes "equity" ∷ codes "revenue" ∷ codes "expense" ∷ []

-- The unique keys of `accounts`, which name no tenant.
abbrev pub is_code_key : CompanyScope → Text → AccountRecord → Bool
is_code_key c code row = text_eq row.company_id c.company_id && text_eq row.code code

abbrev pub is_name_key : CompanyScope → Text → AccountRecord → Bool
is_name_key c name row = text_eq row.company_id c.company_id && text_eq row.name name

-- The checks and the unique keys of the table come first.
unfoldable pub create_account : Session → NewAccount → Tx AccountRecord
create_account session input = do
  c ← lift (require_company_scope session.scope "Accounts")
  refuse_unless (is_trimmed_within 32 input.code) (constraint_violated "accounts_code_check")
  refuse_unless (is_trimmed_within 200 input.name) (constraint_violated "accounts_name_check")
  refuse_unless (text_member input.type account_type_texts)
      (constraint_violated "accounts_type_check")
  code_taken ← query (λ s. some_row (is_code_key c input.code) s.accounts)
  refuse_unless (not code_taken) (constraint_violated "accounts_company_code_key")
  name_taken ← query (λ s. some_row (is_name_key c input.name) s.accounts)
  refuse_unless (not name_taken) (constraint_violated "accounts_company_name_key")
  write (λ s. record s { accounts = s.accounts ++ (account_row c input ∷ []) })
  pure (account_row c input)

-- What an update that matched nothing answers, by whether the row is there.
unfoldable pub refuse_update : {A B : Type 0} → Option B → String → Text → Tx A
refuse_update none subject id = throw (record_not_found subject id)
refuse_update (some current) subject id = throw (concurrency_conflict subject id)

unfoldable pub updated_or_refused : {A B : Type 0} → Option A → Tx (Option B) → String → Text → Tx A
updated_or_refused (some row) find subject id = pure row
updated_or_refused none find subject id = do current ← find; refuse_update current subject id

abbrev pub is_expected_account : CompanyScope → Text → ℕ → AccountRecord → Bool
is_expected_account c id expected_version row =
    is_account c id row && row.version == expected_version

abbrev pub archived_account : AccountRecord → AccountRecord
archived_account row = record row { status = codes "archived"; version = row.version + 1 }

unfoldable pub archive_account : Session → Text → ℕ → Tx AccountRecord
archive_account session id expected_version = do
  c ← lift (require_company_scope session.scope "Accounts")
  row ←
      query (λ s.
        returning_first (is_expected_account c id expected_version) archived_account s.accounts)
  write (λ s. record s {
    accounts = update_where (is_expected_account c id expected_version) archived_account s.accounts;
  })
  updated_or_refused row (find_account session id) "Accounts" id

abbrev pub is_company_posting_account : CompanyScope → CompanyPostingAccountRecord → Bool
is_company_posting_account c row =
    text_eq row.tenant_id c.tenant_id && text_eq row.company_id c.company_id

abbrev pub purpose_before : CompanyPostingAccountRecord → CompanyPostingAccountRecord → Bool
purpose_before a b = text_lt a.purpose b.purpose

unfoldable pub list_posting_accounts : Session → Tx (List CompanyPostingAccountRecord)
list_posting_accounts session = do
  c ← lift (require_company_scope session.scope "Posting accounts")
  query
      (λ s. sort_by purpose_before (select_where (is_company_posting_account c) s.posting_accounts))

abbrev pub posting_account_row :
    CompanyScope → NewCompanyPostingAccount → CompanyPostingAccountRecord
posting_account_row c input = record {
  id = input.id;
  tenant_id = c.tenant_id;
  company_id = c.company_id;
  purpose = input.purpose;
  account_id = input.account_id;
  version = 1;
}

unfoldable pub create_posting_account :
    Session → NewCompanyPostingAccount → Tx CompanyPostingAccountRecord
create_posting_account session input = do
  c ← lift (require_company_scope session.scope "Posting accounts")
  write (λ s. record s {
    posting_accounts = s.posting_accounts ++ (posting_account_row c input ∷ []);
  })
  pure (posting_account_row c input)

abbrev pub is_expected_posting_account :
    CompanyScope → Text → ℕ → CompanyPostingAccountRecord → Bool
is_expected_posting_account c purpose expected_version row =
    is_posting_account c purpose row && row.version == expected_version

abbrev pub pointed_to : Text → CompanyPostingAccountRecord → CompanyPostingAccountRecord
pointed_to account_id row = record row { account_id = account_id; version = row.version + 1 }

unfoldable pub point_to : Session → Text → Text → ℕ → Tx CompanyPostingAccountRecord
point_to session purpose account_id expected_version = do
  c ← lift (require_company_scope session.scope "Posting accounts")
  row ← query (λ s.
      returning_first (is_expected_posting_account c purpose expected_version)
        (pointed_to account_id) s.posting_accounts)
  write (λ s. record s {
    posting_accounts =
        update_where (is_expected_posting_account c purpose expected_version)
          (pointed_to account_id) s.posting_accounts;
  })
  updated_or_refused row (find_for_purpose session purpose) "Posting accounts" purpose
