-- ===== src/Accounting.antt =====
-- apps/api/src/accounting/chart-of-accounts.ts and posting-accounts.ts: the accounts of a new company,
-- and which of them its postings use.
pub mod Found
pub mod Chart
pub mod Mapped
pub mod Provisioned
use erpn.Database.Accounts.{
  list_accounts, create_account, list_posting_accounts, create_posting_account,
}
use erpn.Database.Types.{AccountRecord, CompanyPostingAccountRecord}
use erpn.Database.Access.{text_member}
use erpn.Database.Transaction.{Session, Tx, pure, unless_absent, random_uuid, ◌>>=◌}
use erpn.Failure.{unreachable}
use erpn.Prelude.{if◌then◌else◌, codes, text_eq, none, map, some, ◌∷◌, [], Text, List, Option, Bool}

pub data AccountType : Type 0 where
  asset liability equity revenue expense : AccountType

pub data NormalBalance : Type 0 where
  debit credit : NormalBalance

unfoldable pub type_text : AccountType → Text
type_text asset = codes "asset"
type_text liability = codes "liability"
type_text equity = codes "equity"
type_text revenue = codes "revenue"
type_text expense = codes "expense"

abbrev pub account_types : List AccountType
account_types = asset ∷ liability ∷ equity ∷ revenue ∷ expense ∷ []

unfoldable pub is_account_type : Text → Bool
is_account_type value = text_member value (map type_text account_types)

unfoldable pub normal_balance_of : AccountType → NormalBalance
normal_balance_of asset = debit
normal_balance_of liability = credit
normal_balance_of equity = credit
normal_balance_of revenue = credit
normal_balance_of expense = debit

pub record DefaultAccount : Type 0 where
  pub code : Text
  pub name : Text
  pub type : AccountType

abbrev pub default_chart_of_accounts : List DefaultAccount
default_chart_of_accounts =
    record { code = codes "1200"; name = codes "Accounts Receivable"; type = asset }
    ∷ record { code = codes "2200"; name = codes "Tax Payable"; type = liability }
    ∷ record { code = codes "4000"; name = codes "Sales Revenue"; type = revenue }
    ∷ []

-- `new Map(rows.map((row) => [key, row])).get(key)`: of several rows of a key the last stands.
unfoldable pub map_get : {A : Type 0} → (A → Bool) → List A → Option A
map_get matches [] = none
map_get matches (row ∷ rows) = elim (map_get matches rows) [
  | some later ↦ some later
  | none ↦ if matches row then some row else none
]

abbrev pub has_code : Text → AccountRecord → Bool
has_code code row = text_eq row.code code

unfoldable pub account_or_new : Session → DefaultAccount → Option AccountRecord → Tx AccountRecord
account_or_new session wanted (some already) = pure already
account_or_new session wanted none = do
  id ← random_uuid session
  create_account session
      (record { id = id; code = wanted.code; name = wanted.name; type = type_text wanted.type })

-- The loop of `provisionChartOfAccounts`.
unfoldable pub provision_accounts :
    Session → List AccountRecord → List DefaultAccount → Tx (List AccountRecord)
provision_accounts session existing [] = pure []
provision_accounts session existing (wanted ∷ rest) = do
  first ← account_or_new session wanted (map_get (has_code wanted.code) existing)
  more ← provision_accounts session existing rest
  pure (first ∷ more)

unfoldable pub provision_chart_of_accounts : Session → Tx (List AccountRecord)
provision_chart_of_accounts session = do
  existing ← list_accounts session
  provision_accounts session existing default_chart_of_accounts

pub data PostingAccountPurpose : Type 0 where
  accounts_receivable sales_revenue tax_payable : PostingAccountPurpose

unfoldable pub purpose_text : PostingAccountPurpose → Text
purpose_text accounts_receivable = codes "accounts_receivable"
purpose_text sales_revenue = codes "sales_revenue"
purpose_text tax_payable = codes "tax_payable"

abbrev pub posting_account_purposes : List PostingAccountPurpose
posting_account_purposes = accounts_receivable ∷ sales_revenue ∷ tax_payable ∷ []

unfoldable pub is_posting_account_purpose : Text → Bool
is_posting_account_purpose value = text_member value (map purpose_text posting_account_purposes)

unfoldable pub default_posting_account : PostingAccountPurpose → Text
default_posting_account accounts_receivable = codes "1200"
default_posting_account sales_revenue = codes "4000"
default_posting_account tax_payable = codes "2200"

abbrev pub has_purpose : PostingAccountPurpose → CompanyPostingAccountRecord → Bool
has_purpose purpose row = text_eq row.purpose (purpose_text purpose)

unfoldable pub mapping_or_new :
    Session
    → List AccountRecord
    → PostingAccountPurpose
    → Option CompanyPostingAccountRecord
    → Tx CompanyPostingAccountRecord
mapping_or_new session accounts purpose (some already) = pure already
mapping_or_new session accounts purpose none = do
  account ←
      unless_absent (map_get (has_code (default_posting_account purpose)) accounts)
        (unreachable "the default chart has no account for a purpose")
  id ← random_uuid session
  create_posting_account session
      (record { id = id; purpose = purpose_text purpose; account_id = account.id })

-- The loop of `provisionPostingAccounts`.
unfoldable pub provision_mappings :
    Session
    → List AccountRecord
    → List CompanyPostingAccountRecord
    → List PostingAccountPurpose
    → Tx (List CompanyPostingAccountRecord)
provision_mappings session accounts existing [] = pure []
provision_mappings session accounts existing (purpose ∷ rest) = do
  first ← mapping_or_new session accounts purpose (map_get (has_purpose purpose) existing)
  more ← provision_mappings session accounts existing rest
  pure (first ∷ more)

unfoldable pub provision_posting_accounts :
    Session → List AccountRecord → Tx (List CompanyPostingAccountRecord)
provision_posting_accounts session accounts = do
  existing ← list_posting_accounts session
  provision_mappings session accounts existing posting_account_purposes

-- The two together, as a company is provisioned.
unfoldable pub provision_accounting : Session → Tx (List CompanyPostingAccountRecord)
provision_accounting session = do
  chart_of_accounts ← provision_chart_of_accounts session
  provision_posting_accounts session chart_of_accounts
