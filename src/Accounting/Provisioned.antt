-- ===== src/Accounting/Provisioned.antt =====
-- A company after `provisionChartOfAccounts` and `provisionPostingAccounts` of apps/api/src/accounting.
use erpn.Database.Transaction.{
  some_row, pure, unless_absent, select_where, query, lift, Store, require_company_scope,
  CompanyScope, Session, ◌>>=◌,
}
use erpn.Accounting.{
  DefaultAccount, PostingAccountPurpose, accounts_receivable, sales_revenue, tax_payable,
  default_chart_of_accounts, posting_account_purposes, default_posting_account, purpose_text,
  has_code, has_purpose, provision_chart_of_accounts, provision_posting_accounts,
  provision_accounting,
}
use erpn.Accounting.Found.{All-weaken, some_row-list, select_first-some_row}
use erpn.Database.Accounts.{is_trimmed_within, starts_with_space, ends_with_space}
use erpn.Accounting.Chart.{
  WellFormed, AllApart, Listed, HasAccount, IsFree, provision_accounts_lem,
  provision_accounts_again, Has,
}
use erpn.Accounting.Mapped.{provision_mappings_lem, provision_mappings_again, HasAll, HasMapping}
use erpn.Database.Accounts.{
  list_accounts, is_account_code, is_company_account, code_before, list_posting_accounts,
  is_company_posting_account, purpose_before,
}
use erpn.Database.Accounting.{is_posting_account, find_for_purpose}
use erpn.Database.Isolation.{any_subject}
use erpn.Billing.Post.{account_for}
use erpn.Prelude.{text_eq, ◌⊎◌, inl, inr, ◌∙◌, sym, map, true, refl, All, arith, Text, List, ◌≡◌}
use erpn.Result.{ok}
use erpn.Database.Types.{AccountRecord, CompanyPostingAccountRecord}
use erpn.Prelude.Sort.{sort_by}

default-WellFormed : All WellFormed default_chart_of_accounts
unfolding is_trimmed_within starts_with_space ends_with_space
default-WellFormed = ((refl, refl), ((refl, refl), ((refl, refl), tt)))

default-AllApart : AllApart default_chart_of_accounts
unfolding AllApart text_eq
default-AllApart = (((refl, refl), ((refl, refl), tt)), (((refl, refl), tt), (tt, tt)))

module _ (session : Session) (c : CompanyScope)
    (acting : require_company_scope session.scope "Accounts" ≡ ok c) where
  listed_accounts : Store → List AccountRecord
  listed_accounts s = sort_by code_before (select_where (is_company_account c) s.accounts)

  listed_mappings : Store → List CompanyPostingAccountRecord
  listed_mappings s =
      sort_by purpose_before (select_where (is_company_posting_account c) s.posting_accounts)

  list_accounts_lem : (s : Store) → list_accounts session s ≡ ok (listed_accounts s, s)
  unfolding list_accounts ◌>>=◌ lift query listed_accounts
  list_accounts_lem s = rw acting refl

  acting_mappings : require_company_scope session.scope "Posting accounts" ≡ ok c
  acting_mappings = any_subject session.scope "Accounts" "Posting accounts" c acting

  list_posting_accounts_lem :
      (s : Store) → list_posting_accounts session s ≡ ok (listed_mappings s, s)
  unfolding list_posting_accounts ◌>>=◌ lift query listed_mappings
  list_posting_accounts_lem s = rw acting_mappings refl

  -- What is listed of a code is what the table has of it.
  listed_code :
      (s : Store) (code : Text)
      → some_row (has_code code) (listed_accounts s) ≡ some_row (is_account_code c code) s.accounts
  unfolding listed_accounts
  listed_code s code =
      some_row-list (has_code code) (is_company_account c) (is_account_code c code) code_before
        s.accounts (λ x. ground arith)

  listed_purpose :
      (s : Store) (purpose : PostingAccountPurpose)
      → some_row (has_purpose purpose) (listed_mappings s)
        ≡ some_row (is_posting_account c (purpose_text purpose)) s.posting_accounts
  unfolding listed_mappings
  listed_purpose s purpose =
      some_row-list (has_purpose purpose) (is_company_posting_account c)
        (is_posting_account c (purpose_text purpose)) purpose_before s.posting_accounts
        (λ x. ground arith)

  -- The chart has the account of each purpose.
  charted :
      (rows : List AccountRecord)
      → All
          (λ (w : DefaultAccount). some_row (has_code w.code) rows ≡ true)
          default_chart_of_accounts
      → All
          (λ p. some_row (has_code (default_posting_account p)) rows ≡ true)
          posting_account_purposes
  unfolding default_posting_account
  charted rows (receivable, (payable, (revenue, last))) = (receivable, (revenue, (payable, tt)))

  -- The company has the account, by its code, or neither its code nor its name.
  abbrev pub CanHave : Store → DefaultAccount → Type 0
  CanHave s wanted = HasAccount session c acting s wanted.code ⊎ IsFree session c acting s wanted

  as-Listed :
      (s : Store) (wanted : DefaultAccount)
      → CanHave s wanted
      → Listed session c acting (listed_accounts s) s wanted
  as-Listed s wanted (inl there) = inl (listed_code s wanted.code ∙ there)
  as-Listed s wanted (inr free) = inr free

  -- What provisioning leaves of a chart and of the mappings.
  chart_lem :
      (s : Store)
      → All (CanHave s) default_chart_of_accounts
      → (rows : List AccountRecord) × (t : Store) × (provision_chart_of_accounts session s
          ≡ ok (rows, t))
        × All (Has session c acting rows t) default_chart_of_accounts
  unfolding provision_chart_of_accounts ◌>>=◌
  chart_lem s can =
      let (rows, t, ran, has, keeps, same) =
        provision_accounts_lem session c acting (listed_accounts s) default_chart_of_accounts s
          (λ code h. sym (listed_code s code) ∙ h) default-WellFormed default-AllApart
          (All-weaken (CanHave s) (Listed session c acting (listed_accounts s) s)
            default_chart_of_accounts (as-Listed s) can) in
      (rows, t, rw (list_accounts_lem s, ◌>>=◌) ran, has)

  mappings_lem :
      (accounts : List AccountRecord) (s : Store)
      → All
          (λ p. some_row (has_code (default_posting_account p)) accounts ≡ true)
          posting_account_purposes
      → (rows : List CompanyPostingAccountRecord) × (t : Store) × (provision_posting_accounts
            session accounts s
          ≡ ok (rows, t))
        × All (HasAll session c acting_mappings rows t) posting_account_purposes
        × (t.accounts ≡ s.accounts)
  unfolding provision_posting_accounts ◌>>=◌
  mappings_lem accounts s charts =
      let (rows, t, ran, has, keeps, same) =
        provision_mappings_lem session c acting_mappings accounts (listed_mappings s)
          posting_account_purposes s charts (λ p h. sym (listed_purpose s p) ∙ h) in
      (rows, t, rw (list_posting_accounts_lem s, ◌>>=◌) ran, has, same)

  -- A second run finds everything in place.
  chart_again :
      (s : Store)
      → All
          (λ (w : DefaultAccount). some_row (is_account_code c w.code) s.accounts ≡ true)
          default_chart_of_accounts
      → (rows : List AccountRecord) × (provision_chart_of_accounts session s ≡ ok (rows, s))
  unfolding provision_chart_of_accounts ◌>>=◌
  chart_again s has =
      let (rows, ran, found) =
        provision_accounts_again session c acting (listed_accounts s) default_chart_of_accounts s (
          All-weaken (λ (w : DefaultAccount). some_row (is_account_code c w.code) s.accounts ≡ true)
            (λ (w : DefaultAccount). some_row (has_code w.code) (listed_accounts s) ≡ true)
            default_chart_of_accounts (λ w h. listed_code s w.code ∙ h) has) in
      (rows, rw (list_accounts_lem s, ◌>>=◌) ran)

  mappings_again :
      (accounts : List AccountRecord) (s : Store)
      → All (HasMapping session c acting_mappings s) (map purpose_text posting_account_purposes)
      → (rows : List CompanyPostingAccountRecord) × (provision_posting_accounts session accounts s
          ≡ ok (rows, s))
  unfolding provision_posting_accounts ◌>>=◌
  mappings_again accounts s (receivable, (revenue, (payable, last))) =
      let (rows, ran) =
        provision_mappings_again session c acting_mappings accounts (listed_mappings s)
          posting_account_purposes s
          (
            listed_purpose s accounts_receivable ∙ receivable,
            (
              listed_purpose s sales_revenue ∙ revenue,
              (listed_purpose s tax_payable ∙ payable, tt),
            ),
          ) in
      (rows, rw (list_posting_accounts_lem s, ◌>>=◌) ran)

  account_for_lem :
      (purpose : Text) (s : Store)
      → HasMapping session c acting_mappings s purpose
      → (account : Text) × (account_for session purpose s ≡ ok (account, s))
  unfolding account_for find_for_purpose ◌>>=◌ lift query unless_absent pure
  account_for_lem purpose s has =
      let (row, e) = select_first-some_row (is_posting_account c purpose) s.posting_accounts has in
      (row.account_id, rw (acting_mappings, lift, e) refl)

  -- Where a company has each account of the default chart by its code, or else no account of that code or
  -- of that name, provisioning its accounts returns. It then has an account for each
  -- purpose that a posting asks for, so that no posting is refused for want of one, and provisioning it
  -- again returns and changes nothing.
  pub provision_accounting_lem :
      (s : Store)
      → All (CanHave s) default_chart_of_accounts
      → (rows : List CompanyPostingAccountRecord) × (t : Store) × (provision_accounting session s
          ≡ ok (rows, t))
        × All
            (λ purpose.
              (account : Text) × (account_for session (purpose_text purpose) t ≡ ok (account, t)))
            posting_account_purposes
        × ((again : List CompanyPostingAccountRecord) × (provision_accounting session t
              ≡ ok (again, t)))
  unfolding provision_accounting ◌>>=◌
  provision_accounting_lem s can =
      let (chart, u, ran, has) = chart_lem s can in
      let codes_in =
        All-weaken (Has session c acting chart u)
          (λ (w : DefaultAccount). some_row (has_code w.code) chart ≡ true)
          default_chart_of_accounts (λ w h. h.0) has in
      let (rows, t, ran', (receivable, (revenue, (payable, last))), same) =
        mappings_lem chart u (charted chart codes_in) in
      let (chart', again) = chart_again t (
        All-weaken (Has session c acting chart u)
          (λ (w : DefaultAccount). some_row (is_account_code c w.code) t.accounts ≡ true)
          default_chart_of_accounts (λ w h. rw same (h.1)) has) in
      let (rows', again') = mappings_again chart' t (receivable.1, (revenue.1, (payable.1, tt))) in
      (
        rows,
        t,
        rw (ran, ◌>>=◌) ran',
        (
          account_for_lem (purpose_text accounts_receivable) t receivable.1,
          (
            account_for_lem (purpose_text sales_revenue) t revenue.1,
            (account_for_lem (purpose_text tax_payable) t payable.1, tt),
          ),
        ),
        (rows', rw (again, ◌>>=◌) again'),
      )
