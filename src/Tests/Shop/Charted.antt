-- ===== src/Tests/Shop/Charted.antt =====
-- The accounts of the company of erpn.Tests.Shop.
use erpn.Tests.Shop.{session, shop, tables}
use erpn.Accounting.{
  default_chart_of_accounts, provision_accounting, purpose_text, posting_account_purposes,
}
use erpn.Accounting.Provisioned.{CanHave, provision_accounting_lem}
use erpn.Billing.Post.{account_for}
use erpn.Database.Transaction.{
  ◌>>=◌, lift, query, refuse_unless, some_row, Store, require_company_scope, tenant_id_of,
  company_id_of,
}
use erpn.Prelude.{inr, [], ◌∷◌, text_eq, Text, All, codes, refl, List, ◌≡◌}
use erpn.Database.Types.{AccountRecord, CompanyPostingAccountRecord}
use erpn.Result.{ok, err}
use erpn.Failure.{constraint_violated}
use erpn.Database.Access.{text_member}
use erpn.Database.Accounts.{create_account, is_trimmed_within, starts_with_space, ends_with_space}

acting_on_accounts : require_company_scope session.scope "Accounts" ≡ ok shop
unfolding require_company_scope tenant_id_of company_id_of
acting_on_accounts = refl

no_accounts :
    All (CanHave session shop acting_on_accounts (tables (codes "draft"))) default_chart_of_accounts
unfolding some_row
no_accounts = (inr (refl, refl), (inr (refl, refl), (inr (refl, refl), tt)))

-- An account of the company that is called like one of the chart.
abbrev called_revenue : AccountRecord
called_revenue = record {
  id = codes "x";
  tenant_id = codes "t";
  company_id = codes "c";
  code = codes "9000";
  name = codes "Sales Revenue";
  type = codes "revenue";
  status = codes "active";
  version = 1;
}

name_taken :
    create_account session
      (record {
        id = codes "y";
        code = codes "4000";
        name = codes "Sales Revenue";
        type = codes "revenue";
      })
      (record (tables (codes "draft")) { accounts = called_revenue ∷ [] })
    ≡ err (constraint_violated "accounts_company_name_key")
unfolding create_account lift query refuse_unless some_row is_trimmed_within starts_with_space
    ends_with_space text_member text_eq require_company_scope tenant_id_of company_id_of ◌>>=◌
name_taken = refl

provision_accounting_lem_example :
    (rows : List CompanyPostingAccountRecord) × (t : Store) × (provision_accounting session
        (tables (codes "draft"))
      ≡ ok (rows, t))
    × All
        (λ purpose.
          (account : Text) × (account_for session (purpose_text purpose) t ≡ ok (account, t)))
        posting_account_purposes
    × ((again : List CompanyPostingAccountRecord) × (provision_accounting session t
          ≡ ok (again, t)))
provision_accounting_lem_example =
    provision_accounting_lem session shop acting_on_accounts (tables (codes "draft")) no_accounts
