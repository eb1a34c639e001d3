-- ===== src/Tests/Shop/Expired.antt =====
-- A sweep of the idempotency records of erpn.Tests.Shop.
use erpn.Tests.Shop.{session, tables}
use erpn.Database.Transaction.{
  ◌>>=◌, company_id_of, tenant_id_of, require_company_scope, unless_absent, lift, pure, write,
  query, select_where, Store,
}
use erpn.Prelude.{refl, ◌≡◌, text_lt, text_eq, [], ◌∷◌, none, codes, ℕ}
use erpn.Idempotency.Expiry.{
  sweep_companies, list_for_tenant, sweep_tenants, only_system, list_all_tenants, follow,
  unit_of_work, sweep,
}
use erpn.Idempotency.Expiry.Tenants.{sweep-SweptAll, all_tenants, SweptAll}
use erpn.Database.Types.Requests.{IdempotencyRecord}
use erpn.Database.Idempotency.{is_deletable, delete_expired}
use erpn.Prelude.Sort.{insert_sorted, sort_by}
use erpn.Result.{ok}

abbrev old_record : ℕ → IdempotencyRecord
old_record expires_at = record {
  id = codes "i";
  tenant_id = codes "t";
  company_id = codes "c";
  user_id = codes "u";
  endpoint = codes "e";
  key = codes "k";
  fingerprint = codes "f";
  response = none;
  expires_at = expires_at;
}

abbrev littered : Store
littered = record (tables (codes "draft")) {
  idempotency_records = old_record 5 ∷ old_record 9 ∷ [];
}

one_removed :
    (sweep session 5 littered).answer ≡ ok (record { companies_visited = 1; records_removed = 1 })
unfolding sweep unit_of_work follow list_all_tenants only_system sweep_tenants list_for_tenant
    sweep_companies delete_expired is_deletable sort_by insert_sorted select_where query write pure
    lift unless_absent require_company_scope tenant_id_of company_id_of text_eq text_lt ◌>>=◌
one_removed = refl

-- A cutoff in the future removes what has expired by the clock of the database, and nothing else.
future_cutoff :
    (sweep session 100 littered).answer ≡ ok (record { companies_visited = 1; records_removed = 1 })
unfolding sweep unit_of_work follow list_all_tenants only_system sweep_tenants list_for_tenant
    sweep_companies delete_expired is_deletable sort_by insert_sorted select_where query write pure
    lift unless_absent require_company_scope tenant_id_of company_id_of text_eq text_lt ◌>>=◌
future_cutoff = refl

sweep-SweptAll_example :
    SweptAll session 100 (all_tenants session 100 littered) littered (sweep session 100 littered)
sweep-SweptAll_example = sweep-SweptAll session 100 littered
