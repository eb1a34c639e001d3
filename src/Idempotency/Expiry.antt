-- ===== src/Idempotency/Expiry.antt =====
-- apps/api/src/http/idempotency-expiry.service.ts: the sweep of expired records, company by company, each
-- in a transaction of its own. The cutoff is the moment that the caller names; the clock of the database,
-- which its policy compares too, is the session's moment.
use erpn.Database.Transaction.{
  select_where, tenant_id_of, principal, query, present, lift, unless_absent, actor, system, Tx,
  Session, Scope, Store, ◌>>=◌,
}
use erpn.Prelude.{text_lt, ◌+◌, [], text_eq, ◌∷◌, Bool, Option, List, Text, ℕ, none, some}
use erpn.Result.{err, ok, Result}
use erpn.Database.Types.{TenantRecord, CompanyRecord}
use erpn.Failure.{unreachable}
use erpn.Database.Idempotency.{delete_expired}
use erpn.Prelude.Sort.{sort_by}
pub mod Swept
pub mod Tenants

-- `inSystemScope`: a transaction commits, or leaves the tables as they were.
pub record Committed (A : Type 0) : Type 0 where
  pub answer : Result A
  pub tables : Store

abbrev pub committed : {A : Type 0} → Store → Result (A × Store) → Committed A
committed s (ok (a, t)) = record { answer = ok a; tables = t }
committed s (err e) = record { answer = err e; tables = s }

unfoldable pub unit_of_work : {A : Type 0} → Tx A → Store → Committed A
unit_of_work work s = committed s (work s)

-- What follows a transaction that committed.
unfoldable pub follow : {A B : Type 0} → Result A → Store → (A → Store → Committed B) → Committed B
follow (ok a) s rest = rest a s
follow (err e) s rest = record { answer = err e; tables = s }

abbrev pub system_session : Session → Option Text → Option Text → Session
system_session session tenant company = record session { scope = system tenant company }

unfoldable pub only_system : Scope → Result (Unit {0})
only_system (system tenant company) = ok tt
only_system (actor tenant company user) = err (unreachable "tenant enumeration")
only_system (principal user) = err (unreachable "tenant enumeration")

unfoldable pub list_all_tenants : Session → Tx (List TenantRecord)
list_all_tenants session = do
  allowed ← lift (only_system session.scope)
  query (λ s. sort_by (λ (a b : TenantRecord). text_lt a.slug b.slug) s.tenants)

abbrev pub is_of_tenant : Text → CompanyRecord → Bool
is_of_tenant tenant row = text_eq row.tenant_id tenant

unfoldable pub list_for_tenant : Session → Tx (List CompanyRecord)
list_for_tenant session = do
  tenant ← unless_absent (present (tenant_id_of session.scope)) (unreachable "no tenant in scope")
  query (λ s.
      sort_by (λ (a b : CompanyRecord). text_lt a.name b.name)
        (select_where (is_of_tenant tenant) s.companies))

-- The counts so far; the cutoff that the code returns with them is the argument of `sweep`.
pub record ExpirySweep : Type 0 where
  pub companies_visited : ℕ
  pub records_removed : ℕ

-- The inner loop, over the companies of a tenant.
unfoldable pub sweep_companies :
    Session → ℕ → Text → List CompanyRecord → ExpirySweep → Store → Committed ExpirySweep
sweep_companies session now tenant [] counts s = record { answer = ok counts; tables = s }
sweep_companies session now tenant (company ∷ companies) counts s =
    let work =
      unit_of_work (delete_expired (system_session session (some tenant) (some company.id)) now)
        s in
    follow work.answer work.tables (λ removed t.
      sweep_companies session now tenant companies
        (record {
          companies_visited = counts.companies_visited + 1;
          records_removed = counts.records_removed + removed;
        })
        t)

-- The outer loop, over the tenants.
unfoldable pub sweep_tenants :
    Session → ℕ → List TenantRecord → ExpirySweep → Store → Committed ExpirySweep
sweep_tenants session now [] counts s = record { answer = ok counts; tables = s }
sweep_tenants session now (tenant ∷ tenants) counts s =
    let work = unit_of_work (list_for_tenant (system_session session (some tenant.id) none)) s in
    follow work.answer work.tables (λ companies t.
      let swept = sweep_companies session now tenant.id companies counts t in
      follow swept.answer swept.tables (λ counts' u. sweep_tenants session now tenants counts' u))

unfoldable pub sweep : Session → ℕ → Store → Committed ExpirySweep
sweep session now s =
    let work = unit_of_work (list_all_tenants (system_session session none none)) s in
    follow work.answer work.tables (λ tenants t.
      sweep_tenants session now tenants (record { companies_visited = 0; records_removed = 0 }) t)
