-- ===== src/Idempotency/Expiry/Tenants.antt =====
-- The sweep over all tenants (apps/api/src/http/idempotency-expiry.service.ts).
use mathlib.Core.Path.{subst}
use erpn.Database.Transaction.{
  lift, select_where, tenant_id_of, query, Tx, present, Store, Session, ◌>>=◌,
}
use erpn.Prelude.{sym, ap, refl, ◌∙◌, [], text_lt, ◌∷◌, ◌≡◌, All, List, ℕ, Text, none, some}
use erpn.Idempotency.Expiry.{
  only_system, list_all_tenants, sweep, is_of_tenant, sweep_companies, unit_of_work, follow,
  sweep_tenants, system_session, Committed, ExpirySweep, list_for_tenant,
}
use erpn.Database.Types.{CompanyRecord, TenantRecord}
use erpn.Prelude.Sort.{sort_by}
use erpn.Idempotency.Expiry.Swept.{
  stays_empty, sweep_companies-Swept, nothing_deleted, both_deleted, Deletes, Cleared,
}
use erpn.Result.{err, Result, ok}
use erpn.Failure.{Failure}
use erpn.Database.Frame.Inversion.{after_found}

-- The companies that the sweep lists for a tenant.
abbrev pub companies_of : Text → Store → List CompanyRecord
companies_of tenant s =
    sort_by (λ (a b : CompanyRecord). text_lt a.name b.name)
      (select_where (is_of_tenant tenant) s.companies)

module _ (session : Session) (now : ℕ) where
  abbrev pub AllCleared : List TenantRecord → Store → Store → Type 0
  AllCleared tenants s t =
      All
        (λ (tenant : TenantRecord).
          All (Cleared session now tenant.id t) (companies_of tenant.id s))
        tenants

  -- A sweep that answered has cleared every company of every tenant; one that threw has only deleted expired
  -- records.
  pub record SweptAll (tenants : List TenantRecord) (s : Store) (done : Committed ExpirySweep)
      : Type 0 where
    pub deletes : Deletes now session.now s done.tables
    pub clears : (counts : ExpirySweep) → done.answer ≡ ok counts → AllCleared tenants s done.tables

  abbrev listing : Text → Tx (List CompanyRecord)
  listing tenant = list_for_tenant (system_session session (some tenant) none)

  present_of : (tenant found : Text) → present (some tenant) ≡ some found → found ≡ tenant
  present_of [] found h = absurd (cc h)
  present_of (x ∷ t) found h = cc h

  listed :
      (tenant : Text) (s t : Store) (companies : List CompanyRecord)
      → listing tenant s ≡ ok (companies, t)
      → (companies ≡ companies_of tenant s) × (t ≡ s)
  unfolding list_for_tenant query tenant_id_of
  listed tenant s t companies h =
      after_found s t companies (present (some tenant)) _ _ h (λ found is_found h.
        let same : found ≡ tenant = present_of tenant found is_found in
        let read : companies ≡ companies_of found s = cc h in
        (read ∙ ap (λ i. companies_of i s) same, cc h))

  for_same_companies :
      (tenants : List TenantRecord) (s t u : Store)
      → t.companies ≡ s.companies
      → AllCleared tenants t u
      → AllCleared tenants s u
  for_same_companies [] s t u same h = tt
  for_same_companies (tenant ∷ tenants) s t u same (first, rest) = (
    subst
        (λ rows. All (Cleared session now tenant.id u) (
          sort_by (λ (a b : CompanyRecord). text_lt a.name b.name)
            (select_where (is_of_tenant tenant.id) rows)))
        same first,
    for_same_companies tenants s t u same rest,
  )

  module _ (tenant : TenantRecord) (tenants : List TenantRecord) (counts : ExpirySweep)
      (s : Store) where
    not_listed :
        (e : Failure)
        → listing tenant.id s ≡ err e
        → sweep_tenants session now (tenant ∷ tenants) counts s
          ≡ record { answer = err e; tables = s }
    unfolding sweep_tenants unit_of_work follow
    not_listed e k = rw (k, follow) refl

    after_listing :
        (companies : List CompanyRecord) (t : Store)
        → listing tenant.id s ≡ ok (companies, t)
        → sweep_tenants session now (tenant ∷ tenants) counts s
          ≡ follow
              (sweep_companies session now tenant.id companies counts t).answer
              (sweep_companies session now tenant.id companies counts t).tables
              (λ counts' u. sweep_tenants session now tenants counts' u)
    unfolding sweep_tenants unit_of_work follow
    after_listing companies t k = rw (k, follow) refl

    by_companies :
        (answer : Result ExpirySweep) (u : Store)
        → Deletes now session.now s u
        → ((counts' : ExpirySweep)
            → answer ≡ ok counts'
            → All (Cleared session now tenant.id u) (companies_of tenant.id s))
        → ((counts' : ExpirySweep) (v : Store)
            → SweptAll tenants v (sweep_tenants session now tenants counts' v))
        → SweptAll
            (tenant ∷ tenants)
            s
            (follow answer u (λ counts' v. sweep_tenants session now tenants counts' v))
    unfolding follow
    by_companies (err e) u gone clear others_swept = record {
      deletes = gone;
      clears = λ counts' e'. absurd (cc e');
    }
    by_companies (ok counts') u gone clear others_swept =
        let rest = others_swept counts' u in
        let last : Store = (sweep_tenants session now tenants counts' u).tables in
        record {
          deletes = both_deleted now session.now s u last gone rest.deletes;
          clears = λ counts'' e. (
            stays_empty session now tenant.id u last (companies_of tenant.id s) rest.deletes
                (clear counts' refl),
            for_same_companies tenants s u last gone.same_companies (rest.clears counts'' e),
          );
        }

    of_tenant :
        (x : Result (List CompanyRecord × Store))
        → listing tenant.id s ≡ x
        → ((counts' : ExpirySweep) (v : Store)
            → SweptAll tenants v (sweep_tenants session now tenants counts' v))
        → SweptAll (tenant ∷ tenants) s (sweep_tenants session now (tenant ∷ tenants) counts s)
    of_tenant (err e) k others_swept =
        subst (SweptAll (tenant ∷ tenants) s) (sym (not_listed e k)) (record {
          deletes = nothing_deleted now session.now s s refl;
          clears = λ counts' e'. absurd (cc e');
        })
    of_tenant (ok (companies, t)) k others_swept =
        let (all, same) = listed tenant.id s t companies k in
        let k' : listing tenant.id s ≡ ok (companies_of tenant.id s, s) =
          k ∙ ap (λ l. ok (l, t)) all ∙ ap (λ v. ok (companies_of tenant.id s, v)) same in
        let swept =
          sweep_companies-Swept session now tenant.id (companies_of tenant.id s) counts s in
        subst (SweptAll (tenant ∷ tenants) s) (sym (after_listing (companies_of tenant.id s) s k'))
          (by_companies _ _ swept.deletes swept.clears others_swept)

  sweep_tenants-SweptAll :
      (tenants : List TenantRecord) (counts : ExpirySweep) (s : Store)
      → SweptAll tenants s (sweep_tenants session now tenants counts s)
  unfolding sweep_tenants
  sweep_tenants-SweptAll [] counts s = record {
    deletes = nothing_deleted now session.now s s refl;
    clears = λ counts' e. tt;
  }
  sweep_tenants-SweptAll (tenant ∷ tenants) counts s =
      of_tenant tenant tenants counts s (listing tenant.id s) refl
        (λ counts' v. sweep_tenants-SweptAll tenants counts' v)

  -- The tenants in the order in which the sweep walks them.
  abbrev pub all_tenants : Store → List TenantRecord
  all_tenants s = sort_by (λ (a b : TenantRecord). text_lt a.slug b.slug) s.tenants

  sweeps :
      (s : Store)
      → sweep session now s
        ≡ sweep_tenants session now
            (all_tenants s)
            (record { companies_visited = 0; records_removed = 0 })
            s
  unfolding sweep unit_of_work follow list_all_tenants only_system query lift ◌>>=◌
  sweeps s = refl

  -- The sweep, finished or stopped by an error, keeps every record that has not expired by the clock of the
  -- database, so that a cutoff in the future removes no live record, and every record whose expiry comes
  -- after the cutoff. It adds no record and leaves the companies as they were. When it is finished, no
  -- record that has expired by both the clock and the cutoff is left for any company of any tenant.
  pub sweep-SweptAll : (s : Store) → SweptAll (all_tenants s) s (sweep session now s)
  sweep-SweptAll s = subst (SweptAll (all_tenants s) s) (sym (sweeps s)) (
      sweep_tenants-SweptAll (all_tenants s) (record { companies_visited = 0; records_removed = 0 })
        s)
