-- ===== src/Idempotency/Expiry/Swept.antt =====
-- What the sweep of apps/api/src/http/idempotency-expiry.service.ts removes, and what it leaves.
use mathlib.Core.Path.{subst}
use erpn.Database.Transaction.{
  company_id_of, tenant_id_of, system, require_company_scope, pure, write, query, Store,
  CompanyScope, select_where, Session,
}
use erpn.Prelude.{
  false, true, ◌&&◌, sym, ◌+◌, arith, All, refl, Bool-cases, ◌∷◌, ap, [], leb, ◌≡◌, ◌∙◌, List, not,
  Bool, Text, ℕ, some, inl, inr,
}
use erpn.Database.Types.Requests.{IdempotencyRecord}
use erpn.Database.Idempotency.{is_deletable, delete_expired}
use erpn.Database.Types.{CompanyRecord}
use erpn.Idempotency.Expiry.{
  follow, unit_of_work, sweep_companies, Committed, ExpirySweep, system_session,
}
use erpn.Result.{err, Result, ok}
use erpn.Database.Frame.Inversion.{after, after_lift}
use erpn.Database.Isolation.{require_company_scope-names, select_where-delete}
use erpn.Failure.{Failure}

module _ {A : Type 0} where
  select_where-empty :
      (p q : A → Bool) (rows : List A)
      → select_where p rows ≡ []
      → select_where p (select_where q rows) ≡ []
  unfolding select_where
  select_where-empty p q [] h = refl
  select_where-empty p q (row ∷ rows) h = elim (Bool-cases (p row)) [
    | inl yes_it_is ↦ absurd (cc (rw yes_it_is at h))
    | inr other ↦ elim (Bool-cases (q row)) [
      | inl kept ↦ rw (kept, other) (select_where-empty p q rows (rw other at h))
      | inr dropped ↦ rw dropped (select_where-empty p q rows (rw other at h))
    ]
  ]

  select_where-none :
      (p : A → Bool) (rows : List A) → select_where p (select_where (λ row. not (p row)) rows) ≡ []
  unfolding select_where
  select_where-none p [] = refl
  select_where-none p (row ∷ rows) = elim (Bool-cases (p row)) [
    | inl gone ↦ rw gone (select_where-none p rows)
    | inr kept ↦ rw (kept, kept) (select_where-none p rows)
  ]

-- A record is live where either moment, the cutoff or the one on the clock of the database, comes before
-- its expiry.
abbrev pub is_live : ℕ → ℕ → IdempotencyRecord → Bool
is_live now database_now row = not (leb row.expires_at now && leb row.expires_at database_now)

-- From one state to the other no live record was lost, none was added, and the companies are the same.
pub record Deletes (now database_now : ℕ) (s t : Store) : Type 0 where
  pub live :
      select_where (is_live now database_now) t.idempotency_records
      ≡ select_where (is_live now database_now) s.idempotency_records
  pub no_more :
      (p : IdempotencyRecord → Bool)
      → select_where p s.idempotency_records ≡ []
      → select_where p t.idempotency_records ≡ []
  pub same_companies : t.companies ≡ s.companies

pub nothing_deleted : (now database_now : ℕ) (s t : Store) → t ≡ s → Deletes now database_now s t
nothing_deleted now database_now s t same = record {
  live = ap (λ (u : Store). select_where (is_live now database_now) u.idempotency_records) same;
  no_more = λ p h. ap (λ (u : Store). select_where p u.idempotency_records) same ∙ h;
  same_companies = ap (λ (u : Store). u.companies) same;
}

pub both_deleted :
    (now database_now : ℕ) (s t u : Store)
    → Deletes now database_now s t
    → Deletes now database_now t u
    → Deletes now database_now s u
both_deleted now database_now s t u h k = record {
  live = k.live ∙ h.live;
  no_more = λ p e. k.no_more p (h.no_more p e);
  same_companies = k.same_companies ∙ h.same_companies;
}

module _ (session : Session) (now : ℕ) where
  not_live :
      (c : CompanyScope) (row : IdempotencyRecord)
      → is_deletable c now session.now row ≡ true
      → is_live now session.now row ≡ false
  unfolding is_deletable
  not_live c row h = ground arith

  expired_deleted :
      (c : CompanyScope) (s t : Store)
      → t.idempotency_records
        ≡ select_where
            (λ (row : IdempotencyRecord). not (is_deletable c now session.now row))
            s.idempotency_records
      → t.companies ≡ s.companies
      → Deletes now session.now s t
  expired_deleted c s t rows same = record {
    live =
        ap (select_where (is_live now session.now)) rows
        ∙ select_where-delete (is_live now session.now) (is_deletable c now session.now)
            (λ row h. not_live c row h) s.idempotency_records;
    no_more = λ p h.
        ap (select_where p) rows
        ∙ select_where-empty p (λ row. not (is_deletable c now session.now row))
            s.idempotency_records h;
    same_companies = same;
  }

  abbrev pub scope_of : Text → Text → CompanyScope
  scope_of tenant company = record { tenant_id = tenant; company_id = company }

  -- No record of the company that has expired by the cutoff and by the clock of the database is left.
  abbrev pub Cleared : Text → Store → CompanyRecord → Type 0
  Cleared tenant s company =
      select_where (is_deletable (scope_of tenant company.id) now session.now) s.idempotency_records
      ≡ []

  named_scope :
      (tenant company : Text) (c : CompanyScope)
      → require_company_scope (system (some tenant) (some company)) "Idempotency" ≡ ok c
      → c ≡ scope_of tenant company
  unfolding tenant_id_of company_id_of
  named_scope tenant company c h =
      let (is_tenant, is_company) =
        require_company_scope-names (system (some tenant) (some company)) "Idempotency" c h in
      let t' : tenant ≡ c.tenant_id = cc is_tenant in
      let c' : company ≡ c.company_id = cc is_company in rw (t', c') refl

  deleted :
      (tenant company : Text) (s t : Store) (n : ℕ)
      → delete_expired (system_session session (some tenant) (some company)) now s ≡ ok (n, t)
      → Deletes now session.now s t
        × (select_where
              (is_deletable (scope_of tenant company) now session.now)
              t.idempotency_records
            ≡ [])
  unfolding delete_expired query write pure
  deleted tenant company s t n h =
      after_lift s t n (require_company_scope (system (some tenant) (some company)) "Idempotency") _
        h
        (λ c acting h. after s t n (query _) _ h (λ removed r1 k1 h.
          after r1 t n (write _) _ h (λ u r2 k2 h.
            let back : r1 ≡ s = cc k1 in
            let written : r2 ≡ record r1 {
              idempotency_records =
                  select_where
                    (λ (row : IdempotencyRecord). not (is_deletable c now session.now row))
                    r1.idempotency_records;
            } =
              cc k2 in
            let last : t ≡ r2 = cc h in
            let is_scope : c ≡ scope_of tenant company = named_scope tenant company c acting in
            let rows : t.idempotency_records
                ≡ select_where
                    (λ (row : IdempotencyRecord).
                      not (is_deletable (scope_of tenant company) now session.now row))
                    s.idempotency_records =
              ap (λ (v : Store). v.idempotency_records) last
              ∙ ap (λ (v : Store). v.idempotency_records) written
              ∙ ap
                  (λ (v : Store).
                    select_where
                      (λ (row : IdempotencyRecord). not (is_deletable c now session.now row))
                      v.idempotency_records)
                  back
              ∙ ap
                  (λ (d : CompanyScope).
                    select_where
                      (λ (row : IdempotencyRecord). not (is_deletable d now session.now row))
                      s.idempotency_records)
                  is_scope in
            let companies : t.companies ≡ s.companies =
              ap (λ (v : Store). v.companies) last
              ∙ ap (λ (v : Store). v.companies) written
              ∙ ap (λ (v : Store). v.companies) back in
            (
              expired_deleted (scope_of tenant company) s t rows companies,
              ap (select_where (is_deletable (scope_of tenant company) now session.now)) rows
                  ∙ select_where-none (is_deletable (scope_of tenant company) now session.now)
                      s.idempotency_records,
            ))))

  pub stays_empty :
      (tenant : Text) (s t : Store) (companies : List CompanyRecord)
      → Deletes now session.now s t
      → All (Cleared tenant s) companies
      → All (Cleared tenant t) companies
  stays_empty tenant s t [] h k = tt
  stays_empty tenant s t (company ∷ companies) h (first, rest) = (
    h.no_more (is_deletable (scope_of tenant company.id) now session.now) first,
    stays_empty tenant s t companies h rest,
  )

  -- A loop that answered has cleared every company that it was given; one that threw has only deleted
  -- expired records.
  pub record Swept (tenant : Text) (companies : List CompanyRecord) (s : Store)
      (done : Committed ExpirySweep) : Type 0 where
    pub deletes : Deletes now session.now s done.tables
    pub clears :
        (counts : ExpirySweep)
        → done.answer ≡ ok counts
        → All (Cleared tenant done.tables) companies

  abbrev one_more : ExpirySweep → ℕ → ExpirySweep
  one_more counts n = record {
    companies_visited = counts.companies_visited + 1;
    records_removed = counts.records_removed + n;
  }

  module _ (tenant : Text) (company : CompanyRecord) (companies : List CompanyRecord)
      (counts : ExpirySweep) (s : Store) where
    stops :
        (e : Failure)
        → delete_expired (system_session session (some tenant) (some company.id)) now s ≡ err e
        → sweep_companies session now tenant (company ∷ companies) counts s
          ≡ record { answer = err e; tables = s }
    unfolding sweep_companies unit_of_work follow
    stops e k = rw (k, follow) refl

    goes_on :
        (n : ℕ) (t : Store)
        → delete_expired (system_session session (some tenant) (some company.id)) now s ≡ ok (n, t)
        → sweep_companies session now tenant (company ∷ companies) counts s
          ≡ sweep_companies session now tenant companies (one_more counts n) t
    unfolding sweep_companies unit_of_work follow
    goes_on n t k = rw (k, follow) refl

    step :
        (x : Result (ℕ × Store))
        → delete_expired (system_session session (some tenant) (some company.id)) now s ≡ x
        → ((counts' : ExpirySweep) (t : Store)
            → Swept tenant companies t (sweep_companies session now tenant companies counts' t))
        → Swept tenant
            (company ∷ companies)
            s
            (sweep_companies session now tenant (company ∷ companies) counts s)
    step (err e) k others_swept =
        subst (Swept tenant (company ∷ companies) s) (sym (stops e k)) (record {
          deletes = nothing_deleted now session.now s s refl;
          clears = λ counts' e'. absurd (cc e');
        })
    step (ok (n, t)) k others_swept =
        let (gone, clear) = deleted tenant company.id s t n k in
        let rest = others_swept (one_more counts n) t in
        subst (Swept tenant (company ∷ companies) s) (sym (goes_on n t k)) (record {
          deletes = both_deleted now session.now s t _ gone rest.deletes;
          clears = λ counts' e. (
            rest.deletes.no_more (is_deletable (scope_of tenant company.id) now session.now) clear,
            rest.clears counts' e,
          );
        })

  -- Sweeping the companies of a tenant, whether it is finished or stopped by an error, only deletes expired
  -- records; when it is finished, no expired record of any of the companies is left.
  pub sweep_companies-Swept :
      (tenant : Text) (companies : List CompanyRecord) (counts : ExpirySweep) (s : Store)
      → Swept tenant companies s (sweep_companies session now tenant companies counts s)
  unfolding sweep_companies
  sweep_companies-Swept tenant [] counts s = record {
    deletes = nothing_deleted now session.now s s refl;
    clears = λ counts' e. tt;
  }
  sweep_companies-Swept tenant (company ∷ companies) counts s =
      step tenant company companies counts s
        (delete_expired (system_session session (some tenant) (some company.id)) now s) refl
        (λ counts' t. sweep_companies-Swept tenant companies counts' t)
