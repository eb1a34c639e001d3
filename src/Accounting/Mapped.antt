-- ===== src/Accounting/Mapped.antt =====
-- The mappings that `provisionPostingAccounts` of apps/api/src/accounting/posting-accounts.ts leaves.
use erpn.Database.Transaction.{
  some_row, write, unless_absent, Store, random_uuid, pure, lift, require_company_scope,
  CompanyScope, Session, ◌>>=◌,
}
use erpn.Accounting.{
  PostingAccountPurpose, default_posting_account, purpose_text, has_code, has_purpose,
  mapping_or_new, provision_mappings, map_get,
}
use erpn.Accounting.Found.{
  some_row-kept, some_row-new, map_get-finds, map_get-matches, map_get-some_row, some_row-here,
  some_row-later, All-weaken,
}
use erpn.Database.Accounts.{create_posting_account, posting_account_row}
use erpn.Database.Accounting.{is_posting_account}
use erpn.Database.Types.{AccountRecord, CompanyPostingAccountRecord, NewCompanyPostingAccount}
use erpn.Prelude.{
  text_eq_refl, suc, refl, inl, [], ◌∙◌, [], inr, Option-cases, ◌∷◌, ◌++◌, Text, All, true, List,
  ◌≡◌,
}
use erpn.Result.{ok}

module _ (session : Session) (c : CompanyScope)
    (acting : require_company_scope session.scope "Posting accounts" ≡ ok c) where
  -- The company has a mapping for a purpose.
  abbrev pub HasMapping : Store → Text → Type 0
  HasMapping s purpose = some_row (is_posting_account c purpose) s.posting_accounts ≡ true

  create_posting_account_lem :
      (input : NewCompanyPostingAccount) (s : Store)
      → create_posting_account session input s
        ≡ ok (
          posting_account_row c input,
          record s { posting_accounts = s.posting_accounts ++ (posting_account_row c input ∷ []) },
        )
  unfolding create_posting_account ◌>>=◌ lift write pure
  create_posting_account_lem input s = rw acting refl

  record Step (s : Store) (purpose : PostingAccountPurpose) (row : CompanyPostingAccountRecord)
      (t : Store) : Type 0 where
    of_purpose : has_purpose purpose row ≡ true
    there : HasMapping t (purpose_text purpose)
    keeps : (other : Text) → HasMapping s other → HasMapping t other
    accounts : t.accounts ≡ s.accounts

  -- Where the chart has the account of a purpose, the purpose is mapped.
  mapping_or_new_lem :
      (accounts : List AccountRecord) (purpose : PostingAccountPurpose)
      (existing : List CompanyPostingAccountRecord) (s : Store)
      → some_row (has_code (default_posting_account purpose)) accounts ≡ true
      → (some_row (has_purpose purpose) existing ≡ true → HasMapping s (purpose_text purpose))
      → (row : CompanyPostingAccountRecord) × (t : Store) × (mapping_or_new session accounts purpose
            (map_get (has_purpose purpose) existing)
            s
          ≡ ok (row, t))
        × Step s purpose row t
  unfolding mapping_or_new ◌>>=◌ random_uuid pure unless_absent
  mapping_or_new_lem accounts purpose existing s charted known =
      elim (Option-cases (map_get (has_purpose purpose) existing)) [
        | inr (row, e) ↦ (
          row,
          s,
          rw (e, mapping_or_new) refl,
          record {
            of_purpose = map_get-matches (has_purpose purpose) existing row e;
            there = known (map_get-some_row (has_purpose purpose) existing row e);
            keeps = λ other h. h;
            accounts = refl;
          },
        )
        | inl e ↦
            let (account, found, m) =
              map_get-finds (has_code (default_posting_account purpose)) accounts charted in
            let input : NewCompanyPostingAccount = record {
              id = session.uuid s.drawn;
              purpose = purpose_text purpose;
              account_id = account.id;
            } in
            let row = posting_account_row c input in
            (
              row,
              record s { drawn = suc s.drawn; posting_accounts = s.posting_accounts ++ (row ∷ []) },
              rw (e, mapping_or_new, found)
                  (create_posting_account_lem input (record s { drawn = suc s.drawn })),
              record {
                of_purpose = text_eq_refl (purpose_text purpose);
                there =
                    some_row-new (is_posting_account c (purpose_text purpose)) s.posting_accounts
                      row
                      (rw
                        (
                          text_eq_refl (purpose_text purpose),
                          text_eq_refl c.tenant_id,
                          text_eq_refl c.company_id,
                        )
                        refl);
                keeps =
                    λ other h. some_row-kept (is_posting_account c other) s.posting_accounts row h;
                accounts = refl;
              },
            )
      ]

  abbrev pub HasAll : List CompanyPostingAccountRecord → Store → PostingAccountPurpose → Type 0
  HasAll rows t purpose =
      (some_row (has_purpose purpose) rows ≡ true) × HasMapping t (purpose_text purpose)

  pub provision_mappings_lem :
      (accounts : List AccountRecord) (existing : List CompanyPostingAccountRecord)
      (all : List PostingAccountPurpose) (s : Store)
      → All (λ p. some_row (has_code (default_posting_account p)) accounts ≡ true) all
      → ((p : PostingAccountPurpose)
          → some_row (has_purpose p) existing ≡ true
          → HasMapping s (purpose_text p))
      → (rows : List CompanyPostingAccountRecord) × (t : Store) × (provision_mappings session
            accounts existing all s
          ≡ ok (rows, t))
        × All (HasAll rows t) all
        × ((other : Text) → HasMapping s other → HasMapping t other)
        × (t.accounts ≡ s.accounts)
  unfolding provision_mappings ◌>>=◌ pure
  provision_mappings_lem accounts existing [] s charted known = ([], s, refl, tt, λ code h. h, refl)
  provision_mappings_lem accounts existing (purpose ∷ rest) s (here, charted) known =
      let (row, u, ran, step) =
        mapping_or_new_lem accounts purpose existing s here (known purpose) in
      let (rows, t, ran', has, keeps, same) =
        provision_mappings_lem accounts existing rest u charted
          (λ p h. step.keeps (purpose_text p) (known p h)) in
      (
        row ∷ rows,
        t,
        rw (ran, ◌>>=◌, ran', ◌>>=◌) refl,
        (
          (
            some_row-here (has_purpose purpose) row rows step.of_purpose,
            keeps (purpose_text purpose) step.there,
          ),
          All-weaken (HasAll rows t) (HasAll (row ∷ rows) t) rest
              (λ (p : PostingAccountPurpose) h. (some_row-later (has_purpose p) row rows h.0, h.1))
              has,
        ),
        λ code h. keeps code (step.keeps code h),
        same ∙ step.accounts,
      )

  -- Where all are mapped, nothing is created.
  pub provision_mappings_again :
      (accounts : List AccountRecord) (existing : List CompanyPostingAccountRecord)
      (all : List PostingAccountPurpose) (s : Store)
      → All (λ p. some_row (has_purpose p) existing ≡ true) all
      → (rows : List CompanyPostingAccountRecord) × (provision_mappings session accounts existing
            all s
          ≡ ok (rows, s))
  unfolding provision_mappings ◌>>=◌ pure mapping_or_new
  provision_mappings_again accounts existing [] s has = ([], refl)
  provision_mappings_again accounts existing (purpose ∷ rest) s (here, has) =
      let (row, e, m) = map_get-finds (has_purpose purpose) existing here in
      let (rows, ran) = provision_mappings_again accounts existing rest s has in
      (row ∷ rows, rw (e, mapping_or_new, ◌>>=◌, ran, ◌>>=◌) refl)
