-- ===== src/Accounting/Chart.antt =====
-- The chart that `provisionChartOfAccounts` of apps/api/src/accounting/chart-of-accounts.ts leaves.
use erpn.Database.Access.{text_member}
use erpn.Accounting.{
  AccountType, asset, liability, equity, revenue, expense, ◌>>=◌, DefaultAccount, has_code,
  account_or_new, provision_accounts, map_get, type_text,
}
use erpn.Accounting.Found.{
  map_get-none, some_row-later, All-weaken, some_row-here, some_row-kept, some_row-new,
  map_get-some_row, map_get-finds, map_get-matches,
}
use erpn.Database.Accounts.{
  is_code_key, is_name_key, is_trimmed_within, account_type_texts, create_account, account_row,
  is_account_code,
}
use erpn.Database.Transaction.Rows.{some_row-append}
use erpn.Database.Transaction.{
  some_row, refuse_unless, query, ◌>>=◌, write, pure, lift, random_uuid, Store,
  require_company_scope, CompanyScope, Session,
}
use erpn.Prelude.{
  text_eq, false, none, arith, ◌⊎◌, text_eq_refl, suc, refl, inl, [], [], ◌∙◌, ◌∷◌, inr,
  Option-cases, ◌++◌, All, List, true, Text, ◌≡◌,
}
use erpn.Result.{ok}
use erpn.Database.Types.{NewAccount, AccountRecord}

abbrev new_account : Text → DefaultAccount → NewAccount
new_account id wanted = record {
  id = id;
  code = wanted.code;
  name = wanted.name;
  type = type_text wanted.type;
}

-- The checks of the table on a code and a name.
abbrev pub WellFormed : DefaultAccount → Type 0
WellFormed wanted =
    (is_trimmed_within 32 wanted.code ≡ true) × (is_trimmed_within 200 wanted.name ≡ true)

-- Neither the codes nor the names are the same.
abbrev pub Apart : DefaultAccount → DefaultAccount → Type 0
Apart a b = (text_eq a.code b.code ≡ false) × (text_eq a.name b.name ≡ false)

unfoldable pub AllApart : List DefaultAccount → Type 0
AllApart [] = Unit {0}
AllApart (wanted ∷ rest) = All (Apart wanted) rest × AllApart rest

type_text_known : (type : AccountType) → text_member (type_text type) account_type_texts ≡ true
unfolding type_text text_member text_eq
type_text_known asset = refl
type_text_known liability = refl
type_text_known equity = refl
type_text_known revenue = refl
type_text_known expense = refl

module _ (session : Session) (c : CompanyScope)
    (acting : require_company_scope session.scope "Accounts" ≡ ok c) where
  -- The company has an account of a code.
  abbrev pub HasAccount : Store → Text → Type 0
  HasAccount s code = some_row (is_account_code c code) s.accounts ≡ true

  -- No row of the company has the code or the name.
  abbrev pub IsFree : Store → DefaultAccount → Type 0
  IsFree s wanted =
      (some_row (is_code_key c wanted.code) s.accounts ≡ false)
      × (some_row (is_name_key c wanted.name) s.accounts ≡ false)

  create_account_lem :
      (wanted : DefaultAccount) (id : Text) (s : Store)
      → WellFormed wanted
      → IsFree s wanted
      → create_account session (new_account id wanted) s
        ≡ ok (
          account_row c (new_account id wanted),
          record s { accounts = s.accounts ++ (account_row c (new_account id wanted) ∷ []) },
        )
  unfolding create_account ◌>>=◌ lift refuse_unless query write pure
  create_account_lem wanted id s (code, name) (code_free, name_free) =
      rw (acting, lift, code, name, type_text_known wanted.type, code_free, name_free) refl

  -- Each step returns an account of its code and keeps what is there.
  record Step (s : Store) (wanted : DefaultAccount) (row : AccountRecord) (t : Store) : Type 0 where
    of_code : has_code wanted.code row ≡ true
    there : HasAccount t wanted.code
    keeps : (other : Text) → HasAccount s other → HasAccount t other
    free : (other : DefaultAccount) → Apart wanted other → IsFree s other → IsFree t other
    mappings : t.posting_accounts ≡ s.posting_accounts

  -- The account is listed, or the company has neither its code nor its name.
  abbrev pub Listed : List AccountRecord → Store → DefaultAccount → Type 0
  Listed existing s wanted = (some_row (has_code wanted.code) existing ≡ true) ⊎ IsFree s wanted

  unlisted :
      (wanted : DefaultAccount) (existing : List AccountRecord) (s : Store)
      → map_get (has_code wanted.code) existing ≡ none
      → Listed existing s wanted
      → IsFree s wanted
  unlisted wanted existing s e (inl there) =
      absurd (cc (map_get-none (has_code wanted.code) existing e, there))
  unlisted wanted existing s e (inr free) = free

  still-IsFree :
      (wanted other : DefaultAccount) (id : Text) (s : Store)
      → Apart wanted other
      → IsFree s other
      → IsFree
          (record s {
            drawn = suc s.drawn;
            accounts = s.accounts ++ (account_row c (new_account id wanted) ∷ []);
          })
          other
  still-IsFree wanted other id s (codes_differ, names_differ) (code_free, name_free) =
      let row = account_row c (new_account id wanted) in
      (
        ground (
          arith,
          codes_differ,
          code_free,
          some_row-append (is_code_key c other.code) s.accounts row,
        ),
        ground (
          arith,
          names_differ,
          name_free,
          some_row-append (is_name_key c other.name) s.accounts row,
        ),
      )

  still-Listed :
      (wanted : DefaultAccount) (existing : List AccountRecord) (s t : Store)
      (rest : List DefaultAccount)
      → ((other : DefaultAccount) → Apart wanted other → IsFree s other → IsFree t other)
      → All (Apart wanted) rest
      → All (Listed existing s) rest
      → All (Listed existing t) rest
  still-Listed wanted existing s t [] keep apart listed = tt
  still-Listed wanted existing s t (other ∷ rest) keep (apart, more) (inl there, listed) =
      (inl there, still-Listed wanted existing s t rest keep more listed)
  still-Listed wanted existing s t (other ∷ rest) keep (apart, more) (inr free, listed) =
      (inr (keep other apart free), still-Listed wanted existing s t rest keep more listed)

  account_or_new_lem :
      (wanted : DefaultAccount) (existing : List AccountRecord) (s : Store)
      → (some_row (has_code wanted.code) existing ≡ true → HasAccount s wanted.code)
      → WellFormed wanted
      → Listed existing s wanted
      → (row : AccountRecord) × (t : Store) × (account_or_new session wanted
            (map_get (has_code wanted.code) existing)
            s
          ≡ ok (row, t))
        × Step s wanted row t
  unfolding account_or_new ◌>>=◌ random_uuid pure
  account_or_new_lem wanted existing s known formed listed =
      elim (Option-cases (map_get (has_code wanted.code) existing)) [
        | inr (row, e) ↦ (
          row,
          s,
          rw (e, account_or_new) refl,
          record {
            of_code = map_get-matches (has_code wanted.code) existing row e;
            there = known (map_get-some_row (has_code wanted.code) existing row e);
            keeps = λ other h. h;
            free = λ other apart h. h;
            mappings = refl;
          },
        )
        | inl e ↦
            let input : NewAccount = new_account (session.uuid s.drawn) wanted in
            let free = unlisted wanted existing s e listed in
            let row = account_row c input in
            (
              row,
              record s { drawn = suc s.drawn; accounts = s.accounts ++ (row ∷ []) },
              rw (e, account_or_new)
                  (create_account_lem wanted (session.uuid s.drawn)
                    (record s { drawn = suc s.drawn }) formed free),
              record {
                of_code = text_eq_refl wanted.code;
                there = some_row-new (is_account_code c wanted.code) s.accounts row (
                    rw
                      (
                        text_eq_refl wanted.code,
                        text_eq_refl c.tenant_id,
                        text_eq_refl c.company_id,
                      )
                      refl);
                keeps = λ other h. some_row-kept (is_account_code c other) s.accounts row h;
                free = λ other apart h. still-IsFree wanted other (session.uuid s.drawn) s apart h;
                mappings = refl;
              },
            )
      ]

  -- An account list and a table that have the accounts of some codes.
  abbrev pub Has : List AccountRecord → Store → DefaultAccount → Type 0
  Has rows t wanted = (some_row (has_code wanted.code) rows ≡ true) × HasAccount t wanted.code

  pub provision_accounts_lem :
      (existing : List AccountRecord) (all : List DefaultAccount) (s : Store)
      → ((code : Text) → some_row (has_code code) existing ≡ true → HasAccount s code)
      → All WellFormed all
      → AllApart all
      → All (Listed existing s) all
      → (rows : List AccountRecord) × (t : Store) × (provision_accounts session existing all s
          ≡ ok (rows, t))
        × All (Has rows t) all
        × ((code : Text) → HasAccount s code → HasAccount t code)
        × (t.posting_accounts ≡ s.posting_accounts)
  unfolding provision_accounts ◌>>=◌ pure AllApart
  provision_accounts_lem existing [] s known formed apart listed =
      ([], s, refl, tt, λ code h. h, refl)
  provision_accounts_lem existing (wanted ∷ rest) s known (formed, forms) (apart, aparts)
        (listed, lists) =
      let (row, u, ran, step) =
        account_or_new_lem wanted existing s (known wanted.code) formed listed in
      let (rows, t, ran', has, keeps, mappings) =
        provision_accounts_lem existing rest u (λ code h. step.keeps code (known code h)) forms
          aparts (still-Listed wanted existing s u rest step.free apart lists) in
      (
        row ∷ rows,
        t,
        rw (ran, ◌>>=◌, ran', ◌>>=◌) refl,
        (
          (
            some_row-here (has_code wanted.code) row rows step.of_code,
            keeps wanted.code step.there,
          ),
          All-weaken (Has rows t) (Has (row ∷ rows) t) rest
              (λ (w : DefaultAccount) h. (some_row-later (has_code w.code) row rows h.0, h.1)) has,
        ),
        λ code h. keeps code (step.keeps code h),
        mappings ∙ step.mappings,
      )

  -- Where the list has all of them, nothing is created.
  pub provision_accounts_again :
      (existing : List AccountRecord) (all : List DefaultAccount) (s : Store)
      → All (λ wanted. some_row (has_code wanted.code) existing ≡ true) all
      → (rows : List AccountRecord) × (provision_accounts session existing all s ≡ ok (rows, s))
        × All (λ wanted. some_row (has_code wanted.code) rows ≡ true) all
  unfolding provision_accounts ◌>>=◌ pure account_or_new
  provision_accounts_again existing [] s has = ([], refl, tt)
  provision_accounts_again existing (wanted ∷ rest) s (here, has) =
      let (row, e, m) = map_get-finds (has_code wanted.code) existing here in
      let (rows, ran, found) = provision_accounts_again existing rest s has in
      (
        row ∷ rows,
        rw (e, account_or_new, ◌>>=◌, ran, ◌>>=◌) refl,
        (
          some_row-here (has_code wanted.code) row rows m,
          All-weaken (λ (w : DefaultAccount). some_row (has_code w.code) rows ≡ true)
              (λ (w : DefaultAccount). some_row (has_code w.code) (row ∷ rows) ≡ true) rest
              (λ (w : DefaultAccount) h. some_row-later (has_code w.code) row rows h) found,
        ),
      )
