-- ===== src/Accounting/Found.antt =====
-- Whether some row of a list satisfies a condition, for the lookups of apps/api/src/accounting.
use erpn.Accounting.{map_get}
use erpn.Prelude.Sort.{sort_by, insert_sorted}
use erpn.Database.Transaction.Rows.{some_row-append}
use erpn.Database.Transaction.{some_row, select_first, select_where}
use erpn.Prelude.{
  All, none, Option-cases, inr, inl, refl, ap, Bool-cases, [], ◌∙◌, arith, [], some, ◌&&◌, ◌||◌,
  ◌∷◌, true, false, ◌++◌, ◌≡◌, List, Bool,
}

module _ {A : Type 0} where
  -- A row that is there stays, and a new one is there.
  pub some_row-kept :
      (matches : A → Bool) (rows : List A) (row : A)
      → some_row matches rows ≡ true
      → some_row matches (rows ++ (row ∷ [])) ≡ true
  some_row-kept matches rows row h = rw (some_row-append matches rows row, h) refl

  pub some_row-new :
      (matches : A → Bool) (rows : List A) (row : A)
      → matches row ≡ true
      → some_row matches (rows ++ (row ∷ [])) ≡ true
  some_row-new matches rows row h = ground (arith, some_row-append matches rows row, h)

  some_row-insert_sorted :
      (matches : A → Bool) (before : A → A → Bool) (row : A) (rows : List A)
      → some_row matches (insert_sorted before row rows) ≡ matches row || some_row matches rows
  unfolding some_row insert_sorted
  some_row-insert_sorted matches before row [] = refl
  some_row-insert_sorted matches before row (x ∷ rows) =
      ground (arith, some_row-insert_sorted matches before row rows)

  some_row-sort_by :
      (matches : A → Bool) (before : A → A → Bool) (rows : List A)
      → some_row matches (sort_by before rows) ≡ some_row matches rows
  unfolding some_row sort_by
  some_row-sort_by matches before [] = refl
  some_row-sort_by matches before (x ∷ rows) =
      some_row-insert_sorted matches before x (sort_by before rows)
      ∙ ap (λ b. matches x || b) (some_row-sort_by matches before rows)

  some_row-select_where :
      (matches keep both : A → Bool) (rows : List A)
      → ((x : A) → both x ≡ keep x && matches x)
      → some_row matches (select_where keep rows) ≡ some_row both rows
  unfolding some_row select_where
  some_row-select_where matches keep both [] same = refl
  some_row-select_where matches keep both (x ∷ rows) same =
      ground (arith, same x, some_row-select_where matches keep both rows same)

  -- The rows of a company, in an order, have one that satisfies a condition where the table has.
  pub some_row-list :
      (matches keep both : A → Bool) (before : A → A → Bool) (rows : List A)
      → ((x : A) → both x ≡ keep x && matches x)
      → some_row matches (sort_by before (select_where keep rows)) ≡ some_row both rows
  some_row-list matches keep both before rows same =
      some_row-sort_by matches before (select_where keep rows)
      ∙ some_row-select_where matches keep both rows same

  pub map_get-matches :
      (matches : A → Bool) (rows : List A) (row : A)
      → map_get matches rows ≡ some row
      → matches row ≡ true
  unfolding map_get
  map_get-matches matches [] row h = absurd (cc h)
  map_get-matches matches (x ∷ rows) row h = elim (Option-cases (map_get matches rows)) [
    | inr (later, e) ↦ cc (map_get-matches matches rows later e, rw e at h)
    | inl e ↦ elim (Bool-cases (matches x)) [
      | inl m ↦ cc (m, rw (e, m) at h)
      | inr m ↦ absurd (cc (rw (e, m) at h))
    ]
  ]

  pub map_get-none :
      (matches : A → Bool) (rows : List A)
      → map_get matches rows ≡ none
      → some_row matches rows ≡ false
  unfolding some_row map_get
  map_get-none matches [] h = refl
  map_get-none matches (x ∷ rows) h = elim (Option-cases (map_get matches rows)) [
    | inr (later, e) ↦ absurd (cc (rw e at h))
    | inl e ↦ elim (Bool-cases (matches x)) [
      | inl m ↦ absurd (cc (rw (e, m) at h))
      | inr m ↦ rw m (map_get-none matches rows e)
    ]
  ]

  pub map_get-some_row :
      (matches : A → Bool) (rows : List A) (row : A)
      → map_get matches rows ≡ some row
      → some_row matches rows ≡ true
  unfolding some_row map_get
  map_get-some_row matches [] row h = absurd (cc h)
  map_get-some_row matches (x ∷ rows) row h = elim (Option-cases (map_get matches rows)) [
    | inr (later, e) ↦ ground (arith, map_get-some_row matches rows later e)
    | inl e ↦ elim (Bool-cases (matches x)) [
      | inl m ↦ rw m refl
      | inr m ↦ absurd (cc (rw (e, m) at h))
    ]
  ]

  pub map_get-finds :
      (matches : A → Bool) (rows : List A)
      → some_row matches rows ≡ true
      → (row : A) × (map_get matches rows ≡ some row) × (matches row ≡ true)
  map_get-finds matches rows h = elim (Option-cases (map_get matches rows)) [
    | inl e ↦ absurd (cc (map_get-none matches rows e, h))
    | inr (row, e) ↦ (row, e, map_get-matches matches rows row e)
  ]

  pub select_first-some_row :
      (matches : A → Bool) (rows : List A)
      → some_row matches rows ≡ true
      → (row : A) × (select_first matches rows ≡ some row)
  unfolding some_row select_first
  select_first-some_row matches [] h = absurd (cc h)
  select_first-some_row matches (x ∷ rows) h = elim (Bool-cases (matches x)) [
    | inl m ↦ (x, rw m refl)
    | inr m ↦ let (row, e) = select_first-some_row matches rows (rw m at h) in (row, rw m e)
  ]

  pub some_row-here :
      (matches : A → Bool) (row : A) (rows : List A)
      → matches row ≡ true
      → some_row matches (row ∷ rows) ≡ true
  unfolding some_row
  some_row-here matches row rows h = rw h refl

  pub some_row-later :
      (matches : A → Bool) (row : A) (rows : List A)
      → some_row matches rows ≡ true
      → some_row matches (row ∷ rows) ≡ true
  unfolding some_row
  some_row-later matches row rows h = ground (arith, h)

  pub All-weaken : (P Q : A → Type 0) (xs : List A) → ((x : A) → P x → Q x) → All P xs → All Q xs
  All-weaken P Q [] h all = tt
  All-weaken P Q (x ∷ xs) h (here, all) = (h x here, All-weaken P Q xs h all)
