-- ===== src/Database/Transaction/Rows.antt =====
-- What a `SELECT … LIMIT 1` finds after an `UPDATE`.
use erpn.Database.Transaction.{some_row, update_where, select_first}
use erpn.Prelude.{
  arith, ◌||◌, refl, if◌then◌else◌, Option, none, ◌++◌, arith, [], false, inr, inl, Bool-cases, ◌∷◌,
  some, true, ◌≡◌, List, Bool,
}

module _ {A : Type 0} where
  -- What is found satisfies the condition.
  pub select_first-matches :
      (matches : A → Bool) (rows : List A) (row : A)
      → select_first matches rows ≡ some row
      → matches row ≡ true
  unfolding select_first
  select_first-matches matches [] row h = cc
  select_first-matches matches (x ∷ rows) row h = elim (Bool-cases (matches x)) [
    | inl found ↦ let e : x ≡ row = cc (rw found at h) in rw (← e) found
    | inr other ↦ select_first-matches matches rows row (rw other at h)
  ]

  -- A narrower condition that the first match satisfies finds that match.
  pub select_first-narrow :
      (wide narrow : A → Bool) (rows : List A) (row : A)
      → ((x : A) → narrow x ≡ true → wide x ≡ true)
      → narrow row ≡ true
      → select_first wide rows ≡ some row
      → select_first narrow rows ≡ some row
  unfolding select_first
  select_first-narrow wide narrow [] row within at_row h = cc
  select_first-narrow wide narrow (x ∷ rows) row within at_row h = elim (Bool-cases (wide x)) [
    | inl found ↦
        let e : x ≡ row = cc (rw found at h) in let n : narrow x ≡ true = rw e at_row in rw (n, e)
    | inr other ↦
        let n : narrow x ≡ false = ground (arith, within x) in
        rw n (select_first-narrow wide narrow rows row within at_row (rw other at h))
  ]

  -- The first match of the wider condition after the first match of the narrower is changed.
  pub select_first-update_where :
      (wide narrow : A → Bool) (change : A → A) (rows : List A) (row : A)
      → ((x : A) → narrow x ≡ true → wide x ≡ true)
      → ((x : A) → wide x ≡ true → wide (change x) ≡ true)
      → narrow row ≡ true
      → select_first wide rows ≡ some row
      → select_first wide (update_where narrow change rows) ≡ some (change row)
  unfolding select_first update_where
  select_first-update_where wide narrow change [] row within stays at_row h = cc
  select_first-update_where wide narrow change (x ∷ rows) row within stays at_row h =
      elim (Bool-cases (wide x)) [
        | inl found ↦
            let e : x ≡ row = cc (rw found at h) in
            let n : narrow x ≡ true = rw e at_row in
            let w : wide (change x) ≡ true = stays x found in rw (n, w, e)
        | inr other ↦
            let n : narrow x ≡ false = ground (arith, within x) in
            rw (n, other)
              (select_first-update_where wide narrow change rows row within stays at_row
                (rw other at h))
      ]

  -- What a row is after an `UPDATE`.
  abbrev pub changed_where : (A → Bool) → (A → A) → A → A
  changed_where narrow change row = if narrow row then change row else row

  abbrev pub changed_if_found : (A → Bool) → (A → A) → Option A → Option A
  changed_if_found narrow change none = none
  changed_if_found narrow change (some row) = some (changed_where narrow change row)

  -- The first match after an `UPDATE` that changes no row's match.
  pub select_first-changed :
      (wide narrow : A → Bool) (change : A → A)
      → ((x : A) → wide (change x) ≡ wide x)
      → (rows : List A)
      → select_first wide (update_where narrow change rows)
        ≡ changed_if_found narrow change (select_first wide rows)
  unfolding select_first update_where
  select_first-changed wide narrow change same [] = refl
  select_first-changed wide narrow change same (x ∷ rows) =
      let rest = select_first-changed wide narrow change same rows in
      let here = same x in
      elim (Bool-cases (narrow x)) [
        | inl n ↦ elim (Bool-cases (wide x)) [
          | inl w ↦ rw (n, here, w, n) refl
          | inr w ↦ rw (n, here, w) rest
        ]
        | inr n ↦ elim (Bool-cases (wide x)) [ inl w ↦ rw (n, w, n) refl | inr w ↦ rw (n, w) rest ]
      ]

  -- A new row comes last.
  pub select_first-append :
      (matches : A → Bool) (rows : List A) (row : A)
      → select_first matches rows ≡ none
      → matches row ≡ true
      → select_first matches (rows ++ (row ∷ [])) ≡ some row
  unfolding select_first
  select_first-append matches [] row h at_row = rw at_row refl
  select_first-append matches (x ∷ rows) row h at_row = elim (Bool-cases (matches x)) [
    | inl found ↦ absurd (cc (rw found at h))
    | inr other ↦ rw other (select_first-append matches rows row (rw other at h) at_row)
  ]

  -- Another new row is not seen.
  pub select_first-unseen :
      (matches : A → Bool) (rows : List A) (row : A)
      → matches row ≡ false
      → select_first matches (rows ++ (row ∷ [])) ≡ select_first matches rows
  unfolding select_first
  select_first-unseen matches [] row at_row = rw at_row refl
  select_first-unseen matches (x ∷ rows) row at_row = elim (Bool-cases (matches x)) [
    | inl found ↦ rw found refl
    | inr other ↦ rw other (select_first-unseen matches rows row at_row)
  ]

  pub select_first-kept :
      (matches : A → Bool) (rows : List A) (row found : A)
      → select_first matches rows ≡ some found
      → select_first matches (rows ++ (row ∷ [])) ≡ some found
  unfolding select_first
  select_first-kept matches [] row found h = absurd (cc h)
  select_first-kept matches (x ∷ rows) row found h = elim (Bool-cases (matches x)) [
    | inl here ↦ rw here (rw here at h)
    | inr other ↦ rw other (select_first-kept matches rows row found (rw other at h))
  ]

  -- Where some match of a condition satisfies another, the other finds a row.
  pub select_first-finds :
      (wide narrow : A → Bool) (rows : List A) (row : A)
      → select_first wide rows ≡ some row
      → narrow row ≡ true
      → (found : A) × (select_first narrow rows ≡ some found)
  unfolding select_first
  select_first-finds wide narrow [] row h at_row = absurd (cc h)
  select_first-finds wide narrow (x ∷ rows) row h at_row = elim (Bool-cases (narrow x)) [
    | inl n ↦ (x, rw n refl)
    | inr n ↦ elim (Bool-cases (wide x)) [
      | inl w ↦ absurd (cc (rw w at h, at_row, n))
      | inr w ↦
          let (found, e) = select_first-finds wide narrow rows row (rw w at h) at_row in
          (found, rw n e)
    ]
  ]

  -- A narrower condition finds nothing where the wider finds nothing.
  pub select_first-none :
      (wide narrow : A → Bool) (rows : List A)
      → ((x : A) → narrow x ≡ true → wide x ≡ true)
      → select_first wide rows ≡ none
      → select_first narrow rows ≡ none
  unfolding select_first
  select_first-none wide narrow [] within h = refl
  select_first-none wide narrow (x ∷ rows) within h = elim (Bool-cases (wide x)) [
    | inl found ↦ absurd (cc (rw found at h))
    | inr other ↦
        let n : narrow x ≡ false = ground (arith, within x) in
        rw n (select_first-none wide narrow rows within (rw other at h))
  ]

module _ {A : Type 0} where
  -- A row at the end of a table is found where it matches.
  pub some_row-append :
      (matches : A → Bool) (rows : List A) (row : A)
      → some_row matches (rows ++ (row ∷ [])) ≡ some_row matches rows || matches row
  unfolding some_row
  some_row-append matches [] row = ground arith
  some_row-append matches (x ∷ rows) row = ground (arith, some_row-append matches rows row)
