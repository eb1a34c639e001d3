-- ===== src/Prelude/Sort.antt =====
-- `[...items].sort(…)` and `ORDER BY`: a stable sort by the test that one item comes before another.
use mathlib.Core.Path.{◌≡◌}
use mathlib.Core.Bool.{Bool, true, false}
use mathlib.Core.Logic.{inl, inr}
use mathlib.Core.List.{List, [], ◌∷◌, Perm}
use mathlib.Core.List.Perm
use erpn.Prelude.Tests.{if◌then◌else◌, Bool-cases}
use erpn.Prelude.Lists.{All}

module _ {ℓ} {A : Type ℓ} (before : A → A → Bool) where
  -- The item goes behind those that come before it, and in front of its equals.
  unfoldable pub insert_sorted : A → List A → List A
  insert_sorted a [] = a ∷ []
  insert_sorted a (x ∷ xs) = if before x a then x ∷ insert_sorted a xs else a ∷ x ∷ xs

  unfoldable pub sort_by : List A → List A
  unfolding insert_sorted
  sort_by [] = []
  sort_by (x ∷ xs) = insert_sorted x (sort_by xs)

  insert_sorted-perm : (a : A) (xs : List A) → Perm (insert_sorted a xs) (a ∷ xs)
  unfolding insert_sorted
  insert_sorted-perm a [] = Perm.refl (a ∷ [])
  insert_sorted-perm a (x ∷ xs) = elim (Bool-cases (before x a)) [
    | inl later ↦ rw later (Perm.trans (Perm.cons x (insert_sorted-perm a xs)) (Perm.swap a x xs))
    | inr here ↦ rw here (Perm.refl (a ∷ x ∷ xs))
  ]

  -- Sorting loses and invents nothing.
  pub sort_by-perm : (xs : List A) → Perm (sort_by xs) xs
  unfolding sort_by
  sort_by-perm [] = Perm.refl []
  sort_by-perm (x ∷ xs) =
      Perm.trans (insert_sorted-perm x (sort_by xs)) (Perm.cons x (sort_by-perm xs))

  -- No item comes before one in front of it.
  abbrev pub IsSorted : List A → Type 0
  IsSorted [] = Unit
  IsSorted (x ∷ xs) = All (λ y. before y x ≡ false) xs × IsSorted xs

  module _ (asym : (a b : A) → before a b ≡ true → before b a ≡ false)
      (not_before_trans : (a b c : A)
        → before a b ≡ false
        → before b c ≡ false
        → before a c ≡ false) where
    All-insert_sorted :
        (c a : A) (xs : List A)
        → before a c ≡ false
        → All (λ y. before y c ≡ false) xs
        → All (λ y. before y c ≡ false) (insert_sorted a xs)
    unfolding insert_sorted
    All-insert_sorted c a [] h hs = (h, tt)
    All-insert_sorted c a (x ∷ xs) h hs = elim (Bool-cases (before x a)) [
      | inl later ↦ rw later (hs.0, All-insert_sorted c a xs h hs.1)
      | inr here ↦ rw here (h, hs)
    ]

    All-not_before :
        (x a : A) (xs : List A)
        → before x a ≡ false
        → All (λ y. before y x ≡ false) xs
        → All (λ y. before y a ≡ false) xs
    All-not_before x a [] h hs = tt
    All-not_before x a (y ∷ ys) h hs = (not_before_trans y x a hs.0 h, All-not_before x a ys h hs.1)

    insert_sorted-IsSorted : (a : A) (xs : List A) → IsSorted xs → IsSorted (insert_sorted a xs)
    unfolding insert_sorted
    insert_sorted-IsSorted a [] h = (tt, tt)
    insert_sorted-IsSorted a (x ∷ xs) h = elim (Bool-cases (before x a)) [
      | inl later ↦
          rw later (All-insert_sorted x a xs (asym x a later) h.0, insert_sorted-IsSorted a xs h.1)
      | inr here ↦ rw here ((here, All-not_before x a xs here h.0), h)
    ]

    pub sort_by-IsSorted : (xs : List A) → IsSorted (sort_by xs)
    unfolding sort_by
    sort_by-IsSorted [] = tt
    sort_by-IsSorted (x ∷ xs) = insert_sorted-IsSorted x (sort_by xs) (sort_by-IsSorted xs)
