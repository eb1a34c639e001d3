-- ===== src/Inventory/LockOrder/Deadlock.antt =====
-- The comparators of apps/api/src/inventory/lock-order.ts as orders, and the locks of two transactions.
use mathlib.Core.List.{Perm}
use erpn.Prelude.{
  inr, [], inl, ◌⊎◌, text_not_lt_trans, All, map, ◌∷◌, if◌then◌else◌, text_eq_lem, List,
  text_eq_refl, text_eq→eq, text_lt_asym, text_eq_of_not_lt, arith, false, true, Bool, text_eq,
  text_lt, ◌≡◌,
}
use erpn.Inventory.LockOrder.{
  locked_before, in_lock_order, is_negative_answer, BalanceKey, by_balance_key,
}
use erpn.Prelude.Sort.{sort_by-perm, sort_by-IsSorted, IsSorted}

-- The order that the comparator decides: by product, and by warehouse within a product.
key_lt : BalanceKey → BalanceKey → Bool
key_lt a b = is_negative_answer (by_balance_key a b)

key_lt_lem :
    (a b : BalanceKey)
    → key_lt a b ≡ (
        if text_eq a.product_id b.product_id
        then (if text_eq a.warehouse_id b.warehouse_id
            then false
            else text_lt a.warehouse_id b.warehouse_id)
        else text_lt a.product_id b.product_id)
unfolding key_lt by_balance_key
key_lt_lem a b = ground arith

key_lt_asym : (a b : BalanceKey) → key_lt a b ≡ true → key_lt b a ≡ false
key_lt_asym a b h = ground (
  arith,
  key_lt_lem a b,
  key_lt_lem b a,
  text_eq_lem a.product_id b.product_id,
  text_eq_lem b.product_id a.product_id,
  text_eq_lem a.warehouse_id b.warehouse_id,
  text_eq_lem b.warehouse_id a.warehouse_id,
  text_lt_asym a.product_id b.product_id,
  text_lt_asym a.warehouse_id b.warehouse_id,
)

key_not_lt_trans :
    (a b c : BalanceKey) → key_lt a b ≡ false → key_lt b c ≡ false → key_lt a c ≡ false
key_not_lt_trans a b c h k = ground (
  arith,
  key_lt_lem a b,
  key_lt_lem b c,
  key_lt_lem a c,
  text_eq_lem a.product_id b.product_id,
  text_eq_lem b.product_id c.product_id,
  text_eq_lem a.product_id c.product_id,
  text_eq_lem a.warehouse_id b.warehouse_id,
  text_eq_lem b.warehouse_id c.warehouse_id,
  text_eq_lem a.warehouse_id c.warehouse_id,
  text_not_lt_trans a.product_id b.product_id c.product_id,
  text_not_lt_trans c.product_id a.product_id b.product_id,
  text_not_lt_trans b.product_id c.product_id a.product_id,
  text_not_lt_trans a.warehouse_id b.warehouse_id c.warehouse_id,
)

-- Keys of which neither comes first are the same key.
key_eq_of_not_lt : (a b : BalanceKey) → key_lt a b ≡ false → key_lt b a ≡ false → a ≡ b
key_eq_of_not_lt a b h k = ground (
  arith,
  key_lt_lem a b,
  key_lt_lem b a,
  text_eq_of_not_lt a.product_id b.product_id,
  text_eq_of_not_lt a.warehouse_id b.warehouse_id,
  text_eq→eq a.product_id b.product_id,
  text_eq→eq a.warehouse_id b.warehouse_id,
  text_eq→eq b.product_id a.product_id,
  text_eq→eq b.warehouse_id a.warehouse_id,
  text_eq_refl a.product_id,
  text_eq_refl a.warehouse_id,
)

abbrev pub LocksLater : {K : Type 0} → K → List K → Type 0
LocksLater l [] = ⊥
LocksLater l (x ∷ xs) = (x ≡ l) ⊎ LocksLater l xs

-- `k` is locked, and `l` after it.
abbrev pub LocksBefore : {K : Type 0} → K → K → List K → Type 0
LocksBefore k l [] = ⊥
LocksBefore k l (x ∷ xs) = (x ≡ k) × LocksLater l xs ⊎ LocksBefore k l xs

module _ {ℓ} {T : Type ℓ} (key : T → BalanceKey) where
  -- Nothing is left out or locked twice: the locks are those of the items.
  pub in_lock_order-perm : (items : List T) → Perm (in_lock_order key items) items
  unfolding in_lock_order
  in_lock_order-perm items = sort_by-perm (locked_before key) items

  in_lock_order-IsSorted : (items : List T) → IsSorted (locked_before key) (in_lock_order key items)
  unfolding in_lock_order key_lt
  in_lock_order-IsSorted items =
      sort_by-IsSorted (locked_before key) (λ a b. key_lt_asym (key a) (key b))
        (λ a b c. key_not_lt_trans (key a) (key b) (key c)) items

  later_not_before :
      (x : T) (l : BalanceKey) (xs : List T)
      → All (λ y. locked_before key y x ≡ false) xs
      → LocksLater l (map key xs)
      → key_lt l (key x) ≡ false
  unfolding key_lt
  later_not_before x l [] h m = elim m [ ]
  later_not_before x l (y ∷ ys) h (inl e) = rw (← e) h.0
  later_not_before x l (y ∷ ys) h (inr m) = later_not_before x l ys h.1 m

  locked_in_order :
      (k l : BalanceKey) (xs : List T)
      → IsSorted (locked_before key) xs
      → LocksBefore k l (map key xs)
      → key_lt l k ≡ false
  locked_in_order k l [] h m = elim m [ ]
  locked_in_order k l (x ∷ xs) h (inl m) = rw (← m.0) (later_not_before x l xs h.0 m.1)
  locked_in_order k l (x ∷ xs) h (inr m) = locked_in_order k l xs h.1 m

-- Two transactions that lock the rows of any items never lock two different rows in opposite orders,
-- so neither holds a row that the other waits for while it waits for one of the other's.
pub no_opposite_locks {ℓ} :
    {T : Type ℓ} (key : T → BalanceKey) (xs ys : List T) (k l : BalanceKey)
    → LocksBefore k l (map key (in_lock_order key xs))
    → LocksBefore l k (map key (in_lock_order key ys))
    → k ≡ l
no_opposite_locks key xs ys k l h h' =
    key_eq_of_not_lt k l
      (locked_in_order key l k (in_lock_order key ys) (in_lock_order-IsSorted key ys) h')
      (locked_in_order key k l (in_lock_order key xs) (in_lock_order-IsSorted key xs) h)
