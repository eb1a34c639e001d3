-- ===== src/Sales/Status/Reachable.antt =====
-- Which states apps/api/src/sales/sales-order-status.ts lets a sales order reach, and how its states
-- are read from their texts.
use erpn.Statuses.{SalesOrderStatus}
use erpn.Statuses.SalesOrderStatus.{
  draft, confirmed, partially_delivered, delivered, invoiced, cancelled,
}
use erpn.Prelude.{
  ◌≤◌, ◌+◌, [], Bool-cases, ◌∷◌, some, text_eq, List, refl, text_eq→eq, inr, ◌<◌, Text, inl, ◌⊎◌,
  arith, ◌≡◌, ℕ,
}
use erpn.Sales.Status.{
  statuses, status_text, is_sales_order_status, can_transition, named_by, status_of,
  assert_transition,
}
use erpn.Result.{ok}

-- The life of an order: moves that `assertTransition` lets pass.
pub data Reaches (s : SalesOrderStatus) : SalesOrderStatus → Type 0 where
  start : Reaches s s
  move :
      {t : SalesOrderStatus} (u : SalesOrderStatus)
      → Reaches s t
      → assert_transition t u ≡ ok tt
      → Reaches s u

abbrev pub rank : SalesOrderStatus → ℕ
rank draft = 0
rank confirmed = 1
rank _ = 2

legal_move :
    (t u : SalesOrderStatus)
    → assert_transition t u ≡ ok tt
    → ((u ≡ cancelled) × (rank t < 2)) ⊎ ((t ≡ draft) × (u ≡ confirmed))
unfolding assert_transition can_transition
legal_move draft draft h = cc
legal_move draft confirmed h = inr (refl, refl)
legal_move draft cancelled h = inl (refl, omega arith)
legal_move draft _ h = cc
legal_move confirmed cancelled h = inl (refl, omega arith)
legal_move confirmed draft h = cc
legal_move confirmed _ h = cc
legal_move partially_delivered draft h = cc
legal_move partially_delivered _ h = cc
legal_move delivered draft h = cc
legal_move delivered _ h = cc
legal_move invoiced draft h = cc
legal_move invoiced _ h = cc
legal_move cancelled draft h = cc
legal_move cancelled _ h = cc

-- Every move goes up in rank, so no order returns to a state that it has left.
pub move_raises_rank : (t u : SalesOrderStatus) → assert_transition t u ≡ ok tt → rank t < rank u
move_raises_rank t u h = ground (arith, legal_move t u h)

-- How many moves a life has.
abbrev pub moves : {s t : SalesOrderStatus} → Reaches s t → ℕ
moves start = 0
moves (move u r h) = moves r + 1

moves-rank : {s t : SalesOrderStatus} (r : Reaches s t) → moves r + rank s ≤ rank t
moves-rank start = omega arith
moves-rank (move {t = t} u r h) = omega (arith, moves-rank r, move_raises_rank t u h)

rank_bound : (s : SalesOrderStatus) → rank s ≤ 2
rank_bound draft = omega arith
rank_bound confirmed = omega arith
rank_bound _ = omega arith

becomes : {s : SalesOrderStatus} → Reaches draft s → (s ≡ draft) ⊎ (s ≡ confirmed) ⊎ (s ≡ cancelled)
becomes start = inl refl
becomes (move u r h) = grind (arith, legal_move _ u h)

-- A draft becomes confirmed or cancelled and nothing else, by at most two moves.
pub draft-Reaches :
    {s : SalesOrderStatus} (r : Reaches draft s)
    → ((s ≡ draft) ⊎ (s ≡ confirmed) ⊎ (s ≡ cancelled)) × (moves r ≤ 2)
draft-Reaches {s = s} r = (becomes r, omega (arith, moves-rank r, rank_bound s))

-- A cancelled order stays cancelled.
pub cancelled_stays : {s : SalesOrderStatus} → Reaches cancelled s → s ≡ cancelled
cancelled_stays start = refl
cancelled_stays (move {t = t} u r h) = ground (arith, legal_move t u h, cancelled_stays r)

-- The stored text of a state is read back as that state.
pub status_of-status_text : (s : SalesOrderStatus) → status_of (status_text s) ≡ ok s
unfolding status_of is_sales_order_status named_by text_eq
status_of-status_text draft = refl
status_of-status_text confirmed = refl
status_of-status_text _ = refl

named_by_sound :
    (l : List SalesOrderStatus) (v : Text) (s : SalesOrderStatus)
    → named_by l v ≡ some s
    → status_text s ≡ v
unfolding named_by
named_by_sound [] v s h = cc
named_by_sound (x ∷ l) v s h = elim (Bool-cases (text_eq (status_text x) v)) [
  | inl same ↦ cc (text_eq→eq (status_text x) v same, rw same at h)
  | inr other ↦ named_by_sound l v s (rw other at h)
]

-- Only the six texts are read.
pub status_of_sound : (v : Text) (s : SalesOrderStatus) → status_of v ≡ ok s → status_text s ≡ v
unfolding status_of
status_of_sound v s h = named_by_sound statuses v s (ground arith)
