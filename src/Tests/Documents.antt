-- ===== src/Tests/Documents.antt =====
-- The theorems on statuses, document numbers and locks at concrete values.
use erpn.Sales.Status.{assert_transition, can_transition}
use erpn.Statuses.SalesOrderStatus.{draft, confirmed, cancelled}
use erpn.Sales.Status.Reachable.{Reaches, moves, move, start, move_raises_rank, draft-Reaches, rank}
use erpn.Prelude.{◌≤◌, ℕ, inl, map, refl, text_lt, text_eq, [], ◌∷◌, codes, ◌⊎◌, ◌<◌, ◌≡◌}
use erpn.Inventory.LockOrder.{by_balance_key, in_lock_order, BalanceKey}
use erpn.Sales.DocumentNumber.{format_document_number_injective, format_document_number}
use erpn.Prelude.Sort.{insert_sorted, sort_by}
use erpn.Decimal.{emit_digits, to_string, pad_start}
use erpn.Inventory.LockOrder.Deadlock.{LocksBefore, no_opposite_locks}
use erpn.Result.{ok}

draft_to_confirmed : assert_transition draft confirmed ≡ ok tt
unfolding assert_transition can_transition
draft_to_confirmed = refl

confirmed_to_cancelled : assert_transition confirmed cancelled ≡ ok tt
unfolding assert_transition can_transition
confirmed_to_cancelled = refl

abbrev a_life : Reaches draft cancelled
a_life = move cancelled (move confirmed start draft_to_confirmed) confirmed_to_cancelled

draft-Reaches_example :
    ((cancelled ≡ draft) ⊎ (cancelled ≡ confirmed) ⊎ (cancelled ≡ cancelled)) × (moves a_life ≤ 2)
draft-Reaches_example = draft-Reaches a_life

move_raises_rank_example : rank confirmed < rank cancelled
move_raises_rank_example = move_raises_rank confirmed cancelled confirmed_to_cancelled

formats_42 : format_document_number (codes "SO-") 42 ≡ ok (codes "SO-0042")
unfolding format_document_number pad_start to_string emit_digits
formats_42 = refl

format_document_number_injective_example : ◌≡◌ {A = ℕ} 42 42
format_document_number_injective_example =
    format_document_number_injective (codes "SO-") 42 42 (codes "SO-0042") formats_42 formats_42

abbrev at_east : BalanceKey
at_east = record { product_id = codes "p1"; warehouse_id = codes "east" }

abbrev at_west : BalanceKey
at_west = record { product_id = codes "p1"; warehouse_id = codes "west" }

locks_east_twice :
    LocksBefore at_east at_east (map (λ k. k) (in_lock_order (λ k. k) (at_east ∷ at_east ∷ [])))
unfolding in_lock_order sort_by insert_sorted by_balance_key text_eq text_lt
locks_east_twice = inl (refl, inl refl)

no_opposite_locks_example : at_east ≡ at_east
no_opposite_locks_example =
    no_opposite_locks (λ k. k) (at_east ∷ at_east ∷ []) (at_east ∷ at_east ∷ []) at_east at_east
      locks_east_twice locks_east_twice
