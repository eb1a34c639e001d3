-- ===== src/Tests/Retries.antt =====
-- Work that meets one deadlock and then succeeds.
use erpn.Prelude.{codes, some, none, ◌∷◌, [], ◌==◌, if◌then◌else◌, ◌≡◌, ℕ}
use erpn.SerializationRetry.{returned, nothing, an_error, threw, Attempt, with_serialization_retry}
use erpn.SerializationRetry.Bounded.{with_serialization_retry_lem, is_final}

abbrev deadlocked_once : ℕ → Attempt ℕ
deadlocked_once n =
    if n == 1 then threw (an_error none (an_error (some (codes "40P01")) nothing)) else returned n

with_serialization_retry_lem_example : with_serialization_retry deadlocked_once ≡ (
    if is_final (deadlocked_once 1)
    then record { outcome = deadlocked_once 1; attempts = 1; backoffs = [] }
    else if is_final (deadlocked_once 2)
    then record { outcome = deadlocked_once 2; attempts = 2; backoffs = 20 ∷ [] }
    else record { outcome = deadlocked_once 3; attempts = 3; backoffs = 20 ∷ 40 ∷ [] })
with_serialization_retry_lem_example = with_serialization_retry_lem deadlocked_once
