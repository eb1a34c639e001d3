-- ===== src/SerializationRetry/Bounded.antt =====
-- The attempts of apps/api/src/http/serialization-retry.ts.
use erpn.Prelude.{
  inr, inl, Bool-cases, zero, refl, arith, ◌∷◌, suc, not, ◌+◌, [], if◌then◌else◌, ◌≤◌, true, ◌≡◌,
  Bool, ℕ,
}
use erpn.SerializationRetry.{
  is_retryable, threw, max_attempts, returned, with_serialization_retry, retry_from, Attempt,
}

-- An attempt that ends the loop: a value, or an error that another attempt would not resolve.
unfoldable pub is_final : {A : Type 0} → Attempt A → Bool
is_final (returned a) = true
is_final (threw e) = not (is_retryable e)

module _ {A : Type 0} (work : ℕ → Attempt A) where
  -- The budget never runs out: the loop ends by its own guard, within three attempts.
  pub more_rounds :
      (rounds attempt : ℕ) (now : Attempt A)
      → max_attempts ≤ rounds + attempt
      → retry_from work (suc rounds) attempt now ≡ retry_from work rounds attempt now
  unfolding retry_from
  more_rounds rounds attempt (returned a) h = refl
  more_rounds zero attempt (threw e) h = ground arith
  more_rounds (suc rounds) attempt (threw e) h =
      rw (more_rounds rounds (attempt + 1) (work (attempt + 1)) (omega arith))

  third :
      (x : Attempt A) → retry_from work 1 3 x ≡ record { outcome = x; attempts = 3; backoffs = [] }
  unfolding retry_from
  third (returned a) = refl
  third (threw e) = refl

  second :
      (x : Attempt A)
      → retry_from work 2 2 x ≡ (
          if is_final x
          then record { outcome = x; attempts = 2; backoffs = [] }
          else record { outcome = work 3; attempts = 3; backoffs = 40 ∷ [] })
  unfolding retry_from is_final
  second (returned a) = refl
  second (threw e) = elim (Bool-cases (is_retryable e)) [
    | inl again ↦ rw (again, third (work 3))
    | inr stop ↦ rw stop
  ]

  first :
      (x : Attempt A)
      → retry_from work 3 1 x ≡ (
          if is_final x
          then record { outcome = x; attempts = 1; backoffs = [] }
          else if is_final (work 2)
          then record { outcome = work 2; attempts = 2; backoffs = 20 ∷ [] }
          else record { outcome = work 3; attempts = 3; backoffs = 20 ∷ 40 ∷ [] })
  unfolding retry_from is_final
  first (returned a) = refl
  first (threw e) = elim (Bool-cases (is_retryable e)) [
    | inl again ↦
        rw (again, second (work 2))
          (elim (Bool-cases (is_final (work 2))) [ inl final ↦ rw final | inr more ↦ rw more ])
    | inr stop ↦ rw stop
  ]

  -- The run takes the first of the three attempts that returns or fails for good, and the third where
  -- none of them does; it waits 20 ms and then 40 ms, before the jitter.
  pub with_serialization_retry_lem : with_serialization_retry work ≡ (
      if is_final (work 1)
      then record { outcome = work 1; attempts = 1; backoffs = [] }
      else if is_final (work 2)
      then record { outcome = work 2; attempts = 2; backoffs = 20 ∷ [] }
      else record { outcome = work 3; attempts = 3; backoffs = 20 ∷ 40 ∷ [] })
  unfolding with_serialization_retry
  with_serialization_retry_lem = first (work 1)
