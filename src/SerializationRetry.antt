-- ===== src/SerializationRetry.antt =====
-- apps/api/src/http/serialization-retry.ts: the loop that tries work again, and what it tries again for.
use erpn.Prelude.{
  zero, ◌∷◌, ◌-◌, ◌^◌, ◌*◌, not, leb, none, if◌then◌else◌, text_eq, ◌+◌, suc, some, ◌||◌, codes,
  List, [], false, Option, Text, Bool, ℕ,
}
pub mod Bounded

-- What is thrown: an `Error` with its code and its cause, another value with its code, or nothing at all
-- (`null` or `undefined`).
pub data Thrown : Type 0 where
  an_error : Option Text → Thrown → Thrown
  not_an_error : Option Text → Thrown
  nothing : Thrown

abbrev pub serialization_failure : Text
serialization_failure = codes "40001"

abbrev pub deadlock_detected : Text
deadlock_detected = codes "40P01"

abbrev pub max_attempts : ℕ
max_attempts = 3

abbrev pub base_delay_ms : ℕ
base_delay_ms = 20

abbrev pub is_retryable_code : Option Text → Bool
is_retryable_code none = false
is_retryable_code (some code) = text_eq code serialization_failure || text_eq code deadlock_detected

-- The walk along the causes.
unfoldable pub is_retryable : Thrown → Bool
is_retryable nothing = false
is_retryable (not_an_error code) = is_retryable_code code
is_retryable (an_error code cause) = is_retryable_code code || is_retryable cause

pub data Attempt (A : Type 0) : Type 0 where
  returned : A → Attempt A
  threw : Thrown → Attempt A

-- What a run did: its outcome, the attempts it made, and the backoffs before the jitter.
pub record Run (A : Type 0) : Type 0 where
  pub outcome : Attempt A
  pub attempts : ℕ
  pub backoffs : List ℕ

module _ {A : Type 0} (work : ℕ → Attempt A) where
  -- The loop from an attempt on. `work` is what each attempt meets; the loop runs on a budget of rounds.
  unfoldable pub retry_from : ℕ → ℕ → Attempt A → Run A
  retry_from rounds attempt (returned a) = record {
    outcome = returned a;
    attempts = attempt;
    backoffs = [];
  }
  retry_from zero attempt (threw e) = record {
    outcome = threw e;
    attempts = attempt;
    backoffs = [];
  }
  retry_from (suc rounds) attempt (threw e) =
      let rest = retry_from rounds (attempt + 1) (work (attempt + 1)) in
      if leb max_attempts attempt || not (is_retryable e)
      then record { outcome = threw e; attempts = attempt; backoffs = [] }
      else record rest { backoffs = base_delay_ms * 2 ^ (attempt - 1) ∷ rest.backoffs }

  unfoldable pub with_serialization_retry : Run A
  with_serialization_retry = retry_from max_attempts 1 (work 1)
