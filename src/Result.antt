-- ===== src/Result.antt =====
-- A call that may throw: its value, or what it threw.
use erpn.Prelude.{if◌then◌else◌, ◌≡◌, refl, Bool, Option, none, some}
use erpn.Failure.{Failure}

pub data Result {ℓ} (A : Type ℓ) : Type ℓ where
  ok : A → Result A
  err : Failure → Result A

-- A statement after another: what throws stops the rest.
module _ {ℓ κ} {Read : Type ℓ} {Answer : Type κ} where
  infixl 5 ◌>>=◌
  abbrev pub ◌>>=◌ : Result Read → (Read → Result Answer) → Result Answer
  call >>= rest = elim call [ err thrown ↦ err thrown | ok read ↦ rest read ]

  -- A block that returns has run each of its statements.
  pub returns :
      (call : Result Read) (rest : Read → Result Answer) {answer : Answer}
      → (call >>= rest) ≡ ok answer
      → (read : Read) × (call ≡ ok read) × (rest read ≡ ok answer)
  returns (err thrown) rest same = cc
  returns (ok read) rest same = (read, refl, same)

  -- The same, given to the rest of a proof.
  pub having_read :
      {Goal : Type 0} (call : Result Read) (rest : Read → Result Answer) {answer : Answer}
      → (call >>= rest) ≡ ok answer
      → ((read : Read) → call ≡ ok read → rest read ≡ ok answer → Goal)
      → Goal
  having_read (err thrown) rest same k = cc
  having_read (ok read) rest same k = k read refl same

infixl 5 ◌>>◌
abbrev pub ◌>>◌ {ℓ} : {Answer : Type ℓ} → Result (Unit {0}) → Result Answer → Result Answer
check >> rest = check >>= (λ _. rest)

-- `if (!test) throw e;`
abbrev pub ensure : Bool → Failure → Result (Unit {0})
ensure test e = if test then ok tt else err e

-- `try { … } catch (error) { throw e; }`
abbrev pub rethrow_as {ℓ} : {A : Type ℓ} → Result A → Failure → Result A
rethrow_as (ok a) e = ok a
rethrow_as (err _) e = err e

-- `x ?? throw e`
abbrev pub or_throw {ℓ} : {A : Type ℓ} → Option A → Failure → Result A
or_throw (some a) e = ok a
or_throw none e = err e
