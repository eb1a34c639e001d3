-- ===== src/Database/Frame/Inversion.antt =====
-- A block that returns, taken apart from its first statement on: each lemma gives what the statement
-- returned to the rest of the proof.
use erpn.Database.Transaction.{◌>>=◌, unless_absent, refuse_unless, lift, Tx, Store}
use erpn.Result.{ok, Result}
use erpn.Prelude.{some, true, ◌≡◌, Option, Bool}
use erpn.Failure.{Failure}
use erpn.Database.Frame.{unless_absent-eq-ok, refuse_unless-eq-ok, ran, lift-eq-ok, Keeps}

pub unchanged : Store → Store
unchanged s = s

module _ {ℓ} {A B : Type 0} {Goal : Type ℓ} (s t : Store) (b : B) where
  pub after :
      (m : Tx A) (f : A → Tx B)
      → (m >>= f) s ≡ ok (b, t)
      → ((a : A) (r : Store) → m s ≡ ok (a, r) → f a r ≡ ok (b, t) → Goal)
      → Goal
  after m f h k = let (a, r, e, e') = ran m f s t h in k a r e e'

  -- A statement that only reads.
  pub after_read :
      (m : Tx A) (f : A → Tx B)
      → Keeps unchanged m
      → (m >>= f) s ≡ ok (b, t)
      → ((a : A) → m s ≡ ok (a, s) → f a s ≡ ok (b, t) → Goal)
      → Goal
  unfolding unchanged
  after_read m f same h k =
      after m f h
        (λ a r e e'. let back : r ≡ s = same.kept s a r e in k a (rw back at e) (rw back at e'))

  pub after_lift :
      (x : Result A) (f : A → Tx B)
      → (lift x >>= f) s ≡ ok (b, t)
      → ((a : A) → x ≡ ok a → f a s ≡ ok (b, t) → Goal)
      → Goal
  after_lift x f h k =
      after (lift x) f h
        (λ a r e e'. k a ((lift-eq-ok x s r a e).0) (rw ((lift-eq-ok x s r a e).1) at e'))

  pub after_found :
      (o : Option A) (e : Failure) (f : A → Tx B)
      → (unless_absent o e >>= f) s ≡ ok (b, t)
      → ((a : A) → o ≡ some a → f a s ≡ ok (b, t) → Goal)
      → Goal
  after_found o x f h k = after (unless_absent o x) f h (λ a r e e'.
      k a ((unless_absent-eq-ok o x s r a e).0) (rw ((unless_absent-eq-ok o x s r a e).1) at e'))

module _ {ℓ} {B : Type 0} {Goal : Type ℓ} (s t : Store) (b : B) where
  pub after_guard :
      (test : Bool) (e : Failure) (f : Unit {0} → Tx B)
      → (refuse_unless test e >>= f) s ≡ ok (b, t)
      → (test ≡ true → f tt s ≡ ok (b, t) → Goal)
      → Goal
  after_guard test x f h k = after s t b (refuse_unless test x) f h (λ a r e e'.
      k ((refuse_unless-eq-ok test x s r a e).0)
        (rw ((refuse_unless-eq-ok test x s r a e).1) at e'))
