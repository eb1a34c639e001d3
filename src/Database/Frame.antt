-- ===== src/Database/Frame.antt =====
-- What a call inside a transaction leaves as it was. A view is any function of the tables.
pub mod Reads
pub mod Writes
pub mod Inversion
use erpn.Database.Transaction.{
  ◌>>◌, require_company_scope, CompanyScope, unless_absent, refuse_unless, Session, query, lift,
  write, pure, random_uuid, ◌>>=◌, Store, Tx,
}
use erpn.Prelude.{String, suc, false, none, true, some, ℕ, ap, refl, Bool, Option, ◌∙◌, ◌≡◌}
use erpn.Result.{err, Result, ok}
use erpn.Failure.{Failure}

module _ {A B : Type 0} (m : Tx A) (f : A → Tx B) (s t : Store) {b : B} where
  ran_from :
      (x : Result (A × Store))
      → m s ≡ x
      → (m >>= f) s ≡ ok (b, t)
      → (a : A) × (r : Store) × (m s ≡ ok (a, r)) × (f a r ≡ ok (b, t))
  unfolding ◌>>=◌
  ran_from (ok (a, r)) e h = (a, r, e, rw (e, ◌>>=◌) at h)
  ran_from (err x) e h = absurd (cc (rw (e, ◌>>=◌) at h))

  -- A block that returns has run its first statement and then the rest.
  pub ran :
      (m >>= f) s ≡ ok (b, t) → (a : A) × (r : Store) × (m s ≡ ok (a, r)) × (f a r ≡ ok (b, t))
  ran h = ran_from (m s) refl h

pub record Keeps {X : Type 0} (view : Store → X) {A : Type 0} (m : Tx A) : Type 0 where
  pub kept : (s : Store) (a : A) (t : Store) → m s ≡ ok (a, t) → view t ≡ view s

pub unless_absent-eq-ok :
    {A : Type 0} (o : Option A) (e : Failure) (s t : Store) (a : A)
    → unless_absent o e s ≡ ok (a, t)
    → (o ≡ some a) × (t ≡ s)
unfolding unless_absent
unless_absent-eq-ok (some b) e s t a h = (cc h, cc h)
unless_absent-eq-ok none e s t a h = absurd (cc h)

pub refuse_unless-eq-ok :
    (test : Bool) (e : Failure) (s t : Store) (a : Unit {0})
    → refuse_unless test e s ≡ ok (a, t)
    → (test ≡ true) × (t ≡ s)
unfolding refuse_unless
refuse_unless-eq-ok true e s t a h = (refl, cc h)
refuse_unless-eq-ok false e s t a h = absurd (cc h)

pub lift-eq-ok :
    {A : Type 0} (x : Result A) (s t : Store) (a : A) → lift x s ≡ ok (a, t) → (x ≡ ok a) × (t ≡ s)
unfolding lift
lift-eq-ok (ok b) s t a h = (cc h, cc h)
lift-eq-ok (err e) s t a h = absurd (cc h)

module _ {X : Type 0} (view : Store → X) where
  pub >>=-Keeps :
      {A B : Type 0} (m : Tx A) (f : A → Tx B)
      → Keeps view m
      → ((a : A) → Keeps view (f a))
      → Keeps view (m >>= f)
  >>=-Keeps m f k l = record {
    kept = λ s b t h. let (a, r, e, e') = ran m f s t h in (l a).kept r b t e' ∙ k.kept s a r e;
  }

  module _ {A : Type 0} where
    pub pure-Keeps : (a : A) → Keeps view (pure a)
    unfolding pure
    pure-Keeps a = record { kept = λ s b t h. ap view (cc h) }

    pub lift-Keeps : (r : Result A) → Keeps view (lift r)
    unfolding lift
    lift-Keeps (ok a) = record { kept = λ s b t h. ap view (cc h) }
    lift-Keeps (err e) = record { kept = λ s b t h. absurd (cc h) }

    pub query-Keeps : (f : Store → A) → Keeps view (query f)
    unfolding query
    query-Keeps f = record { kept = λ s b t h. ap view (cc h) }

    pub unless_absent-Keeps : (o : Option A) (e : Failure) → Keeps view (unless_absent o e)
    unfolding unless_absent
    unless_absent-Keeps (some a) e = record { kept = λ s b t h. ap view (cc h) }
    unless_absent-Keeps none e = record { kept = λ s b t h. absurd (cc h) }

  pub refuse_unless-Keeps : (b : Bool) (e : Failure) → Keeps view (refuse_unless b e)
  unfolding refuse_unless
  refuse_unless-Keeps true e = record { kept = λ s b t h. ap view (cc h) }
  refuse_unless-Keeps false e = record { kept = λ s b t h. absurd (cc h) }

  pub write-Keeps : (f : Store → Store) → ((s : Store) → view (f s) ≡ view s) → Keeps view (write f)
  unfolding write
  write-Keeps f h = record { kept = λ s b t e. ap view (cc e) ∙ h s }

  pub random_uuid-Keeps :
      (session : Session)
      → ((s : Store) (n : ℕ) → view (record s { drawn = n }) ≡ view s)
      → Keeps view (random_uuid session)
  unfolding random_uuid
  random_uuid-Keeps session h = record { kept = λ s b t e. ap view (cc e) ∙ h s (suc s.drawn) }

  -- An `UPDATE` with its `RETURNING`.
  pub update-Keeps :
      {A B : Type 0} (read : Store → A) (change : Store → Store) (rest : A → Tx B)
      → ((s : Store) → view (change s) ≡ view s)
      → ((a : A) → Keeps view (rest a))
      → Keeps view (query read >>= λ row. write change >> rest row)
  update-Keeps read change rest h k = search (>>=-Keeps, query-Keeps, write-Keeps, h, k)

  -- The statements of a repository see the company of the session's scope.
  pub scoped-Keeps :
      {A : Type 0} (session : Session) (subject : String) (f : CompanyScope → Tx A)
      → ((c : CompanyScope) → require_company_scope session.scope subject ≡ ok c → Keeps view (f c))
      → Keeps view (lift (require_company_scope session.scope subject) >>= f)
  unfolding lift
  scoped-Keeps session subject f k = record {
    kept = λ s b t h.
        let (c, r, e, e') = ran (lift (require_company_scope session.scope subject)) f s t h in
        (k c ((lift-eq-ok (require_company_scope session.scope subject) s r c e).0)).kept r b t e'
        ∙ (lift-Keeps _).kept s c r e;
  }

pub ruleset keeps =
    (>>=-Keeps, pure-Keeps, lift-Keeps, query-Keeps, unless_absent-Keeps, refuse_unless-Keeps)
