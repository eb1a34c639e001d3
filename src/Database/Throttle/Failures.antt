-- ===== src/Database/Throttle/Failures.antt =====
-- What a failure writes (apps/api/src/database/repositories/auth-throttle.repository.ts).
use erpn.Database.Throttle.{
  same_kind, first_failure, to_status, ◌>>=◌, is_throttle, is_key_length, normalise, upsert_failure,
  failed_again, record_failure,
}
use erpn.Database.Types.Identity.{
  account, address, ThrottleRow, AuthThrottleScopeKind, AuthThrottleStatus, AuthThrottlePolicy,
}
use erpn.Database.Transaction.Rows.{
  select_first-changed, select_first-kept, select_first-append, select_first-matches,
}
use erpn.Prelude.{
  text_eq_refl, sym, true, ap, refl, ◌∙◌, Bool-cases, inr, inl, Option-cases, ◌⊎◌, some, ◌≡◌, List,
  ℕ, Bool, Text,
}
use erpn.Database.Transaction.{
  ◌>>=◌, pure, refuse_unless, unless_absent, query, write, select_first, Store, Session,
}
use erpn.Result.{ok}
use erpn.Database.Frame.Inversion.{after_guard}

pub same_kind_refl : (kind : AuthThrottleScopeKind) → same_kind kind kind ≡ true
unfolding same_kind
same_kind_refl address = refl
same_kind_refl account = refl

pub is_throttle_first :
    (kind : AuthThrottleScopeKind) (key : Text) (now : ℕ)
    → is_throttle kind key (first_failure kind key now) ≡ true
is_throttle_first kind key now = rw (same_kind_refl kind, text_eq_refl key) refl

-- The rows after a failure, seen by any condition on the key.
pub upsert_failure-found :
    (seen : ThrottleRow → Bool) (kind : AuthThrottleScopeKind) (key : Text)
    (policy : AuthThrottlePolicy) (now : ℕ) (rows : List ThrottleRow) (row : ThrottleRow)
    → ((x : ThrottleRow) → seen (failed_again policy now x) ≡ seen x)
    → select_first seen rows ≡ some row
    → (after : ThrottleRow) × (select_first seen (upsert_failure kind key policy now rows)
        ≡ some after)
      × ((after ≡ row) ⊎ (after ≡ failed_again policy now row))
unfolding upsert_failure
upsert_failure-found seen kind key policy now rows row same found =
    elim (Option-cases (select_first (is_throttle kind key) rows)) [
      | inl e ↦ (row, rw (e, upsert_failure) (select_first-kept seen rows _ row found), inl refl)
      | inr (other, e) ↦
          let changed =
            select_first-changed seen (is_throttle kind key) (failed_again policy now) same rows in
          elim (Bool-cases (is_throttle kind key row)) [
            | inl y ↦ (
              failed_again policy now row,
              rw (e, upsert_failure) (changed ∙ rw (found, y) refl),
              inr refl,
            )
            | inr n ↦ (row, rw (e, upsert_failure) (changed ∙ rw (found, n) refl), inl refl)
          ]
    ]

module _ (lower : Text → Text) (session : Session) (kind : AuthThrottleScopeKind) (key : Text)
    (policy : AuthThrottlePolicy) where
  -- A failure whose key the column takes writes the rows and reports the one of its subject.
  pub record_failure_lem :
      (s : Store) (row : ThrottleRow)
      → is_key_length (normalise lower key) ≡ true
      → select_first
          (is_throttle kind (normalise lower key))
          (upsert_failure kind (normalise lower key) policy session.now s.auth_throttle)
        ≡ some row
      → record_failure lower session kind key policy s
        ≡ ok (
          to_status session.now row,
          record s {
            auth_throttle =
                upsert_failure kind (normalise lower key) policy session.now s.auth_throttle;
          },
        )
  unfolding record_failure ◌>>=◌ refuse_unless write query unless_absent pure
  record_failure_lem s row fits e = rw (fits, refuse_unless, ◌>>=◌, e) refl

  -- The rows hold the subject after a failure.
  pub upsert_failure-finds :
      (rows : List ThrottleRow)
      → (row : ThrottleRow) × (select_first
            (is_throttle kind key)
            (upsert_failure kind key policy session.now rows)
          ≡ some row)
  unfolding upsert_failure failed_again
  upsert_failure-finds rows = elim (Option-cases (select_first (is_throttle kind key) rows)) [
    | inl e ↦ (
      first_failure kind key session.now,
      rw (e, upsert_failure)
          (select_first-append (is_throttle kind key) rows _ e
            (is_throttle_first kind key session.now)),
    )
    | inr (row, e) ↦ (
      failed_again policy session.now row,
      rw (e, upsert_failure)
          (select_first-changed (is_throttle kind key) (is_throttle kind key)
              (failed_again policy session.now) (λ x. refl) rows
            ∙ rw (e, select_first-matches (is_throttle kind key) rows row e) refl),
    )
  ]

module _ (lower : Text → Text) (session : Session) (kind : AuthThrottleScopeKind) (key : Text)
    (policy : AuthThrottlePolicy) where
  -- A failure that returns has a key that the column takes.
  pub record_failure-fits :
      (s t : Store) (status : AuthThrottleStatus)
      → record_failure lower session kind key policy s ≡ ok (status, t)
      → is_key_length (normalise lower key) ≡ true
  unfolding record_failure
  record_failure-fits s t status h =
      after_guard s t status (is_key_length (normalise lower key)) _ _ h (λ fits rest. fits)

  -- A failure that returns has written the rows.
  pub record_failure-writes :
      (s t : Store) (status : AuthThrottleStatus)
      → record_failure lower session kind key policy s ≡ ok (status, t)
      → t.auth_throttle
        ≡ upsert_failure kind (normalise lower key) policy session.now s.auth_throttle
  record_failure-writes s t status h =
      let fits = record_failure-fits s t status h in
      let (row, e) =
        upsert_failure-finds lower session kind (normalise lower key) policy s.auth_throttle in
      let same : record s {
        auth_throttle =
            upsert_failure kind (normalise lower key) policy session.now s.auth_throttle;
      }
          ≡ t =
        cc (record_failure_lem lower session kind key policy s row fits e, h) in
      ap (λ (v : Store). v.auth_throttle) (sym same)
