-- ===== src/Database/Throttle/Locks.antt =====
-- A lock of apps/api/src/database/repositories/auth-throttle.repository.ts while it is in force.
use erpn.Database.Throttle.{
  lock_in_force, throttle_status, next_count, ◌>>=◌, is_throttle, normalise, failed_again,
  record_failure, clear_on_success, is_over, cleared,
}
use erpn.Database.Types.Identity.{
  ThrottleRow, AuthThrottleScopeKind, AuthThrottleStatus, AuthThrottlePolicy,
}
use erpn.Database.Transaction.Rows.{select_first-changed}
use erpn.Prelude.{
  lt→ltb, false, ◌&&◌, arith, ◌<◌, leb, ◌*◌, sym, ◌+◌, ap, refl, ◌∙◌, Bool-cases, inr, inl, some,
  ◌≡◌, ◌≤◌, ℕ, Bool, Text,
}
use erpn.Database.Transaction.{
  update_where, ◌>>=◌, pure, query, write, select_first, Store, Session,
}
use erpn.Result.{Result, ok}
use erpn.SessionPolicy.{minute_ms}
use erpn.Database.Throttle.Failures.{upsert_failure-found, record_failure-writes}

-- Failures and successes of any subjects, at moments between two.
pub data Attempts (lower : Text → Text) (policy : AuthThrottlePolicy) (from upto : ℕ)
    : Store → Store → Type 0 where
  rests : {s : Store} → Attempts lower policy from upto s s
  fails :
      {s t u : Store} (session : Session) (kind : AuthThrottleScopeKind) (key : Text)
      (status : AuthThrottleStatus)
      → from ≤ session.now
      → session.now ≤ upto
      → record_failure lower session kind key policy s ≡ ok (status, t)
      → Attempts lower policy from upto t u
      → Attempts lower policy from upto s u
  succeeds :
      {s t u : Store} (session : Session) (kind : AuthThrottleScopeKind) (key : Text)
      → from ≤ session.now
      → session.now ≤ upto
      → clear_on_success lower session kind key s ≡ ok (tt, t)
      → Attempts lower policy from upto t u
      → Attempts lower policy from upto s u

-- The subject is locked until a moment or later.
pub record LockedUntil (lower : Text → Text) (kind : AuthThrottleScopeKind) (key : Text) (until : ℕ)
    (s : Store) : Type 0 where
  pub row : ThrottleRow
  pub end : ℕ
  pub found : select_first (is_throttle kind (normalise lower key)) s.auth_throttle ≡ some row
  pub ends : row.locked_until ≡ some end
  pub lasts : until ≤ end

result_store : (s t : Store) → ◌≡◌ {A = Result (Unit {0} × Store)} (ok (tt, s)) (ok (tt, t)) → s ≡ t
result_store s t h = cc h

module _ (lower : Text → Text) (policy : AuthThrottlePolicy) (kind : AuthThrottleScopeKind)
    (key : Text) (until : ℕ) where
  again_LockedUntil :
      {s : Store} (session : Session) (t : Store) (after : ThrottleRow)
      (lock : LockedUntil lower kind key until s)
      → select_first (is_throttle kind (normalise lower key)) t.auth_throttle ≡ some after
      → after ≡ failed_again policy session.now lock.row
      → until ≤ session.now + policy.lockout_minutes * minute_ms
      → LockedUntil lower kind key until t
  unfolding failed_again
  again_LockedUntil session t after lock found same late =
      elim (Bool-cases (leb policy.max_attempts (next_count policy session.now lock.row))) [
        | inl y ↦ record {
          row = after;
          end = session.now + policy.lockout_minutes * minute_ms;
          found = found;
          ends = ap (λ (x : ThrottleRow). x.locked_until) same ∙ rw y refl;
          lasts = late;
        }
        | inr n ↦ record {
          row = after;
          end = lock.end;
          found = found;
          ends = ap (λ (x : ThrottleRow). x.locked_until) same ∙ rw n (lock.ends);
          lasts = lock.lasts;
        }
      ]

  -- A failure of any subject leaves the lock, or sets a later one.
  failed-LockedUntil :
      (session : Session) (other : AuthThrottleScopeKind) (name : Text) (s t : Store)
      (status : AuthThrottleStatus)
      → until ≤ session.now + policy.lockout_minutes * minute_ms
      → record_failure lower session other name policy s ≡ ok (status, t)
      → LockedUntil lower kind key until s
      → LockedUntil lower kind key until t
  unfolding failed_again
  failed-LockedUntil session other name s t status late h lock =
      let writes = record_failure-writes lower session other name policy s t status h in
      let (after, found, either) =
        upsert_failure-found (is_throttle kind (normalise lower key)) other (normalise lower name)
          policy session.now s.auth_throttle lock.row (λ x. refl) lock.found in
      let found' : select_first (is_throttle kind (normalise lower key)) t.auth_throttle
          ≡ some after =
        cc (ap (select_first (is_throttle kind (normalise lower key))) writes, found) in
      elim either [
        | inl same ↦ record {
          row = after;
          end = lock.end;
          found = found';
          ends = ap (λ (x : ThrottleRow). x.locked_until) same ∙ lock.ends;
          lasts = lock.lasts;
        }
        | inr same ↦ again_LockedUntil session t after lock found' same late
      ]

  -- A success before the lock ends leaves it.
  cleared-LockedUntil :
      (session : Session) (other : AuthThrottleScopeKind) (name : Text) (s t : Store)
      → session.now < until
      → clear_on_success lower session other name s ≡ ok (tt, t)
      → LockedUntil lower kind key until s
      → LockedUntil lower kind key until t
  unfolding clear_on_success write cleared
  cleared-LockedUntil session other name s t early h lock =
      let mine = is_throttle kind (normalise lower key) in
      let narrow : ThrottleRow → Bool = λ row.
        is_throttle other (normalise lower name) row && is_over session.now row.locked_until in
      let kept : narrow lock.row ≡ false = ground (arith, lock.ends, lock.lasts) in
      let after : Store = record s {
        auth_throttle = update_where narrow (cleared session.now) s.auth_throttle;
      } in
      let same : update_where narrow (cleared session.now) s.auth_throttle ≡ t.auth_throttle =
        ap (λ (v : Store). v.auth_throttle) (result_store after t h) in
      record {
        row = lock.row;
        end = lock.end;
        found =
            ap (select_first mine) (sym same)
            ∙ select_first-changed mine narrow (cleared session.now) (λ x. refl) s.auth_throttle
            ∙ rw (lock.found, kept) refl;
        ends = lock.ends;
        lasts = lock.lasts;
      }

  pub Attempts-LockedUntil :
      (from upto : ℕ) (s t : Store)
      → until ≤ from + policy.lockout_minutes * minute_ms
      → upto < until
      → Attempts lower policy from upto s t
      → LockedUntil lower kind key until s
      → LockedUntil lower kind key until t
  Attempts-LockedUntil from upto s t late early rests lock = lock
  Attempts-LockedUntil from upto s t late early
        (fails session other name status after before h more) lock =
      Attempts-LockedUntil from upto _ t late early more
        (failed-LockedUntil session other name _ _ status (omega arith) h lock)
  Attempts-LockedUntil from upto s t late early (succeeds session other name after before h more)
        lock =
      Attempts-LockedUntil from upto _ t late early more
        (cleared-LockedUntil session other name _ _ (omega arith) h lock)

  -- While a lock is in force, no failure and no success of any subject, with a right password or a
  -- wrong one, ends it: from a lock that ends at most one lockout time after the first of them, the
  -- subject still reports a lock, of that end or a later one, after the last of them, at any moment
  -- before the end that the session of the last of them may read.
  pub lock_stays :
      (session : Session) (from : ℕ) (s t : Store)
      → until ≤ from + policy.lockout_minutes * minute_ms
      → session.now < until
      → LockedUntil lower kind key until s
      → Attempts lower policy from session.now s t
      → (count end : ℕ) × (throttle_status lower session kind key t
          ≡ ok (record { failure_count = count; locked_until = some end }, t))
        × (until ≤ end)
  unfolding throttle_status ◌>>=◌ query pure lock_in_force
  lock_stays session from s t late early lock more =
      let after = Attempts-LockedUntil from session.now s t late early more lock in
      (
        after.row.failure_count,
        after.end,
        rw (after.found, after.ends, lt→ltb session.now after.end (omega (arith, after.lasts)))
            refl,
        after.lasts,
      )
