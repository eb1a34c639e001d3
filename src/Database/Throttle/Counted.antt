-- ===== src/Database/Throttle/Counted.antt =====
-- Runs of failures in apps/api/src/database/repositories/auth-throttle.repository.ts.
use erpn.Database.Throttle.{
  lock_in_force, first_failure, throttle_status, ◌>>=◌, window_elapsed, to_status, is_throttle,
  is_key_length, normalise, upsert_failure, failed_again, record_failure,
}
use erpn.Database.Throttle.Failures.{is_throttle_first, record_failure_lem}
use erpn.Database.Types.Identity.{
  ThrottleRow, AuthThrottleScopeKind, AuthThrottleStatus, AuthThrottlePolicy,
}
use erpn.Database.Transaction.Rows.{select_first-append, select_first-changed, select_first-matches}
use erpn.Prelude.{
  inr, leb→le, inl, Bool-cases, length-append, none, true, ◌++◌, ◌<◌, refl, All, length, ◌∙◌, arith,
  false, ◌*◌, ◌+◌, leb, ◌≤◌, [], if◌then◌else◌, some, suc, ◌≡◌, ◌∷◌, Option, List, ℕ, Bool, Text,
}
use erpn.Database.Transaction.{query, ◌>>=◌, ◌>>◌, pure, select_first, Tx, Store, Session}
use erpn.SessionPolicy.{minute_ms}
use erpn.Result.{ok}

add_one : (n : ℕ) → n + 1 ≡ suc n
add_one n = omega arith

module _ (lower : Text → Text) (policy : AuthThrottlePolicy) (kind : AuthThrottleScopeKind)
    (key : Text) where
  unfoldable pub record_attempts : List Session → Tx (Unit {0})
  record_attempts [] = pure tt
  record_attempts (session ∷ sessions) = do
    record_failure lower session kind key policy
    record_attempts sessions

  -- The lock after a run of failures that began with so many, where the window stays open.
  lock_after : ℕ → Option ℕ → List Session → Option ℕ
  lock_after count lock [] = lock
  lock_after count lock (session ∷ sessions) =
      lock_after (suc count)
        (if leb policy.max_attempts (suc count)
          then some (session.now + policy.lockout_minutes * minute_ms)
          else lock)
        sessions

  abbrev mine : ThrottleRow → Bool
  mine = is_throttle kind (normalise lower key)

  -- A failure at a moment within the window of a row that is there.
  counted_once :
      (session : Session) (s : Store) (row : ThrottleRow)
      → is_key_length (normalise lower key) ≡ true
      → select_first mine s.auth_throttle ≡ some row
      → session.now ≤ row.window_started_at + policy.window_minutes * minute_ms
      → (t : Store) × (after : ThrottleRow) × (record_failure lower session kind key policy s
          ≡ ok (to_status session.now after, t))
        × (select_first mine t.auth_throttle ≡ some after)
        × (after.failure_count ≡ suc row.failure_count)
        × (after.window_started_at ≡ row.window_started_at)
        × (after.locked_until ≡ (
            if leb policy.max_attempts (suc row.failure_count)
            then some (session.now + policy.lockout_minutes * minute_ms)
            else row.locked_until))
  unfolding failed_again upsert_failure
  counted_once session s row fits found within =
      let after = failed_again policy session.now row in
      let still : window_elapsed policy session.now row ≡ false = ground (arith, within) in
      let changed : select_first mine
            (upsert_failure kind (normalise lower key) policy session.now s.auth_throttle)
          ≡ some after =
        rw (found, upsert_failure)
          (select_first-changed mine mine (failed_again policy session.now) (λ x. refl)
              s.auth_throttle
            ∙ rw (found, select_first-matches mine s.auth_throttle row found) refl) in
      (
        record s {
          auth_throttle =
              upsert_failure kind (normalise lower key) policy session.now s.auth_throttle;
        },
        after,
        record_failure_lem lower session kind key policy s after fits changed,
        changed,
        rw still (omega arith),
        rw still refl,
        rw (still, add_one row.failure_count) refl,
      )

  record_attempts-next :
      (session : Session) (sessions : List Session) (s t u : Store) (status : AuthThrottleStatus)
      → record_failure lower session kind key policy s ≡ ok (status, t)
      → record_attempts sessions t ≡ ok (tt, u)
      → record_attempts (session ∷ sessions) s ≡ ok (tt, u)
  unfolding record_attempts ◌>>=◌
  record_attempts-next session sessions s t u status first rest = rw (first, ◌>>=◌, rest) refl

  -- A moment within the window that opened at a moment.
  abbrev pub IsWithin : ℕ → Session → Type 0
  IsWithin start session = session.now ≤ start + policy.window_minutes * minute_ms

  counted :
      (sessions : List Session) (s : Store) (row : ThrottleRow)
      → is_key_length (normalise lower key) ≡ true
      → select_first mine s.auth_throttle ≡ some row
      → All (IsWithin row.window_started_at) sessions
      → (t : Store) × (after : ThrottleRow) × (record_attempts sessions s ≡ ok (tt, t))
        × (select_first mine t.auth_throttle ≡ some after)
        × (after.failure_count ≡ row.failure_count + length sessions)
        × (after.locked_until ≡ lock_after row.failure_count row.locked_until sessions)
  unfolding record_attempts pure lock_after
  counted [] s row fits found within = (s, row, refl, found, omega arith, refl)
  counted (session ∷ sessions) s row fits found (now, within) =
      let (t, next, ran, found', count, start, lock) = counted_once session s row fits found now in
      let (u, after, ran', last, total, locked) =
        counted sessions t next fits found' (rw start within) in
      (
        u,
        after,
        record_attempts-next session sessions s t u (to_status session.now next) ran ran',
        last,
        omega (arith, total, count),
        locked ∙ rw (count, lock) refl,
      )

  -- Too few failures leave the lock as it was.
  lock_after_few :
      (count : ℕ) (lock : Option ℕ) (sessions : List Session)
      → count + length sessions < policy.max_attempts
      → lock_after count lock sessions ≡ lock
  unfolding lock_after
  lock_after_few count lock [] few = refl
  lock_after_few count lock (session ∷ sessions) few =
      let no_lock : leb policy.max_attempts (suc count) ≡ false = ground (arith, few) in
      rw no_lock (lock_after_few (suc count) lock sessions (omega (arith, few)))

  -- Enough of them set one that runs from the last.
  lock_after_enough :
      (count : ℕ) (lock : Option ℕ) (sessions : List Session) (last : Session)
      → policy.max_attempts ≤ count + suc (length sessions)
      → lock_after count lock (sessions ++ (last ∷ []))
        ≡ some (last.now + policy.lockout_minutes * minute_ms)
  unfolding lock_after
  lock_after_enough count lock [] last enough =
      let locks : leb policy.max_attempts (suc count) ≡ true = ground (arith, enough) in
      rw locks refl
  lock_after_enough count lock (session ∷ sessions) last enough =
      lock_after_enough (suc count) _ sessions last (omega (arith, enough))

  first_attempt :
      (session : Session) (s : Store)
      → is_key_length (normalise lower key) ≡ true
      → select_first mine s.auth_throttle ≡ none
      → (t : Store) × (record_failure lower session kind key policy s
          ≡ ok (to_status session.now (first_failure kind (normalise lower key) session.now), t))
        × (select_first mine t.auth_throttle
            ≡ some (first_failure kind (normalise lower key) session.now))
  unfolding upsert_failure
  first_attempt session s fits fresh =
      let row = first_failure kind (normalise lower key) session.now in
      let added : select_first mine
            (upsert_failure kind (normalise lower key) policy session.now s.auth_throttle)
          ≡ some row =
        rw (fresh, upsert_failure)
          (select_first-append mine s.auth_throttle row fresh
            (is_throttle_first kind (normalise lower key) session.now)) in
      (
        record s {
          auth_throttle =
              upsert_failure kind (normalise lower key) policy session.now s.auth_throttle;
        },
        record_failure_lem lower session kind key policy s row fits added,
        added,
      )

  -- Two failures or more of a subject that has none on record and whose key, trimmed and in lower case,
  -- has from 1 to 320 characters, at moments within the window that the first of them opens, are all counted, and the subject is then locked exactly where they are as
  -- many as the policy allows: until the lockout time after the last of them, and at no later moment.
  pub failures_lock :
      (first : Session) (more : List Session) (last : Session) (s : Store)
      → is_key_length (normalise lower key) ≡ true
      → select_first mine s.auth_throttle ≡ none
      → All (IsWithin first.now) (more ++ (last ∷ []))
      → (t : Store) × (record_attempts (first ∷ (more ++ (last ∷ []))) s ≡ ok (tt, t))
        × ((later : Session)
            → throttle_status lower later kind key t
              ≡ ok (
                record {
                  failure_count = length more + 2;
                  locked_until =
                      if leb policy.max_attempts (length more + 2)
                      then lock_in_force later.now
                          (some (last.now + policy.lockout_minutes * minute_ms))
                      else none;
                },
                t,
              ))
  unfolding throttle_status ◌>>=◌ query pure lock_in_force
  failures_lock first more last s fits fresh within =
      let (t, ran, added) = first_attempt first s fits fresh in
      let (u, after, ran', found, count, lock) =
        counted (more ++ (last ∷ [])) t (first_failure kind (normalise lower key) first.now) fits
          added within in
      let total : after.failure_count ≡ length more + 2 =
        omega (arith, count, length-append {0} more (last ∷ [])) in
      (
        u,
        record_attempts-next first (more ++ (last ∷ [])) s t u _ ran ran',
        λ later. elim (Bool-cases (leb policy.max_attempts (length more + 2))) [
          | inl enough ↦
              let set =
                lock_after_enough 1 none more last
                  (omega (arith, leb→le policy.max_attempts (length more + 2) enough)) in
              rw (found, total, lock, set, enough) refl
          | inr few ↦
              let unset =
                lock_after_few 1 none (more ++ (last ∷ []))
                  (ground (arith, few, length-append {0} more (last ∷ []))) in
              rw (found, total, lock, unset, few) refl
        ],
      )
