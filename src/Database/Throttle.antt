-- ===== src/Database/Throttle.antt =====
-- apps/api/src/database/repositories/auth-throttle.repository.ts: how failed logins are counted. What
-- JavaScript makes of a text's case is given.

pub mod Failures
pub mod Locks
pub mod Counted
use erpn.Database.Types.Identity.{
  ThrottleRow, AuthThrottleScopeKind, AuthThrottleStatus, AuthThrottlePolicy, address, account,
}
use erpn.Database.Transaction.{
  Session, Tx, query, write, pure, unless_absent, refuse_unless, select_first, update_where, ◌>>=◌,
  ◌>>◌,
}
use erpn.SessionPolicy.{minute_ms}
use erpn.Failure.{unreachable, constraint_violated}
use erpn.Prelude.{
  length, ◌==◌, ◌*◌, [], ◌||◌, ◌++◌, ◌+◌, is_nil, text_eq, false, some, if◌then◌else◌, ◌∷◌, Option,
  true, List, ◌&&◌, none, leb, ltb, Bool, Text, ℕ,
}

unfoldable pub same_kind : AuthThrottleScopeKind → AuthThrottleScopeKind → Bool
same_kind address address = true
same_kind account account = true
same_kind address account = false
same_kind account address = false

-- The white space and line ends of ECMAScript.
unfoldable pub is_white_space : ℕ → Bool
is_white_space c =
    (leb 9 c && leb c 13)
    || (c == 32
        || (c == 160
            || (c == 5760
                || ((leb 8192 c && leb c 8202)
                    || (c == 8232
                        || (c == 8233
                            || (c == 8239 || (c == 8287 || (c == 12288 || c == 65279)))))))))

unfoldable pub trim_start : Text → Text
trim_start [] = []
trim_start (c ∷ t) = let rest = trim_start t in if is_white_space c then rest else c ∷ t

unfoldable pub trim_end : Text → Text
trim_end [] = []
trim_end (c ∷ t) = let rest = trim_end t in if is_nil rest && is_white_space c then [] else c ∷ rest

abbrev pub trim : Text → Text
trim t = trim_end (trim_start t)

abbrev pub is_throttle : AuthThrottleScopeKind → Text → ThrottleRow → Bool
is_throttle kind key row = same_kind row.scope_kind kind && text_eq row.scope_key key

-- A lock whose time has passed is not a lock.
unfoldable pub lock_in_force : ℕ → Option ℕ → Option ℕ
lock_in_force now none = none
lock_in_force now (some until) = if ltb now until then some until else none

abbrev pub to_status : ℕ → ThrottleRow → AuthThrottleStatus
to_status now row = record {
  failure_count = row.failure_count;
  locked_until = lock_in_force now row.locked_until;
}

abbrev pub status_or_none : ℕ → Option ThrottleRow → AuthThrottleStatus
status_or_none now none = record { failure_count = 0; locked_until = none }
status_or_none now (some row) = to_status now row

-- `window_started_at < now() - make_interval(mins => windowMinutes)`, with the sum on the other side
abbrev pub window_elapsed : AuthThrottlePolicy → ℕ → ThrottleRow → Bool
window_elapsed policy now row = ltb (row.window_started_at + policy.window_minutes * minute_ms) now

abbrev pub next_count : AuthThrottlePolicy → ℕ → ThrottleRow → ℕ
next_count policy now row = if window_elapsed policy now row then 1 else row.failure_count + 1

abbrev pub first_failure : AuthThrottleScopeKind → Text → ℕ → ThrottleRow
first_failure kind key now = record {
  scope_kind = kind;
  scope_key = key;
  failure_count = 1;
  window_started_at = now;
  last_failure_at = now;
  locked_until = none;
  updated_at = now;
}

unfoldable pub failed_again : AuthThrottlePolicy → ℕ → ThrottleRow → ThrottleRow
failed_again policy now row = record row {
  failure_count = next_count policy now row;
  window_started_at = if window_elapsed policy now row then now else row.window_started_at;
  last_failure_at = now;
  locked_until =
      if leb policy.max_attempts (next_count policy now row)
      then some (now + policy.lockout_minutes * minute_ms)
      else row.locked_until;
  updated_at = now;
}

-- `INSERT … ON CONFLICT (scope_kind, scope_key) DO UPDATE`
unfoldable pub upsert_failure :
    AuthThrottleScopeKind → Text → AuthThrottlePolicy → ℕ → List ThrottleRow → List ThrottleRow
upsert_failure kind key policy now rows = elim (select_first (is_throttle kind key) rows) [
  | none ↦ rows ++ (first_failure kind key now ∷ [])
  | some row ↦ update_where (is_throttle kind key) (failed_again policy now) rows
]

-- The lock has no time left, or there is none.
abbrev pub is_over : ℕ → Option ℕ → Bool
is_over now none = true
is_over now (some until) = leb until now

unfoldable pub cleared : ℕ → ThrottleRow → ThrottleRow
cleared now row = record row {
  failure_count = 0;
  locked_until = none;
  window_started_at = now;
  updated_at = now;
}

-- `auth_throttle_key_length_check`: `length(scope_key) BETWEEN 1 AND 320`
unfoldable pub is_key_length : Text → Bool
is_key_length key = leb 1 (length key) && leb (length key) 320

module _ (to_lower_case : Text → Text) where
  unfoldable pub normalise : Text → Text
  normalise key = to_lower_case (trim key)

  unfoldable pub throttle_status : Session → AuthThrottleScopeKind → Text → Tx AuthThrottleStatus
  throttle_status session kind key = do
    row ← query (λ s. select_first (is_throttle kind (normalise key)) s.auth_throttle)
    pure (status_or_none session.now row)

  unfoldable pub record_failure :
      Session → AuthThrottleScopeKind → Text → AuthThrottlePolicy → Tx AuthThrottleStatus
  record_failure session kind key policy = do
    refuse_unless (is_key_length (normalise key))
        (constraint_violated "auth_throttle_key_length_check")
    write (λ s. record s {
      auth_throttle = upsert_failure kind (normalise key) policy session.now s.auth_throttle;
    })
    returned ← query (λ s. select_first (is_throttle kind (normalise key)) s.auth_throttle)
    row ← unless_absent returned (unreachable "throttle upsert")
    pure (to_status session.now row)

  unfoldable pub clear_on_success : Session → AuthThrottleScopeKind → Text → Tx (Unit {0})
  clear_on_success session kind key = write (λ s. record s {
    auth_throttle =
        update_where
          (λ (row : ThrottleRow).
            is_throttle kind (normalise key) row && is_over session.now row.locked_until)
          (cleared session.now) s.auth_throttle;
  })
