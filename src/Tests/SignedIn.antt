-- ===== src/Tests/SignedIn.antt =====
-- A user signs in, is locked out and signs out.
use erpn.Tests.Shop.{tables, outcome}
use erpn.Authentication.{
  Primitives, AuthenticationPolicy, LoginRequest, LoginResult, LoginSuccess, authenticated,
  rejected, invalid_credentials, login, logout, validate, valid, invalid,
  revoke_all_sessions_for_user,
}
use erpn.Authentication.Tokens.{login_then_validate, logout_ends, revoke_all_ends}
use erpn.Failure.{constraint_violated}
use erpn.Database.Throttle.{
  is_key_length, normalise, lock_in_force, is_throttle, clear_on_success, throttle_status,
}
use erpn.Database.Throttle.Locks.{lock_stays, rests, succeeds, LockedUntil}
use erpn.Database.Throttle.Counted.{failures_lock, record_attempts}
use erpn.Database.Types.Identity.{SessionRow, UserRow, ThrottleRow, AuthThrottlePolicy, account}
use erpn.Database.Identity.{is_live_of, has_token}
use erpn.Prelude.{
  ◌≢◌, Text, refl, [], length, ◌≤◌, ◌∷◌, ◌++◌, arith, some, none, ◌≡◌, true, text_eq, codes, ℕ,
}
use erpn.Database.Transaction.{refuse_unless, select_where, system, Session, Store, select_first}
use erpn.Result.{ok, err}
use erpn.Decimal.{emit_digits, to_string}

-- The hash and the lower case of a text are the text itself.
abbrev outside : Primitives
outside = record {
  verify = text_eq;
  decoy_hash = codes "decoy";
  hash_session_token = λ t. t;
  random_token = λ n. codes "token" ++ to_string n;
  to_lower_case = λ t. t;
  sql_lower = λ t. t;
}

abbrev throttle_policy : AuthThrottlePolicy
throttle_policy = record { max_attempts = 3; window_minutes = 15; lockout_minutes = 10 }

abbrev policy : AuthenticationPolicy
policy = record {
  sessions = record { idle_minutes = 30; absolute_minutes = 600 };
  throttle = throttle_policy;
}

abbrev at : ℕ → Session
at now = record { scope = system none none; now = now; uuid = λ n. codes "id" ++ to_string n }

abbrev user : UserRow
user = record {
  id = codes "u";
  email = codes "a@b.c";
  name = codes "Ada";
  status = codes "active";
  external_subject_id = none;
  password_hash = some (codes "secret");
  version = 1;
}

abbrev users_table : Store
users_table = record (tables (codes "draft")) { users = user ∷ [] }

abbrev request : LoginRequest
request = record {
  email = codes " a@b.c";
  password = codes "secret";
  ip_address = some (codes "10.0.0.1");
  user_agent = none;
}

-- An address of spaces passes the length of the request, and its empty key does not pass that of the
-- column.
spaces_throw :
    login outside policy (at 1000) (record request { email = codes "   " }) users_table
    ≡ err (constraint_violated "auth_throttle_key_length_check")
unfolding login erpn.Database.Transaction.◌>>=◌ refuse_unless erpn.Authentication.check_locked
    throttle_status erpn.Database.Transaction.query erpn.Database.Transaction.pure select_first
    erpn.Authentication.attempt erpn.Database.Identity.find_by_email text_eq
    erpn.Database.Throttle.trim_end erpn.Database.Throttle.trim_start
    erpn.Database.Throttle.is_white_space erpn.Database.Identity.find_password_hash
    erpn.Authentication.admit erpn.Authentication.reject_attempt erpn.Authentication.record_failures
    erpn.Database.Throttle.record_failure is_key_length lock_in_force normalise
    erpn.Database.Throttle.same_kind
spaces_throw = refl

abbrev turned_down : LoginResult × Store
turned_down = (rejected invalid_credentials none, users_table)

abbrev signed_in : LoginResult × Store
signed_in = outcome turned_down (login outside policy (at 1000) request users_table)

abbrev success : LoginSuccess
success = record {
  token = codes "token0";
  session_id = codes "id1";
  user_id = codes "u";
  expires_at = 1801000;
}

signs_in :
    login outside policy (at 1000) request users_table ≡ ok (authenticated success, signed_in.1)
unfolding login erpn.Database.Transaction.◌>>=◌ refuse_unless erpn.Authentication.check_locked
    throttle_status erpn.Database.Transaction.query erpn.Database.Transaction.pure select_first
    erpn.Authentication.attempt erpn.Database.Identity.find_by_email text_eq
    erpn.Database.Throttle.trim_end erpn.Database.Throttle.trim_start
    erpn.Database.Throttle.is_white_space erpn.Database.Identity.find_password_hash
    erpn.Authentication.admit erpn.Authentication.sign_in erpn.Authentication.issue_session_token
    erpn.Database.Transaction.random_uuid erpn.Database.Access.append_audit
    erpn.Database.Identity.create_session clear_on_success erpn.Database.Throttle.cleared
    lock_in_force normalise erpn.Database.Throttle.same_kind
    erpn.Database.Transaction.acting_user_id erpn.Database.Transaction.company_id_of
    erpn.Database.Transaction.tenant_id_of erpn.Database.Transaction.update_where
    erpn.Database.Transaction.write erpn.SessionPolicy.new_session_window to_string emit_digits
signs_in = refl

login_then_validate_example :
    (u : Store) × (validate outside policy (at 5000) success.token signed_in.1
      ≡ ok (valid (codes "id1") (codes "u") none, u))
unfolding select_first
login_then_validate_example =
    login_then_validate outside policy (at 1000) (at 5000) request users_table signed_in.1 success
      signs_in refl (omega arith) (omega arith)

logout_ends_example :
    (t : Store) × (logout outside policy (at 6000) success.token signed_in.1 ≡ ok (tt, t))
    × ((later : Session) → validate outside policy later success.token t ≡ ok (invalid, t))
logout_ends_example = logout_ends outside policy (at 6000) success.token signed_in.1

revoke_all_ends_example :
    (t : Store) × (revoke_all_sessions_for_user outside policy (at 6000) (codes "u") signed_in.1
      ≡ ok (length (select_where (is_live_of (codes "u")) (signed_in.1).sessions), t))
    × ((token : Text) (row : SessionRow)
        → select_first (has_token (outside.hash_session_token token)) (signed_in.1).sessions
          ≡ some row
        → (row.user_id ≡ codes "u"
            → (later : Session) → validate outside policy later token t ≡ ok (invalid, t))
          × (row.user_id ≢ codes "u"
              → select_first (has_token (outside.hash_session_token token)) t.sessions ≡ some row))
revoke_all_ends_example = revoke_all_ends outside policy (at 6000) (codes "u") signed_in.1

no_failures : select_first {A = ThrottleRow} (is_throttle account (codes "a@b.c")) [] ≡ none
unfolding select_first
no_failures = refl

key_fits : is_key_length (normalise (λ t. t) (codes "a@b.c")) ≡ true
unfolding is_key_length normalise erpn.Database.Throttle.trim_end erpn.Database.Throttle.trim_start
    erpn.Database.Throttle.is_white_space
key_fits = refl

failures_lock_example :
    (t : Store) × (record_attempts
        (λ t. t)
        throttle_policy
        account
        (codes "a@b.c")
        (at 1000 ∷ (at 2000 ∷ (at 3000 ∷ [])))
        users_table
      ≡ ok (tt, t))
    × ((later : Session)
        → throttle_status (λ t. t) later account (codes "a@b.c") t
          ≡ ok (
            record { failure_count = 3; locked_until = lock_in_force later.now (some 603000) },
            t,
          ))
unfolding select_first
failures_lock_example =
    failures_lock (λ t. t) throttle_policy account (codes "a@b.c") (at 1000) (at 2000 ∷ [])
      (at 3000) users_table key_fits refl (omega arith, (omega arith, tt))

abbrev locked_row : ThrottleRow
locked_row = record {
  scope_kind = account;
  scope_key = codes "a@b.c";
  failure_count = 3;
  window_started_at = 1000;
  last_failure_at = 3000;
  locked_until = some 603000;
  updated_at = 3000;
}

abbrev locked_table : Store
locked_table = record users_table { auth_throttle = locked_row ∷ [] }

is_locked : LockedUntil (λ t. t) account (codes "a@b.c") 603000 locked_table
unfolding select_first erpn.Database.Throttle.same_kind text_eq normalise
    erpn.Database.Throttle.trim_end erpn.Database.Throttle.trim_start
    erpn.Database.Throttle.is_white_space
is_locked = record {
  row = locked_row;
  end = 603000;
  found = refl;
  ends = refl;
  lasts = omega arith;
}

abbrev unsuccessful : Store
unsuccessful = locked_table

succeeds_in_vain :
    clear_on_success (λ t. t) (at 4000) account (codes "a@b.c") locked_table ≡ ok (tt, locked_table)
unfolding clear_on_success erpn.Database.Transaction.write erpn.Database.Transaction.update_where
    erpn.Database.Throttle.same_kind text_eq normalise erpn.Database.Throttle.trim_end
    erpn.Database.Throttle.trim_start erpn.Database.Throttle.is_white_space
succeeds_in_vain = refl

lock_stays_example :
    (count end : ℕ) × (throttle_status (λ t. t) (at 5000) account (codes "a@b.c") locked_table
      ≡ ok (record { failure_count = count; locked_until = some end }, locked_table))
    × (603000 ≤ end)
lock_stays_example =
    lock_stays (λ t. t) throttle_policy account (codes "a@b.c") 603000 (at 5000) 3000 locked_table
      locked_table (omega arith) (omega arith) is_locked
      (succeeds (at 4000) account (codes "a@b.c") (omega arith) (omega arith) succeeds_in_vain
        rests)
