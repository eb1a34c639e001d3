-- ===== src/Authentication.antt =====
-- apps/api/src/auth/authentication.service.ts and session-token.ts: logins, logouts and the check of a
-- token. What hashes, draws and lowers texts is given.
pub mod Attempt
pub mod Verdicts
pub mod Login
pub mod Tokens
use erpn.Database.Throttle.{throttle_status, record_failure, clear_on_success, trim}
use erpn.Database.Identity.{
  find_by_email, find_password_hash, find_by_token_hash, create_session, touch, revoke,
  revoke_all_for_user,
}
use erpn.Database.Access.{append_audit, AuditEventInput}
use erpn.Database.Types.Identity.{
  AuthThrottleScopeKind, AuthThrottlePolicy, AuthThrottleStatus, UserRow, SessionRow, account,
  address,
}
use erpn.Database.Transaction.{random_uuid, Session, Tx, pure, ◌>>=◌, ◌>>◌}
use erpn.SessionPolicy.{
  SessionLifetimePolicy, SessionWindow, SessionTimes, evaluate_session, new_session_window,
  extend_idle_window,
}
use erpn.Prelude.{
  ◌==◌, text_eq, zero, some, none, ◌∷◌, if◌then◌else◌, ◌++◌, none, suc, codes, Bool, ℕ, none, [],
  some, Option, Text,
}
use erpn.Result.{ok}
use erpn.Decimal.{to_string}

-- argon2, SHA-256, `randomBytes`, and the lower case of JavaScript and of the database.
pub record Primitives : Type 0 where
  pub verify : Text → Text → Bool
  pub decoy_hash : Text
  pub hash_session_token : Text → Text
  pub random_token : ℕ → Text
  pub to_lower_case : Text → Text
  pub sql_lower : Text → Text

pub record AuthenticationPolicy : Type 0 where
  pub sessions : SessionLifetimePolicy
  pub throttle : AuthThrottlePolicy

pub record LoginRequest : Type 0 where
  pub email : Text
  pub password : Text
  pub ip_address : Option Text
  pub user_agent : Option Text

pub record LoginSuccess : Type 0 where
  pub token : Text
  pub session_id : Text
  pub user_id : Text
  pub expires_at : ℕ

pub data LoginFailureReason : Type 0 where
  invalid_credentials locked_out account_disabled : LoginFailureReason

pub data LoginResult : Type 0 where
  authenticated : LoginSuccess → LoginResult
  rejected : LoginFailureReason → Option ℕ → LoginResult

pub data SessionValidationResult : Type 0 where
  valid : Text → Text → Option Text → SessionValidationResult
  invalid : SessionValidationResult

pub record IssuedToken : Type 0 where
  pub token : Text
  pub token_hash : Text

abbrev reason_text : LoginFailureReason → Text
reason_text invalid_credentials = codes "invalid_credentials"
reason_text locked_out = codes "locked_out"
reason_text account_disabled = codes "account_disabled"

-- `ipAddress ?? 'unknown'`
abbrev pub address_of : LoginRequest → Text
address_of request = elim request.ip_address [ none ↦ codes "unknown" | some ip ↦ ip ]

-- An event that names no roles and no request.
abbrev plain_event : Text → Option Text → Text → LoginRequest → AuditEventInput
plain_event action entity_id summary request = record {
  actor_roles = [];
  request_id = none;
  action = action;
  entity_type = codes "user";
  entity_id = entity_id;
  summary = summary;
  changes = [];
  ip_address = request.ip_address;
  user_agent = request.user_agent;
}

abbrev pub signed_out : Text → Text → AuditEventInput
signed_out user_id summary = record {
  actor_roles = [];
  request_id = none;
  action = codes "logged_out";
  entity_type = codes "user";
  entity_id = some user_id;
  summary = summary;
  changes = [];
  ip_address = none;
  user_agent = none;
}

abbrev pub times_of : SessionRow → SessionTimes
times_of row = record {
  idle_expires_at = row.idle_expires_at;
  absolute_expires_at = row.absolute_expires_at;
  revoked_at = row.revoked_at;
}

-- A user, the hash that is stored for them, and whether the password matches it.
pub data Credentials : Type 0 where
  unknown : Credentials
  known : UserRow → Credentials

abbrev credentials_of : Option UserRow → Option Text → Bool → Credentials
credentials_of none hash matches = unknown
credentials_of (some user) none matches = unknown
credentials_of (some user) (some hash) matches = if matches then known user else unknown

abbrev hash_or : Text → Option Text → Text
hash_or decoy none = decoy
hash_or decoy (some hash) = hash

module _ (outside : Primitives) (policy : AuthenticationPolicy) where
  unfoldable pub issue_session_token : Tx IssuedToken
  issue_session_token s = ok (
    record {
      token = outside.random_token s.drawn;
      token_hash = outside.hash_session_token (outside.random_token s.drawn);
    },
    record s { drawn = suc s.drawn },
  )

  abbrev pub status_of : Session → AuthThrottleScopeKind → Text → Tx AuthThrottleStatus
  status_of session kind key = throttle_status outside.to_lower_case session kind key

  -- The account first, then the address.
  unfoldable pub check_locked : Session → Text → Text → Tx (Option ℕ)
  check_locked session email ip = do
    by_account ← status_of session account email
    elim by_account.locked_until [
      | some until ↦ pure (some until)
      | none ↦ do by_address ← status_of session address ip; pure by_address.locked_until
    ]

  unfoldable pub record_failures : Session → Text → Text → Tx (Unit {0})
  record_failures session email ip = do
    record_failure outside.to_lower_case session account email policy.throttle
    record_failure outside.to_lower_case session address ip policy.throttle
    pure tt

  unfoldable pub audit_failure : Session → Text → LoginRequest → LoginFailureReason → Tx (Unit {0})
  audit_failure session email request reason =
      append_audit session
        (record (plain_event (codes "login_failed") none (codes "Failed sign in for " ++ email)
          request) { changes = (codes "reason", reason_text reason) ∷ [] })

  -- A failed attempt is counted and recorded, and the caller learns nothing of its reason.
  unfoldable pub reject_attempt :
      Session → Text → Text → LoginRequest → LoginFailureReason → Tx LoginResult
  reject_attempt session email ip request reason = do
    record_failures session email ip
    audit_failure session email request reason
    pure (rejected invalid_credentials none)

  unfoldable pub sign_in : Session → Text → Text → LoginRequest → UserRow → Tx LoginResult
  sign_in session email ip request user = do
    let window : SessionWindow = new_session_window policy.sessions session.now
    issued ← issue_session_token
    session_id ← random_uuid session
    create_session session (record {
      id = session_id;
      user_id = user.id;
      token_hash = issued.token_hash;
      idle_expires_at = window.idle_expires_at;
      absolute_expires_at = window.absolute_expires_at;
      ip_address = request.ip_address;
      user_agent = request.user_agent;
    })
    clear_on_success outside.to_lower_case session account email
    clear_on_success outside.to_lower_case session address ip
    append_audit session (
        plain_event (codes "logged_in") (some user.id) (codes "Signed in as " ++ user.email)
          request)
    pure (
        authenticated (record {
          token = issued.token;
          session_id = session_id;
          user_id = user.id;
          expires_at = window.idle_expires_at;
        }))

  abbrev stored_hash_for : Option UserRow → Tx (Option Text)
  stored_hash_for none = pure none
  stored_hash_for (some user) = find_password_hash user.id

  unfoldable pub admit : Session → Text → Text → LoginRequest → Credentials → Tx LoginResult
  admit session email ip request unknown =
      reject_attempt session email ip request invalid_credentials
  admit session email ip request (known user) =
      if text_eq user.status (codes "active")
      then sign_in session email ip request user
      else reject_attempt session email ip request account_disabled

  unfoldable pub attempt : Session → Text → Text → LoginRequest → Tx LoginResult
  attempt session email ip request = do
    user ← find_by_email outside.sql_lower email
    stored ← stored_hash_for user
    let matches = outside.verify (hash_or outside.decoy_hash stored) request.password
    admit session email ip request (credentials_of user stored matches)

  unfoldable pub turn_away : Session → Text → LoginRequest → ℕ → Tx LoginResult
  turn_away session email request until = do
    audit_failure session email request locked_out
    pure (rejected locked_out (some until))

  unfoldable pub login : Session → LoginRequest → Tx LoginResult
  login session request = do
    let email = outside.to_lower_case (trim request.email)
    locked ← check_locked session email (address_of request)
    elim locked [
      | some until ↦ turn_away session email request until
      | none ↦ attempt session email (address_of request) request
    ]

  unfoldable pub logout : Session → Text → Tx (Unit {0})
  logout session token = do
    found ← find_by_token_hash (outside.hash_session_token token)
    elim found [
      | none ↦ pure tt
      | some row ↦ do
        revoke session row.id
        append_audit session (signed_out row.user_id (codes "Signed out"))
    ]

  -- A live session moves its idle window.
  unfoldable pub use_session : Session → SessionRow → Tx SessionValidationResult
  use_session session row = elim (evaluate_session (times_of row) session.now) [
    | some rejection ↦ pure invalid
    | none ↦ do
      touch session row.id (extend_idle_window policy.sessions (times_of row) session.now)
      pure (valid row.id row.user_id row.active_company_id)
  ]

  unfoldable pub validate : Session → Text → Tx SessionValidationResult
  validate session token = do
    found ← find_by_token_hash (outside.hash_session_token token)
    elim found [ none ↦ pure invalid | some row ↦ use_session session row ]

  -- Only a revocation is recorded.
  unfoldable pub audit_revoked : Session → Text → ℕ → Tx ℕ
  audit_revoked session user_id zero = pure 0
  audit_revoked session user_id (suc n) = do
    append_audit session (
        signed_out user_id (
          codes "Revoked "
          ++ (to_string (suc n) ++ (if n == 0 then codes " session" else codes " sessions"))))
    pure (suc n)

  unfoldable pub revoke_all_sessions_for_user : Session → Text → Tx ℕ
  revoke_all_sessions_for_user session user_id = do
    revoked ← revoke_all_for_user session user_id
    audit_revoked session user_id revoked
