-- ===== src/Database/Types/Identity.antt =====
-- apps/api/src/database/repositories/types.ts: users, their sessions and the throttle of logins. A
-- column that the record leaves out, such as the password hash, is a field of the row here.
use erpn.Prelude.{ℕ, Option, Text}

pub record UserRow : Type 0 where
  pub id : Text
  pub email : Text
  pub name : Text
  pub status : Text
  pub external_subject_id : Option Text
  pub password_hash : Option Text
  pub version : ℕ

pub record SessionRow : Type 0 where
  pub id : Text
  pub user_id : Text
  pub token_hash : Text
  pub active_company_id : Option Text
  pub created_at : ℕ
  pub last_seen_at : ℕ
  pub idle_expires_at : ℕ
  pub absolute_expires_at : ℕ
  pub revoked_at : Option ℕ
  pub ip_address : Option Text
  pub user_agent : Option Text

pub record NewSession : Type 0 where
  pub id : Text
  pub user_id : Text
  pub token_hash : Text
  pub idle_expires_at : ℕ
  pub absolute_expires_at : ℕ
  pub ip_address : Option Text
  pub user_agent : Option Text

pub data AuthThrottleScopeKind : Type 0 where
  address account : AuthThrottleScopeKind

pub record AuthThrottleStatus : Type 0 where
  pub failure_count : ℕ
  pub locked_until : Option ℕ

pub record AuthThrottlePolicy : Type 0 where
  pub max_attempts : ℕ
  pub window_minutes : ℕ
  pub lockout_minutes : ℕ

-- A row of `auth_throttle`.
pub record ThrottleRow : Type 0 where
  pub scope_kind : AuthThrottleScopeKind
  pub scope_key : Text
  pub failure_count : ℕ
  pub window_started_at : ℕ
  pub last_failure_at : ℕ
  pub locked_until : Option ℕ
  pub updated_at : ℕ
