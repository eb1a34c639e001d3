-- ===== src/SessionPolicy.antt =====
-- apps/api/src/auth/session-policy.ts: how long a session lives. A moment is its milliseconds.
use erpn.Prelude.{none, leb, some, ltb, is_some, ◌*◌, if◌then◌else◌, Option, ◌+◌, ℕ}
pub mod Lifetime

pub record SessionLifetimePolicy : Type 0 where
  pub idle_minutes : ℕ
  pub absolute_minutes : ℕ

pub record SessionWindow : Type 0 where
  pub idle_expires_at : ℕ
  pub absolute_expires_at : ℕ

pub data SessionRejection : Type 0 where
  revoked idle_expired absolute_expired : SessionRejection

pub record SessionTimes : Type 0 where
  pub idle_expires_at : ℕ
  pub absolute_expires_at : ℕ
  pub revoked_at : Option ℕ

abbrev pub minute_ms : ℕ
minute_ms = 60000

unfoldable pub new_session_window : SessionLifetimePolicy → ℕ → SessionWindow
new_session_window policy now = record {
  idle_expires_at = now + policy.idle_minutes * minute_ms;
  absolute_expires_at = now + policy.absolute_minutes * minute_ms;
}

unfoldable pub extend_idle_window : SessionLifetimePolicy → SessionTimes → ℕ → ℕ
extend_idle_window policy session now =
    let extended = now + policy.idle_minutes * minute_ms in
    if ltb session.absolute_expires_at extended then session.absolute_expires_at else extended

unfoldable pub evaluate_session : SessionTimes → ℕ → Option SessionRejection
evaluate_session session now =
    if is_some session.revoked_at
    then some revoked
    else if leb session.absolute_expires_at now
    then some absolute_expired
    else if leb session.idle_expires_at now
    then some idle_expired
    else none
