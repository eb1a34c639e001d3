-- ===== src/SessionPolicy/Lifetime.antt =====
-- The life of a session under apps/api/src/auth/session-policy.ts.
use erpn.SessionPolicy.{
  minute_ms, SessionTimes, evaluate_session, new_session_window, extend_idle_window,
  SessionLifetimePolicy,
}
use erpn.Prelude.{refl, arith, ◌≢◌, ◌↔◌, ◌≤◌, some, ◌*◌, none, ◌+◌, ◌≡◌, ◌<◌, ℕ}

-- The life of a session: it is created, and each use that is accepted moves its idle window.
pub data Lives (policy : SessionLifetimePolicy) (created : ℕ) : SessionTimes → Type 0 where
  begins : Lives policy created (record {
    idle_expires_at = (new_session_window policy created).idle_expires_at;
    absolute_expires_at = (new_session_window policy created).absolute_expires_at;
    revoked_at = none;
  })
  used :
      {session : SessionTimes} (now : ℕ)
      → Lives policy created session
      → evaluate_session session now ≡ none
      → Lives policy created
          (record session { idle_expires_at = extend_idle_window policy session now })
  revoke :
      {session : SessionTimes} (now : ℕ)
      → Lives policy created session
      → Lives policy created (record session { revoked_at = some now })

-- Use never moves the absolute expiry.
absolute_expiry :
    {policy : SessionLifetimePolicy} {created : ℕ} {session : SessionTimes}
    → Lives policy created session
    → session.absolute_expires_at ≡ created + policy.absolute_minutes * minute_ms
unfolding new_session_window
absolute_expiry begins = refl
absolute_expiry (used now life accepted) = absolute_expiry life
absolute_expiry (revoke now life) = absolute_expiry life

-- However it is used, a session is refused from its absolute lifetime on.
pub lifetime_ends :
    (policy : SessionLifetimePolicy) (created now : ℕ) (session : SessionTimes)
    → Lives policy created session
    → created + policy.absolute_minutes * minute_ms ≤ now
    → evaluate_session session now ≢ none
unfolding evaluate_session
lifetime_ends policy created now session life late h = ground (arith, absolute_expiry life)

-- A session is accepted at a moment exactly where it is not revoked and neither window has ended.
pub evaluate_session_iff :
    (session : SessionTimes) (now : ℕ)
    → (evaluate_session session now ≡ none) ↔ (
        (session.revoked_at ≡ none)
        × (now < session.absolute_expires_at)
        × (now < session.idle_expires_at))
unfolding evaluate_session
evaluate_session_iff session now = ground arith

window_bounds :
    (policy : SessionLifetimePolicy) (session : SessionTimes) (now : ℕ)
    → 0 < policy.idle_minutes
    → evaluate_session session now ≡ none
    → (now < extend_idle_window policy session now)
      × (extend_idle_window policy session now ≤ session.absolute_expires_at)
      × (extend_idle_window policy session now ≤ now + policy.idle_minutes * minute_ms)
unfolding extend_idle_window evaluate_session
window_bounds policy session now h e = ground arith

extended_until :
    (session : SessionTimes) (now later until : ℕ)
    → evaluate_session session now ≡ none
    → until ≤ session.absolute_expires_at
    → (evaluate_session (record session { idle_expires_at = until }) later ≡ none) ↔ (later < until)
unfolding evaluate_session
extended_until session now later until e within = ground arith

-- Where the policy allows any idle time, a use that is accepted leaves the session accepted until the
-- moment to which it moves the idle window, which comes after the use, and refused from that moment on.
-- The moment is never past the absolute expiry, nor past the idle time that the policy allows from the use.
pub extend_idle_window_lem :
    (policy : SessionLifetimePolicy) (session : SessionTimes) (now : ℕ)
    → 0 < policy.idle_minutes
    → evaluate_session session now ≡ none
    → (now < extend_idle_window policy session now)
      × (extend_idle_window policy session now ≤ session.absolute_expires_at)
      × (extend_idle_window policy session now ≤ now + policy.idle_minutes * minute_ms)
      × ((later : ℕ)
          → (evaluate_session
                (record session { idle_expires_at = extend_idle_window policy session now })
                later
              ≡ none)
            ↔ (later < extend_idle_window policy session now))
extend_idle_window_lem policy session now h e =
    let (later_than, within, idle) = window_bounds policy session now h e in
    (later_than, within, idle, λ later. extended_until session now later _ e within)
