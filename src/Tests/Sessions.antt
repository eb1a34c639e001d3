-- ===== src/Tests/Sessions.antt =====
-- A session that is used once, at concrete moments.
use erpn.SessionPolicy.{
  minute_ms, extend_idle_window, evaluate_session, new_session_window, SessionTimes,
  SessionLifetimePolicy,
}
use erpn.Prelude.{◌↔◌, ℕ, arith, ◌*◌, ◌+◌, refl, ◌≤◌, ◌≢◌, ◌≡◌, none, ◌<◌}
use erpn.SessionPolicy.Lifetime.{extend_idle_window_lem, used, lifetime_ends, begins, Lives}

abbrev policy : SessionLifetimePolicy
policy = record { idle_minutes = 30; absolute_minutes = 60 }

abbrev session : SessionTimes
session = record { idle_expires_at = 1800000; absolute_expires_at = 3600000; revoked_at = none }

begun : Lives policy 0 session
unfolding new_session_window
begun = begins

accepted : evaluate_session session 1700000 ≡ none
unfolding evaluate_session
accepted = refl

lifetime_ends_example :
    evaluate_session
      (record session { idle_expires_at = extend_idle_window policy session 1700000 })
      3600000
    ≢ none
lifetime_ends_example =
    lifetime_ends policy 0 3600000
      (record session { idle_expires_at = extend_idle_window policy session 1700000 })
      (used 1700000 begun accepted) (omega arith)

extend_idle_window_lem_example :
    (1700000 < extend_idle_window policy session 1700000)
    × (extend_idle_window policy session 1700000 ≤ session.absolute_expires_at)
    × (extend_idle_window policy session 1700000 ≤ 1700000 + policy.idle_minutes * minute_ms)
    × ((later : ℕ)
        → (evaluate_session
              (record session { idle_expires_at = extend_idle_window policy session 1700000 })
              later
            ≡ none)
          ↔ (later < extend_idle_window policy session 1700000))
extend_idle_window_lem_example =
    extend_idle_window_lem policy session 1700000 (omega arith) accepted
