-- ===== src/Authentication/Tokens.antt =====
-- The life of a token through apps/api/src/auth/authentication.service.ts.
use erpn.Authentication.{
  audit_revoked, revoke_all_sessions_for_user, signed_out, ◌>>=◌, Primitives, AuthenticationPolicy,
  LoginRequest, LoginSuccess, authenticated, valid, invalid, login, logout, validate, use_session,
  times_of,
}
use erpn.Authentication.Login.{Answers, login_returns}
use erpn.Authentication.Verdicts.{
  login-CanCount, login-IdleWithin, verdict_in, login_email, Verdict, locked, refused, admitted,
}
use erpn.Authentication.Attempt.{session_of}
use erpn.Database.Identity.{
  is_live_of, revoke_all_for_user, touched, find_by_token_hash, has_token, is_live, revoked_session,
  revoke, touch,
}
use erpn.Database.Types.Identity.{SessionRow}
use erpn.Database.Transaction.Rows.{select_first-append, select_first-changed, changed_where}
use erpn.SessionPolicy.Lifetime.{evaluate_session_iff}
use erpn.Database.Transaction.{
  select_where, update_where, ◌>>=◌, select_first, Store, pure, query, write, Session,
}
use erpn.SessionPolicy.{extend_idle_window, minute_ms, evaluate_session, new_session_window}
use erpn.Prelude.{
  zero, text_eq→eq, text_eq, suc, ◌≢◌, length, codes, Bool-cases, ℕ, ◌∙◌, text_eq_refl, some, ◌*◌,
  refl, ◌+◌, inr, ◌<◌, [], none, inl, ◌∷◌, Option-cases, ◌++◌, false, ◌≡◌, is_none, Text,
}
use erpn.Database.Access.{audit_row, append_audit}
use erpn.Result.{ok}

-- A session that is revoked is no longer live, whether it was or not.
not_live :
    (now : ℕ) (row : SessionRow)
    → is_none (changed_where (is_live row.id) (revoked_session now) row).revoked_at ≡ false
not_live now row = elim (Bool-cases (is_none row.revoked_at)) [
  | inl live ↦ rw (text_eq_refl row.id, live) refl
  | inr gone ↦ rw (text_eq_refl row.id, gone) gone
]

not_live_of :
    (now : ℕ) (user_id : Text) (row : SessionRow)
    → row.user_id ≡ user_id
    → is_none (changed_where (is_live_of user_id) (revoked_session now) row).revoked_at ≡ false
not_live_of now user_id row same = elim (Bool-cases (is_none row.revoked_at)) [
  | inl live ↦ rw (same, text_eq_refl user_id, live) refl
  | inr gone ↦ rw (same, text_eq_refl user_id, gone) gone
]

other_user :
    (user_id : Text) (row : SessionRow) → row.user_id ≢ user_id → is_live_of user_id row ≡ false
other_user user_id row other = elim (Bool-cases (text_eq row.user_id user_id)) [
  | inl same ↦ absurd (other (text_eq→eq row.user_id user_id same))
  | inr n ↦ rw n refl
]

module _ (outside : Primitives) (policy : AuthenticationPolicy) where
  validate_found :
      (session : Session) (token : Text) (s : Store) (row : SessionRow)
      → select_first (has_token (outside.hash_session_token token)) s.sessions ≡ some row
      → validate outside policy session token s ≡ use_session outside policy session row s
  unfolding validate ◌>>=◌ find_by_token_hash query
  validate_found session token s row found =
      rw (found, validate, ◌>>=◌, find_by_token_hash, query) refl

  validate_nothing :
      (session : Session) (token : Text) (s : Store)
      → select_first (has_token (outside.hash_session_token token)) s.sessions ≡ none
      → validate outside policy session token s ≡ ok (invalid, s)
  unfolding validate ◌>>=◌ find_by_token_hash query pure
  validate_nothing session token s found =
      rw (found, validate, ◌>>=◌, find_by_token_hash, query) refl

  use_revoked :
      (session : Session) (row : SessionRow) (s : Store)
      → is_none row.revoked_at ≡ false
      → use_session outside policy session row s ≡ ok (invalid, s)
  unfolding use_session evaluate_session pure
  use_revoked session row s revoked = elim (Option-cases row.revoked_at) [
    | inl e ↦ absurd (cc (rw e at revoked))
    | inr (moment, e) ↦ rw e refl
  ]

  use_live :
      (session : Session) (row : SessionRow) (s : Store)
      → evaluate_session (times_of row) session.now ≡ none
      → (t : Store) × (use_session outside policy session row s
          ≡ ok (valid row.id row.user_id row.active_company_id, t))
  unfolding use_session touch write pure ◌>>=◌
  use_live session row s live = (
    record s {
      sessions =
          update_where (is_live row.id)
            (touched session.now (extend_idle_window policy.sessions (times_of row) session.now))
            s.sessions;
    },
    rw (live, use_session) refl,
  )

  admitted_rows :
      (session : Session) (request : LoginRequest) (email : Text) (v : Verdict) (s t : Store)
      (r : LoginSuccess)
      → Answers outside policy session request email v s (authenticated r) t
      → t.sessions ≡ s.sessions ++ (session_of outside policy session request r ∷ [])
  admitted_rows session request email (locked until) s t r (same, _, _) = absurd (cc same)
  admitted_rows session request email refused s t r (same, _, _) = absurd (cc same)
  admitted_rows session request email (admitted user) s t r (r', same, who, ends, rows) =
      let back : r' ≡ r = cc same in rw back at rows

  -- The token of a login, which no session had before, is accepted from then on, while neither window
  -- has ended: for the session that the login reports, for its user, and for no company yet.
  pub login_then_validate :
      (session later : Session) (request : LoginRequest) (s t : Store) (r : LoginSuccess)
      → login outside policy session request s ≡ ok (authenticated r, t)
      → select_first (has_token (outside.hash_session_token r.token)) s.sessions ≡ none
      → later.now < session.now + policy.sessions.idle_minutes * minute_ms
      → later.now < session.now + policy.sessions.absolute_minutes * minute_ms
      → (u : Store) × (validate outside policy later r.token t
          ≡ ok (valid r.session_id r.user_id none, u))
  unfolding new_session_window
  login_then_validate session later request s t r h fresh idle absolute =
      let (result, t', ran, answer) =
        login_returns outside policy session request s
          (login-CanCount outside policy session request s t (authenticated r) h)
          (login-IdleWithin outside policy session request s t (authenticated r) h) in
      let same : result ≡ authenticated r = cc (ran, h) in
      let store : t' ≡ t = cc (ran, h) in
      let rows =
        admitted_rows session request (login_email outside policy session request)
          (verdict_in outside policy session request s) s t r (rw (same, store) at answer) in
      let row = session_of outside policy session request r in
      let found : select_first (has_token (outside.hash_session_token r.token)) t.sessions
          ≡ some row =
        rw rows (
          select_first-append (has_token (outside.hash_session_token r.token)) s.sessions row fresh
            (text_eq_refl (outside.hash_session_token r.token))) in
      let live : evaluate_session (times_of row) later.now ≡ none =
        (evaluate_session_iff (times_of row) later.now).1 (refl, absolute, idle) in
      let (u, used) = use_live later row t live in
      (u, validate_found later r.token t row found ∙ used)

  -- A logout always returns, also a second one, and from then on its token is refused, at any moment
  -- and without a change of the tables.
  pub logout_ends :
      (session : Session) (token : Text) (s : Store)
      → (t : Store) × (logout outside policy session token s ≡ ok (tt, t))
        × ((later : Session) → validate outside policy later token t ≡ ok (invalid, t))
  unfolding logout ◌>>=◌ find_by_token_hash query pure revoke append_audit write
  logout_ends session token s =
      let mine = has_token (outside.hash_session_token token) in
      elim (Option-cases (select_first mine s.sessions)) [
        | inl e ↦ (
          s,
          rw (e, logout, ◌>>=◌, find_by_token_hash, query) refl,
          λ later. validate_nothing later token s e,
        )
        | inr (row, e) ↦
            let t : Store = record s {
              sessions = update_where (is_live row.id) (revoked_session session.now) s.sessions;
              audit_events =
                  s.audit_events
                  ++ (audit_row session (signed_out row.user_id (codes "Signed out")) ∷ []);
            } in
            let after = changed_where (is_live row.id) (revoked_session session.now) row in
            let found : select_first mine t.sessions ≡ some after =
              select_first-changed mine (is_live row.id) (revoked_session session.now) (λ x. refl)
                s.sessions
              ∙ rw e refl in
            (
              t,
              rw (e, logout, ◌>>=◌, find_by_token_hash, query) refl,
              λ later.
                  validate_found later token t after found
                  ∙ use_revoked later after t (not_live session.now row),
            )
      ]

  audit_revoked_lem :
      (session : Session) (user_id : Text) (n : ℕ) (s : Store)
      → (t : Store) × (audit_revoked outside policy session user_id n s ≡ ok (n, t))
        × (t.sessions ≡ s.sessions)
  unfolding audit_revoked ◌>>=◌ write pure append_audit
  audit_revoked_lem session user_id zero s = (s, refl, refl)
  audit_revoked_lem session user_id (suc n) s = (_, refl, refl)

  -- The revocation of a user's sessions returns how many it ended. From then on each token of theirs is
  -- refused; the session of every other user stands as it did.
  pub revoke_all_ends :
      (session : Session) (user_id : Text) (s : Store)
      → (t : Store) × (revoke_all_sessions_for_user outside policy session user_id s
          ≡ ok (length (select_where (is_live_of user_id) s.sessions), t))
        × ((token : Text) (row : SessionRow)
            → select_first (has_token (outside.hash_session_token token)) s.sessions ≡ some row
            → (row.user_id ≡ user_id
                → (later : Session) → validate outside policy later token t ≡ ok (invalid, t))
              × (row.user_id ≢ user_id
                  → select_first (has_token (outside.hash_session_token token)) t.sessions
                    ≡ some row))
  unfolding revoke_all_sessions_for_user ◌>>=◌ revoke_all_for_user query write pure
  revoke_all_ends session user_id s =
      let u : Store = record s {
        sessions = update_where (is_live_of user_id) (revoked_session session.now) s.sessions;
      } in
      let n : ℕ = length (select_where (is_live_of user_id) s.sessions) in
      let (t, ran, rows) = audit_revoked_lem session user_id n u in
      (
        t,
        ran,
        λ token row e.
            let mine = has_token (outside.hash_session_token token) in
            let after = changed_where (is_live_of user_id) (revoked_session session.now) row in
            let found : select_first mine t.sessions ≡ some after = rw (rows) (
              select_first-changed mine (is_live_of user_id) (revoked_session session.now)
                (λ x. refl) s.sessions
              ∙ rw e refl) in
            (
              λ same later.
                  validate_found later token t after found
                  ∙ use_revoked later after t (not_live_of session.now user_id row same),
              λ other. found ∙ rw (other_user user_id row other) refl,
            ),
      )
