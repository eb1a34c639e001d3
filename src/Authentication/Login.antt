-- ===== src/Authentication/Login.antt =====
-- What `login` of apps/api/src/auth/authentication.service.ts answers.
use erpn.Database.Transaction.{pure, Store, Session, ◌>>=◌}
use erpn.Authentication.{
  account_disabled, locked_out, login, LoginResult, turn_away, address_of, authenticated, admit,
  LoginSuccess, Primitives, AuthenticationPolicy, LoginRequest, rejected, invalid_credentials,
  Credentials, unknown, known,
}
use erpn.Database.Types.Identity.{UserRow, account, address}
use erpn.Prelude.{
  Bool-cases, [], ◌∷◌, ◌++◌, inr, inl, refl, codes, Option-cases, text_eq, ◌≡◌, none, Text, some, ℕ,
}
use erpn.Result.{ok}
use erpn.SessionPolicy.{new_session_window}
use erpn.Authentication.Verdicts.{
  Verdict, locked, refused, admitted, verdict_of, verdict_in, login_email,
}
use erpn.Authentication.Attempt.{
  attempt_lem, credentials_in, sign_in_lem, check_locked_lem, session_of, counted_both, lock_of,
  reject_attempt_lem, audit_failure_lem, IdleWithin, CanCount,
}

module _ (outside : Primitives) (policy : AuthenticationPolicy) (session : Session) where
  -- What a login answers by its verdict, and what it leaves of the sessions and the throttle.
  abbrev pub Answers : LoginRequest → Text → Verdict → Store → LoginResult → Store → Type 0
  Answers request email (locked until) s result t =
      (result ≡ rejected locked_out (some until))
      × (t.sessions ≡ s.sessions)
      × (t.auth_throttle ≡ s.auth_throttle)
  Answers request email refused s result t =
      (result ≡ rejected invalid_credentials none)
      × (t.sessions ≡ s.sessions)
      × (t.auth_throttle
          ≡ counted_both outside policy session email (address_of request) s.auth_throttle)
  Answers request email (admitted user) s result t =
      (r : LoginSuccess) × (result ≡ authenticated r)
      × (r.user_id ≡ user.id)
      × (r.expires_at ≡ (new_session_window policy.sessions session.now).idle_expires_at)
      × (t.sessions ≡ s.sessions ++ (session_of outside policy session request r ∷ []))

  admit-Answers :
      (email : Text) (request : LoginRequest) (credentials : Credentials) (s : Store)
      → (verdict_of none none credentials ≡ refused
          → CanCount outside policy session email (address_of request))
      → ((user : UserRow)
          → verdict_of none none credentials ≡ admitted user
          → IdleWithin outside policy session)
      → (result : LoginResult) × (t : Store) × (admit outside policy session email
            (address_of request)
            request
            credentials
            s
          ≡ ok (result, t))
        × Answers request email (verdict_of none none credentials) s result t
  unfolding admit
  admit-Answers email request unknown s fits within =
      let (t, ran, same, rows) =
        reject_attempt_lem outside policy session email (address_of request) request
          invalid_credentials s (fits refl) in
      (rejected invalid_credentials none, t, ran, (refl, same, rows))
  admit-Answers email request (known user) s fits within =
      elim (Bool-cases (text_eq user.status (codes "active"))) [
        | inl active ↦
            let (r, t, ran, who, ends, rows) =
              sign_in_lem outside policy session email (address_of request) request user s
                (within user (rw active refl)) in
            (authenticated r, t, rw active ran, rw active (r, refl, who, ends, rows))
        | inr other ↦
            let (t, ran, same, rows) =
              reject_attempt_lem outside policy session email (address_of request) request
                account_disabled s (fits (rw other refl)) in
            (rejected invalid_credentials none, t, rw other ran, rw other (refl, same, rows))
      ]

  turned_away :
      (email : Text) (request : LoginRequest) (until : ℕ) (s : Store)
      → (result : LoginResult) × (t : Store) × (turn_away outside policy session email request until
            s
          ≡ ok (result, t))
        × Answers request email (locked until) s result t
  unfolding turn_away ◌>>=◌ pure
  turned_away email request until s =
      let (t, ran, same, rows) =
        audit_failure_lem outside policy session email request locked_out s in
      (rejected locked_out (some until), t, rw (ran, ◌>>=◌) refl, (refl, same, rows))

  -- A login returns, where the constraints allow what its verdict writes.
  pub login_returns :
      (request : LoginRequest) (s : Store)
      → (verdict_in outside policy session request s ≡ refused
          → CanCount outside policy session
              (login_email outside policy session request)
              (address_of request))
      → ((user : UserRow)
          → verdict_in outside policy session request s ≡ admitted user
          → IdleWithin outside policy session)
      → (result : LoginResult) × (t : Store) × (login outside policy session request s
          ≡ ok (result, t))
        × Answers request
            (login_email outside policy session request)
            (verdict_in outside policy session request s)
            s
            result
            t
  unfolding login ◌>>=◌ verdict_in
  login_returns request s fits within =
      let email = login_email outside policy session request in
      let ip = address_of request in
      elim (Option-cases (lock_of outside policy session account email s)) [
        | inr (until, e) ↦
            let (result, t, ran, answer) = turned_away email request until s in
            (
              result,
              t,
              rw (check_locked_lem outside policy session email ip s, login, ◌>>=◌, e) ran,
              rw e answer,
            )
        | inl e ↦ elim (Option-cases (lock_of outside policy session address ip s)) [
          | inr (until, f) ↦
              let (result, t, ran, answer) = turned_away email request until s in
              (
                result,
                t,
                rw (check_locked_lem outside policy session email ip s, login, ◌>>=◌, e, f) ran,
                rw (e, f) answer,
              )
          | inl f ↦
              let (result, t, ran, answer) =
                admit-Answers email request
                  (credentials_in outside policy session email request.password s) s
                  (λ v. fits (rw (e, f) v)) (λ user v. within user (rw (e, f) v)) in
              (
                result,
                t,
                rw
                    (
                      check_locked_lem outside policy session email ip s,
                      login,
                      ◌>>=◌,
                      e,
                      f,
                      attempt_lem outside policy session email ip request s,
                    )
                    ran,
                rw (e, f) answer,
              )
        ]
      ]
