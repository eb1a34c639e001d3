-- ===== src/Authentication/Verdicts.antt =====
-- What `login` of apps/api/src/auth/authentication.service.ts decides on a request, and what a login that
-- returns shows of the constraints of the tables.
use erpn.Database.Transaction.{Store, Session, ◌>>=◌}
use erpn.Authentication.{
  account_disabled, login, trim, LoginResult, address_of, admit, LoginFailureReason, sign_in,
  reject_attempt, Primitives, AuthenticationPolicy, LoginRequest, invalid_credentials, Credentials,
  unknown, known,
}
use erpn.Database.Types.Identity.{UserRow, account, address}
use erpn.Prelude.{
  ap, sym, ◌∙◌, Bool-cases, inr, inl, refl, codes, Option-cases, text_eq, if◌then◌else◌, ◌≡◌, none,
  Text, some, Option, ℕ,
}
use erpn.Result.{ok}
use erpn.Authentication.Attempt.{
  attempt_lem, credentials_in, check_locked_lem, lock_of, IdleWithin, sign_in-IdleWithin, CanCount,
  reject_attempt-CanCount,
}

-- What a login comes to: a lock, a refusal that tells nothing, or a user.
pub data Verdict : Type 0 where
  locked : ℕ → Verdict
  refused : Verdict
  admitted : UserRow → Verdict

abbrev pub verdict_of : Option ℕ → Option ℕ → Credentials → Verdict
verdict_of (some until) by_address credentials = locked until
verdict_of none (some until) credentials = locked until
verdict_of none none unknown = refused
verdict_of none none (known user) =
    if text_eq user.status (codes "active") then admitted user else refused

module _ (outside : Primitives) (policy : AuthenticationPolicy) (session : Session) where
  abbrev pub login_email : LoginRequest → Text
  login_email request = outside.to_lower_case (trim request.email)

  -- The verdict on a request.
  unfoldable pub verdict_in : LoginRequest → Store → Verdict
  verdict_in request s =
      verdict_of (lock_of outside policy session account (login_email request) s)
        (lock_of outside policy session address (address_of request) s)
        (credentials_in outside policy session (login_email request) request.password s)

  admit_refused :
      (email : Text) (request : LoginRequest) (credentials : Credentials) (s : Store)
      → verdict_of none none credentials ≡ refused
      → (reason : LoginFailureReason) × (admit outside policy session email
            (address_of request)
            request
            credentials
            s
          ≡ reject_attempt outside policy session email (address_of request) request reason s)
  unfolding admit
  admit_refused email request unknown s v = (invalid_credentials, refl)
  admit_refused email request (known user) s v =
      elim (Bool-cases (text_eq user.status (codes "active"))) [
        | inl active ↦ absurd (cc (rw active at v))
        | inr other ↦ (account_disabled, rw other refl)
      ]

  -- A login that is refused is a failed attempt.
  login_refused :
      (request : LoginRequest) (s : Store)
      → verdict_in request s ≡ refused
      → (reason : LoginFailureReason) × (login outside policy session request s
          ≡ reject_attempt outside policy session
              (login_email request)
              (address_of request)
              request
              reason
              s)
  unfolding login ◌>>=◌ verdict_in
  login_refused request s v =
      let email = login_email request in
      let ip = address_of request in
      elim (Option-cases (lock_of outside policy session account email s)) [
        | inr (until, e) ↦ absurd (cc (rw e at v))
        | inl e ↦ elim (Option-cases (lock_of outside policy session address ip s)) [
          | inr (until, f) ↦ absurd (cc (rw (e, f) at v))
          | inl f ↦
              let (reason, same) =
                admit_refused email request
                  (credentials_in outside policy session email request.password s) s
                  (rw (e, f) at v) in
              (
                reason,
                rw
                    (
                      check_locked_lem outside policy session email ip s,
                      login,
                      ◌>>=◌,
                      e,
                      f,
                      attempt_lem outside policy session email ip request s,
                    )
                    same,
              )
        ]
      ]

  -- A login that returned, and that was refused, had keys that the column takes.
  pub login-CanCount :
      (request : LoginRequest) (s t : Store) (result : LoginResult)
      → login outside policy session request s ≡ ok (result, t)
      → verdict_in request s ≡ refused
      → CanCount outside policy session (login_email request) (address_of request)
  login-CanCount request s t result h v =
      let (reason, same) = login_refused request s v in
      reject_attempt-CanCount outside policy session (login_email request) (address_of request)
        request reason s t result (sym same ∙ h)

  admit_admitted :
      (email : Text) (request : LoginRequest) (credentials : Credentials) (s : Store)
      (user : UserRow)
      → verdict_of none none credentials ≡ admitted user
      → admit outside policy session email (address_of request) request credentials s
        ≡ sign_in outside policy session email (address_of request) request user s
  unfolding admit
  admit_admitted email request unknown s user v = absurd (cc v)
  admit_admitted email request (known found) s user v =
      elim (Bool-cases (text_eq found.status (codes "active"))) [
        | inr other ↦ absurd (cc (rw other at v))
        | inl active ↦
            let same : found ≡ user = cc (rw active at v) in
            rw active
              (ap (λ u. sign_in outside policy session email (address_of request) request u s) same)
      ]

  -- A login that is admitted is a sign in.
  login_admitted :
      (request : LoginRequest) (s : Store) (user : UserRow)
      → verdict_in request s ≡ admitted user
      → login outside policy session request s
        ≡ sign_in outside policy session (login_email request) (address_of request) request user s
  unfolding login ◌>>=◌ verdict_in
  login_admitted request s user v =
      let email = login_email request in
      let ip = address_of request in
      elim (Option-cases (lock_of outside policy session account email s)) [
        | inr (until, e) ↦ absurd (cc (rw e at v))
        | inl e ↦ elim (Option-cases (lock_of outside policy session address ip s)) [
          | inr (until, f) ↦ absurd (cc (rw (e, f) at v))
          | inl f ↦
              rw
                (
                  check_locked_lem outside policy session email ip s,
                  login,
                  ◌>>=◌,
                  e,
                  f,
                  attempt_lem outside policy session email ip request s,
                )
                (admit_admitted email request
                  (credentials_in outside policy session email request.password s) s user
                  (rw (e, f) at v))
        ]
      ]

  -- A login that returned, and that was admitted, has a policy that the sessions take.
  pub login-IdleWithin :
      (request : LoginRequest) (s t : Store) (result : LoginResult)
      → login outside policy session request s ≡ ok (result, t)
      → (user : UserRow) → verdict_in request s ≡ admitted user
      → IdleWithin outside policy session
  login-IdleWithin request s t result h user v =
      sign_in-IdleWithin outside policy session (login_email request) (address_of request) request
        user s t result (sym (login_admitted request s user v) ∙ h)
