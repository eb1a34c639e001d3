-- ===== src/Authentication/Attempt.antt =====
-- The statements of `login` in apps/api/src/auth/authentication.service.ts.
use erpn.Database.Transaction.{
  Tx, ◌>>◌, refuse_unless, random_uuid, select_first, pure, write, Store, query, Session, ◌>>=◌,
}
use erpn.Authentication.{
  plain_event, authenticated, admit, credentials_of, issue_session_token, LoginSuccess, attempt,
  sign_in, hash_or, LoginFailureReason, LoginResult, Primitives, AuthenticationPolicy, LoginRequest,
  rejected, invalid_credentials, Credentials, check_locked, record_failures, audit_failure,
  reject_attempt,
}
use erpn.Database.Throttle.{
  record_failure, is_key_length, clear_on_success, throttle_status, is_throttle, normalise,
  status_or_none, upsert_failure,
}
use erpn.Database.Frame.Inversion.{after, after_guard}
use erpn.Database.Throttle.Failures.{record_failure-fits, record_failure_lem, upsert_failure-finds}
use erpn.Database.Types.Identity.{
  SessionRow, ThrottleRow, AuthThrottleScopeKind, UserRow, account, address,
}
use erpn.Prelude.{
  codes, leb, leb→le, true, ◌≤◌, ◌+◌, ◌*◌, arith, true, suc, [], ◌∷◌, ◌++◌, List, inr, inl, refl,
  Option-cases, text_eq, ◌≡◌, none, Text, some, Option, ℕ,
}
use erpn.Database.Access.{append_audit}
use erpn.Result.{ok}
use erpn.Database.Identity.{create_session, session_row, find_password_hash, find_by_email, hash_of}
use erpn.SessionPolicy.{new_session_window, minute_ms}

module _ (outside : Primitives) (policy : AuthenticationPolicy) (session : Session) where
  -- The lock that a subject is under.
  abbrev pub lock_of : AuthThrottleScopeKind → Text → Store → Option ℕ
  lock_of kind key s =
      let row =
        select_first (is_throttle kind (normalise outside.to_lower_case key)) s.auth_throttle in
      (status_or_none session.now row).locked_until

  abbrev pub either_lock : Option ℕ → Option ℕ → Option ℕ
  either_lock (some until) b = some until
  either_lock none b = b

  throttle_status_lem :
      (kind : AuthThrottleScopeKind) (key : Text) (s : Store)
      → throttle_status outside.to_lower_case session kind key s
        ≡ ok (
          status_or_none session.now (
              select_first
                (is_throttle kind (normalise outside.to_lower_case key))
                s.auth_throttle),
          s,
        )
  unfolding throttle_status ◌>>=◌ query pure
  throttle_status_lem kind key s = refl

  pub check_locked_lem :
      (email ip : Text) (s : Store)
      → check_locked outside policy session email ip s
        ≡ ok (either_lock (lock_of account email s) (lock_of address ip s), s)
  unfolding check_locked ◌>>=◌ pure
  check_locked_lem email ip s = elim (Option-cases (lock_of account email s)) [
    | inl e ↦
        rw
          (
            throttle_status_lem account email s,
            check_locked,
            ◌>>=◌,
            e,
            ◌>>=◌,
            throttle_status_lem address ip s,
            ◌>>=◌,
          )
          refl
    | inr (until, e) ↦ rw (throttle_status_lem account email s, check_locked, ◌>>=◌, e) refl
  ]

  pub audit_failure_lem :
      (email : Text) (request : LoginRequest) (reason : LoginFailureReason) (s : Store)
      → (t : Store) × (audit_failure outside policy session email request reason s ≡ ok (tt, t))
        × (t.sessions ≡ s.sessions)
        × (t.auth_throttle ≡ s.auth_throttle)
  unfolding audit_failure append_audit write
  audit_failure_lem email request reason s = (_, refl, refl, refl)

  -- The rows after a failure of the account and of the address.
  abbrev pub counted_both : Text → Text → List ThrottleRow → List ThrottleRow
  counted_both email ip rows =
      upsert_failure address (normalise outside.to_lower_case ip) policy.throttle session.now (
        upsert_failure account (normalise outside.to_lower_case email) policy.throttle session.now
          rows)

  -- The column takes the keys of an account and of an address.
  abbrev pub CanCount : Text → Text → Type 0
  CanCount email ip =
      (is_key_length (normalise outside.to_lower_case email) ≡ true)
      × (is_key_length (normalise outside.to_lower_case ip) ≡ true)

  record_failures_lem :
      (email ip : Text) (s : Store)
      → CanCount email ip
      → record_failures outside policy session email ip s
        ≡ ok (tt, record s { auth_throttle = counted_both email ip s.auth_throttle })
  unfolding record_failures ◌>>=◌ pure
  record_failures_lem email ip s (fits, fits') =
      let lower = outside.to_lower_case in
      let (row, found) =
        upsert_failure-finds lower session account (normalise lower email) policy.throttle
          s.auth_throttle in
      let u : Store = record s {
        auth_throttle =
            upsert_failure account (normalise lower email) policy.throttle session.now
              s.auth_throttle;
      } in
      let (row', found') =
        upsert_failure-finds lower session address (normalise lower ip) policy.throttle
          u.auth_throttle in
      rw
        (
          record_failure_lem lower session account email policy.throttle s row fits found,
          ◌>>=◌,
          record_failure_lem lower session address ip policy.throttle u row' fits' found',
          ◌>>=◌,
        )
        refl

  -- A failed attempt whose keys the column takes returns, and is counted for the account and for the
  -- address.
  pub reject_attempt_lem :
      (email ip : Text) (request : LoginRequest) (reason : LoginFailureReason) (s : Store)
      → CanCount email ip
      → (t : Store) × (reject_attempt outside policy session email ip request reason s
          ≡ ok (rejected invalid_credentials none, t))
        × (t.sessions ≡ s.sessions)
        × (t.auth_throttle ≡ counted_both email ip s.auth_throttle)
  unfolding reject_attempt ◌>>=◌ pure
  reject_attempt_lem email ip request reason s fits =
      let u : Store = record s { auth_throttle = counted_both email ip s.auth_throttle } in
      let (t, ran, same, rows) = audit_failure_lem email request reason u in
      (t, rw (record_failures_lem email ip s fits, ◌>>=◌, ran, ◌>>=◌) refl, same, rows)

  -- A failed attempt that returns has keys that the column takes.
  pub reject_attempt-CanCount :
      (email ip : Text) (request : LoginRequest) (reason : LoginFailureReason) (s t : Store)
      (result : LoginResult)
      → reject_attempt outside policy session email ip request reason s ≡ ok (result, t)
      → CanCount email ip
  unfolding reject_attempt record_failures
  reject_attempt-CanCount email ip request reason s t result h =
      after s t result (record_failures outside policy session email ip) _ h (λ done r1 e1 h.
        after s r1 done (record_failure outside.to_lower_case session account email policy.throttle)
          _ e1
          (λ status r2 e2 h.
            after r2 r1 done
              (record_failure outside.to_lower_case session address ip policy.throttle) _ h
              (λ status' r3 e3 h. (
                record_failure-fits outside.to_lower_case session account email policy.throttle s r2
                    status e2,
                record_failure-fits outside.to_lower_case session address ip policy.throttle r2 r3
                    status' e3,
              ))))

  -- The session that a login creates.
  abbrev pub session_of : LoginRequest → LoginSuccess → SessionRow
  session_of request r =
      let window = new_session_window policy.sessions session.now in
      session_row session.now (record {
        id = r.session_id;
        user_id = r.user_id;
        token_hash = outside.hash_session_token r.token;
        idle_expires_at = window.idle_expires_at;
        absolute_expires_at = window.absolute_expires_at;
        ip_address = request.ip_address;
        user_agent = request.user_agent;
      })

  -- The idle time of a session is at most its lifetime.
  abbrev pub IdleWithin : Type 0
  IdleWithin = policy.sessions.idle_minutes ≤ policy.sessions.absolute_minutes

  -- A sign in that returns has found it so.
  pub sign_in-IdleWithin :
      (email ip : Text) (request : LoginRequest) (user : UserRow) (s t : Store)
      (result : LoginResult)
      → sign_in outside policy session email ip request user s ≡ ok (result, t)
      → IdleWithin
  unfolding sign_in create_session new_session_window
  sign_in-IdleWithin email ip request user s t result h =
      after s t result (issue_session_token outside policy) _ h (λ issued r1 e1 h.
        after r1 t result (random_uuid session) _ h (λ id r2 e2 h.
          after r2 t result (create_session session _) _ h (λ row r3 e3 h.
            after_guard r2 r3 row _ _ _ e3 (λ fits h. omega (arith, leb→le _ _ fits)))))

  abbrev greet : Text → Text → LoginRequest → UserRow → LoginSuccess → Tx LoginResult
  greet email ip request user r = do
    clear_on_success outside.to_lower_case session account email
    clear_on_success outside.to_lower_case session address ip
    append_audit session (
        plain_event (codes "logged_in") (some user.id) (codes "Signed in as " ++ user.email)
          request)
    pure (authenticated r)

  -- What follows the creation of the session leaves the sessions.
  greeted :
      (email ip : Text) (request : LoginRequest) (user : UserRow) (r : LoginSuccess) (s : Store)
      → (t : Store) × (greet email ip request user r s ≡ ok (authenticated r, t))
        × (t.sessions ≡ s.sessions)
  unfolding ◌>>=◌ pure write clear_on_success append_audit
  greeted email ip request user r s = (_, refl, refl)

  window_fits :
      IdleWithin
      → leb
          (session.now + policy.sessions.idle_minutes * minute_ms)
          (session.now + policy.sessions.absolute_minutes * minute_ms)
        ≡ true
  window_fits within = ground (arith, within)

  pub sign_in_lem :
      (email ip : Text) (request : LoginRequest) (user : UserRow) (s : Store)
      → IdleWithin
      → (r : LoginSuccess) × (t : Store) × (sign_in outside policy session email ip request user s
          ≡ ok (authenticated r, t))
        × (r.user_id ≡ user.id)
        × (r.expires_at ≡ (new_session_window policy.sessions session.now).idle_expires_at)
        × (t.sessions ≡ s.sessions ++ (session_of request r ∷ []))
  unfolding sign_in ◌>>=◌ pure refuse_unless issue_session_token random_uuid create_session write
      clear_on_success append_audit new_session_window
  sign_in_lem email ip request user s within =
      let r : LoginSuccess = record {
        token = outside.random_token s.drawn;
        session_id = session.uuid (suc s.drawn);
        user_id = user.id;
        expires_at = (new_session_window policy.sessions session.now).idle_expires_at;
      } in
      let created : Store = record s {
        drawn = suc (suc s.drawn);
        sessions = s.sessions ++ (session_of request r ∷ []);
      } in
      let (t, ran, same) = greeted email ip request user r created in
      (r, t, rw (window_fits within, refuse_unless, ◌>>=◌) ran, refl, refl, same)

  -- The user whom an attempt names, where the password is theirs.
  unfoldable pub credentials_in : Text → Text → Store → Credentials
  credentials_in email password s =
      let user =
        select_first
          (λ (row : UserRow). text_eq (outside.sql_lower row.email) (outside.sql_lower email))
          s.users in
      let stored : Option Text = elim user [
        | none ↦ none
        | some named ↦ hash_of (select_first (λ (row : UserRow). text_eq row.id named.id) s.users)
      ] in
      credentials_of user stored (outside.verify (hash_or outside.decoy_hash stored) password)

  pub attempt_lem :
      (email ip : Text) (request : LoginRequest) (s : Store)
      → attempt outside policy session email ip request s
        ≡ admit outside policy session email ip request (credentials_in email request.password s) s
  unfolding attempt ◌>>=◌ find_by_email find_password_hash query pure credentials_in
  attempt_lem email ip request s =
      elim (Option-cases (
        select_first
          (λ (row : UserRow). text_eq (outside.sql_lower row.email) (outside.sql_lower email))
          s.users)) [ inl e ↦ rw e refl | inr (user, e) ↦ rw e refl ]
