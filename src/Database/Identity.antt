-- ===== src/Database/Identity.antt =====
-- The users and sessions of apps/api/src/database/repositories/implementations.ts.
use erpn.Database.Types.Identity.{UserRow, SessionRow, NewSession}
use erpn.Database.Transaction.{
  Session, Tx, query, write, pure, refuse_unless, select_first, select_where, update_where, ◌>>=◌,
  ◌>>◌,
}
use erpn.Failure.{constraint_violated}
use erpn.Prelude.{
  leb, is_none, [], ◌&&◌, ◌∷◌, Bool, text_eq, none, some, length, ◌++◌, Option, Text, ℕ,
}

-- `lower(email) = lower($1)`, by the lower case of the database
unfoldable pub find_by_email : (Text → Text) → Text → Tx (Option UserRow)
find_by_email lower email =
    query (λ s. select_first (λ (row : UserRow). text_eq (lower row.email) (lower email)) s.users)

abbrev pub hash_of : Option UserRow → Option Text
hash_of none = none
hash_of (some row) = row.password_hash

unfoldable pub find_password_hash : Text → Tx (Option Text)
find_password_hash user_id = do
  row ← query (λ s. select_first (λ (row : UserRow). text_eq row.id user_id) s.users)
  pure (hash_of row)

abbrev pub has_token : Text → SessionRow → Bool
has_token token_hash row = text_eq row.token_hash token_hash

unfoldable pub find_by_token_hash : Text → Tx (Option SessionRow)
find_by_token_hash token_hash = query (λ s. select_first (has_token token_hash) s.sessions)

abbrev pub session_row : ℕ → NewSession → SessionRow
session_row now input = record {
  id = input.id;
  user_id = input.user_id;
  token_hash = input.token_hash;
  active_company_id = none;
  created_at = now;
  last_seen_at = now;
  idle_expires_at = input.idle_expires_at;
  absolute_expires_at = input.absolute_expires_at;
  revoked_at = none;
  ip_address = input.ip_address;
  user_agent = input.user_agent;
}

unfoldable pub create_session : Session → NewSession → Tx SessionRow
create_session session input = do
  let row : SessionRow = session_row session.now input
  refuse_unless (leb input.idle_expires_at input.absolute_expires_at)
      (constraint_violated "sessions_absolute_after_idle_check")
  write (λ s. record s { sessions = s.sessions ++ (row ∷ []) })
  pure row

-- The live session of an identifier.
abbrev pub is_live : Text → SessionRow → Bool
is_live id row = text_eq row.id id && is_none row.revoked_at

abbrev pub touched : ℕ → ℕ → SessionRow → SessionRow
touched now idle_expires_at row = record row {
  idle_expires_at = idle_expires_at;
  last_seen_at = now;
}

unfoldable pub touch : Session → Text → ℕ → Tx (Unit {0})
touch session id idle_expires_at = write (λ s. record s {
  sessions = update_where (is_live id) (touched session.now idle_expires_at) s.sessions;
})

abbrev pub revoked_session : ℕ → SessionRow → SessionRow
revoked_session now row = record row { revoked_at = some now }

unfoldable pub revoke : Session → Text → Tx (Unit {0})
revoke session id = write (λ s. record s {
  sessions = update_where (is_live id) (revoked_session session.now) s.sessions;
})

abbrev pub is_live_of : Text → SessionRow → Bool
is_live_of user_id row = text_eq row.user_id user_id && is_none row.revoked_at

unfoldable pub revoke_all_for_user : Session → Text → Tx ℕ
revoke_all_for_user session user_id = do
  rows ← query (λ s. select_where (is_live_of user_id) s.sessions)
  write (λ s. record s {
    sessions = update_where (is_live_of user_id) (revoked_session session.now) s.sessions;
  })
  pure (length rows)
