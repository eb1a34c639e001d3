-- ===== src/Database/Idempotency.antt =====
-- apps/api/src/database/repositories/idempotency.repository.ts: the keys of requests and what was
-- answered.
use erpn.Database.Types.Requests.{IdempotencyRecord, IdempotencyClaim, StoredResponse}
use erpn.Database.Transaction.{
  Session, Tx, CompanyScope, query, write, pure, lift, unless_absent, require_company_scope,
  acting_user_id, present, select_first, select_where, update_where, ◌>>=◌, ◌>>◌,
}
use erpn.Failure.{unreachable}
use erpn.Prelude.{leb, [], ◌&&◌, length, ◌∷◌, text_eq, not, Bool, ◌++◌, none, some, Option, Text, ℕ}

-- `if (!userId) throw …`
unfoldable pub actor_of : Session → Tx Text
actor_of session =
    unless_absent (present (acting_user_id session.scope))
      (unreachable "idempotency needs an acting user")

abbrev pub is_idempotency_key : CompanyScope → Text → Text → Text → IdempotencyRecord → Bool
is_idempotency_key c user endpoint key row =
    text_eq row.tenant_id c.tenant_id
    && (text_eq row.company_id c.company_id
        && (text_eq row.user_id user && (text_eq row.endpoint endpoint && text_eq row.key key)))

unfoldable pub find_idempotency : Session → Text → Text → Tx (Option IdempotencyRecord)
find_idempotency session endpoint key = do
  c ← lift (require_company_scope session.scope "Idempotency")
  user ← actor_of session
  query (λ s. select_first (is_idempotency_key c user endpoint key) s.idempotency_records)

abbrev pub claimed_record : CompanyScope → Text → IdempotencyClaim → IdempotencyRecord
claimed_record c user input = record {
  id = input.id;
  tenant_id = c.tenant_id;
  company_id = c.company_id;
  user_id = user;
  endpoint = input.endpoint;
  key = input.key;
  fingerprint = input.fingerprint;
  response = none;
  expires_at = input.expires_at;
}

-- `INSERT … ON CONFLICT DO NOTHING RETURNING`
unfoldable pub insert_claim :
    CompanyScope
    → Text
    → IdempotencyClaim
    → Option IdempotencyRecord
    → Tx (Option IdempotencyRecord)
insert_claim c user input none = do
  write (λ s. record s {
    idempotency_records = s.idempotency_records ++ (claimed_record c user input ∷ []);
  })
  pure (some (claimed_record c user input))
insert_claim c user input (some held) = pure none

unfoldable pub claim : Session → IdempotencyClaim → Tx (Option IdempotencyRecord)
claim session input = do
  c ← lift (require_company_scope session.scope "Idempotency")
  user ← actor_of session
  held ←
      query (λ s.
        select_first (is_idempotency_key c user input.endpoint input.key) s.idempotency_records)
  insert_claim c user input held

abbrev pub is_claim : CompanyScope → Text → IdempotencyRecord → Bool
is_claim c id row =
    text_eq row.id id && (text_eq row.tenant_id c.tenant_id && text_eq row.company_id c.company_id)

abbrev pub answered : StoredResponse → IdempotencyRecord → IdempotencyRecord
answered response row = record row { response = some response }

unfoldable pub complete : Session → Text → StoredResponse → Tx (Unit {0})
complete session id response = do
  c ← lift (require_company_scope session.scope "Idempotency")
  write (λ s. record s {
    idempotency_records = update_where (is_claim c id) (answered response) s.idempotency_records;
  })

abbrev pub is_expired : CompanyScope → ℕ → IdempotencyRecord → Bool
is_expired c now row =
    text_eq row.tenant_id c.tenant_id
    && (text_eq row.company_id c.company_id && leb row.expires_at now)

-- What the sweep may delete. The restrictive policy of
-- apps/api/migrations/0011_idempotency_expiry.sql, `expires_at <= now()`, hides from a deletion what has not expired by the
-- clock of the database, whatever cutoff the statement names.
unfoldable pub is_deletable : CompanyScope → ℕ → ℕ → IdempotencyRecord → Bool
is_deletable c cutoff database_now row = is_expired c cutoff row && leb row.expires_at database_now

unfoldable pub delete_expired : Session → ℕ → Tx ℕ
delete_expired session now = do
  c ← lift (require_company_scope session.scope "Idempotency")
  removed ← query (λ s. select_where (is_deletable c now session.now) s.idempotency_records)
  write (λ s. record s {
    idempotency_records =
        select_where (λ (row : IdempotencyRecord). not (is_deletable c now session.now row))
          s.idempotency_records;
  })
  pure (length removed)
