-- ===== src/Idempotency.antt =====
-- apps/api/src/http/idempotency.ts: a request that is performed once for each key. SHA-256 and the
-- quoting of a JSON text are given.

pub mod Replay
pub mod Canonical
pub mod Expiry
use erpn.Database.Idempotency.{claim, complete, find_idempotency}
use erpn.Database.Types.Requests.{IdempotencyRecord, StoredResponse}
use erpn.Database.Transaction.{
  Session, Tx, pure, unless_absent, random_uuid, refuse_unless, ◌>>=◌, ◌>>◌,
}
use erpn.SessionPolicy.{minute_ms}
use erpn.Failure.{unreachable, idempotency_conflict}
use erpn.Prelude.{none, some, true, ◌*◌, Bool, text_eq, ◌+◌, Text, false, ℕ}

abbrev pub retention_hours : ℕ
retention_hours = 24

pub record IdempotentOutcome : Type 0 where
  pub response : StoredResponse
  pub replayed : Bool

pub record IdempotentRequest : Type 0 where
  pub endpoint : Text
  pub key : Text
  pub fingerprint : Text

-- Somebody holds the key: the same intent is answered again, another is a conflict.
unfoldable pub replay : Session → IdempotentRequest → Tx IdempotentOutcome
replay session request = do
  found ← find_idempotency session request.endpoint request.key
  existing ← unless_absent found (unreachable "an idempotency key was claimed by nobody")
  refuse_unless (text_eq existing.fingerprint request.fingerprint)
      (idempotency_conflict request.key)
  response ←
      unless_absent existing.response
        (unreachable "an idempotency record committed without its response")
  pure (record { response = response; replayed = true })

-- This transaction owns the key.
unfoldable pub perform : Session → Tx StoredResponse → IdempotencyRecord → Tx IdempotentOutcome
perform session operation claimed = do
  response ← operation
  complete session claimed.id response
  pure (record { response = response; replayed = false })

unfoldable pub run_idempotently :
    Session → IdempotentRequest → Tx StoredResponse → Tx IdempotentOutcome
run_idempotently session request operation = do
  id ← random_uuid session
  claimed ← claim session (record {
    id = id;
    endpoint = request.endpoint;
    key = request.key;
    fingerprint = request.fingerprint;
    expires_at = session.now + retention_hours * 60 * minute_ms;
  })
  elim claimed [ none ↦ replay session request | some row ↦ perform session operation row ]
