-- ===== src/Database/Types/Requests.antt =====
-- apps/api/src/database/repositories/types.ts: the records of request idempotency.
use erpn.Prelude.{ℕ, Option, Text}

-- The body is the text of its JSON.
pub record StoredResponse : Type 0 where
  pub status : ℕ
  pub body : Text

pub record IdempotencyRecord : Type 0 where
  pub id : Text
  pub tenant_id : Text
  pub company_id : Text
  pub user_id : Text
  pub endpoint : Text
  pub key : Text
  pub fingerprint : Text
  pub response : Option StoredResponse
  pub expires_at : ℕ

pub record IdempotencyClaim : Type 0 where
  pub id : Text
  pub endpoint : Text
  pub key : Text
  pub fingerprint : Text
  pub expires_at : ℕ
