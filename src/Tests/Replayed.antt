-- ===== src/Tests/Replayed.antt =====
-- A request of the company of erpn.Tests.Shop, sent twice under one key.
use erpn.Tests.Shop.{session, shop, tables, outcome}
use erpn.Idempotency.{IdempotentRequest, IdempotentOutcome, run_idempotently, perform}
use erpn.Idempotency.Replay.{run_twice, held_key}
use erpn.Idempotency.Canonical.{Json, number, string, object, field, done, fingerprint_of}
use erpn.Idempotency.Canonical.KeyOrder.{objects, swapped, same_fingerprint}
use erpn.Database.Idempotency.{claim, complete, insert_claim, actor_of, is_idempotency_key}
use erpn.Database.Types.Requests.{StoredResponse, IdempotencyRecord}
use erpn.Database.Frame.{pure-Keeps}
use erpn.Database.Transaction.{
  update_where, write, query, unless_absent, company_id_of, throw, random_uuid, pure, ◌>>=◌, lift,
  tenant_id_of, present, acting_user_id, require_company_scope, Store, select_first, Session,
}
use erpn.Prelude.{ap, suc, refl, [], none, ◌≢◌, true, some, false, ◌∷◌, text_eq, codes, ◌≡◌}
use erpn.Result.{ok, err}
use erpn.Failure.{unreachable, idempotency_conflict}

acting_on_requests : require_company_scope session.scope "Idempotency" ≡ ok shop
unfolding require_company_scope tenant_id_of company_id_of
acting_on_requests = refl

acting_user : present (acting_user_id session.scope) ≡ some (codes "u")
unfolding acting_user_id
acting_user = refl

abbrev request : IdempotentRequest
request = record {
  endpoint = codes "POST /sales-orders/o/confirm";
  key = codes "k1";
  fingerprint = codes "f";
}

abbrev created : StoredResponse
created = record { status = 201; body = codes "{}" }

abbrev later : Session
later = record session { now = 9 }

abbrev not_run : IdempotentOutcome × Store
not_run = (record { response = created; replayed = true }, tables (codes "draft"))

abbrev run_once : IdempotentOutcome × Store
run_once =
    outcome not_run (run_idempotently session request (pure created) (tables (codes "draft")))

runs : run_idempotently session request (pure created) (tables (codes "draft")) ≡ ok run_once
unfolding run_idempotently ◌>>=◌ random_uuid claim insert_claim actor_of unless_absent perform
    complete lift query write pure select_first update_where require_company_scope tenant_id_of
    company_id_of acting_user_id text_eq
runs = refl

free_key :
    select_first
      (is_idempotency_key shop (codes "u") request.endpoint request.key)
      (tables (codes "draft")).idempotency_records
    ≡ none
unfolding select_first
free_key = refl

run_twice_example :
    (run_once.0.replayed ≡ false)
    × (run_idempotently later request (throw (unreachable "not run")) run_once.1
        ≡ ok (
          record { response = run_once.0.response; replayed = true },
          record (run_once.1) { drawn = suc (run_once.1).drawn },
        ))
run_twice_example =
    run_twice session later shop (codes "u") request (pure created) (throw (unreachable "not run"))
      (tables (codes "draft")) run_once.1 run_once.0 acting_on_requests acting_user refl free_key
      (pure-Keeps (λ v. v.idempotency_records) created) runs

abbrev answered_row : IdempotencyRecord
answered_row = record {
  id = codes "id0";
  tenant_id = codes "t";
  company_id = codes "c";
  user_id = codes "u";
  endpoint = request.endpoint;
  key = request.key;
  fingerprint = codes "g";
  response = some created;
  expires_at = 86400000;
}

abbrev held : Store
held = record (tables (codes "draft")) { idempotency_records = answered_row ∷ [] }

is_held :
    select_first
      (is_idempotency_key shop (codes "u") request.endpoint request.key)
      held.idempotency_records
    ≡ some answered_row
unfolding select_first text_eq
is_held = refl

held_key_example :
    run_idempotently session request (pure created) held ≡ err (idempotency_conflict request.key)
unfolding text_eq lift
held_key_example =
    held_key session shop (codes "u") acting_on_requests acting_user request (pure created) held
      answered_row is_held

abbrev quantity_first : Json
quantity_first =
    object (field (codes "q") (number (codes "2")) (field (codes "p") (string (codes "pen")) done))

abbrev product_first : Json
product_first =
    object (field (codes "p") (string (codes "pen")) (field (codes "q") (number (codes "2")) done))

differ : codes "q" ≢ codes "p"
unfolding text_eq
differ h = let e : true ≡ false = ap (text_eq (codes "q")) h in absurd (cc e)

same_fingerprint_example :
    fingerprint_of (λ t. t) quantity_first ≡ fingerprint_of (λ t. t) product_first
same_fingerprint_example =
    same_fingerprint (λ t. t) quantity_first product_first
      (objects
        (swapped (codes "q") (codes "p") (number (codes "2")) (string (codes "pen")) done differ))
