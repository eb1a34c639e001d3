-- ===== src/Idempotency/Replay.antt =====
-- A request under a key, and again (apps/api/src/http/idempotency.ts).
use erpn.Database.Frame.Inversion.{after}
use erpn.Idempotency.{
  perform, IdempotentOutcome, IdempotentRequest, run_idempotently, replay, retention_hours,
}
use erpn.Database.Idempotency.{
  claimed_record, answered, is_claim, complete, actor_of, claim, find_idempotency, insert_claim,
  is_idempotency_key,
}
use erpn.Database.Types.Requests.{IdempotencyRecord, IdempotencyClaim, StoredResponse}
use erpn.Database.Transaction.{
  update_where, write, refuse_unless, select_first, Tx, pure, Store, query, unless_absent,
  random_uuid, lift, ◌>>=◌, acting_user_id, present, require_company_scope, CompanyScope, Session,
}
use erpn.Prelude.{
  [], ◌∷◌, text_eq_refl, ap, ◌++◌, sym, ◌∙◌, false, none, inr, Option-cases, inl, true, text_eq,
  if◌then◌else◌, Bool-cases, refl, suc, ◌*◌, ◌+◌, Bool, some, ◌≡◌, Text,
}
use erpn.Result.{err, Result, ok}
use erpn.SessionPolicy.{minute_ms}
use erpn.Failure.{idempotency_conflict, unreachable}
use erpn.Database.Frame.{Keeps}
use erpn.Database.Transaction.Rows.{select_first-append, select_first-changed}

module _ (session : Session) (c : CompanyScope) (user : Text)
    (acting : require_company_scope session.scope "Idempotency" ≡ ok c)
    (named : present (acting_user_id session.scope) ≡ some user) where
  abbrev mine : IdempotentRequest → IdempotencyRecord → Bool
  mine request = is_idempotency_key c user request.endpoint request.key

  abbrev claim_of : IdempotentRequest → Text → IdempotencyClaim
  claim_of request id = record {
    id = id;
    endpoint = request.endpoint;
    key = request.key;
    fingerprint = request.fingerprint;
    expires_at = session.now + retention_hours * 60 * minute_ms;
  }

  find_lem :
      (endpoint key : Text) (s : Store)
      → find_idempotency session endpoint key s
        ≡ ok (select_first (is_idempotency_key c user endpoint key) s.idempotency_records, s)
  unfolding find_idempotency ◌>>=◌ lift actor_of unless_absent query
  find_lem endpoint key s = rw (acting, lift, named) refl

  claim_lem :
      (input : IdempotencyClaim) (s : Store)
      → claim session input s
        ≡ insert_claim c user input
            (select_first
              (is_idempotency_key c user input.endpoint input.key)
              s.idempotency_records)
            s
  unfolding claim ◌>>=◌ lift actor_of unless_absent query
  claim_lem input s = rw (acting, lift, named) refl

  -- What the record of a held key makes of a request.
  abbrev pub answer_of : IdempotentRequest → IdempotencyRecord → Result IdempotentOutcome
  answer_of request row =
      if text_eq row.fingerprint request.fingerprint
      then elim row.response [
        | some response ↦ ok (record { response = response; replayed = true })
        | none ↦ err (unreachable "an idempotency record committed without its response")
      ]
      else err (idempotency_conflict request.key)

  replay_lem :
      (request : IdempotentRequest) (s : Store) (row : IdempotencyRecord)
      → select_first (mine request) s.idempotency_records ≡ some row
      → replay session request s ≡ lift (answer_of request row) s
  unfolding replay ◌>>=◌ lift unless_absent refuse_unless pure
  replay_lem request s row held = elim (Bool-cases (text_eq row.fingerprint request.fingerprint)) [
    | inl same ↦ elim (Option-cases row.response) [
      | inl e ↦ rw (find_lem request.endpoint request.key s, held, ◌>>=◌, same, e) refl
      | inr (r, e) ↦ rw (find_lem request.endpoint request.key s, held, ◌>>=◌, same, e) refl
    ]
    | inr other ↦ rw (find_lem request.endpoint request.key s, held, ◌>>=◌, other) refl
  ]

  -- A key that its user holds is answered from its record alone, whatever the operation is: by the
  -- stored response where the fingerprint is the same, by a conflict where it is another.
  pub held_key :
      (request : IdempotentRequest) (operation : Tx StoredResponse) (s : Store)
      (row : IdempotencyRecord)
      → select_first (mine request) s.idempotency_records ≡ some row
      → run_idempotently session request operation s
        ≡ lift (answer_of request row) (record s { drawn = suc s.drawn })
  unfolding run_idempotently ◌>>=◌ random_uuid insert_claim pure
  held_key request operation s row held =
      rw
        (
          claim_lem (claim_of request (session.uuid s.drawn)) (record s { drawn = suc s.drawn }),
          held,
          ◌>>=◌,
        )
        (replay_lem request (record s { drawn = suc s.drawn }) row held)

  complete_lem :
      (id : Text) (response : StoredResponse) (s : Store)
      → complete session id response s
        ≡ ok (
          tt,
          record s {
            idempotency_records =
                update_where (is_claim c id) (answered response) s.idempotency_records;
          },
        )
  unfolding complete ◌>>=◌ lift write
  complete_lem id response s = rw acting refl

  -- What has been performed is on record, where the operation leaves the records alone.
  performed :
      (operation : Tx StoredResponse) (row : IdempotencyRecord) (s t : Store)
      (outcome : IdempotentOutcome)
      → Keeps (λ v. v.idempotency_records) operation
      → perform session operation row s ≡ ok (outcome, t)
      → (outcome.replayed ≡ false)
        × (t.idempotency_records
            ≡ update_where (is_claim c row.id) (answered outcome.response) s.idempotency_records)
  unfolding perform ◌>>=◌ pure
  performed operation row s t outcome keeps h =
      after s t outcome operation _ h (λ response u ran h'.
        let e : ◌≡◌ {A = Result (IdempotentOutcome × Store)}
            (ok (
              record { response = response; replayed = false },
              record u {
                idempotency_records =
                    update_where (is_claim c row.id) (answered response) u.idempotency_records;
              },
            ))
            (ok (outcome, t)) =
          rw (complete_lem row.id response u, ◌>>=◌) at h' in
        let same : record { response = response; replayed = false } ≡ outcome = cc e in
        let back : record u {
          idempotency_records =
              update_where (is_claim c row.id) (answered response) u.idempotency_records;
        }
            ≡ t =
          cc e in
        (
          ap (λ (o : IdempotentOutcome). o.replayed) (sym same),
          ap (λ (v : Store). v.idempotency_records) (sym back)
              ∙ ap
                  (λ (o : StoredResponse).
                    update_where (is_claim c row.id) (answered o) u.idempotency_records)
                  (ap (λ (o : IdempotentOutcome). o.response) same)
              ∙ ap (update_where (is_claim c row.id) (answered outcome.response))
                  (keeps.kept s response u ran),
        ))

  abbrev claimed_row : IdempotentRequest → Text → IdempotencyRecord
  claimed_row request id = claimed_record c user (claim_of request id)

  -- A key that is free is claimed and the operation performed.
  free_lem :
      (request : IdempotentRequest) (operation : Tx StoredResponse) (s : Store)
      → select_first (mine request) s.idempotency_records ≡ none
      → run_idempotently session request operation s
        ≡ perform session operation (claimed_row request (session.uuid s.drawn)) (record s {
          drawn = suc s.drawn;
          idempotency_records =
              s.idempotency_records ++ (claimed_row request (session.uuid s.drawn) ∷ []);
        })
  unfolding run_idempotently ◌>>=◌ random_uuid insert_claim pure write
  free_lem request operation s free =
      rw
        (
          claim_lem (claim_of request (session.uuid s.drawn)) (record s { drawn = suc s.drawn }),
          free,
          ◌>>=◌,
        )
        refl

  -- The record that a first request leaves.
  recorded :
      (request : IdempotentRequest) (operation : Tx StoredResponse) (s t : Store)
      (outcome : IdempotentOutcome)
      → select_first (mine request) s.idempotency_records ≡ none
      → Keeps (λ v. v.idempotency_records) operation
      → run_idempotently session request operation s ≡ ok (outcome, t)
      → (outcome.replayed ≡ false)
        × (select_first (mine request) t.idempotency_records
            ≡ some (answered outcome.response (claimed_row request (session.uuid s.drawn))))
  recorded request operation s t outcome free keeps h =
      let row = claimed_row request (session.uuid s.drawn) in
      let (first, rows) =
        performed operation row _ t outcome keeps (sym (free_lem request operation s free) ∙ h) in
      let here : mine request row ≡ true =
        rw
          (
            text_eq_refl c.tenant_id,
            text_eq_refl c.company_id,
            text_eq_refl user,
            text_eq_refl request.endpoint,
            text_eq_refl request.key,
          )
          refl in
      let its_claim : is_claim c row.id row ≡ true =
        rw (text_eq_refl row.id, text_eq_refl c.tenant_id, text_eq_refl c.company_id) refl in
      (
        first,
        ap (select_first (mine request)) rows
            ∙ select_first-changed (mine request) (is_claim c row.id) (answered outcome.response)
                (λ x. refl) (s.idempotency_records ++ (row ∷ []))
            ∙ rw (select_first-append (mine request) s.idempotency_records row free here, its_claim)
                refl,
      )

-- A request under a free key is performed once: where it returns, any further request of the same user
-- in the same company under that key and with the same fingerprint returns the same response as a
-- replay, whatever operation comes with it, and writes nothing. The operation is one that leaves the
-- records of the keys alone.
pub run_twice :
    (session later : Session) (c : CompanyScope) (user : Text) (request : IdempotentRequest)
    (operation other : Tx StoredResponse) (s t : Store) (outcome : IdempotentOutcome)
    → require_company_scope session.scope "Idempotency" ≡ ok c
    → present (acting_user_id session.scope) ≡ some user
    → later.scope ≡ session.scope
    → select_first (is_idempotency_key c user request.endpoint request.key) s.idempotency_records
      ≡ none
    → Keeps (λ v. v.idempotency_records) operation
    → run_idempotently session request operation s ≡ ok (outcome, t)
    → (outcome.replayed ≡ false)
      × (run_idempotently later request other t
          ≡ ok (
            record { response = outcome.response; replayed = true },
            record t { drawn = suc t.drawn },
          ))
unfolding lift
run_twice session later c user request operation other s t outcome acting named same free keeps h =
    let (first, found) =
      recorded session c user acting named request operation s t outcome free keeps h in
    let again = held_key later c user (rw same acting) (rw same named) request other t _ found in
    (first, again ∙ rw (text_eq_refl request.fingerprint) refl)
