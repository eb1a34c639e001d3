-- ===== src/Inventory/Ledger/Recorded.antt =====
-- Runs of `record` in apps/api/src/database/repositories/inventory.repository.ts.
use mathlib.Core.Path.{subst}
use erpn.Inventory.Ledger.{record_movements, Balanced, ledger_units, is_movement}
use erpn.Database.Transaction.{
  some_row, refuse_unless, update_where, Store, unless_absent, random_uuid, pure, write, query,
  lift, require_company_scope, Session, ◌>>=◌, select_first, CompanyScope,
}
use erpn.Prelude.{
  ◌+◌, ◌<◌, false, text_eq, append_assoc, append-nil, map, All, suc, ◌∙◌, ap, refl, text_eq_refl,
  sym, [], ◌∷◌, arith, ◌++◌, some, true, ◌≡◌, List, Text,
}
use erpn.Database.Types.{
  RecordedMovement, NewStockMovement, StockMovementRecord, StockBalanceRecord,
}
use erpn.Database.Ledger.{
  moved_by, movement_row, is_locked_balance, record_movement, ensure_balance,
}
use erpn.Database.Inventory.{quantity_scale, is_balance}
use erpn.Decimal.{render, Decimal}
use erpn.Result.{ok}
use erpn.Database.Transaction.Rows.{select_first-changed, select_first-finds}
use erpn.Decimal.Round.{units_at}
use erpn.Inventory.Ledger.Accepted.{
  IsMovementOf, AllFresh, moved_mag, still_fresh, mag-add, check_movement_lem, check_key_lem,
  moved_fits, references_kept,
}
use erpn.Database.MovementChecks.{check_references, column_limit, has_id}
use erpn.Prelude.Int.{ℤ, mag, ◌+ℤ◌}
use erpn.Decimal.Scales.{units_of-render}
use erpn.Database.Numeric.{numeric_of}
use erpn.Inventory.Ledger.OnHand.{
  ledger_units-append, numeric_of_lem, one_after, moved_on_hand, numeric_column_lem,
  ensure_balance_lem,
}

module _ (session : Session) (c : CompanyScope)
    (acting : require_company_scope session.scope "Stock" ≡ ok c) where
  -- The sum of the ledger for a product in a warehouse.
  abbrev ledger_of : Text → Text → Store → ℤ
  ledger_of product warehouse s = ledger_units c product warehouse s.stock_movements

  -- What one movement leaves of the tables.
  record Recorded (product warehouse id : Text) (u : ℤ) (s t : Store) (r : RecordedMovement)
      : Type 0 where
    still : Balanced c product warehouse t
    added : t.stock_movements ≡ s.stock_movements ++ (r.movement ∷ [])
    named : r.movement.id ≡ id
    sum : ledger_of product warehouse t ≡ ledger_of product warehouse s +ℤ u
    references : check_references c product warehouse t ≡ ok tt

  of_same_key :
      {p p' w w' id : Text} {u : ℤ} {s t : Store} {r : RecordedMovement}
      → p ≡ p'
      → w ≡ w'
      → Recorded p w id u s t r
      → Recorded p' w' id u s t r
  of_same_key {p = p} {p' = p'} {w = w} {w' = w'} {id = id} {u = u} {s = s} {t = t} {r = r}
        same_product same_warehouse done =
      subst (λ (y : Text). Recorded p' y id u s t r) same_warehouse
        (subst (λ (x : Text). Recorded x w id u s t r) same_product done)

  -- A movement that the tables take is recorded and moves the balance.
  record_movement_lem :
      (product warehouse : Text) (input : NewStockMovement) (s : Store)
      (accepted : IsMovementOf product warehouse input)
      → some_row (has_id input.id) s.stock_movements ≡ false
      → check_references c input.product_id input.warehouse_id s ≡ ok tt
      → mag (ledger_of input.product_id input.warehouse_id s)
          + mag (units_at accepted.amount quantity_scale)
        < column_limit
      → Balanced c input.product_id input.warehouse_id s
      → (r : RecordedMovement) × (t : Store) × (record_movement session input s ≡ ok (r, t))
        × Recorded input.product_id input.warehouse_id input.id
            (units_at accepted.amount quantity_scale)
            s
            t
            r
  unfolding record_movement ◌>>=◌ lift query write pure random_uuid unless_absent refuse_unless
  record_movement_lem product warehouse input s accepted fresh references small before =
      let p = input.product_id in
      let w = input.warehouse_id in
      let q = accepted.amount in
      let u = units_at q quantity_scale in
      let (row, found, holds, here, one) =
        ensure_balance_lem c p w (session.uuid s.drawn) s.stock_balances before.one_tenant in
      let self : is_locked_balance row row ≡ true = ground (arith, text_eq_refl row.id) in
      let (back, returned) =
        select_first-finds (is_balance c p w) (is_locked_balance row)
          (ensure_balance c (session.uuid s.drawn) p w s.stock_balances) row found self in
      let m : StockMovementRecord = movement_row c session.now input (render u quantity_scale) in
      let rows : List StockBalanceRecord =
        update_where (is_locked_balance row) (moved_by input.quantity)
          (ensure_balance c (session.uuid s.drawn) p w s.stock_balances) in
      let changed : select_first (is_balance c p w) rows ≡ some (moved_by input.quantity row) =
        select_first-changed (is_balance c p w) (is_locked_balance row) (moved_by input.quantity)
          (λ x. refl) (ensure_balance c (session.uuid s.drawn) p w s.stock_balances)
        ∙ rw (found, self) refl in
      let drawn : Store = record s { drawn = suc s.drawn } in
      let ensured : Store = record drawn {
        stock_balances = ensure_balance c (session.uuid s.drawn) p w s.stock_balances;
      } in
      let last : Store = record s {
        drawn = suc s.drawn;
        stock_balances = rows;
        stock_movements = s.stock_movements ++ (m ∷ []);
      } in
      let is_mine : is_movement c p w m ≡ true =
        rw (text_eq_refl c.tenant_id, text_eq_refl c.company_id, text_eq_refl p, text_eq_refl w)
          refl in
      (
        record { movement = m; balance = moved_by input.quantity back },
        last,
        rw
            (
              acting,
              lift,
              references_kept c p w s drawn refl refl refl references,
              lift,
              found,
              numeric_column_lem input.quantity q accepted.reads,
              ◌>>=◌,
              check_movement_lem product warehouse input accepted (omega (arith, small)),
              lift,
              check_key_lem input.id ensured fresh,
              lift,
              moved_fits row.on_hand input.quantity (ledger_of p w s) q (holds ∙ before.balanced)
                  accepted.reads accepted.within small,
              returned,
              ◌>>=◌,
            )
            refl,
        record {
          still = record {
            balanced =
                moved_on_hand c p w input.quantity q s rows row m accepted.reads accepted.within
                  before.balanced changed holds is_mine refl;
            one_tenant = λ x h.
                one_after c p w input.quantity row
                  (ensure_balance c (session.uuid s.drawn) p w s.stock_balances) one x h;
          };
          added = refl;
          named = refl;
          sum =
              ledger_units-append c p w s.stock_movements m is_mine
              ∙ ap {B = ℤ} (λ v. ledger_of p w s +ℤ v) (units_of-render quantity_scale u);
          references = references_kept c p w s last refl refl refl references;
        },
      )

  recorded_then :
      (input : NewStockMovement) (inputs : List NewStockMovement) (s u t : Store)
      (r : RecordedMovement) (rs : List RecordedMovement)
      → record_movement session input s ≡ ok (r, u)
      → record_movements session inputs u ≡ ok (rs, t)
      → record_movements session (input ∷ inputs) s ≡ ok (r ∷ rs, t)
  unfolding record_movements ◌>>=◌ pure
  recorded_then input inputs s u t r rs first rest = rw (first, ◌>>=◌, rest, ◌>>=◌) refl

  abbrev movement_of : RecordedMovement → StockMovementRecord
  movement_of r = r.movement

  abbrev id_of : RecordedMovement → Text
  id_of r = r.movement.id

  abbrev wanted_id : NewStockMovement → Text
  wanted_id input = input.id

  -- The first movement stays below the limit, and after it the rest of them do.
  enough_now :
      (product warehouse : Text) (input : NewStockMovement) (inputs : List NewStockMovement)
      (s : Store) (u : ℤ)
      → units_at (numeric_of input.quantity) quantity_scale ≡ u
      → mag (ledger_of product warehouse s) + moved_mag (input ∷ inputs) < column_limit
      → mag (ledger_of product warehouse s) + mag u < column_limit
  unfolding moved_mag
  enough_now product warehouse input inputs s u is_moved small =
      let total : mag (ledger_of product warehouse s) + (mag u + moved_mag inputs) < column_limit =
        rw is_moved at small in
      omega (arith, total)

  enough_later :
      (product warehouse : Text) (input : NewStockMovement) (inputs : List NewStockMovement)
      (s t : Store) (u : ℤ)
      → units_at (numeric_of input.quantity) quantity_scale ≡ u
      → ledger_of product warehouse t ≡ ledger_of product warehouse s +ℤ u
      → mag (ledger_of product warehouse s) + moved_mag (input ∷ inputs) < column_limit
      → mag (ledger_of product warehouse t) + moved_mag inputs < column_limit
  unfolding moved_mag
  enough_later product warehouse input inputs s t u is_moved sum small =
      let total : mag (ledger_of product warehouse s) + (mag u + moved_mag inputs) < column_limit =
        rw is_moved at small in
      rw sum (omega (arith, total, mag-add (ledger_of product warehouse s) u))

  -- Movements of one product in one warehouse, whose balance starts as the sum of the ledger, of the
  -- company's own tenant, are all recorded where the tables take them: where the company, the product and
  -- the warehouse are there, each movement is of a number other than zero of at most six decimal places,
  -- for a reason and from a kind of document that the table knows, the identifiers are new and different,
  -- and what the ledger says and all that is moved, in or out, stay below ten to the thirteenth. The call
  -- then returns, the ledger gets one row for each movement, of its identifier and in their order, and the
  -- balance is again what the ledger adds up to.
  pub record_movements-Balanced :
      (product warehouse : Text) (inputs : List NewStockMovement) (s : Store)
      → All (IsMovementOf product warehouse) inputs
      → AllFresh inputs s.stock_movements
      → check_references c product warehouse s ≡ ok tt
      → mag (ledger_units c product warehouse s.stock_movements) + moved_mag inputs < column_limit
      → Balanced c product warehouse s
      → (rs : List RecordedMovement) × (t : Store) × (record_movements session inputs s
          ≡ ok (rs, t))
        × Balanced c product warehouse t
        × (t.stock_movements ≡ s.stock_movements ++ map movement_of rs)
        × (map id_of rs ≡ map wanted_id inputs)
  unfolding record_movements pure AllFresh
  record_movements-Balanced product warehouse [] s each fresh references small before =
      ([], s, refl, before, sym (append-nil s.stock_movements), refl)
  record_movements-Balanced product warehouse (input ∷ inputs) s (accepted, each)
        (new, apart, fresh) references small before =
      let p = accepted.of_product in
      let w = accepted.of_warehouse in
      let u = units_at accepted.amount quantity_scale in
      let is_moved : units_at (numeric_of input.quantity) quantity_scale ≡ u =
        ap (λ (d : Decimal). units_at d quantity_scale)
          (numeric_of_lem input.quantity accepted.amount accepted.reads) in
      let now : mag (ledger_of product warehouse s) + mag u < column_limit =
        enough_now product warehouse input inputs s u is_moved small in
      let (r, s1, ran, of_input) =
        record_movement_lem product warehouse input s accepted new (rw (p, w) references)
          (rw (p, w) now) (rw (p, w) before) in
      let after : Recorded product warehouse input.id u s s1 r = of_same_key p w of_input in
      let apart' : All (λ (later : NewStockMovement). text_eq r.movement.id later.id ≡ false)
          inputs =
        subst
          (λ (id : Text). All (λ (later : NewStockMovement). text_eq id later.id ≡ false) inputs)
          (sym after.named) apart in
      let fresh' : AllFresh inputs s1.stock_movements =
        subst (AllFresh inputs) (sym after.added)
          (still_fresh inputs s.stock_movements r.movement apart' fresh) in
      let (rs, t, ran', last, rest, names) =
        record_movements-Balanced product warehouse inputs s1 each fresh' after.references
          (enough_later product warehouse input inputs s s1 u is_moved after.sum small)
          after.still in
      (
        r ∷ rs,
        t,
        recorded_then input inputs s s1 t r rs ran ran',
        last,
        rest
            ∙ ap (λ (l : List StockMovementRecord). l ++ map movement_of rs) after.added
            ∙ (append_assoc s.stock_movements (r.movement ∷ []) (map movement_of rs)),
        cc (after.named, names),
      )
