-- ===== src/Inventory/Reservations/Isolation.antt =====
-- Reservations (apps/api/src/inventory/reservations.ts) and the rows of other companies.
use erpn.Database.Transaction.{random_uuid, require_company_scope, CompanyScope, Session}
use erpn.Prelude.{refl, Text, ◌≡◌, String}
use erpn.Result.{ok}
use erpn.Inventory.Reservations.{reserve_for_order_line}
use erpn.Database.Isolation.{others}
use erpn.Database.Frame.{random_uuid-Keeps, keeps, Keeps}
use erpn.Database.Isolation.Statements.{create_under_balance_lock-Keeps}
use erpn.Database.Frame.Reads.{reads}

module _ (session : Session) (c : CompanyScope) (subject : String)
    (acting : require_company_scope session.scope subject ≡ ok c) where
  pub reserve_for_order_line-Keeps :
      (line_id quantity : Text) → Keeps (others c) (reserve_for_order_line session line_id quantity)
  unfolding reserve_for_order_line others
  reserve_for_order_line-Keeps line_id quantity =
      let fresh : (u : Unit {0}) → Keeps (others c) (random_uuid session) =
        λ u. random_uuid-Keeps (others c) session (λ s m. refl) in
      search (keeps, reads, fresh, create_under_balance_lock-Keeps session c subject acting) depth
        30
