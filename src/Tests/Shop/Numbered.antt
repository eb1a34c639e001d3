-- ===== src/Tests/Shop/Numbered.antt =====
-- Two numbers taken in the company of erpn.Tests.Shop.
use erpn.Database.Transaction.{
  Store, tenant_id_of, company_id_of, require_company_scope, select_first, update_where, lift,
  query, unless_absent, write, pure, ◌>>=◌,
}
use erpn.Decimal.{emit_digits, to_string, pad_start}
use erpn.Sales.DocumentNumber.{format_document_number}
use erpn.Database.Sales.{allocate}
use erpn.Database.Types.{AllocatedDocumentNumber}
use erpn.Prelude.{refl, ◌≢◌, codes, [], ◌+◌, ◌≡◌, text_eq}
use erpn.Tests.Shop.{acting, shop, tables, outcome, session}
use erpn.Result.{ok}
use erpn.Sales.Sequences.Gapless.{allocate-allocate}

abbrev none_yet : AllocatedDocumentNumber
none_yet = record { doc_type = []; value = 0; formatted = [] }

abbrev first : AllocatedDocumentNumber × Store
first =
    outcome (none_yet, tables (codes "draft"))
      (allocate session (codes "sales_order") (tables (codes "draft")))

abbrev second : AllocatedDocumentNumber × Store
second = outcome (none_yet, first.1) (allocate session (codes "sales_order") (first.1))

allocates : allocate session (codes "sales_order") (tables (codes "draft")) ≡ ok first
unfolding allocate ◌>>=◌ lift query unless_absent write pure select_first update_where
    require_company_scope tenant_id_of company_id_of format_document_number pad_start to_string
    emit_digits text_eq
allocates = refl

allocates_again : allocate session (codes "sales_order") (first.1) ≡ ok second
unfolding allocate ◌>>=◌ lift query unless_absent write pure select_first update_where
    require_company_scope tenant_id_of company_id_of format_document_number pad_start to_string
    emit_digits text_eq
allocates_again = refl

allocate-allocate_example :
    (second.0.value ≡ first.0.value + 1) × (first.0.formatted ≢ second.0.formatted)
allocate-allocate_example =
    allocate-allocate session shop acting (codes "sales_order") (tables (codes "draft")) (first.1)
      (second.1) (first.0) (second.0) allocates allocates_again
