-- ===== src/Billing/Document.antt =====
-- What `postCustomerInvoice` (apps/api/src/billing/post-customer-invoice.ts) computes from the invoice
-- alone: the checks of its lines and totals, and the lines of its journal entry.
use erpn.Result.{ensure, ok, Result, ◌>>=◌, ◌>>◌}
use erpn.Decimal.{compare, parse_decimal, Decimal, Comparison, equal, less, greater}
use erpn.Billing.Arithmetic.{
  billed_amounts, rate_scale, amount_scale, document_totals, LineAmounts, BilledAmounts,
  DocumentTotals,
}
use erpn.Prelude.{
  if◌then◌else◌, [], codes, map, ◌∷◌, ◌&&◌, none, false, some, text_eq, true, List, Bool, Text,
}
use erpn.Failure.{
  nothing_to_post, tax_rate_changed, incoherent_document, customer_invoice_posting, Failure,
  PostingRefusal,
}
use erpn.Database.Types.{
  credit_of, debit_of, NewJournalLine, CustomerInvoiceRecord, CompanyRecord,
  CustomerInvoiceLineRecord,
}
use erpn.Inventory.Reservations.{is_greater}

abbrev pub refusal : PostingRefusal → Failure
refusal reason = customer_invoice_posting reason none

abbrev pub refusal_of : PostingRefusal → Text → Failure
refusal_of reason subject = customer_invoice_posting reason (some subject)

-- apps/api/src/tax/tax-rate.ts
unfoldable pub resolve_tax_rate : CompanyRecord → Text
resolve_tax_rate company = company.standard_tax_rate_percent

abbrev pub is_equal : Comparison → Bool
is_equal equal = true
is_equal less = false
is_equal greater = false

unfoldable pub same_amounts : BilledAmounts → CustomerInvoiceLineRecord → Bool
same_amounts recomputed line =
    text_eq recomputed.line_subtotal line.line_subtotal
    && (text_eq recomputed.line_tax line.line_tax && text_eq recomputed.line_total line.line_total)

-- The rate has not moved, and the stored amounts follow from the stored inputs.
unfoldable pub validate_line : Decimal → CustomerInvoiceLineRecord → Result (Unit {0})
validate_line current_rate line = do
  stored_rate ← parse_decimal line.tax_rate_percent rate_scale
  comparison ← compare stored_rate current_rate
  ensure (is_equal comparison) (refusal_of tax_rate_changed line.id)
  quantity ← parse_decimal line.quantity rate_scale
  unit_price ← parse_decimal line.unit_price rate_scale
  discount_percent ← parse_decimal line.discount_percent rate_scale
  recomputed ← billed_amounts (record {
    quantity = quantity;
    unit_price = unit_price;
    discount_percent = discount_percent;
    tax_rate_percent = stored_rate;
  })
  ensure (same_amounts recomputed line) (refusal_of incoherent_document line.id)

unfoldable pub validate_lines : Decimal → List CustomerInvoiceLineRecord → Result (Unit {0})
validate_lines current_rate [] = ok tt
validate_lines current_rate (line ∷ lines) = do
  validate_line current_rate line
  validate_lines current_rate lines

abbrev pub line_amounts : CustomerInvoiceLineRecord → LineAmounts
line_amounts line = record { line_subtotal = line.line_subtotal; line_tax = line.line_tax }

unfoldable pub same_totals : DocumentTotals → CustomerInvoiceRecord → Bool
same_totals totals invoice =
    text_eq totals.subtotal invoice.subtotal
    && (text_eq totals.tax_total invoice.tax_total && text_eq totals.total invoice.total)

-- `compare(parseDecimal(amount, AMOUNT_SCALE), parseDecimal('0', AMOUNT_SCALE)) > 0`
unfoldable pub is_positive_amount : Text → Result Bool
is_positive_amount amount = do
  value ← parse_decimal amount amount_scale
  nothing ← parse_decimal (codes "0") amount_scale
  comparison ← compare value nothing
  ok (is_greater comparison)

-- The header agrees with the lines, and there is something to post.
unfoldable pub validate_totals :
    CustomerInvoiceRecord → List CustomerInvoiceLineRecord → Result (Unit {0})
validate_totals invoice lines = do
  totals ← document_totals (map line_amounts lines)
  ensure (same_totals totals invoice) (refusal incoherent_document)
  positive ← is_positive_amount invoice.total
  ensure positive (refusal nothing_to_post)

-- A tax of nothing is left out.
unfoldable pub journal_lines_for :
    CustomerInvoiceRecord → Text → Text → Text → Result (List NewJournalLine)
journal_lines_for invoice receivable revenue tax = do
  taxed ← is_positive_amount invoice.tax_total
  ok (
      debit_of receivable invoice.total
      ∷ credit_of revenue invoice.subtotal
      ∷ (if taxed then credit_of tax invoice.tax_total ∷ [] else []))
