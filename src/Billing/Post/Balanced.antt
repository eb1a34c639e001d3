-- ===== src/Billing/Post/Balanced.antt =====
-- The two sides of the journal entry of a posting (apps/api/src/billing/post-customer-invoice.ts).
use erpn.Prelude.{
  refl, text_eq→eq, sym, if◌then◌else◌, true, arith, false, Bool, ap, ◌∙◌, [], codes, ◌≤◌, ◌∷◌, ◌≡◌,
  map, Text, List,
}
use erpn.Billing.Arithmetic.{amount_scale, LineAmounts, DocumentTotals, document_totals, sum_lines}
use erpn.Database.Types.{
  CustomerInvoiceLineRecord, credit_of, CustomerInvoiceRecord, debit_of, NewJournalLine,
}
use erpn.Prelude.Int.{int_laws, ltb_ℤ, ◌*ℤ◌, is_neg, ◌+ℤ◌, pos, ℤ}
use erpn.Decimal.{
  read_digits, span_digits, match_fraction, match_digits, exec_pattern, compare_ℤ, to_fixed, add,
  parse_decimal, render, Decimal,
}
use erpn.Database.Accounting.{credit_or_zero, debit_or_zero}
use erpn.Result.{ensure, having_read, returns, ok}
use erpn.Decimal.Scales.{units_of-render, parse_decimal-le, add-IsSum, units_of}
use erpn.Decimal.Round.{*ℤ_one, to_fixed_lem, units_at}
use erpn.Inventory.Reservations.{is_greater}
use erpn.Billing.Document.{
  line_amounts, validate_totals, same_totals, journal_lines_for, is_positive_amount,
}
use erpn.Decimal.RoundTrip.{parse_decimal-render}
use erpn.Billing.Arithmetic.Coherent.{parse_zero}
use erpn.Decimal.Order.{compare_lem}

-- What a column of amounts comes to, in units of the amount scale.
unfoldable pub total_of : List Text → ℤ
total_of [] = pos 0
total_of (t ∷ ts) = units_of amount_scale t +ℤ total_of ts

abbrev pub debits : List NewJournalLine → ℤ
debits lines = total_of (map debit_or_zero lines)

abbrev pub credits : List NewJournalLine → ℤ
credits lines = total_of (map credit_or_zero lines)

-- The sums of `documentTotals` stay at the amount scale.
sum_lines-le :
    (lines : List LineAmounts) (subtotal tax : Decimal) (sums : Decimal × Decimal)
    → subtotal.scale ≤ amount_scale
    → tax.scale ≤ amount_scale
    → sum_lines subtotal tax lines ≡ ok sums
    → (sums.0.scale ≤ amount_scale) × (sums.1.scale ≤ amount_scale)
unfolding sum_lines
sum_lines-le [] subtotal tax sums h k e =
    let same : (subtotal, tax) ≡ sums = cc e in rw (← same) (h, k)
sum_lines-le (line ∷ lines) subtotal tax sums h k e =
    let (line_subtotal, e1, f1) = returns (parse_decimal line.line_subtotal amount_scale) _ e in
    let (subtotal', e2, f2) = returns (add subtotal line_subtotal) _ f1 in
    let (line_tax, e3, f3) = returns (parse_decimal line.line_tax amount_scale) _ f2 in
    let (tax', e4, f4) = returns (add tax line_tax) _ f3 in
    sum_lines-le lines subtotal' tax' sums
      ((add-IsSum subtotal line_subtotal subtotal' amount_scale h
        (parse_decimal-le line.line_subtotal amount_scale line_subtotal e1) e2).scale_within)
      ((add-IsSum tax line_tax tax' amount_scale k
        (parse_decimal-le line.line_tax amount_scale line_tax e3) e4).scale_within)
      f4

-- The totals that are returned: the total is the sum of the others.
pub record AddUp (totals : DocumentTotals) : Type 0 where
  pub subtotal_units : ℤ
  pub tax_units : ℤ
  pub subtotal_is : totals.subtotal ≡ render subtotal_units amount_scale
  pub tax_is : totals.tax_total ≡ render tax_units amount_scale
  pub total_is : totals.total ≡ render (subtotal_units +ℤ tax_units) amount_scale

printed_units :
    (d : Decimal) (t : Text)
    → to_fixed d amount_scale ≡ ok t
    → t ≡ render (units_at d amount_scale) amount_scale
printed_units d t h = cc (to_fixed_lem d amount_scale, h)

document_totals-AddUp :
    (lines : List LineAmounts) (totals : DocumentTotals)
    → document_totals lines ≡ ok totals
    → AddUp totals
unfolding document_totals
document_totals-AddUp lines totals e =
    having_read (parse_decimal (codes "0") amount_scale) _ e (λ zero' e0 e.
      having_read (parse_decimal (codes "0") amount_scale) _ e (λ zero'' e1 e.
        having_read (sum_lines zero' zero'' lines) _ e (λ sums e2 e.
          having_read (to_fixed (sums.0) amount_scale) _ e (λ subtotal_text e3 e.
            having_read (to_fixed (sums.1) amount_scale) _ e (λ tax_text e4 e.
              having_read (add (sums.0) (sums.1)) _ e (λ total e5 e.
                having_read (to_fixed total amount_scale) _ e (λ total_text e6 e.
                  let within =
                    sum_lines-le lines zero' zero'' sums
                      (parse_decimal-le (codes "0") amount_scale zero' e0)
                      (parse_decimal-le (codes "0") amount_scale zero'' e1) e2 in
                  let sum =
                    (add-IsSum (sums.0) (sums.1) total amount_scale (within.0) (within.1)
                      e5).units_add in
                  let same : record {
                    subtotal = subtotal_text;
                    tax_total = tax_text;
                    total = total_text;
                  }
                      ≡ totals =
                    cc e in
                  rw (← same) (record {
                    subtotal_units = units_at (sums.0) amount_scale;
                    tax_units = units_at (sums.1) amount_scale;
                    subtotal_is = printed_units (sums.0) subtotal_text e3;
                    tax_is = printed_units (sums.1) tax_text e4;
                    total_is =
                        printed_units total total_text e6 ∙ ap (λ u. render u amount_scale) sum;
                  }))))))))

is_positive : (u : ℤ) → is_greater (compare_ℤ (u *ℤ pos 1) (pos 0 *ℤ pos 10000)) ≡ ltb_ℤ (pos 0) u
is_positive u = rw (*ℤ_one u) (unfold ◌*ℤ◌ in ground arith)

-- The test of `compare(amount, 0) > 0` on a printed amount.
is_positive_amount_lem : (u : ℤ) → is_positive_amount (render u amount_scale) ≡ ok (ltb_ℤ (pos 0) u)
unfolding is_positive_amount
is_positive_amount_lem u =
    rw (parse_decimal-render u amount_scale amount_scale (omega arith), parse_zero, compare_lem)
      (ap ok (is_positive u))

no_amount : units_of amount_scale (codes "0.0000") ≡ pos 0
unfolding units_of units_at parse_decimal exec_pattern match_digits match_fraction span_digits
    read_digits ◌*ℤ◌
no_amount = refl

not_taxed : (v : ℤ) → is_neg v ≡ false → ltb_ℤ (pos 0) v ≡ false → v ≡ pos 0
not_taxed v h k = ground arith

sides :
    (b : Bool) (u v : ℤ) (receivable revenue tax : Text)
    → (b ≡ false → v ≡ pos 0)
    → (jl : List NewJournalLine)
    → jl
      ≡ debit_of receivable (render (u +ℤ v) amount_scale)
        ∷ credit_of revenue (render u amount_scale)
        ∷ (if b then credit_of tax (render v amount_scale) ∷ [] else [])
    → debits jl ≡ credits jl
unfolding total_of
sides true u v receivable revenue tax h jl e = rw e (
    rw
      (
        units_of-render amount_scale (u +ℤ v),
        units_of-render amount_scale u,
        units_of-render amount_scale v,
        no_amount,
      )
      (omega int_laws))
sides false u v receivable revenue tax h jl e =
    rw (e, h refl)
      (rw (units_of-render amount_scale (u +ℤ pos 0), units_of-render amount_scale u, no_amount)
        (omega int_laws))

-- The lines of the entry of a document that adds up balance, where the tax is not negative.
journal_lines_for-balance :
    (invoice : CustomerInvoiceRecord) (totals : DocumentTotals) (receivable revenue tax : Text)
    (jl : List NewJournalLine)
    → AddUp totals
    → same_totals totals invoice ≡ true
    → is_neg (units_of amount_scale invoice.tax_total) ≡ false
    → journal_lines_for invoice receivable revenue tax ≡ ok jl
    → debits jl ≡ credits jl
unfolding journal_lines_for same_totals
journal_lines_for-balance invoice totals receivable revenue tax jl sums same h e =
    let subtotal : invoice.subtotal ≡ render sums.subtotal_units amount_scale =
      sym (text_eq→eq totals.subtotal invoice.subtotal (ground arith)) ∙ sums.subtotal_is in
    let tax_total : invoice.tax_total ≡ render sums.tax_units amount_scale =
      sym (text_eq→eq totals.tax_total invoice.tax_total (ground arith)) ∙ sums.tax_is in
    let total : invoice.total ≡ render (sums.subtotal_units +ℤ sums.tax_units) amount_scale =
      sym (text_eq→eq totals.total invoice.total (ground arith)) ∙ sums.total_is in
    having_read (is_positive_amount invoice.tax_total) _ e (λ taxed e1 e2.
      let taxed_is : taxed ≡ ltb_ℤ (pos 0) sums.tax_units =
        cc (ap is_positive_amount tax_total, is_positive_amount_lem sums.tax_units, e1) in
      let units : is_neg sums.tax_units ≡ false =
        ap is_neg (
          sym (units_of-render amount_scale sums.tax_units)
          ∙ ap (units_of amount_scale) (sym tax_total))
        ∙ h in
      sides taxed sums.subtotal_units sums.tax_units receivable revenue tax
        (λ n. not_taxed sums.tax_units units (sym taxed_is ∙ n)) jl
        (cc (e2, subtotal, tax_total, total)))

-- The entry of a document that passes the checks of its totals balances, where the tax is not negative.
pub validate_totals-balance :
    (invoice : CustomerInvoiceRecord) (lines : List CustomerInvoiceLineRecord)
    (receivable revenue tax : Text) (jl : List NewJournalLine)
    → validate_totals invoice lines ≡ ok tt
    → is_neg (units_of amount_scale invoice.tax_total) ≡ false
    → journal_lines_for invoice receivable revenue tax ≡ ok jl
    → debits jl ≡ credits jl
unfolding validate_totals
validate_totals-balance invoice lines receivable revenue tax jl checked h entry =
    having_read (document_totals (map line_amounts lines)) _ checked (λ totals is_totals rest.
      having_read (ensure (same_totals totals invoice) _) _ rest (λ done agree rest.
        journal_lines_for-balance invoice totals receivable revenue tax jl
          (document_totals-AddUp (map line_amounts lines) totals is_totals) (ground (arith, agree))
          h entry))
