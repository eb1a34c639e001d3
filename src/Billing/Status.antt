-- ===== src/Billing/Status.antt =====
-- apps/api/src/billing/customer-invoice-status.ts: the transition table of a customer invoice.
use erpn.Statuses.{CustomerInvoiceStatus}
use erpn.Statuses.CustomerInvoiceStatus.{draft, posted}
use erpn.Failure.{unknown_status, illegal_customer_invoice_transition}
use erpn.Prelude.{
  refl, text_eq→eq, ◌↔◌, arith, ◌||◌, [], ◌∷◌, if◌then◌else◌, codes, false, text_eq, Text, ◌≡◌,
  Bool, List,
}
use erpn.Result.{err, ok, ensure, Result}

unfoldable pub status_text : CustomerInvoiceStatus → Text
status_text draft = codes "draft"
status_text posted = codes "posted"

unfoldable pub transitions : CustomerInvoiceStatus → List CustomerInvoiceStatus
transitions draft = posted ∷ []
transitions posted = []

unfoldable pub includes : List CustomerInvoiceStatus → Text → Bool
unfolding status_text text_eq
includes [] to = false
includes (s ∷ rest) to = text_eq (status_text s) to || includes rest to

unfoldable pub can_transition : CustomerInvoiceStatus → CustomerInvoiceStatus → Bool
unfolding transitions includes
can_transition from to = includes (transitions from) (status_text to)

unfoldable pub assert_transition : CustomerInvoiceStatus → CustomerInvoiceStatus → Result (Unit {0})
assert_transition from to =
    ensure (can_transition from to) (illegal_customer_invoice_transition from to)

unfoldable pub status_of : Text → Result CustomerInvoiceStatus
status_of value =
    if text_eq (status_text draft) value
    then ok draft
    else if text_eq (status_text posted) value
    then ok posted
    else err (unknown_status value)

-- Posting is the only move, and only a draft makes it.
pub assert_transition_iff :
    (from to : CustomerInvoiceStatus)
    → (assert_transition from to ≡ ok tt) ↔ ((from ≡ draft) × (to ≡ posted))
unfolding assert_transition can_transition
assert_transition_iff draft draft = (λ h. cc, λ h. cc (h.1))
assert_transition_iff draft posted = (λ h. (refl, refl), λ h. refl)
assert_transition_iff posted draft = (λ h. cc, λ h. cc (h.1))
assert_transition_iff posted posted = (λ h. cc, λ h. cc (h.0))

pub status_of_draft : (v : Text) → status_of v ≡ ok draft → v ≡ status_text draft
unfolding status_of
status_of_draft v h = ground (arith, text_eq→eq (status_text draft) v)
