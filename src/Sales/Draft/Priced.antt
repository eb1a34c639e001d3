-- ===== src/Sales/Draft/Priced.antt =====
-- What a priced line was checked for (`price` of apps/api/src/sales/sales-order.service.ts).
use erpn.Database.Transaction.{
  select_first, query, present, pure, lift, Store, require_company_scope, CompanyScope, Session,
  ◌>>=◌,
}
use erpn.Sales.DraftFigures.{
  line_figures, rejection_of, PricedLine, discount_or_zero, DraftLineInput, decimal_or,
  draft_quantity, draft_discount,
}
use erpn.Prelude.{
  ap, text_eq→eq, codes, Text, some, refl, ◌∷◌, [], false, ◌≢◌, List, ◌||◌, true, ◌≡◌, not, Bool,
}
use erpn.Result.{having_read, err, ok, ensure, rethrow_as, Result}
use erpn.Decimal.{zero_at, compare, equal, less, parse_decimal, Decimal, greater, Comparison}
use erpn.Failure.{invalid_discount, invalid_quantity, Failure}
use erpn.Inventory.Reservations.{is_less, is_greater}
use erpn.Database.Types.{ProductRecord, CompanyRecord}
use erpn.Sales.Draft.{price_lines, price}
use erpn.Database.Access.{is_product, find_product, is_active_product}
use erpn.Database.Frame.Inversion.{
  after_found, after_guard, unchanged, after_read, after, after_lift,
}
use erpn.Billing.Arithmetic.{one_hundred, rate_scale}
use erpn.Database.Frame.Reads.{find_product-Keeps}
use erpn.Sales.DraftFigures.Billed.{line_figures-Figured, Figured}
use erpn.Database.Isolation.{any_subject}
use erpn.Database.Frame.{lift-eq-ok}

-- A line that was accepted: its quantity is positive, its discount is between nought and a hundred, and
-- its product is the company's, active, and priced in the currency of the company.
pub record Accepted (session : Session) (c : CompanyScope) (company : CompanyRecord) (s : Store)
    (line : DraftLineInput) (priced : PricedLine) : Type 0 where
  pub quantity : Decimal
  pub discount : Decimal
  pub product : ProductRecord
  pub read_quantity : parse_decimal line.quantity rate_scale ≡ ok quantity
  pub positive : compare quantity (zero_at 0) ≡ ok greater
  pub read_discount : discount_or_zero (present line.discount_percent) ≡ ok discount
  pub not_negative : compare discount (zero_at 0) ≢ ok less
  pub not_over : compare discount one_hundred ≢ ok greater
  pub found : select_first (is_product c line.product_id) s.products ≡ some product
  pub active : product.status ≡ codes "active"
  pub same_currency : product.sales_price_currency ≡ company.base_currency
  pub figured : Figured company product quantity discount priced

is_greater-eq-true : (x : Comparison) → is_greater x ≡ true → x ≡ greater
is_greater-eq-true greater h = refl
is_greater-eq-true less h = cc
is_greater-eq-true equal h = cc

rethrow_as-eq-ok :
    {A : Type 0} (x : Result A) (e : Failure) (a : A) → rethrow_as x e ≡ ok a → x ≡ ok a
rethrow_as-eq-ok (ok b) e a h = cc
rethrow_as-eq-ok (err x) e a h = absurd (cc h)

ensure-eq-ok : (test : Bool) (e : Failure) (u : Unit {0}) → ensure test e ≡ ok u → test ≡ true
ensure-eq-ok true e u h = refl
ensure-eq-ok false e u h = absurd (cc h)

draft_quantity_lem :
    (line : DraftLineInput) (q : Decimal)
    → draft_quantity line ≡ ok q
    → (parse_decimal line.quantity rate_scale ≡ ok q) × (compare q (zero_at 0) ≡ ok greater)
unfolding draft_quantity decimal_or
draft_quantity_lem line q h =
    having_read (decimal_or line.quantity invalid_quantity) _ h (λ quantity read h.
      having_read (compare quantity (zero_at 0)) _ h (λ sign signed h.
        having_read (ensure (is_greater sign) (rejection_of invalid_quantity line.product_id)) _ h
          (λ u tested h.
            let same : quantity ≡ q = cc h in
            let parsed : parse_decimal line.quantity rate_scale ≡ ok quantity =
              rethrow_as-eq-ok _ _ quantity read in
            let up : sign ≡ greater = is_greater-eq-true sign (ensure-eq-ok _ _ u tested) in
            (rw same at parsed, rw (same, up) at signed))))

in_range_tests : (x y : Bool) → not (x || y) ≡ true → (x ≡ false) × (y ≡ false)
in_range_tests false false h = (refl, refl)
in_range_tests true y h = absurd (cc h)
in_range_tests false true h = absurd (cc h)

in_range : (a b : Comparison) → not (is_less a || is_greater b) ≡ true → (a ≢ less) × (b ≢ greater)
in_range a b h =
    let (low, high) = in_range_tests (is_less a) (is_greater b) h in
    (λ e. absurd (cc (low, ap is_less e)), λ e. absurd (cc (high, ap is_greater e)))

draft_discount_lem :
    (line : DraftLineInput) (d : Decimal)
    → draft_discount line ≡ ok d
    → (discount_or_zero (present line.discount_percent) ≡ ok d)
      × (compare d (zero_at 0) ≢ ok less)
      × (compare d one_hundred ≢ ok greater)
unfolding draft_discount
draft_discount_lem line d h =
    having_read (discount_or_zero (present line.discount_percent)) _ h (λ discount read h.
      having_read (compare discount (zero_at 0)) _ h (λ sign signed h.
        having_read (compare discount one_hundred) _ h (λ whole wholly h.
          having_read
            (ensure (not (is_less sign || is_greater whole))
              (rejection_of invalid_discount line.product_id))
            _ h
            (λ u tested h.
              let same : discount ≡ d = cc h in
              let (low, high) = in_range sign whole (ensure-eq-ok _ _ u tested) in
              (
                rw same at read,
                λ e. low (cc (e, rw same at signed)),
                λ e. high (cc (e, rw same at wholly)),
              )))))

module _ (session : Session) (c : CompanyScope) (company : CompanyRecord) where
  -- The priced lines, each for the input at its place.
  abbrev pub AllAccepted : Store → List DraftLineInput → List PricedLine → Type 0
  AllAccepted s [] [] = Unit
  AllAccepted s (line ∷ lines) (priced ∷ rest) =
      Accepted session c company s line priced × AllAccepted s lines rest
  AllAccepted s _ _ = ⊥

module _ (session : Session) (c : CompanyScope)
    (acting : require_company_scope session.scope "Sales documents" ≡ ok c)
    (company : CompanyRecord) where
  find_product_lem :
      (id : Text) (s : Store)
      → find_product session id s ≡ ok (select_first (is_product c id) s.products, s)
  unfolding find_product ◌>>=◌ lift query
  find_product_lem id s =
      rw (any_subject session.scope "Sales documents" "Master data" c acting, lift) refl

  active_text :
      (product : ProductRecord)
      → is_active_product (some product) ≡ true
      → product.status ≡ codes "active"
  unfolding is_active_product
  active_text product h = text_eq→eq product.status (codes "active") h

  pub price-Accepted :
      (s t : Store) (line : DraftLineInput) (priced : PricedLine)
      → price session company line s ≡ ok (priced, t)
      → Accepted session c company s line priced × (t ≡ s)
  unfolding price
  price-Accepted s t line priced h =
      after_lift s t priced (draft_quantity line) _ h (λ quantity is_quantity h.
        after_lift s t priced (draft_discount line) _ h (λ discount is_discount h.
          after_read s t priced (find_product session line.product_id) _
            (find_product-Keeps unchanged session line.product_id) h
            (λ found e h. after_guard s t priced _ _ _ h (λ in_use h.
              after_found s t priced found _ _ h (λ product is_row h.
                after_guard s t priced _ _ _ h (λ one_currency h.
                  let (figures, same) =
                    lift-eq-ok (line_figures company product quantity discount) s t priced h in
                  let (read_quantity, positive) = draft_quantity_lem line quantity is_quantity in
                  let (read_discount, low, high) = draft_discount_lem line discount is_discount in
                  (
                    record {
                      quantity = quantity;
                      discount = discount;
                      product = product;
                      read_quantity = read_quantity;
                      positive = positive;
                      read_discount = read_discount;
                      not_negative = low;
                      not_over = high;
                      found = cc (find_product_lem line.product_id s, e, is_row);
                      active = active_text product (rw is_row at in_use);
                      same_currency =
                          text_eq→eq product.sales_price_currency company.base_currency
                            one_currency;
                      figured =
                          line_figures-Figured company product quantity discount priced figures;
                    },
                    same,
                  )))))))

  -- Pricing that returns has priced every line, each of a positive quantity, a discount between nought
  -- and a hundred, and an active product of the company in the company's currency; it writes nothing.
  pub price_lines-AllAccepted :
      (s t : Store) (lines : List DraftLineInput) (priced : List PricedLine)
      → price_lines session company lines s ≡ ok (priced, t)
      → AllAccepted session c company s lines priced × (t ≡ s)
  unfolding price_lines pure
  price_lines-AllAccepted s t [] priced h =
      let none_priced : priced ≡ [] = cc h in (rw none_priced tt, cc h)
  price_lines-AllAccepted s t (line ∷ lines) priced h =
      after s t priced (price session company line) _ h (λ first r1 k1 h.
        after r1 t priced (price_lines session company lines) _ h (λ rest r2 k2 h.
          let (accepted, same) = price-Accepted s r1 line first k1 in
          let k2' : price_lines session company lines s ≡ ok (rest, r2) = rw same at k2 in
          let (others_accepted, same') = price_lines-AllAccepted s r2 lines rest k2' in
          let all : priced ≡ first ∷ rest = cc h in
          (rw all (accepted, others_accepted), cc (h, same'))))
