-- ===== src/Sales/DocumentNumber.antt =====
-- apps/api/src/shared/document-number.ts: the number printed on a document.
use erpn.Prelude.{
  refl, zero, inr, suc, inl, length, ◌≤◌, ap, ◌∙◌, All, [], ◌⊎◌, arith, if◌then◌else◌, sym, ◌∷◌,
  ◌≡◌, ℕ, Text, ◌++◌, ltb,
}
use erpn.Failure.{document_number_not_positive}
use erpn.Decimal.{read_digits, pad_start, to_string}
use erpn.Result.{ok, err, Result}
use erpn.Decimal.Digits.{
  le-length-pad_start, to_string-IsDigit, pad_start-IsDigit, IsDigit, read_digits-pad_start,
}

abbrev pub minimum_digits : ℕ
minimum_digits = 4

unfoldable pub format_document_number : Text → ℕ → Result Text
format_document_number prefix value =
    if ltb value 1
    then err document_number_not_positive
    else ok (prefix ++ pad_start minimum_digits (to_string value))

append_cancel : (p a b : Text) → p ++ a ≡ p ++ b → a ≡ b
append_cancel [] a b h = h
append_cancel (c ∷ p) a b h = append_cancel p a b (cc)

pad_start_injective :
    (m n : ℕ)
    → pad_start minimum_digits (to_string m) ≡ pad_start minimum_digits (to_string n)
    → m ≡ n
pad_start_injective m n h =
    sym (read_digits-pad_start minimum_digits m)
    ∙ ap (read_digits 0) h
    ∙ read_digits-pad_start minimum_digits n

-- Under one prefix two different counter values are never printed alike: padding does not truncate.
pub format_document_number_injective :
    (prefix : Text) (m n : ℕ) (t : Text)
    → format_document_number prefix m ≡ ok t
    → format_document_number prefix n ≡ ok t
    → m ≡ n
unfolding format_document_number
format_document_number_injective prefix m n t h k =
    pad_start_injective m n (append_cancel prefix _ _ (ground arith))

-- Every positive value has a number, of at least four digits behind the prefix, and zero has none.
pub format_document_number_lem :
    (prefix : Text) (value : ℕ)
    → (value ≡ 0) × (format_document_number prefix value ≡ err document_number_not_positive)
      ⊎ ((digits : Text) × (format_document_number prefix value ≡ ok (prefix ++ digits))
          × All IsDigit digits
          × (minimum_digits ≤ length digits)
          × (read_digits 0 digits ≡ value))
unfolding format_document_number
format_document_number_lem prefix zero = inl (refl, refl)
format_document_number_lem prefix (suc value) =
    let digits = pad_start minimum_digits (to_string (suc value)) in
    inr (
      digits,
      ground arith,
      pad_start-IsDigit minimum_digits _ (to_string-IsDigit (suc value)),
      le-length-pad_start minimum_digits (to_string (suc value)),
      read_digits-pad_start minimum_digits (suc value),
    )
