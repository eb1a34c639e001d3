-- ===== src/Idempotency/Canonical.antt =====
-- `canonical` and `fingerprintOf` of apps/api/src/http/idempotency.ts, with the quoting of a text by
-- `JSON.stringify`. A number is the text that `JSON.stringify` makes of it.

pub mod KeyOrder
use erpn.Prelude.Sort.{sort_by}
use erpn.Prelude.{
  ◌-◌, ◌+◌, ◌||◌, ◌%◌, [], ltb, map, ◌/◌, ◌==◌, [], not, text_lt, false, if◌then◌else◌, ◌++◌, true,
  ◌∷◌, ◌&&◌, leb, codes, List, Text, Bool, ℕ,
}

mutual
  pub data Json : Type 0 where
    undefined null : Json
    boolean : Bool → Json
    number string : Text → Json
    array : Items → Json
    object : Fields → Json

  pub data Items : Type 0 where
    empty : Items
    item : Json → Items → Items

  -- The entries of an object, in the order of `Object.entries`.
  pub data Fields : Type 0 where
    done : Fields
    field : Text → Json → Fields → Fields

abbrev is_high_surrogate : ℕ → Bool
is_high_surrogate c = leb 55296 c && leb c 56319

abbrev is_low_surrogate : ℕ → Bool
is_low_surrogate c = leb 56320 c && leb c 57343

abbrev starts_low : Text → Bool
starts_low [] = false
starts_low (c ∷ t) = is_low_surrogate c

abbrev hex_digit : ℕ → ℕ
hex_digit n = if ltb n 10 then b'0' + n else b'a' + (n - 10)

abbrev unicode_escape : ℕ → Text
unicode_escape c =
    b'\\'
    ∷ b'u'
    ∷ hex_digit (c / 4096 % 16)
    ∷ hex_digit (c / 256 % 16)
    ∷ hex_digit (c / 16 % 16)
    ∷ hex_digit (c % 16)
    ∷ []

-- A surrogate that stands alone, after a code unit that was high or not.
abbrev is_lone : Bool → ℕ → Text → Bool
is_lone after_high c rest =
    (is_high_surrogate c && not (starts_low rest)) || (is_low_surrogate c && not after_high)

unfoldable pub quote_unit : Bool → ℕ → Text → Text
quote_unit after_high c rest =
    if c == 34
    then codes "\\\""
    else if c == 92
    then codes "\\\\"
    else if c == 8
    then codes "\\b"
    else if c == 12
    then codes "\\f"
    else if c == 10
    then codes "\\n"
    else if c == 13
    then codes "\\r"
    else if c == 9
    then codes "\\t"
    else if ltb c 32 || is_lone after_high c rest
    then unicode_escape c
    else c ∷ []

unfoldable pub quote_units : Bool → Text → Text
quote_units after_high [] = []
quote_units after_high (c ∷ rest) =
    quote_unit after_high c rest ++ quote_units (is_high_surrogate c) rest

unfoldable pub stringify_text : Text → Text
stringify_text t = 34 ∷ (quote_units false t ++ (34 ∷ []))

-- `join(',')`
unfoldable pub join : List Text → Text
join [] = []
join (t ∷ []) = t
join (t ∷ u ∷ ts) = t ++ (b',' ∷ join (u ∷ ts))

abbrev pub key_before : Text × Text → Text × Text → Bool
key_before a b = text_lt a.0 b.0

abbrev pub print_entry : Text × Text → Text
print_entry e = stringify_text e.0 ++ (b':' ∷ e.1)

abbrev is_undefined : Json → Bool
is_undefined undefined = true
is_undefined null = false
is_undefined (boolean b) = false
is_undefined (number t) = false
is_undefined (string t) = false
is_undefined (array items) = false
is_undefined (object fields) = false

unfoldable pub canonical_object : List (Text × Text) → Text
canonical_object entries =
    b'{' ∷ (join (map print_entry (sort_by key_before entries)) ++ (b'}' ∷ []))

unfoldable mutual
  unfolding canonical_object stringify_text join

  pub canonical : Json → Text
  canonical undefined = codes "null"
  canonical null = codes "null"
  canonical (boolean b) = if b then codes "true" else codes "false"
  canonical (number t) = t
  canonical (string t) = stringify_text t
  canonical (array items) = b'[' ∷ (join (canonical_items items) ++ (b']' ∷ []))
  canonical (object fields) = canonical_object (canonical_entries fields)

  pub canonical_items : Items → List Text
  canonical_items empty = []
  canonical_items (item value items) = canonical value ∷ canonical_items items

  -- The fields that are not undefined, each with its rendering.
  pub canonical_entries : Fields → List (Text × Text)
  canonical_entries done = []
  canonical_entries (field key value fields) =
      let rest = canonical_entries fields in
      if is_undefined value then rest else (key, canonical value) ∷ rest

-- SHA-256, in hexadecimal, is given.
unfoldable pub fingerprint_of : (Text → Text) → Json → Text
fingerprint_of sha256 request = sha256 (canonical request)
