-- ===== src/Idempotency/Canonical/KeyOrder.antt =====
-- The order of the keys in `canonical` of apps/api/src/http/idempotency.ts.
use erpn.Idempotency.Canonical.{
  fingerprint_of, print_entry, canonical_object, join, canonical_entries, canonical_items,
  is_undefined, canonical, Json, array, object, Items, empty, item, Fields, done, field, key_before,
}
use erpn.Prelude.Sort.{sort_by, insert_sorted}
use erpn.Prelude.{
  Bool, ◌++◌, map, if◌then◌else◌, ◌∙◌, refl, text_eq_of_not_lt, sym, ap, text_lt_asym, ◌⊎◌,
  Bool-cases, text_lt_trans, inr, false, true, inl, [], ◌∷◌, List, ◌≢◌, ◌≡◌, Text,
}

-- The same value, but for the order of the fields of its objects at any depth.
mutual
  pub data SameJson : Json → Json → Type 0 where
    itself : {v w : Json} → v ≡ w → SameJson v w
    arrays : {xs ys : Items} → SameItems xs ys → SameJson (array xs) (array ys)
    objects : {f g : Fields} → SameFields f g → SameJson (object f) (object g)

  pub data SameItems : Items → Items → Type 0 where
    no_items : SameItems empty empty
    each_item :
        {v w : Json} {xs ys : Items}
        → SameJson v w
        → SameItems xs ys
        → SameItems (item v xs) (item w ys)

  pub data SameFields : Fields → Fields → Type 0 where
    no_fields : SameFields done done
    each_field :
        {v w : Json} {f g : Fields} (key : Text)
        → SameJson v w
        → SameFields f g
        → SameFields (field key v f) (field key w g)
    swapped :
        (key other : Text) (v w : Json) (f : Fields)
        → key ≢ other
        → SameFields (field key v (field other w f)) (field other w (field key v f))
    both : {f g h : Fields} → SameFields f g → SameFields g h → SameFields f h

-- Of two entries of different keys exactly one comes first.
apart :
    (a b : Text × Text)
    → a.0 ≢ b.0
    → ((key_before a b ≡ true) × (key_before b a ≡ false))
      ⊎ ((key_before b a ≡ true) × (key_before a b ≡ false))
apart a b differ = elim (Bool-cases (key_before a b)) [
  | inl ab ↦ inl (ab, text_lt_asym a.0 b.0 ab)
  | inr ab ↦ elim (Bool-cases (key_before b a)) [
    | inl ba ↦ inr (ba, ab)
    | inr ba ↦ absurd (differ (text_eq_of_not_lt a.0 b.0 ab ba))
  ]
]

-- What lies behind one entry lies behind an entry that comes before it.
behind :
    (x a b : Text × Text)
    → key_before x a ≡ true
    → key_before x b ≡ false
    → a.0 ≢ b.0
    → (key_before b a ≡ true) × (key_before a b ≡ false)
behind x a b xa xb differ = elim (apart a b differ) [
  | inl (ab, ba) ↦ absurd (cc (text_lt_trans x.0 a.0 b.0 xa ab, xb))
  | inr found ↦ found
]

-- Entries of different keys are sorted in either order of arrival.
insert_swap :
    (a b : Text × Text) (xs : List (Text × Text))
    → a.0 ≢ b.0
    → insert_sorted key_before a (insert_sorted key_before b xs)
      ≡ insert_sorted key_before b (insert_sorted key_before a xs)
unfolding insert_sorted
insert_swap a b [] differ = elim (apart a b differ) [
  | inl (ab, ba) ↦ rw (ab, ba) refl
  | inr (ba, ab) ↦ rw (ba, ab) refl
]
insert_swap a b (x ∷ xs) differ = elim (Bool-cases (key_before x a)) [
  | inl xa ↦ elim (Bool-cases (key_before x b)) [
    | inl xb ↦ rw (xa, xb, xa) (ap (x ∷◌) (insert_swap a b xs differ))
    | inr xb ↦ let (ba, ab) = behind x a b xa xb differ in rw (xa, xb, ba, xa) refl
  ]
  | inr xa ↦ elim (Bool-cases (key_before x b)) [
    | inl xb ↦ let (ab, ba) = behind x b a xb xa (λ e. differ (sym e)) in rw (xa, xb, ab, xa) refl
    | inr xb ↦ elim (apart a b differ) [
      | inl (ab, ba) ↦ rw (xa, xb, ab, ba) refl
      | inr (ba, ab) ↦ rw (xa, xb, ba, ab, xa) refl
    ]
  ]
]

same_undefined : (v w : Json) → SameJson v w → is_undefined v ≡ is_undefined w
same_undefined v w (itself e) = ap is_undefined e
same_undefined v w (arrays h) = refl
same_undefined v w (objects h) = refl

abbrev sorted_entries : Fields → List (Text × Text)
sorted_entries f = sort_by key_before (canonical_entries f)

array_canonical :
    (xs ys : Items)
    → canonical_items xs ≡ canonical_items ys
    → canonical (array xs) ≡ canonical (array ys)
unfolding canonical
array_canonical xs ys e = ap (λ (l : List Text). b'[' ∷ (join l ++ (b']' ∷ []))) e

item_canonical :
    (v w : Json) (xs ys : Items)
    → canonical v ≡ canonical w
    → canonical_items xs ≡ canonical_items ys
    → canonical_items (item v xs) ≡ canonical_items (item w ys)
unfolding canonical
item_canonical v w xs ys e es = rw (e, es) refl

object_canonical :
    (f g : Fields)
    → sorted_entries f ≡ sorted_entries g
    → canonical (object f) ≡ canonical (object g)
unfolding canonical canonical_object
object_canonical f g e =
    ap (λ (l : List (Text × Text)). b'{' ∷ (join (map print_entry l) ++ (b'}' ∷ []))) e

-- The entries of an object with one more field.
sorted_field :
    (key : Text) (v : Json) (f : Fields)
    → sorted_entries (field key v f) ≡ (
        if is_undefined v
        then sorted_entries f
        else insert_sorted key_before (key, canonical v) (sorted_entries f))
unfolding canonical sort_by
sorted_field key v f = elim (Bool-cases (is_undefined v)) [ inl u ↦ rw u refl | inr u ↦ rw u refl ]

field_sorted :
    (key : Text) (v w : Json) (f g : Fields)
    → is_undefined v ≡ is_undefined w
    → canonical v ≡ canonical w
    → sorted_entries f ≡ sorted_entries g
    → sorted_entries (field key v f) ≡ sorted_entries (field key w g)
field_sorted key v w f g u e es =
    sorted_field key v f ∙ rw (u, e, es) refl ∙ sym (sorted_field key w g)

two_fields :
    (p q : Bool) (a b : Text × Text) (xs : List (Text × Text))
    → a.0 ≢ b.0
    → (if p
        then (if q then xs else insert_sorted key_before b xs)
        else insert_sorted key_before a (if q then xs else insert_sorted key_before b xs))
      ≡ (if q
          then (if p then xs else insert_sorted key_before a xs)
          else insert_sorted key_before b (if p then xs else insert_sorted key_before a xs))
two_fields true true a b xs differ = refl
two_fields true false a b xs differ = refl
two_fields false true a b xs differ = refl
two_fields false false a b xs differ = insert_swap a b xs differ

swap_sorted :
    (key other : Text) (v w : Json) (f : Fields)
    → key ≢ other
    → sorted_entries (field key v (field other w f))
      ≡ sorted_entries (field other w (field key v f))
swap_sorted key other v w f differ =
    rw
      (
        sorted_field key v (field other w f),
        sorted_field other w f,
        sorted_field other w (field key v f),
        sorted_field key v f,
      )
      (two_fields (is_undefined v) (is_undefined w) (key, canonical v) (other, canonical w)
        (sorted_entries f) differ)

mutual
  -- They have one rendering.
  pub same_canonical : (v w : Json) → SameJson v w → canonical v ≡ canonical w
  same_canonical v w (itself e) = ap canonical e
  same_canonical v w (arrays h) = array_canonical _ _ (same_items _ _ h)
  same_canonical v w (objects h) = object_canonical _ _ (same_fields _ _ h)

  same_items : (xs ys : Items) → SameItems xs ys → canonical_items xs ≡ canonical_items ys
  same_items xs ys no_items = refl
  same_items xs ys (each_item h k) =
      item_canonical _ _ _ _ (same_canonical _ _ h) (same_items _ _ k)

  same_fields : (f g : Fields) → SameFields f g → sorted_entries f ≡ sorted_entries g
  same_fields f g no_fields = refl
  same_fields f g (each_field key h k) =
      field_sorted key _ _ _ _ (same_undefined _ _ h) (same_canonical _ _ h) (same_fields _ _ k)
  same_fields f g (swapped key other v w rest differ) = swap_sorted key other v w rest differ
  same_fields f g (both h k) = same_fields _ _ h ∙ same_fields _ _ k

-- Two requests that differ only in the order of the keys of their objects, at any depth, have one
-- fingerprint.
pub same_fingerprint :
    (sha256 : Text → Text) (v w : Json)
    → SameJson v w
    → fingerprint_of sha256 v ≡ fingerprint_of sha256 w
unfolding fingerprint_of
same_fingerprint sha256 v w h = ap sha256 (same_canonical v w h)
