-- ===== src/Prelude/Texts.antt =====
-- A JavaScript string as the list of its code units, with its equality and its order.
use Prim.Native.Nat.{ℕ}
use Prim.Native.Char.{code}
use Prim.Native.String.{String}
use mathlib.Core.Path.{◌≡◌, refl}
use mathlib.Core.Bool.{Bool, true, false, not, ◌&&◌}
use mathlib.Core.List.{List, [], ◌∷◌}
use native.Mathlib.Omega.{arith}
use erpn.Prelude.Tests.{ltb, ◌==◌, if◌then◌else◌}

abbrev pub Text : Type 0
Text = List ℕ

-- The code units of a literal.
abbrev pub codes : String → Text
codes String.[] = []
codes (String.◌∷◌ c s) = code c ∷ codes s

-- `a === b`
unfoldable pub text_eq : Text → Text → Bool
text_eq [] [] = true
text_eq (x ∷ a) (y ∷ b) = x == y && text_eq a b
text_eq [] (y ∷ b) = false
text_eq (x ∷ a) [] = false

-- `a < b`, by code units
unfoldable pub text_lt : Text → Text → Bool
text_lt [] [] = false
text_lt [] (y ∷ b) = true
text_lt (x ∷ a) [] = false
text_lt (x ∷ a) (y ∷ b) = if x == y then text_lt a b else ltb x y

pub text_eq→eq : (a b : Text) → text_eq a b ≡ true → a ≡ b
unfolding text_eq
text_eq→eq [] [] h = refl
text_eq→eq (x ∷ a) (y ∷ b) h = ground (arith, text_eq→eq a b)
text_eq→eq [] (y ∷ b) h = cc
text_eq→eq (x ∷ a) [] h = cc

pub text_eq_refl : (a : Text) → text_eq a a ≡ true
unfolding text_eq
text_eq_refl [] = refl
text_eq_refl (x ∷ a) = ground (arith, text_eq_refl a)

pub text_lt_irrefl : (a : Text) → text_lt a a ≡ false
unfolding text_lt
text_lt_irrefl [] = refl
text_lt_irrefl (x ∷ a) = ground (arith, text_lt_irrefl a)

pub text_lt_trans : (a b c : Text) → text_lt a b ≡ true → text_lt b c ≡ true → text_lt a c ≡ true
unfolding text_lt
text_lt_trans [] [] c h k = cc
text_lt_trans [] (y ∷ b) [] h k = cc
text_lt_trans [] (y ∷ b) (z ∷ c) h k = refl
text_lt_trans (x ∷ a) [] c h k = cc
text_lt_trans (x ∷ a) (y ∷ b) [] h k = cc
text_lt_trans (x ∷ a) (y ∷ b) (z ∷ c) h k = ground (arith, text_lt_trans a b c)

-- Of two different texts one is the smaller.
pub text_lt_total : (a b : Text) → text_eq a b ≡ false → text_lt a b ≡ false → text_lt b a ≡ true
unfolding text_eq text_lt
text_lt_total [] [] h k = cc
text_lt_total [] (y ∷ b) h k = cc
text_lt_total (x ∷ a) [] h k = refl
text_lt_total (x ∷ a) (y ∷ b) h k = ground (arith, text_lt_total a b)

pub text_not_lt_trans :
    (a b c : Text) → text_lt a b ≡ false → text_lt b c ≡ false → text_lt a c ≡ false
unfolding text_lt
text_not_lt_trans [] [] c h k = k
text_not_lt_trans [] (y ∷ b) c h k = cc
text_not_lt_trans (x ∷ a) [] [] h k = refl
text_not_lt_trans (x ∷ a) [] (z ∷ c) h k = cc
text_not_lt_trans (x ∷ a) (y ∷ b) [] h k = refl
text_not_lt_trans (x ∷ a) (y ∷ b) (z ∷ c) h k = ground (arith, text_not_lt_trans a b c)

pub text_lt_asym : (a b : Text) → text_lt a b ≡ true → text_lt b a ≡ false
text_lt_asym a b h = ground (arith, text_lt_trans a b a h, text_lt_irrefl a)

-- Texts that are not ordered either way are the same.
pub text_eq_of_not_lt : (a b : Text) → text_lt a b ≡ false → text_lt b a ≡ false → a ≡ b
text_eq_of_not_lt a b h k = ground (arith, text_lt_total a b, text_eq→eq a b)

-- Equality by the order.
pub text_eq_lem : (a b : Text) → text_eq a b ≡ (if text_lt a b then false else not (text_lt b a))
unfolding text_eq text_lt
text_eq_lem [] [] = refl
text_eq_lem [] (y ∷ b) = refl
text_eq_lem (x ∷ a) [] = refl
text_eq_lem (x ∷ a) (y ∷ b) = ground (arith, text_eq_lem a b, text_lt_asym a b)
