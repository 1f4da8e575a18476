-- ===== src/Prelude/Texts.antt =====
-- Go strings as lists of code points: the runes of a valid UTF-8 string. Byte order and code point
-- order agree on such strings, so `text_lt` is Go's `<`.
use Prim.Native.Nat.{ℕ, compare, Ordering}
use Prim.Native.Char.{code}
use Prim.Native.String.{String}
use mathlib.Core.Path.{◌≡◌, refl}
use mathlib.Core.Logic.{◌≢◌}
use mathlib.Core.Bool.{Bool, true, false, ◌&&◌}
use mathlib.Core.List.{List, [], ◌∷◌}
use native.Mathlib.Omega.{arith}
use j.Prelude.Tests.{◌==◌}

abbrev pub Text : Type 0
Text = List ℕ

abbrev pub codes : String → Text
codes String.[] = []
codes (String.◌∷◌ c s) = code c ∷ codes s

unfoldable pub text_eq : Text → Text → Bool
text_eq [] [] = true
text_eq [] (y ∷ ys) = false
text_eq (x ∷ xs) [] = false
text_eq (x ∷ xs) (y ∷ ys) = x == y && text_eq xs ys

pub text_eq_refl : (s : Text) → text_eq s s ≡ true
unfolding text_eq
text_eq_refl [] = refl
text_eq_refl (x ∷ xs) = ground (arith, text_eq_refl xs)

pub text_eq_sound : (s t : Text) → text_eq s t ≡ true → s ≡ t
unfolding text_eq
text_eq_sound [] [] h = refl
text_eq_sound [] (y ∷ ys) h = cc
text_eq_sound (x ∷ xs) [] h = cc
text_eq_sound (x ∷ xs) (y ∷ ys) h = ground (arith, text_eq_sound xs ys)

-- Go's `cmp.Compare` on strings.
unfoldable pub text_compare : Text → Text → Ordering
text_compare [] [] = Ordering.eq
text_compare [] (y ∷ ys) = Ordering.lt
text_compare (x ∷ xs) [] = Ordering.gt
text_compare (x ∷ xs) (y ∷ ys) = elim (compare x y) [
  | Ordering.lt ↦ Ordering.lt
  | Ordering.gt ↦ Ordering.gt
  | Ordering.eq ↦ text_compare xs ys
]

pub text_compare_refl : (s : Text) → text_compare s s ≡ Ordering.eq
unfolding text_compare
text_compare_refl [] = refl
text_compare_refl (x ∷ xs) = ground (arith, text_compare_refl xs)

pub text_compare_gt : (s t : Text) → text_compare s t ≡ Ordering.gt → text_compare t s ≡ Ordering.lt
unfolding text_compare
text_compare_gt [] [] h = cc
text_compare_gt [] (y ∷ ys) h = cc
text_compare_gt (x ∷ xs) [] h = refl
text_compare_gt (x ∷ xs) (y ∷ ys) h = ground (arith, text_compare_gt xs ys)

pub text_compare_lt : (s t : Text) → text_compare s t ≡ Ordering.lt → text_compare t s ≡ Ordering.gt
unfolding text_compare
text_compare_lt [] [] h = cc
text_compare_lt [] (y ∷ ys) h = refl
text_compare_lt (x ∷ xs) [] h = cc
text_compare_lt (x ∷ xs) (y ∷ ys) h = ground (arith, text_compare_lt xs ys)

pub text_compare_eq : (s t : Text) → text_compare s t ≡ Ordering.eq → s ≡ t
unfolding text_compare
text_compare_eq [] [] h = refl
text_compare_eq [] (y ∷ ys) h = cc
text_compare_eq (x ∷ xs) [] h = cc
text_compare_eq (x ∷ xs) (y ∷ ys) h = ground (arith, text_compare_eq xs ys)

pub text_compare_trans :
    (s t u : Text)
    → text_compare s t ≡ Ordering.lt
    → text_compare t u ≡ Ordering.lt
    → text_compare s u ≡ Ordering.lt
unfolding text_compare
text_compare_trans [] [] u h k = cc
text_compare_trans [] (y ∷ ys) [] h k = cc
text_compare_trans [] (y ∷ ys) (z ∷ zs) h k = refl
text_compare_trans (x ∷ xs) [] u h k = cc
text_compare_trans (x ∷ xs) (y ∷ ys) [] h k = cc
text_compare_trans (x ∷ xs) (y ∷ ys) (z ∷ zs) h k = ground (arith, text_compare_trans xs ys zs)

-- "Not after" is transitive.
pub text_compare_le_trans :
    (s t u : Text)
    → text_compare s t ≢ Ordering.gt
    → text_compare t u ≢ Ordering.gt
    → text_compare s u ≢ Ordering.gt
text_compare_le_trans s t u h k =
    ground (arith, text_compare_trans s t u, text_compare_eq s t, text_compare_eq t u)
