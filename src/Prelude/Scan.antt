-- ===== src/Prelude/Scan.antt =====
-- What the program uses of Go's `strings`: splitting, trimming, prefixes and substrings.
use Prim.Native.Nat.{ℕ, ◌≤◌}
use mathlib.Core.Path.{◌≡◌, refl, ap, sym, ◌∙◌}
use mathlib.Core.Logic.{inl, inr}
use mathlib.Core.Bool.{Bool, true, false, ◌&&◌, ◌||◌}
use mathlib.Core.List.{List, [], ◌∷◌, ◌++◌, reverse, reverse-append, reverse-reverse}
use native.Mathlib.Omega.{arith}
use j.Prelude.Tests.{◌==◌, leb, if◌then◌else◌, Bool-cases}
use j.Prelude.Lists.{length, All}
use j.Prelude.Texts.{Text}

-- unicode.IsSpace
unfoldable pub is_space : ℕ → Bool
is_space c =
    (leb 9 c && leb c 13)
    || c == 32
    || c == 0x85
    || c == 0xa0
    || c == 0x1680
    || (leb 0x2000 c && leb c 0x200a)
    || c == 0x2028
    || c == 0x2029
    || c == 0x202f
    || c == 0x205f
    || c == 0x3000

unfoldable pub drop_while : (ℕ → Bool) → Text → Text
drop_while p [] = []
drop_while p (c ∷ s) = let rest = drop_while p s in if p c then rest else c ∷ s

-- strings.TrimRightFunc, TrimSpace
unfoldable pub trim_right : (ℕ → Bool) → Text → Text
trim_right p s = reverse (drop_while p (reverse s))

unfoldable pub trim_space : Text → Text
unfolding trim_right
trim_space s = trim_right is_space (drop_while is_space s)

abbrev onto_first : ℕ → List Text → List Text
onto_first c [] = (c ∷ []) ∷ []
onto_first c (l ∷ ls) = (c ∷ l) ∷ ls

-- strings.Split on a one-character separator: one part more than there are separators.
unfoldable pub split_on : ℕ → Text → List Text
split_on sep [] = [] ∷ []
split_on sep (c ∷ s) =
    let parts = split_on sep s in if c == sep then [] ∷ parts else onto_first c parts

-- strings.HasPrefix, and Contains by the positions.
unfoldable pub has_prefix : Text → Text → Bool
has_prefix s [] = true
has_prefix [] (c ∷ p) = false
has_prefix (d ∷ s) (c ∷ p) = d == c && has_prefix s p

unfoldable pub contains : Text → Text → Bool
unfolding has_prefix
contains [] p = has_prefix [] p
contains (c ∷ s) p = has_prefix (c ∷ s) p || contains s p

pub drop_while-length : (p : ℕ → Bool) (s : Text) → length (drop_while p s) ≤ length s
unfolding drop_while
drop_while-length p [] = omega arith
drop_while-length p (c ∷ s) = ground (arith, drop_while-length p s)

-- What stays begins with a character that fails the test.
abbrev pub StartsOutside : (ℕ → Bool) → Text → Type 0
StartsOutside p [] = Unit
StartsOutside p (c ∷ s) = p c ≡ false

pub drop_while-StartsOutside : (p : ℕ → Bool) (s : Text) → StartsOutside p (drop_while p s)
unfolding drop_while
drop_while-StartsOutside p [] = tt
drop_while-StartsOutside p (c ∷ s) = elim (Bool-cases (p c)) [
  | inl y ↦ rw y (drop_while-StartsOutside p s)
  | inr n ↦ rw n n
]

-- The first part of a text that opens with a separator-free piece and a separator.
pub split_on-append :
    (sep : ℕ) (l rest : Text)
    → All (λ c. (c == sep) ≡ false) l
    → split_on sep (l ++ sep ∷ rest) ≡ l ∷ split_on sep rest
unfolding split_on
split_on-append sep [] rest h = ground arith
split_on-append sep (c ∷ l) rest h = rw (h.0, split_on-append sep l rest h.1)

drop_while-suffix : (p : ℕ → Bool) (s : Text) → (t : Text) × (t ++ drop_while p s ≡ s)
unfolding drop_while
drop_while-suffix p [] = ([], refl)
drop_while-suffix p (c ∷ s) = elim (Bool-cases (p c)) [
  | inl y ↦ let (t, e) = drop_while-suffix p s in (c ∷ t, rw y (ap (λ r. c ∷ r) e))
  | inr n ↦ ([], rw n refl)
]

-- Trimming at the right leaves a prefix.
pub trim_right-prefix : (p : ℕ → Bool) (s : Text) → (t : Text) × (trim_right p s ++ t ≡ s)
unfolding trim_right
trim_right-prefix p s =
    let (t, e) = drop_while-suffix p (reverse s) in
    (
      reverse t,
      sym (reverse-append t (drop_while p (reverse s))) ∙ ap reverse e ∙ reverse-reverse s,
    )

-- The last part of a text holds no separator.
pub split_on_last : (sep : ℕ) (l : Text) → All (λ c. (c == sep) ≡ false) l → split_on sep l ≡ l ∷ []
unfolding split_on
split_on_last sep [] h = refl
split_on_last sep (c ∷ l) h = rw (h.0, split_on_last sep l h.1)

-- Trimming stops at a character that fails the test.
pub trim_right-append :
    (p : ℕ → Bool) (s : Text) (c : ℕ) → p c ≡ false → trim_right p (s ++ c ∷ []) ≡ s ++ c ∷ []
unfolding trim_right drop_while
trim_right-append p s c h =
    rw (reverse-append s (c ∷ []))
      (rw h (reverse-append (c ∷ []) (reverse s) ∙ ap (λ t. t ++ c ∷ []) (reverse-reverse s)))
