-- ===== src/Prelude/Decimal.antt =====
-- Go's `int` where it can leave the naturals, its decimal print (`%d`) and strconv.Atoi.
use Prim.Native.Nat.{ℕ, zero, suc, ◌+◌, ◌-◌, ◌*◌, ◌/◌, ◌%◌, ◌≤◌}
use mathlib.Core.Path.{◌≡◌, refl, sym, ap, ◌∙◌}
use mathlib.Core.Logic.{inl, inr}
use mathlib.Core.Bool.{Bool, true, false, ◌&&◌}
use mathlib.Core.Option.{Option, none, some}
use mathlib.Core.List.{[], ◌∷◌, ◌++◌}
use native.Mathlib.Omega.{arith}
use j.Prelude.Tests.{◌==◌, ltb, leb, if◌then◌else◌, Bool-cases}
use j.Prelude.Lists.{All, All-append}
use j.Prelude.Texts.{Text}

abbrev pub max_int : ℕ
max_int = 9223372036854775807

-- A sign and a magnitude: what an `int` of 64 bits can hold is at most `max_int`, and one more
-- below zero.
pub record Int64 : Type 0 where
  pub negative : Bool
  pub magnitude : ℕ

abbrev pub int_of : ℕ → Int64
int_of n = record { negative = false; magnitude = n }

-- `n + 1` on an `int` that is not negative wraps around at the end of the range.
unfoldable pub int_succ : ℕ → Int64
int_succ n =
    if n == max_int then record { negative = true; magnitude = max_int + 1 } else int_of (n + 1)

-- The digits of a number below ten to the power of the fuel; `n` itself is enough of it.
digits : ℕ → ℕ → Text
digits zero n = (n + b'0') ∷ []
digits (suc fuel) n =
    let front = digits fuel (n / 10) in
    if ltb n 10 then (n + b'0') ∷ [] else front ++ (n % 10 + b'0') ∷ []

unfoldable pub decimal : ℕ → Text
unfolding digits
decimal n = digits n n

unfoldable pub print_int : Int64 → Text
print_int i = if i.negative then b'-' ∷ decimal i.magnitude else decimal i.magnitude

abbrev pub IsDigit : ℕ → Type 0
IsDigit c = (b'0' ≤ c) × (c ≤ b'9')

abbrev pub is_digit : ℕ → Bool
is_digit c = leb b'0' c && leb c b'9'

-- The number that digits spell behind `n`, `none` where some character is no digit.
unfoldable pub scan_digits : Text → ℕ → Option ℕ
scan_digits [] n = some n
scan_digits (c ∷ s) n =
    let rest = scan_digits s (n * 10 + (c - b'0')) in if is_digit c then rest else none

scan_number : Text → Option ℕ
scan_number [] = none
scan_number (c ∷ s) = scan_digits (c ∷ s) 0

in_range : Bool → Option ℕ → Option Int64
in_range negative none = none
in_range negative (some n) =
    if leb n (if negative then max_int + 1 else max_int)
    then some (record { negative = negative; magnitude = n })
    else none

-- strconv.Atoi: one sign at most, then digits, and a value that an `int` holds.
unfoldable pub atoi : Text → Option Int64
unfolding scan_number in_range
atoi [] = none
atoi (c ∷ s) =
    if c == b'-'
    then in_range true (scan_number s)
    else if c == b'+'
    then in_range false (scan_number s)
    else in_range false (scan_number (c ∷ s))

scan_digits-append :
    (s t : Text) (n m : ℕ) → scan_digits s n ≡ some m → scan_digits (s ++ t) n ≡ scan_digits t m
unfolding scan_digits
scan_digits-append [] t n m h = ap (λ k. scan_digits t k) (ground (arith, h))
scan_digits-append (c ∷ s) t n m h = ground (arith, scan_digits-append s t (n * 10 + (c - b'0')) m)

scan_digits-digits : (fuel n : ℕ) → n ≤ fuel → scan_digits (digits fuel n) 0 ≡ some n
unfolding digits
scan_digits-digits zero n h = unfold scan_digits in ground arith
scan_digits-digits (suc fuel) n h = elim (Bool-cases (ltb n 10)) [
  | inl small ↦ rw small (unfold scan_digits in ground arith)
  | inr large ↦ rw large (
      scan_digits-append (digits fuel (n / 10)) ((n % 10 + b'0') ∷ []) 0 (n / 10)
        (scan_digits-digits fuel (n / 10) (ground arith))
      ∙ unfold scan_digits in ground arith)
]

-- A print is no sign and not empty.
digits-starts : (fuel n : ℕ) → n ≤ fuel → (c : ℕ) × (s : Text) × (digits fuel n ≡ c ∷ s) × IsDigit c
unfolding digits
digits-starts zero n h = (n + b'0', [], refl, (omega arith, omega arith))
digits-starts (suc fuel) n h = elim (Bool-cases (ltb n 10)) [
  | inl small ↦ (n + b'0', [], rw small refl, (omega arith, ground arith))
  | inr large ↦
      let (c, s, e, d) = digits-starts fuel (n / 10) (ground arith) in
      (c, s ++ (n % 10 + b'0') ∷ [], rw large (ap (λ t. t ++ (n % 10 + b'0') ∷ []) e), d)
]

-- On a text that begins with a digit, Atoi reads a number.
atoi-digit :
    (c : ℕ) (s : Text) (n : ℕ)
    → IsDigit c
    → scan_digits (c ∷ s) 0 ≡ some n
    → n ≤ max_int
    → atoi (c ∷ s) ≡ some (int_of n)
unfolding atoi
atoi-digit c s n d e h = ground (arith, e)

-- Atoi reads back what `%d` prints, within the range of an `int`.
pub atoi-decimal : (n : ℕ) → n ≤ max_int → atoi (decimal n) ≡ some (int_of n)
unfolding decimal
atoi-decimal n h =
    let (c, s, e, d) = digits-starts n n (omega arith) in
    ap atoi e
    ∙ atoi-digit c s n d (ap (λ t. scan_digits t 0) (sym e) ∙ scan_digits-digits n n (omega arith))
        h

in_range-le :
    (b : Bool) (o : Option ℕ) (i : Int64)
    → in_range b o ≡ some i
    → i.negative ≡ false
    → i.magnitude ≤ max_int
unfolding in_range
in_range-le b none i h pos = absurd (cc)
in_range-le b (some n) i h pos = ground arith

-- What Atoi reads is an `int`.
pub atoi_range :
    (s : Text) (i : Int64) → atoi s ≡ some i → i.negative ≡ false → i.magnitude ≤ max_int
unfolding atoi
atoi_range [] i h pos = absurd (cc)
atoi_range (c ∷ s) i h pos = ground (
  arith,
  in_range-le true (scan_number s) i,
  in_range-le false (scan_number s) i,
  in_range-le false (scan_number (c ∷ s)) i,
)

-- A print ends in a digit.
digits-last :
    (fuel n : ℕ) → n ≤ fuel → (s : Text) × (c : ℕ) × (digits fuel n ≡ s ++ c ∷ []) × IsDigit c
unfolding digits
digits-last zero n h = ([], n + b'0', refl, (omega arith, omega arith))
digits-last (suc fuel) n h = elim (Bool-cases (ltb n 10)) [
  | inl small ↦ ([], n + b'0', rw small refl, (omega arith, ground arith))
  | inr large ↦ (digits fuel (n / 10), n % 10 + b'0', rw large refl, (omega arith, omega arith))
]

pub decimal-last : (n : ℕ) → (s : Text) × (c : ℕ) × (decimal n ≡ s ++ c ∷ []) × IsDigit c
unfolding decimal
decimal-last n = digits-last n n (omega arith)

digits-IsDigit : (fuel n : ℕ) → n ≤ fuel → All IsDigit (digits fuel n)
unfolding digits
digits-IsDigit zero n h = ((omega arith, omega arith), tt)
digits-IsDigit (suc fuel) n h = elim (Bool-cases (ltb n 10)) [
  | inl small ↦ rw small ((omega arith, ground arith), tt)
  | inr large ↦ rw large (
      All-append IsDigit (digits fuel (n / 10)) _ (digits-IsDigit fuel (n / 10) (ground arith))
        ((omega arith, omega arith), tt))
]

pub decimal-IsDigit : (n : ℕ) → All IsDigit (decimal n)
unfolding decimal
decimal-IsDigit n = digits-IsDigit n n (omega arith)

pub decimal-starts : (n : ℕ) → (c : ℕ) × (s : Text) × (decimal n ≡ c ∷ s) × IsDigit c
unfolding decimal
decimal-starts n = digits-starts n n (omega arith)

pub scan_digits-decimal : (n : ℕ) → scan_digits (decimal n) 0 ≡ some n
unfolding decimal
scan_digits-decimal n = scan_digits-digits n n (omega arith)
