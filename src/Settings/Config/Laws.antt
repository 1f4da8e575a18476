-- ===== src/Settings/Config/Laws.antt =====
-- The cap on iterations as it is set and as it is loaded.
use mathlib.Core.Path.{subst}
use j.Prelude.{
  ℕ, ◌+◌, ◌≤◌, ◌<◌, ◌≡◌, inl, inr, refl, sym, ap, ◌∙◌, false, Bool-cases, Text, codes, [], ◌∷◌,
  Option, none, some, ok, is_empty, trim_space, trim_right, trim_right-append, drop_while, is_space,
  Int64, int_of, max_int, scan_digits, decimal, decimal-starts, decimal-last, scan_digits-decimal,
  IsDigit, ◌==◌, leb, arith,
}
use j.Settings.{Bolt, Refusals, put}
use j.Settings.Laws.{get_put}
use j.Settings.Config.{
  SettingsFile, missing, unreadable, unopened, opened, project, max_uint, in_uint, parse_uint,
  to_int, iterations_or, default_task_max_iterations, read_setting, load_task_config,
  task_iterations, trimmed,
}

digit_is_no_space : (c : ℕ) → IsDigit c → is_space c ≡ false
unfolding is_space
digit_is_no_space c d = ground (arith, d)

drop_while-digit : (c : ℕ) (s : Text) → IsDigit c → drop_while is_space (c ∷ s) ≡ c ∷ s
unfolding drop_while
drop_while-digit c s d = rw (digit_is_no_space c d) refl

trim_space-decimal : (n : ℕ) → trim_space (decimal n) ≡ decimal n
unfolding trim_space
trim_space-decimal n =
    let (c, s, begins, d) = decimal-starts n in
    let (front, l, ends, e) = decimal-last n in
    ap (λ t. trim_right is_space (drop_while is_space t)) begins
    ∙ ap (trim_right is_space) (drop_while-digit c s d)
    ∙ ap (trim_right is_space) (sym begins ∙ ends)
    ∙ trim_right-append is_space front l (digit_is_no_space l e)
    ∙ sym ends

parse_starts :
    (c : ℕ) (s : Text) (n : ℕ)
    → scan_digits (c ∷ s) 0 ≡ some n
    → n ≤ max_uint
    → parse_uint (c ∷ s) ≡ some n
unfolding parse_uint
parse_starts c s n h fits = rw h (unfold in_uint in ground arith)

-- ParseUint reads back what `%d` prints.
pub parse_uint-decimal : (n : ℕ) → n ≤ max_uint → parse_uint (decimal n) ≡ some n
parse_uint-decimal n fits =
    let (c, s, begins, d) = decimal-starts n in
    ap parse_uint begins
    ∙ parse_starts c s n (ap (λ t. scan_digits t 0) (sym begins) ∙ scan_digits-decimal n) fits

iterations_of : (n d : ℕ) → 0 < n → n ≤ max_int → iterations_or d (some n) ≡ int_of n
unfolding iterations_or to_int
iterations_of n d pos fits = ground arith

decimal_not_empty : (n : ℕ) → is_empty (decimal n) ≡ false
decimal_not_empty n = let (c, s, begins, d) = decimal-starts n in ap is_empty begins

iterations_set : (n : ℕ) → 0 < n → n ≤ max_int → task_iterations (decimal n) ≡ int_of n
unfolding task_iterations
iterations_set n pos fits =
    rw (decimal_not_empty n, parse_uint-decimal n (omega arith))
      (iterations_of n default_task_max_iterations pos fits)

-- A value of an `int` that is not zero.
pub record IsCap (i : Int64) : Type 0 where
  pub not_zero : 0 < i.magnitude
  pub above : i.negative ≡ false → i.magnitude ≤ max_int
  pub below : i.magnitude ≤ max_int + 1

in_uint-le : (o : Option ℕ) (n : ℕ) → in_uint o ≡ some n → n ≤ max_uint
unfolding in_uint
in_uint-le none n h = absurd (cc)
in_uint-le (some m) n h = ground arith

parse_uint-le : (s : Text) (n : ℕ) → parse_uint s ≡ some n → n ≤ max_uint
unfolding parse_uint
parse_uint-le [] n h = absurd (cc)
parse_uint-le (c ∷ s) n h = in_uint-le (scan_digits (c ∷ s) 0) n h

to_int-IsCap : (n : ℕ) → 0 < n → n ≤ max_uint → IsCap (to_int n)
unfolding to_int
to_int-IsCap n pos fits = elim (Bool-cases (leb n max_int)) [
  | inl low ↦ rw low (record { not_zero = pos; above = λ e. ground arith; below = ground arith })
  | inr high ↦
      rw high (record { not_zero = ground arith; above = λ e. absurd (cc); below = ground arith })
]

iterations-IsCap :
    (o : Option ℕ)
    → ((n : ℕ) → o ≡ some n → n ≤ max_uint)
    → IsCap (iterations_or default_task_max_iterations o)
unfolding iterations_or
iterations-IsCap none fits = record {
  not_zero = omega arith;
  above = λ e. omega arith;
  below = omega arith;
}
iterations-IsCap (some n) fits = elim (Bool-cases (n == 0)) [
  | inl zeroed ↦
      rw zeroed (record { not_zero = omega arith; above = λ e. omega arith; below = omega arith })
  | inr pos ↦ rw pos (to_int-IsCap n (ground arith) (fits n refl))
]

task_iterations-IsCap : (raw : Text) → IsCap (task_iterations raw)
unfolding task_iterations
task_iterations-IsCap raw = elim (Bool-cases (is_empty raw)) [
  | inl blank ↦
      rw blank (record { not_zero = omega arith; above = λ e. omega arith; below = omega arith })
  | inr there ↦ rw there (iterations-IsCap (parse_uint raw) (parse_uint-le raw))
]

module _ (bolt : Bolt) where
  open bolt use {Db}

  -- A positive cap on the iterations that an `int` holds is loaded as it was set: behind a write of its
  -- decimal print that went through, LoadTaskConfig gives the number.
  pub load-put :
      (w w' : Refusals) (n : ℕ) (db db' : Db)
      → 0 < n
      → n ≤ max_int
      → put bolt w project (codes "max_iterations") (decimal n) db ≡ (none, db')
      → w'.view ≡ false
      → load_task_config bolt w' (opened db') ≡ ok (int_of n)
  unfolding load_task_config read_setting
  load-put w w' n db db' pos fits wrote sees =
      let read = get_put bolt w w' project (codes "max_iterations") (decimal n) db db' wrote sees in
      ap (λ r. ok (task_iterations (trimmed r))) read
      ∙ unfold trimmed in
        ap (λ t. ok (task_iterations t)) (trim_space-decimal n)
        ∙ ap (λ i. ok i) (iterations_set n pos fits)

  -- Whatever the settings hold, the cap that LoadTaskConfig gives is an `int` other than zero.
  pub load_range :
      (w : Refusals) (file : SettingsFile Db) (i : Int64)
      → load_task_config bolt w file ≡ ok i
      → IsCap i
  unfolding load_task_config
  load_range w missing i h =
      let same : int_of default_task_max_iterations ≡ i = cc in
      subst IsCap same
        (record { not_zero = omega arith; above = λ e. omega arith; below = omega arith })
  load_range w unreadable i h = absurd (cc)
  load_range w unopened i h = absurd (cc)
  load_range w (opened db) i h =
      let raw = read_setting bolt w (codes "max_iterations") db in
      let same : task_iterations raw ≡ i = cc in subst IsCap same (task_iterations-IsCap raw)
