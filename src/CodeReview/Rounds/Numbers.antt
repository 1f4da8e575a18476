-- ===== src/CodeReview/Rounds/Numbers.antt =====
-- The numbers of the rounds, as they are read from the names of the directories.
use j.Prelude.{
  ℕ, ◌≤◌, ◌<◌, ◌≡◌, ◌⊎◌, inl, inr, refl, ap, ◌∙◌, true, Bool-cases, Text, List, [], ◌∷◌, ◌++◌,
  Option, none, some, text_eq, text_eq_sound, has_prefix, atoi, atoi-decimal, decimal, int_of,
  print_int, max_int, Int64, arith,
}
use j.CodeReview.Rounds.{
  Rounds, RoundContent, stray_file, round_dir, new_round_at, parse_round_dir, round_dir_prefix,
  drop_prefix, positive, round_numbers, entry_at, on_list,
}
use j.CodeReview.Rounds.Latest.{Has}

drop_prefix-append : (p s : Text) → drop_prefix p (p ++ s) ≡ s
unfolding drop_prefix
drop_prefix-append [] s = refl
drop_prefix-append (c ∷ p) s = drop_prefix-append p s

has_prefix-append : (p s : Text) → has_prefix (p ++ s) p ≡ true
unfolding has_prefix
has_prefix-append [] s = refl
has_prefix-append (c ∷ p) s = ground (arith, has_prefix-append p s)

-- The directory of a round is read as that round.
pub parse-name :
    (n : ℕ) → 0 < n → n ≤ max_int → parse_round_dir (new_round_at (int_of n)).name ≡ some n
unfolding parse_round_dir new_round_at print_int
parse-name n pos fits =
    rw
      (
        has_prefix-append round_dir_prefix (decimal n),
        drop_prefix-append round_dir_prefix (decimal n),
        atoi-decimal n fits,
      )
      (unfold positive in ground arith)

pub on_list-Has :
    (o : Option ℕ) (k : ℕ) (ns : List ℕ) → Has k (on_list o ns) → (o ≡ some k) ⊎ Has k ns
unfolding on_list
on_list-Has none k ns h = inr h
on_list-Has (some n) k ns (inl e) = inl (ap some e)
on_list-Has (some n) k ns (inr h) = inr h

pub Has-on_list :
    (o : Option ℕ) (k : ℕ) (ns : List ℕ) → (o ≡ some k) ⊎ Has k ns → Has k (on_list o ns)
unfolding on_list
Has-on_list none k ns (inl e) = absurd (cc)
Has-on_list none k ns (inr h) = h
Has-on_list (some n) k ns (inl e) = inl (cc)
Has-on_list (some n) k ns (inr h) = inr h

-- The number of a directory that is there is one of the numbers.
pub round_at-Has :
    (name : Text) (rounds : Rounds) (c : RoundContent) (k : ℕ)
    → entry_at name rounds ≡ some (round_dir c)
    → parse_round_dir name ≡ some k
    → Has k (round_numbers rounds)
unfolding entry_at round_numbers
round_at-Has name [] c k at e = absurd (cc)
round_at-Has name ((other, stray_file) ∷ rest) c k at e = elim (Bool-cases (text_eq other name)) [
  | inl same ↦ absurd (ground (arith, at))
  | inr differs ↦ round_at-Has name rest c k (ground (arith, at)) e
]
round_at-Has name ((other, round_dir d) ∷ rest) c k at e = elim (Bool-cases (text_eq other name)) [
  | inl same ↦ Has-on_list _ k _ (inl (ap parse_round_dir (text_eq_sound other name same) ∙ e))
  | inr differs ↦ Has-on_list _ k _ (inr (round_at-Has name rest c k (ground (arith, at)) e))
]

-- Numbers are positive.
positive-pos : (o : Option Int64) (k : ℕ) → positive o ≡ some k → 0 < k
unfolding positive
positive-pos none k h = absurd (cc)
positive-pos (some i) k h = ground arith

parse-pos : (name : Text) (k : ℕ) → parse_round_dir name ≡ some k → 0 < k
unfolding parse_round_dir
parse-pos name k h = elim (Bool-cases (has_prefix name round_dir_prefix)) [
  | inl y ↦ positive-pos (atoi (drop_prefix round_dir_prefix name)) k (ground (arith, h))
  | inr n ↦ absurd (ground (arith, h))
]

pub numbers_pos : (rounds : Rounds) (k : ℕ) → Has k (round_numbers rounds) → 0 < k
unfolding round_numbers
numbers_pos [] k h = absurd h
numbers_pos ((name, stray_file) ∷ rest) k h = numbers_pos rest k h
numbers_pos ((name, round_dir c) ∷ rest) k h = elim (on_list-Has (parse_round_dir name) k _ h) [
  | inl e ↦ parse-pos name k e
  | inr l ↦ numbers_pos rest k l
]
