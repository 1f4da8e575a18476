-- ===== src/Verifier/Verdict.antt =====
-- verdict.go: the verdict on the last line of the findings that is not blank. The regular
-- expression is `(?i)^\s*VERDICT:\s*(PASS|FAIL)\s*$`.
pub mod Line
pub mod Laws
use mathlib.Core.List.{reverse}
use j.Prelude.{
  ℕ, ◌+◌, Bool, true, false, Text, codes, List, [], ◌∷◌, Option, none, some, is_empty, leb, ◌==◌,
  ◌&&◌, ◌||◌, if◌then◌else◌, drop_while, trim_right, trim_space, split_on,
}

pub data Verdict : Type 0 where
  pass fail : Verdict

-- `\s`
unfoldable pub is_ws : ℕ → Bool
is_ws c = c == 9 || c == 10 || c == 12 || c == 13 || c == 32

-- Whether `c` matches the letter `w` of the pattern under `(?i)`: by simple case folding, where
-- the long s, U+017F, folds to S.
unfoldable pub folds : ℕ → ℕ → Bool
folds w c = c == w || (leb b'A' w && leb w b'Z' && c == w + 32) || (w == b'S' && c == 0x17f)

-- A word of the pattern at the front of a text.
unfoldable pub strip_word : Text → Text → Option Text
strip_word [] s = some s
strip_word (w ∷ ws) [] = none
strip_word (w ∷ ws) (c ∷ s) = let rest = strip_word ws s in if folds w c then rest else none

abbrev pub verdict_word : Text
verdict_word = codes "VERDICT:"

abbrev pub pass_word : Text
pass_word = codes "PASS"

abbrev pub fail_word : Text
fail_word = codes "FAIL"

abbrev ending : Verdict → Text → Option Verdict
ending v r = if is_empty (drop_while is_ws r) then some v else none

match_fail : Option Text → Option Verdict
match_fail none = none
match_fail (some r) = ending fail r

match_outcome : Text → Option Text → Option Verdict
match_outcome s (some r) = ending pass r
match_outcome s none = match_fail (strip_word fail_word s)

match_tail : Option Text → Option Verdict
unfolding match_outcome match_fail
match_tail none = none
match_tail (some s) = let s' = drop_while is_ws s in match_outcome s' (strip_word pass_word s')

-- verdictRegexp on one line: the submatch, in upper case.
pub match_verdict : Text → Option Verdict
match_verdict line = match_tail (strip_word verdict_word (drop_while is_ws line))

abbrev pub without_cr : Text → Text
without_cr line = trim_right (λ c. c == 13) line

abbrev or_fail : Option Verdict → Verdict
or_fail none = fail
or_fail (some v) = v

-- The loop of ParseVerdict, over the lines from the last to the first.
unfoldable pub scan_back : List Text → Verdict
scan_back [] = fail
scan_back (raw ∷ rest) =
    let earlier = scan_back rest in
    let line = without_cr raw in
    if is_empty (trim_space line) then earlier else or_fail (match_verdict line)

-- ParseVerdict on the findings' text, or `none` where the file cannot be read.
unfoldable pub parse_verdict : Option Text → Verdict
parse_verdict none = fail
parse_verdict (some findings) = scan_back (reverse (split_on b'\n' findings))
