-- ===== src/Verifier/Verdict/Laws.antt =====
-- ParseVerdict against a description of the findings that pass.
use mathlib.Core.List.{reverse}
use j.Prelude.{
  ◌≡◌, refl, ◌↔◌, inl, inr, ap, true, false, Text, List, [], ◌∷◌, ◌++◌, none, some, is_empty,
  trim_space, split_on, All, arith, Bool-cases,
}
use j.Verifier.Verdict.{pass, fail, without_cr, scan_back, parse_verdict}
use j.Verifier.Verdict.Line.{Carries, match-Carries, Carries-match}

abbrev IsBlankLine : Text → Type 0
IsBlankLine raw = is_empty (trim_space (without_cr raw)) ≡ true

-- The lines, from the last: blank ones, and then one with the verdict.
pub record EndsInPass (lines : List Text) : Type 0 where
  pub blanks : List Text
  pub line : Text
  pub rest : List Text
  pub split : lines ≡ blanks ++ line ∷ rest
  pub all_blank : All IsBlankLine blanks
  pub not_blank : is_empty (trim_space (without_cr line)) ≡ false
  pub carries : Carries pass (without_cr line)

scan-EndsInPass : (ls : List Text) → scan_back ls ≡ pass → EndsInPass ls
unfolding scan_back
scan-EndsInPass [] h = cc
scan-EndsInPass (raw ∷ rest) h = elim (Bool-cases (is_empty (trim_space (without_cr raw)))) [
  | inl blank ↦
      let e = scan-EndsInPass rest (rw blank at h) in
      record {
        blanks = raw ∷ e.blanks;
        line = e.line;
        rest = e.rest;
        split = ap (λ l. raw ∷ l) e.split;
        all_blank = (blank, e.all_blank);
        not_blank = e.not_blank;
        carries = e.carries;
      }
  | inr shown ↦ record {
    blanks = [];
    line = raw;
    rest = rest;
    split = refl;
    all_blank = tt;
    not_blank = shown;
    carries = match-Carries pass (without_cr raw) (ground arith);
  }
]

EndsInPass-scan :
    (blanks : List Text) (line : Text) (rest : List Text)
    → All IsBlankLine blanks
    → is_empty (trim_space (without_cr line)) ≡ false
    → Carries pass (without_cr line)
    → scan_back (blanks ++ line ∷ rest) ≡ pass
unfolding scan_back
EndsInPass-scan [] line rest a n c = rw (n, Carries-match pass (without_cr line) c)
EndsInPass-scan (b ∷ bs) line rest a n c = rw a.0 (EndsInPass-scan bs line rest a.1 n c)

-- ParseVerdict reads a pass exactly from findings whose last line that is not blank is, without
-- its carriage returns, `VERDICT: PASS` in any case, with white space around and between the
-- words. A file that cannot be read, or any other findings, read as a fail.
pub parse_verdict_pass :
    (findings : Text)
    → ((parse_verdict (some findings) ≡ pass) ↔ EndsInPass (reverse (split_on b'\n' findings)))
      × (parse_verdict none ≡ fail)
unfolding parse_verdict
parse_verdict_pass findings = (
  (
    scan-EndsInPass (reverse (split_on b'\n' findings)),
    λ e. rw e.split (EndsInPass-scan e.blanks e.line e.rest e.all_blank e.not_blank e.carries),
  ),
  refl,
)
