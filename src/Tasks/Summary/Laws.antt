-- ===== src/Tasks/Summary/Laws.antt =====
-- The shape of a summary and the order in which its sources are tried.
use j.Prelude.{
  ℕ, ◌≤◌, ◌≡◌, refl, Bool, false, Text, List, [], ◌∷◌, ◌++◌, length, is_empty, take, leb, ◌==◌,
  if◌then◌else◌, drop_while, trim_space, split_on, split_on-append, All, arith,
  drop_while-StartsOutside, StartsOutside, Bool-cases, inl, inr, zero, suc,
}
use j.Tasks.Summary.{
  summary_max_runes, truncate_runes, is_marker, summarize_lines, summarize_markdown, task_summary,
  pick_source, from_plan_and_requirement,
}

module _ {ℓ} {A : Type ℓ} where
  length-take_le : (n : ℕ) (xs : List A) → length (take n xs) ≤ n
  length-take_le zero xs = omega arith
  length-take_le (suc n) [] = omega arith
  length-take_le (suc n) (x ∷ xs) = omega (arith, length-take_le n xs)

pub truncate_runes_le : (s : Text) (limit : ℕ) → length (truncate_runes s limit) ≤ limit
unfolding truncate_runes
truncate_runes_le s limit = ground (arith, length-take_le limit s)

truncate-StartsOutside :
    (p : ℕ → Bool) (s : Text) (n : ℕ)
    → StartsOutside p s
    → StartsOutside p (truncate_runes s (suc n))
unfolding truncate_runes
truncate-StartsOutside p [] n h = elim (Bool-cases (leb 0 (suc n))) [
  | inl fits ↦ rw fits tt
  | inr long ↦ rw long tt
]
truncate-StartsOutside p (c ∷ s) n h = elim (Bool-cases (leb (length (c ∷ s)) (suc n))) [
  | inl fits ↦ rw fits h
  | inr long ↦ rw long h
]

lines_shape :
    (ls : List Text)
    → (length (summarize_lines ls) ≤ summary_max_runes)
      × StartsOutside is_marker (summarize_lines ls)
unfolding summarize_lines
lines_shape [] = (omega arith, tt)
lines_shape (raw ∷ rest) = elim (Bool-cases (is_empty (trim_space raw))) [
  | inl blank ↦ rw blank (lines_shape rest)
  | inr shown ↦ rw shown (
    truncate_runes_le (drop_while is_marker (trim_space raw)) summary_max_runes,
    truncate-StartsOutside is_marker (drop_while is_marker (trim_space raw)) 79
        (drop_while-StartsOutside is_marker (trim_space raw)),
  )
]

-- A summary has at most 80 runes, and its first, if any, is neither `#` nor a space.
summarize_shape :
    (body : Text)
    → (length (summarize_markdown body) ≤ summary_max_runes)
      × StartsOutside is_marker (summarize_markdown body)
unfolding summarize_markdown
summarize_shape body = lines_shape (split_on b'\n' body)

-- A first line that is blank is passed over; any other first line is the whole source of the
-- summary: trimmed, without its markers, and cut to 80 runes.
summarize_first_line :
    (line rest : Text)
    → All (λ c. (c == b'\n') ≡ false) line
    → summarize_markdown (line ++ b'\n' ∷ rest) ≡ (
        if is_empty (trim_space line)
        then summarize_markdown rest
        else truncate_runes (drop_while is_marker (trim_space line)) summary_max_runes)
unfolding summarize_markdown
summarize_first_line line rest h =
    rw (split_on-append b'\n' line rest h) (unfold summarize_lines in refl)

-- The work phase's summary, with its three sources, is the plan phase's summary of whichever of
-- the two documents PickSource picks.
from_plan_and_requirement_lem :
    (requirement plan_body plan_path : Text)
    → from_plan_and_requirement requirement plan_body plan_path
      ≡ task_summary (pick_source requirement plan_body) plan_path
unfolding from_plan_and_requirement task_summary pick_source
from_plan_and_requirement_lem r p path = ground arith
