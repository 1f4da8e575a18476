-- ===== src/Tasks/Summary.antt =====
-- summary.go: the one-line summary of a task.
pub mod Laws
use j.Prelude.{
  ℕ, Bool, Text, List, [], ◌∷◌, ◌++◌, length, is_empty, take, leb, ◌==◌, ◌||◌, if◌then◌else◌,
  drop_while, trim_right, trim_space, split_on,
}

abbrev pub summary_max_runes : ℕ
summary_max_runes = 80

unfoldable pub truncate_runes : Text → ℕ → Text
truncate_runes s limit = if leb (length s) limit then s else take limit s

-- The cut set "# ".
abbrev pub is_marker : ℕ → Bool
is_marker c = c == b'#' || c == b' '

unfoldable pub summarize_lines : List Text → Text
unfolding truncate_runes drop_while trim_space
summarize_lines [] = []
summarize_lines (raw ∷ rest) =
    let line = trim_space raw in
    let later = summarize_lines rest in
    if is_empty line then later else truncate_runes (drop_while is_marker line) summary_max_runes

unfoldable pub summarize_markdown : Text → Text
unfolding summarize_lines split_on
summarize_markdown body = summarize_lines (split_on b'\n' body)

-- filepath.Base on a path that is not empty.
after_last_slash : Text → Text → Text
after_last_slash acc [] = acc
after_last_slash acc (c ∷ s) = after_last_slash (if c == b'/' then [] else acc ++ c ∷ []) s

unfoldable pub base : Text → Text
unfolding after_last_slash trim_right
base path =
    let name = after_last_slash [] (trim_right (λ c. c == b'/') path) in
    if is_empty name then b'/' ∷ [] else name

-- Summary
unfoldable pub task_summary : Text → Text → Text
task_summary requirement target =
    let s = summarize_markdown requirement in
    if is_empty s then (if is_empty target then [] else base target) else s

unfoldable pub pick_source : Text → Text → Text
pick_source refined_requirements plan_markdown =
    if is_empty (summarize_markdown refined_requirements)
    then plan_markdown
    else refined_requirements

unfoldable pub from_plan_and_requirement : Text → Text → Text → Text
from_plan_and_requirement requirement plan_body plan_path =
    let s = summarize_markdown requirement in
    let p = summarize_markdown plan_body in
    if is_empty s
    then (if is_empty p then (if is_empty plan_path then [] else base plan_path) else p)
    else s
