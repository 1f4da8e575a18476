-- ===== src/Tasks/Worktree.antt =====
-- worktree.go: the name of a task's git worktree.
pub mod Laws
use j.Prelude.{
  ℕ, ◌+◌, Bool, true, false, Text, [], ◌∷◌, ◌++◌, is_empty, leb, ◌==◌, ◌&&◌, ◌||◌, not,
  if◌then◌else◌, trim_right, map,
}
use j.Tasks.Row.{Task}
use j.Tasks.Summary.{truncate_runes}

abbrev pub worktree_slug_max_runes : ℕ
worktree_slug_max_runes = 48

-- unicode.ToLower, as far as a slug can see it: on ASCII, and at the two other code points whose
-- lower case is ASCII (the dotted capital I and the Kelvin sign). Elsewhere a letter stays outside
-- of ASCII, and so a separator.
unfoldable pub to_lower : ℕ → ℕ
to_lower c =
    if leb b'A' c && leb c b'Z'
    then c + 32
    else if c == 0x130
    then b'i'
    else if c == 0x212a
    then b'k'
    else c

unfoldable pub is_slug_char : ℕ → Bool
is_slug_char c = (leb b'a' c && leb c b'z') || (leb b'0' c && leb c b'9')

-- The loop of slugify: `prev_dash` tells whether a dash would repeat one or begin the slug.
unfoldable pub slug_from : Bool → Text → Text
slug_from prev_dash [] = []
slug_from prev_dash (c ∷ s) =
    let kept = slug_from false s in
    let dashed = slug_from true s in
    if is_slug_char c then c ∷ kept else if prev_dash then dashed else b'-' ∷ dashed

unfoldable pub slugify : Text → ℕ → Text
unfolding slug_from to_lower trim_right truncate_runes
slugify s limit =
    truncate_runes (trim_right (λ c. c == b'-') (slug_from true (map to_lower s))) limit

unfoldable pub worktree_name_for : Text → Task → Text
worktree_name_for project t =
    let project_slug = slugify project worktree_slug_max_runes in
    let from_summary = slugify t.summary worktree_slug_max_runes in
    let task_slug =
      if is_empty from_summary then slugify t.id worktree_slug_max_runes else from_summary in
    if is_empty project_slug
    then task_slug
    else if is_empty task_slug
    then project_slug
    else project_slug ++ b'-' ∷ task_slug
