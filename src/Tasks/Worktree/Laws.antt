-- ===== src/Tasks/Worktree/Laws.antt =====
-- The shape of a worktree name.
use mathlib.Core.Path.{subst}
use j.Prelude.{
  ℕ, ◌≤◌, ◌≡◌, refl, Bool, true, false, Text, [], ◌∷◌, ◌++◌, length, length-append, is_empty, take,
  leb, ◌==◌, if◌then◌else◌, trim_right, arith, zero, suc, Bool-cases, inl, inr, map, ◌⊎◌, ap, sym,
  trim_right-prefix,
}
use j.Tasks.Row.{Task}
use j.Tasks.Summary.{truncate_runes}
use j.Tasks.Summary.Laws.{truncate_runes_le}
use j.Tasks.Worktree.{
  worktree_slug_max_runes, to_lower, is_slug_char, slug_from, slugify, worktree_name_for,
}

-- What a slug is made of: slug characters and dashes, with no dash at the front and no two dashes
-- in a row. `after_dash` tells whether a dash may not come next.
abbrev pub IsSlug : Bool → Text → Type 0
IsSlug after_dash [] = Unit
IsSlug true (c ∷ s) = (is_slug_char c ≡ true) × IsSlug false s
IsSlug false (c ∷ s) = (is_slug_char c ≡ true) × IsSlug false s ⊎ (c ≡ b'-') × IsSlug true s

slug_from-IsSlug : (d : Bool) (s : Text) → IsSlug d (slug_from d s)
unfolding slug_from
slug_from-IsSlug true [] = tt
slug_from-IsSlug false [] = tt
slug_from-IsSlug true (c ∷ s) = elim (Bool-cases (is_slug_char c)) [
  | inl y ↦ rw y (y, slug_from-IsSlug false s)
  | inr n ↦ rw n (slug_from-IsSlug true s)
]
slug_from-IsSlug false (c ∷ s) = elim (Bool-cases (is_slug_char c)) [
  | inl y ↦ rw y (inl (y, slug_from-IsSlug false s))
  | inr n ↦ rw n (inr (refl, slug_from-IsSlug true s))
]

-- A prefix of a slug is one.
IsSlug-prefix : (d : Bool) (s t : Text) → IsSlug d (s ++ t) → IsSlug d s
IsSlug-prefix true [] t h = tt
IsSlug-prefix false [] t h = tt
IsSlug-prefix true (c ∷ s) t h = (h.0, IsSlug-prefix false s t h.1)
IsSlug-prefix false (c ∷ s) t (inl h) = inl (h.0, IsSlug-prefix false s t h.1)
IsSlug-prefix false (c ∷ s) t (inr h) = inr (h.0, IsSlug-prefix true s t h.1)

take-prefix : (n : ℕ) (s : Text) → (t : Text) × (take n s ++ t ≡ s)
take-prefix zero s = (s, refl)
take-prefix (suc n) [] = ([], refl)
take-prefix (suc n) (c ∷ s) = let (t, e) = take-prefix n s in (t, ap (λ r. c ∷ r) e)

truncate-IsSlug : (s : Text) (limit : ℕ) → IsSlug true s → IsSlug true (truncate_runes s limit)
unfolding truncate_runes
truncate-IsSlug s limit h = elim (Bool-cases (leb (length s) limit)) [
  | inl fits ↦ rw fits h
  | inr long ↦
      let (t, e) = take-prefix limit s in
      rw long (IsSlug-prefix true (take limit s) t (subst (IsSlug true) (sym e) h))
]

slugify-IsSlug : (s : Text) (limit : ℕ) → IsSlug true (slugify s limit)
unfolding slugify
slugify-IsSlug s limit =
    let whole = slug_from true (map to_lower s) in
    let (t, e) = trim_right-prefix (λ c. c == b'-') whole in
    truncate-IsSlug (trim_right (λ c. c == b'-') whole) limit (
      IsSlug-prefix true _ t (subst (IsSlug true) (sym e) (slug_from-IsSlug true (map to_lower s))))

-- A slug holds only slug characters and single dashes, begins with no dash, and has at most
-- `limit` runes.
slugify_shape :
    (s : Text) (limit : ℕ) → IsSlug true (slugify s limit) × (length (slugify s limit) ≤ limit)
slugify_shape s limit = (slugify-IsSlug s limit, unfold slugify in truncate_runes_le _ limit)

name_le :
    (p s i : Text)
    → length p ≤ 48
    → length s ≤ 48
    → length i ≤ 48
    → length (
        let task_slug = if is_empty s then i else s in
        if is_empty p then task_slug else if is_empty task_slug then p else p ++ b'-' ∷ task_slug)
      ≤ 97
name_le [] [] i hp hs hi = omega arith
name_le [] (c ∷ s) i hp hs hi = omega arith
name_le (d ∷ p) [] [] hp hs hi = omega arith
name_le (d ∷ p) [] (c ∷ i) hp hs hi = omega (arith, length-append p (b'-' ∷ c ∷ i))
name_le (d ∷ p) (c ∷ s) i hp hs hi = omega (arith, length-append p (b'-' ∷ c ∷ s))

-- A worktree name has at most 97 runes, whatever the project, the summary and the id.
worktree_name_le : (project : Text) (t : Task) → length (worktree_name_for project t) ≤ 97
unfolding worktree_name_for
worktree_name_le project t =
    let p = slugify project worktree_slug_max_runes in
    let s = slugify t.summary worktree_slug_max_runes in
    let i = slugify t.id worktree_slug_max_runes in
    name_le p s i (slugify_shape project worktree_slug_max_runes).1
      (slugify_shape t.summary worktree_slug_max_runes).1
      (slugify_shape t.id worktree_slug_max_runes).1
