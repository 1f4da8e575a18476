-- ===== src/CodeReview/Laws.antt =====
-- What the check of a rewritten review file accepts.
use j.Prelude.{
  ℕ, ◌≤◌, ◌≡◌, ◌↔◌, refl, Bool, true, false, Text, List, [], ◌∷◌, Option, none, some, is_empty,
  length, text_eq, All, arith, if◌then◌else◌, ◌==◌, ltb, not, ◌&&◌,
}
use j.CodeReview.{
  Item, ReviewFile, ReviewError, accepted, changes_needed, clarification_needed, reply_max_runes,
  is_allowed_item_decision, is_allowed_top_decision, count_id, snapshot_source_ids, check_originals,
  check_invented, validate_item, validate_items, validate_post, any_accepted, RoundFiles,
  check_artifacts, validate_round, check_file, or_else,
}
use j.CodeReview.Counting.{EachOnce, counts_lem, snapshot_lem}

-- An item is decided: by one of the four decisions, with a plan reference if it is accepted, and
-- with a reply that fits.
abbrev pub IsDecided : Item → Type 0
IsDecided it =
    (is_allowed_item_decision it.decision ≡ true)
    × (is_empty it.decision ≡ false)
    × (text_eq it.decision accepted ≡ true → is_empty it.plan_ref ≡ false)
    × (length it.reply ≤ reply_max_runes)

fits : (r : Text) → ((not (is_empty r) && ltb 280 (length r)) ≡ false) ↔ (length r ≤ 280)
fits [] = (λ h. omega arith, λ h. refl)
fits (c ∷ r) = (λ h. ground (arith, h), λ h. ground (arith, h))

item_lem : (it : Item) → (validate_item it ≡ none) ↔ IsDecided it
unfolding validate_item
item_lem it =
    let (to, back) = fits it.reply in (λ h. ground (arith, h, to), λ h. ground (arith, h, back))

items_lem : (its : List Item) → (validate_items its ≡ none) ↔ All IsDecided its
unfolding validate_items
items_lem [] = (λ h. tt, λ h. refl)
items_lem (it ∷ its) =
    let one = item_lem it in
    let rest = items_lem its in
    (
      λ h. (one.0 (ground (arith, h)), rest.0 (ground (arith, h))),
      λ h. let a = one.1 h.0 in let b = rest.1 h.1 in ground (arith, a, b),
    )

or_else_lem : (a b : Option ReviewError) → (or_else a b ≡ none) ↔ ((a ≡ none) × (b ≡ none))
or_else_lem none b = (λ h. (refl, h), λ h. h.1)
or_else_lem (some e) b = (λ h. absurd (cc), λ h. absurd (cc))

-- The planner has decided: by one of the three decisions of a round.
abbrev pub IsConcluded : ReviewFile → Type 0
IsConcluded f = (is_allowed_top_decision f.decision ≡ true) × (is_empty f.decision ≡ false)

concluded_lem :
    (f : ReviewFile) (original : List Text)
    → (validate_post f original ≡ none) ↔ (
        IsConcluded f
        × (or_else
              (check_originals original f.items)
              (or_else (check_invented original f.items) (validate_items f.items))
            ≡ none))
unfolding validate_post
concluded_lem f original = (λ h. ground (arith, h), λ h. ground (arith, h))

-- ValidatePost accepts a file exactly if its decision is one of the three, every id of the
-- snapshot occurs in it once and no other id occurs, and every item is decided.
pub validate_post_lem :
    (f : ReviewFile) (original : List Text)
    → (validate_post f original ≡ none)
      ↔ (IsConcluded f × EachOnce original f.items × All IsDecided f.items)
validate_post_lem f original =
    let (to, back) = concluded_lem f original in
    let (t1, b1) =
      or_else_lem (check_originals original f.items)
        (or_else (check_invented original f.items) (validate_items f.items)) in
    let (t2, b2) = or_else_lem (check_invented original f.items) (validate_items f.items) in
    let (t3, b3) = counts_lem original f.items in
    let (t4, b4) = items_lem f.items in
    (
      λ h. let (c, r) = to h in let (o, r') = t1 r in let (i, v) = t2 r' in (c, t3 (o, i), t4 v),
      λ h. let (c, e, v) = h in let (o, i) = b3 e in back (c, b1 (o, b2 (i, b4 v))),
    )

-- Whatever the planner did, a file that ValidatePost accepts against the snapshot of the fetched
-- items carries each fetched id once, however often it was fetched, and no other id.
pub feedback_is_kept :
    (fetched f : ReviewFile) (id : Text)
    → validate_post f (snapshot_source_ids fetched.items) ≡ none
    → count_id id f.items ≡ (if count_id id fetched.items == 0 then 0 else 1)
feedback_is_kept fetched f id h =
    let (c, each, d) = (validate_post_lem f (snapshot_source_ids fetched.items)).0 h in
    let same = each id in ground (arith, same, snapshot_lem fetched.items id)

-- A file that os.Stat finds, and that is not empty.
abbrev pub has_content : Option ℕ → Bool
has_content none = false
has_content (some size) = ltb 0 size

-- The round has what its decision needs.
abbrev pub has_artifacts : ReviewFile → RoundFiles → Bool
has_artifacts f r =
    if text_eq f.decision changes_needed
    then any_accepted f.items && has_content r.plan
    else if text_eq f.decision clarification_needed
    then has_content r.clarification
    else true

artifacts_lem :
    (f : ReviewFile) (r : RoundFiles) → (check_artifacts f r ≡ none) ↔ (has_artifacts f r ≡ true)
unfolding check_artifacts check_file
artifacts_lem f r = (λ h. ground (arith, h), λ h. ground (arith, h))

-- ValidateRound accepts a file exactly if ValidatePost does and the round has what its decision
-- needs: an accepted item and a plan that is not empty for `changes_needed`, and a clarification
-- that is not empty for `clarification_needed`.
pub validate_round_lem :
    (f : ReviewFile) (original : List Text) (r : RoundFiles)
    → (validate_round f original r ≡ none)
      ↔ ((validate_post f original ≡ none) × (has_artifacts f r ≡ true))
unfolding validate_round
validate_round_lem f original r =
    let (t, b) = or_else_lem (validate_post f original) (check_artifacts f r) in
    let (to, back) = artifacts_lem f r in
    (λ h. let (v, c) = t h in (v, to c), λ h. b (h.0, back h.1))
