-- ===== src/CodeReview.antt =====
-- internal/store/codereview: the review file that the planner rewrites, and the check of what it
-- made of it.
pub mod Counting
pub mod Laws
pub mod Rounds
pub mod Run
use j.Prelude.{
  ℕ, suc, ◌+◌, Bool, true, false, Text, codes, List, [], ◌∷◌, Option, none, some, is_empty, length,
  text_eq, ltb, ◌==◌, ◌||◌, ◌&&◌, not, if◌then◌else◌,
}
use j.Tasks.Row.{Time}

pub record Item : Type 0 where
  pub source_id : Text
  pub kind : Text
  pub thread_id : Text
  pub author : Text
  pub body : Text
  pub path : Text
  pub line : ℕ
  pub is_outdated : Bool
  pub has_j_reply : Bool
  pub decision : Text
  pub reason : Text
  pub reply : Text
  pub plan_ref : Text

pub record Pr : Type 0 where
  pub url : Text
  pub owner : Text
  pub repo : Text
  pub number : ℕ
  pub state : Text
  pub draft : Bool
  pub merged : Bool

pub record ReviewFile : Type 0 where
  pub schema_version : ℕ
  pub provider : Text
  pub fetched_at : Time
  pub decision : Text
  pub summary : Text
  pub pr : Pr
  pub items : List Item

abbrev pub accepted : Text
accepted = codes "accepted"

abbrev pub changes_needed : Text
changes_needed = codes "changes_needed"

abbrev pub clarification_needed : Text
clarification_needed = codes "clarification_needed"

abbrev pub no_changes_needed : Text
no_changes_needed = codes "no_changes_needed"

abbrev pub reply_max_runes : ℕ
reply_max_runes = 280

unfoldable pub is_allowed_item_decision : Text → Bool
is_allowed_item_decision d =
    is_empty d
    || text_eq d accepted
    || text_eq d (codes "rejected")
    || text_eq d (codes "clarification")
    || text_eq d (codes "non_actionable")

unfoldable pub is_allowed_top_decision : Text → Bool
is_allowed_top_decision d =
    is_empty d
    || text_eq d changes_needed
    || text_eq d no_changes_needed
    || text_eq d clarification_needed

pub data ReviewError : Type 0 where
  invalid_top_decision : Text → ReviewError
  no_top_decision : ReviewError
  missing_source : Text → ReviewError
  duplicate_source : Text → ℕ → ReviewError
  invented_source : Text → ReviewError
  invalid_decision : Text → Text → ReviewError
  missing_decision missing_plan_ref reply_too_long : Text → ReviewError
  nothing_accepted : ReviewError
  plan_missing plan_empty clarification_missing clarification_empty : ReviewError

-- Whether a set of ids, a map in the source, has an id, and how often the items have one.
unfoldable pub has_id : Text → List Text → Bool
has_id id [] = false
has_id id (x ∷ xs) = let rest = has_id id xs in if text_eq x id then true else rest

unfoldable pub count_id : Text → List Item → ℕ
count_id id [] = 0
count_id id (it ∷ its) =
    let rest = count_id id its in if text_eq it.source_id id then suc rest else rest

-- SnapshotSourceIDs: the keys of the map.
unfoldable pub snapshot_source_ids : List Item → List Text
unfolding has_id
snapshot_source_ids [] = []
snapshot_source_ids (it ∷ its) =
    let rest = snapshot_source_ids its in
    if has_id it.source_id rest then rest else it.source_id ∷ rest

-- The first loop of ValidatePost. The ids stand in the order in which the map is walked.
unfoldable pub check_originals : List Text → List Item → Option ReviewError
unfolding count_id
check_originals [] items = none
check_originals (id ∷ ids) items =
    let rest = check_originals ids items in
    let n = count_id id items in
    if n == 0
    then some (missing_source id)
    else if ltb 1 n
    then some (duplicate_source id n)
    else rest

-- The second loop, over the ids that the items have.
unfoldable pub check_invented : List Text → List Item → Option ReviewError
unfolding has_id
check_invented original [] = none
check_invented original (it ∷ its) =
    let rest = check_invented original its in
    if has_id it.source_id original then rest else some (invented_source it.source_id)

unfoldable pub validate_item : Item → Option ReviewError
unfolding is_allowed_item_decision
validate_item it =
    if not (is_allowed_item_decision it.decision)
    then some (invalid_decision it.source_id it.decision)
    else if is_empty it.decision
    then some (missing_decision it.source_id)
    else if text_eq it.decision accepted && is_empty it.plan_ref
    then some (missing_plan_ref it.source_id)
    else if not (is_empty it.reply) && ltb reply_max_runes (length it.reply)
    then some (reply_too_long it.source_id)
    else none

unfoldable pub validate_items : List Item → Option ReviewError
unfolding validate_item
validate_items [] = none
validate_items (it ∷ its) =
    let rest = validate_items its in elim (validate_item it) [ some e ↦ some e | none ↦ rest ]

abbrev pub or_else : Option ReviewError → Option ReviewError → Option ReviewError
or_else (some e) rest = some e
or_else none rest = rest

-- ValidatePost, `none` where it accepts.
unfoldable pub validate_post : ReviewFile → List Text → Option ReviewError
unfolding is_allowed_top_decision check_originals check_invented validate_items
validate_post f original =
    if not (is_allowed_top_decision f.decision)
    then some (invalid_top_decision f.decision)
    else if is_empty f.decision
    then some no_top_decision
    else or_else (check_originals original f.items)
        (or_else (check_invented original f.items) (validate_items f.items))

unfoldable pub any_accepted : List Item → Bool
any_accepted [] = false
any_accepted (it ∷ its) =
    let rest = any_accepted its in if text_eq it.decision accepted then true else rest

-- What os.Stat tells of the round's files: the size, or `none` where it fails.
pub record RoundFiles : Type 0 where
  pub plan : Option ℕ
  pub clarification : Option ℕ

check_file : ReviewError → ReviewError → Option ℕ → Option ReviewError
check_file missing empty none = some missing
check_file missing empty (some size) = if size == 0 then some empty else none

-- The artifact contract of ValidateRound.
unfoldable pub check_artifacts : ReviewFile → RoundFiles → Option ReviewError
unfolding any_accepted check_file
check_artifacts f r =
    if text_eq f.decision changes_needed
    then if not (any_accepted f.items)
      then some nothing_accepted
      else check_file plan_missing plan_empty r.plan
    else if text_eq f.decision clarification_needed
    then check_file clarification_missing clarification_empty r.clarification
    else none

unfoldable pub validate_round : ReviewFile → List Text → RoundFiles → Option ReviewError
unfolding validate_post check_artifacts
validate_round f original r = or_else (validate_post f original) (check_artifacts f r)
