-- ===== src/CodeReview/Rounds.antt =====
-- internal/store/codereview/round.go: the directories of a task's code reviews, one for each round,
-- and the choice between a new round and the last one.
pub mod Latest
pub mod Numbers
pub mod Laws
use j.Prelude.{
  ℕ, suc, Bool, true, false, Text, codes, List, [], ◌∷◌, ◌++◌, Option, none, some, Result, ok, err,
  Ordering, compare, sort, text_eq, has_prefix, atoi, int_of, int_succ, print_int, Int64, ◌==◌,
  ◌||◌, if◌then◌else◌,
}
use j.Tasks.Store.{StoreError}
use j.CodeReview.{ReviewFile, RoundFiles}

-- What a round's directory holds: its review.toml, `none` where it cannot be read or decoded, and
-- what os.Stat tells of plan.md and clarification.md.
pub record RoundContent : Type 0 where
  pub review : Option ReviewFile
  pub files : RoundFiles

abbrev pub empty_round : RoundContent
empty_round = record { review = none; files = record { plan = none; clarification = none } }

-- What stands in `code-reviews` under one name.
pub data RoundEntry : Type 0 where
  stray_file : RoundEntry
  round_dir : RoundContent → RoundEntry

abbrev pub Rounds : Type 0
Rounds = List (Text × RoundEntry)

pub record Round : Type 0 where
  pub n : Int64
  pub name : Text  -- the last part of `Dir`, below the task's `code-reviews`

pub data RoundError : Type 0 where
  no_task_dir : StoreError → RoundError
  root_not_made root_unreadable round_not_made : RoundError

-- The error of EnsureDir, and calls on the directories that the operating system refuses.
pub record RoundFaults : Type 0 where
  pub ensure_dir : Option StoreError
  pub mkdir_root : Bool
  pub read_dir : Bool
  pub mkdir_round : Bool

abbrev pub round_dir_prefix : Text
round_dir_prefix = codes "round-"

unfoldable pub new_round_at : Int64 → Round
new_round_at n = record { n = n; name = round_dir_prefix ++ print_int n }

-- strings.TrimPrefix, behind HasPrefix.
drop_prefix : Text → Text → Text
drop_prefix [] s = s
drop_prefix (c ∷ p) [] = []
drop_prefix (c ∷ p) (d ∷ s) = drop_prefix p s

positive : Option Int64 → Option ℕ
positive none = none
positive (some i) = if i.negative || i.magnitude == 0 then none else some i.magnitude

unfoldable pub parse_round_dir : Text → Option ℕ
unfolding drop_prefix positive
parse_round_dir name =
    if has_prefix name round_dir_prefix
    then positive (atoi (drop_prefix round_dir_prefix name))
    else none

pub on_list : Option ℕ → List ℕ → List ℕ
on_list none ns = ns
on_list (some n) ns = n ∷ ns

-- The loop of listRoundNumbers: names that are no directory or no round are passed over.
unfoldable pub round_numbers : Rounds → List ℕ
unfolding on_list
round_numbers [] = []
round_numbers ((name, stray_file) ∷ rest) = round_numbers rest
round_numbers ((name, round_dir content) ∷ rest) =
    on_list (parse_round_dir name) (round_numbers rest)

unfoldable pub list_round_numbers : Rounds → List ℕ
list_round_numbers rounds = sort compare (round_numbers rounds)

unfoldable pub last : List ℕ → Option ℕ
last [] = none
last (n ∷ []) = some n
last (n ∷ m ∷ ns) = last (m ∷ ns)

unfoldable pub entry_at : Text → Rounds → Option RoundEntry
entry_at name [] = none
entry_at name ((other, e) ∷ rest) = if text_eq other name then some e else entry_at name rest

unfoldable pub set_entry : Text → RoundEntry → Rounds → Rounds
set_entry name e [] = (name, e) ∷ []
set_entry name e ((other, old) ∷ rest) =
    if text_eq other name then (other, e) ∷ rest else (other, old) ∷ set_entry name e rest

clarification_in : Option RoundEntry → Bool
clarification_in none = false
clarification_in (some stray_file) = false
clarification_in (some (round_dir content)) = elim content.files.clarification [
  | none ↦ false
  | some size ↦ true
]

-- hasClarification, on a round's name.
unfoldable pub has_clarification : Text → Rounds → Bool
unfolding clarification_in
has_clarification name rounds = clarification_in (entry_at name rounds)

-- os.MkdirAll on the round's directory, which leaves one that is there as it is.
made : RoundFaults → Round → Rounds → Option RoundEntry → Result RoundError Rounds
made w round rounds none =
    if w.mkdir_round
    then err round_not_made
    else ok (set_entry round.name (round_dir empty_round) rounds)
made w round rounds (some stray_file) = err round_not_made
made w round rounds (some (round_dir content)) =
    if w.mkdir_round then err round_not_made else ok rounds

-- A round, and whether it is resumed; the directories stay as they were on an error.
abbrev pub Resolved : Type 0
Resolved = Result RoundError (Round × Bool) × Rounds

allocated : Round → Rounds → Result RoundError Rounds → Resolved
allocated round rounds (err e) = (err e, rounds)
allocated round rounds (ok after) = (ok (round, false), after)

unfoldable pub allocate : RoundFaults → Int64 → Rounds → Resolved
unfolding allocated made new_round_at
allocate w n rounds =
    let round = new_round_at n in
    allocated round rounds (made w round rounds (entry_at round.name rounds))

resolve_behind : RoundFaults → Rounds → Option ℕ → Resolved
unfolding new_round_at
resolve_behind w rounds none = allocate w (int_of 1) rounds
resolve_behind w rounds (some latest) =
    let round = new_round_at (int_of latest) in
    if has_clarification round.name rounds
    then (ok (round, true), rounds)
    else allocate w (int_succ latest) rounds

-- ResolveOrAllocate. `roundsDir` and the listing fail first.
unfoldable pub resolve_or_allocate : RoundFaults → Rounds → Resolved
unfolding resolve_behind
resolve_or_allocate w rounds = elim w.ensure_dir [
  | some e ↦ (err (no_task_dir e), rounds)
  | none ↦
      if w.mkdir_root
      then (err root_not_made, rounds)
      else if w.read_dir
      then (err root_unreadable, rounds)
      else resolve_behind w rounds (last (list_round_numbers rounds))
]
