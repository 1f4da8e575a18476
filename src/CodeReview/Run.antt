-- ===== src/CodeReview/Run.antt =====
-- code_review_child.go and the resolver's code_review.go: one round of a code review, from the
-- fetched feedback to the check of what the planner made of it, under the task's lock.
pub mod Laws
pub mod Again
pub mod Locked
use j.Prelude.{
  ℕ, Bool, true, false, Text, codes, List, [], ◌∷◌, map, Option, none, some, Result, ok, err,
  is_empty, trim_space, length, ◌==◌, ◌||◌, if◌then◌else◌,
}
use j.Tasks.Status.{TaskStatus, planning, working, verifying}
use j.Tasks.Row.{Task, Time}
use j.Tasks.Wire.{Toml}
use j.Tasks.Store.{Store}
use j.Tasks.Lock.{Caller, Lock, LockFile, LockFaults, AcquireError, acquire_lock, release}
use j.Resolver.{ResolveError, task_by_id}
use j.Github.{FeedbackItem, ItemKind, conversation_comment, review_comment, review_summary}
use j.Github.Url.{Url, UrlError, PrRef, parse_url}
use j.Github.Fetch.{Server, FetchError, FetchResult, fetch_pr}
use j.CodeReview.{Item, ReviewFile, RoundFiles, ReviewError, snapshot_source_ids, validate_round}
use j.CodeReview.Rounds.{
  Rounds, Round, RoundEntry, RoundContent, RoundFaults, RoundError, Resolved, stray_file, round_dir,
  entry_at, set_entry, empty_round, resolve_or_allocate,
}

pub data RunError : Type 0 where
  task_required no_agents no_pr_url planner_failed review_unreadable save_failed : RunError
  lock_failed : AcquireError → RunError
  task_unresolved : ResolveError → RunError
  status_forbids : TaskStatus → RunError
  round_failed : RoundError → RunError
  bad_url : UrlError → RunError
  fetch_failed : FetchError → RunError
  invalid : ReviewError → RunError

-- What the planner's process makes of the rounds, and whether running or waiting for it fails.
abbrev pub Planner : Type 0
Planner = Round → Bool → Rounds → Rounds × Bool

-- `url` is url.Parse on the trimmed text, `pages` the fuel of the fetch.
pub record ReviewEnv : Type 0 where
  pub faults : RoundFaults
  pub url : Text → Option Url
  pub server : Server
  pub pages : ℕ
  pub now : Time
  pub save_fails : Bool
  pub planner : Planner

kind_text : ItemKind → Text
kind_text conversation_comment = codes "conversation_comment"
kind_text review_comment = codes "review_comment"
kind_text review_summary = codes "review_summary"

unfoldable pub item_from_fetch : FeedbackItem → Item
unfolding kind_text
item_from_fetch it = record {
  source_id = it.source_id;
  kind = kind_text it.kind;
  thread_id = it.thread_id;
  author = it.author;
  body = it.body;
  path = it.path;
  line = it.line;
  is_outdated = it.is_outdated;
  has_j_reply = it.has_j_reply;
  decision = [];
  reason = [];
  reply = [];
  plan_ref = [];
}

abbrev pub schema_version : ℕ
schema_version = 1

-- The file that FetchAndWriteReview saves.
unfoldable pub review_of : Time → FetchResult → ReviewFile
unfolding item_from_fetch
review_of now res = record {
  schema_version = schema_version;
  provider = codes "github";
  fetched_at = now;
  decision = [];
  summary = [];
  pr = record {
    url = res.pr.url;
    owner = res.pr.owner;
    repo = res.pr.repo;
    number = res.pr.number;
    state = res.pr.state;
    draft = res.pr.draft;
    merged = res.pr.merged;
  };
  items = map item_from_fetch res.items;
}

content_of : Option RoundEntry → RoundContent
content_of (some (round_dir c)) = c
content_of _ = empty_round

-- codereview.Load, `none` where it fails.
unfoldable pub review_at : Text → Rounds → Option ReviewFile
unfolding content_of
review_at name rounds = (content_of (entry_at name rounds)).review

unfoldable pub files_at : Text → Rounds → RoundFiles
unfolding content_of
files_at name rounds = (content_of (entry_at name rounds)).files

-- codereview.Save, a write to one side and a rename.
unfoldable pub save_review : Text → ReviewFile → Rounds → Rounds
unfolding content_of
save_review name f rounds =
    set_entry name (round_dir (record (content_of (entry_at name rounds)) { review = some f }))
      rounds

-- The ids that the check will ask for, and the rounds.
abbrev pub Prepared : Type 0
Prepared = Result RunError (List Text) × Rounds

written : ReviewEnv → Round → Rounds → Result FetchError FetchResult → Prepared
unfolding save_review review_of
written env round rounds (err e) = (err (fetch_failed e), rounds)
written env round rounds (ok res) =
    let f = review_of env.now res in
    if env.save_fails
    then (err save_failed, rounds)
    else (ok (snapshot_source_ids f.items), save_review round.name f rounds)

-- FetchAndWriteReview, behind github.ParseURL.
fetched : ReviewEnv → Round → Rounds → Result UrlError PrRef → Prepared
unfolding written
fetched env round rounds (err e) = (err (bad_url e), rounds)
fetched env round rounds (ok ref) = written env round rounds (fetch_pr env.pages env.server ref)

loaded : Rounds → Option ReviewFile → Prepared
loaded rounds none = (err review_unreadable, rounds)
loaded rounds (some f) = (ok (snapshot_source_ids f.items), rounds)

unfoldable pub prepare_round_review : ReviewEnv → Task → Round → Bool → Rounds → Prepared
unfolding fetched loaded
prepare_round_review env row round resumed rounds =
    if resumed
    then loaded rounds (review_at round.name rounds)
    else fetched env round rounds (parse_url (env.url (trim_space row.pull_request_url)))

refused : Option ReviewError → Option RunError
refused none = none
refused (some e) = some (invalid e)

checked : Round → List Text → Rounds → Option ReviewFile → Option RunError
unfolding refused
checked round ids rounds none = some review_unreadable
checked round ids rounds (some f) = refused (validate_round f ids (files_at round.name rounds))

unfoldable pub validate_review_round : Round → List Text → Rounds → Option RunError
unfolding checked
validate_review_round round ids rounds = checked round ids rounds (review_at round.name rounds)

-- The error, `none` for a round that went well, and the rounds behind it.
abbrev pub Ran : Type 0
Ran = Option RunError × Rounds

planned : ReviewEnv → Round → Bool → Prepared → Ran
unfolding validate_review_round
planned env round resumed (err e, rounds) = (some e, rounds)
planned env round resumed (ok ids, rounds) =
    let (after, failed) = env.planner round resumed rounds in
    if failed then (some planner_failed, after) else (validate_review_round round ids after, after)

behind_round : ReviewEnv → Task → Resolved → Ran
unfolding planned prepare_round_review
behind_round env row (err e, rounds) = (some (round_failed e), rounds)
behind_round env row (ok (round, resumed), rounds) =
    planned env round resumed (prepare_round_review env row round resumed rounds)

unfoldable pub execute_code_review_round : ReviewEnv → Task → Rounds → Ran
unfolding behind_round
execute_code_review_round env row rounds =
    behind_round env row (resolve_or_allocate env.faults rounds)

unfoldable pub review_disallowed : TaskStatus → Bool
review_disallowed planning = true
review_disallowed working = true
review_disallowed verifying = true
review_disallowed _ = false

-- GuardCodeReviewTask, `none` where it lets the row through.
unfoldable pub guard_code_review_task : Task → Option RunError
unfolding review_disallowed
guard_code_review_task row =
    if is_empty row.pull_request_url
    then some no_pr_url
    else if review_disallowed row.status
    then some (status_forbids row.status)
    else none

module _ (toml : Toml) where
  open toml use {Bytes}

  guarded : ReviewEnv → Task → Rounds → Option RunError → Ran
  guarded env row rounds (some e) = (some e, rounds)
  guarded env row rounds none = execute_code_review_round env row rounds

  under_lock : ReviewEnv → Rounds → Result ResolveError Task → Ran
  unfolding guarded
  under_lock env rounds (err e) = (some (task_unresolved e), rounds)
  under_lock env rounds (ok row) = guarded env row rounds (guard_code_review_task row)

  -- The round under the lock, and the deferred Release, whose error is dropped.
  locked_run :
      ReviewEnv
      → Bool
      → Text
      → Store Bytes
      → Rounds
      → Result AcquireError Lock × Option LockFile
      → Ran × Option LockFile
  unfolding under_lock
  locked_run env close_fails id s rounds (err e, file) = ((some (lock_failed e), rounds), file)
  locked_run env close_fails id s rounds (ok lock, file) =
      (under_lock env rounds (task_by_id toml id s), (release close_fails lock file).2)

  -- RunCodeReviewChild. `has_agents` tells whether any coding agent is configured, `fd` is the
  -- number of the lock file that is opened.
  unfoldable pub run_code_review_child :
      ReviewEnv
      → Bool
      → Caller
      → LockFaults
      → Bool
      → ℕ
      → Text
      → Store Bytes
      → Rounds
      → Option LockFile
      → Ran × Option LockFile
  unfolding locked_run
  run_code_review_child env has_agents c w close_fails fd id s rounds file =
      if is_empty id
      then ((some task_required, rounds), file)
      else if has_agents
      then locked_run env close_fails id s rounds (acquire_lock c w fd file)
      else ((some RunError.no_agents, rounds), file)
