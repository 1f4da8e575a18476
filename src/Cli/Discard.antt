-- ===== src/Cli/Discard.antt =====
-- internal/cli/tasks/discard.go: a task's row and directory are removed.
-- The call of git that removes the worktree is left out but for the name that it looks for.
-- CleanAbort, which turns a cancelled form into no error, is left out.
pub mod Laws
use j.Prelude.{
  Bool, true, false, Text, List, [], ◌∷◌, Option, none, some, Result, ok, err, is_empty,
  if◌then◌else◌,
}
use j.Tasks.Row.{Task}
use j.Tasks.Wire.{Toml}
use j.Tasks.Store.{
  Faults, Store, StoreError, not_exist, get_task, list_tasks, delete_task, remove_dir,
}
use j.Tasks.Sort.{sort_tasks}
use j.Tasks.Worktree.{worktree_name_for}
use j.Cli.Pick.{PickError, pick_from_store}
use j.Resolver.{Picked, picked, left, broken}

pub data DiscardError : Type 0 where
  unpicked : PickError → DiscardError
  not_read : StoreError → DiscardError
  not_confirmed : DiscardError
  not_removed : Text → StoreError → DiscardError

-- `discarded` has the id of the row, and the name of the worktree that goes with it.
pub data Discard : Type 0 where
  nothing_picked no_task aborted : Discard
  discarded : Text → Text → Discard

-- The flags, the project's name, and what the user answers, where `confirm` is `none` for an error.
pub record DiscardOptions : Type 0 where
  pub task_id : Text
  pub confirmed : Bool  -- DiscardOptions.Yes
  pub project : Text
  pub pick : List Task → Picked
  pub confirm : Task → Option Bool

-- The name that removeTaskWorktree looks for.
unfoldable pub worktree_of : Text → Task → Text
worktree_of project t = if is_empty t.worktree then worktree_name_for project t else t.worktree

module _ (toml : Toml) where
  open toml use {Bytes}

  abbrev pub Discarded : Type 0
  Discarded = Result DiscardError Discard × Store Bytes

  removed : Text → Text → Option StoreError × Store Bytes → Discarded
  removed id name (some e, s) = (err (not_removed id e), s)
  removed id name (none, s) = (ok (discarded id name), s)

  -- The error of DeleteTask is dropped.
  unfoldable pub wiped : Faults → Text → Text → Store Bytes → Discarded
  unfolding removed
  wiped w id name s = removed id name (remove_dir w id (delete_task toml w id s).1)

  answered : Faults → Text → Text → Store Bytes → Option Bool → Discarded
  answered w id name s none = (err not_confirmed, s)
  answered w id name s (some false) = (ok aborted, s)
  answered w id name s (some true) = wiped w id name s

  on_row : Faults → DiscardOptions → Text → Store Bytes → Result StoreError Task → Discarded
  unfolding answered
  on_row w opts id s (err (not_exist name)) = (ok no_task, s)
  on_row w opts id s (err e) = (err (not_read e), s)
  on_row w opts id s (ok t) =
      answered w id (worktree_of opts.project t) s
        (if opts.confirmed then some true else opts.confirm t)

  on_id : Faults → DiscardOptions → Store Bytes → Result PickError (Option Text) → Discarded
  unfolding on_row
  on_id w opts s (err e) = (err (unpicked e), s)
  on_id w opts s (ok none) = (ok nothing_picked, s)
  on_id w opts s (ok (some id)) = on_row w opts id s (get_task toml id s)

  unfoldable pub run_discard : Faults → DiscardOptions → Store Bytes → Discarded
  unfolding on_id
  run_discard w opts s =
      on_id w opts s (
        if is_empty opts.task_id
        then pick_from_store toml w opts.pick s
        else ok (some opts.task_id))
