-- ===== src/Cli/Continue/Entry.antt =====
-- RunContinue of continue.go: the row that `j tasks continue` works on, and the dispatch.
-- CleanAbort, which turns a cancelled form into no error, is left out.
pub mod Laws
use j.Prelude.{
  Text, List, [], ◌∷◌, Option, none, some, Result, ok, err, Bool, true, false, is_empty,
  if◌then◌else◌,
}
use j.Tasks.Row.{Task}
use j.Tasks.Wire.{Toml}
use j.Tasks.Store.{StoreError, not_exist, get_task}
use j.Tasks.Transit.{World}
use j.Resolver.{Picked}
use j.Cli.Pick.{PickError, pick_from_store}
use j.Cli.Continue.{ContinueEnv, Dispatch, dispatch_by_status}

-- Why no row is dispatched: `no_agents`, `unpicked` and `not_read` are errors.
pub data Missed : Type 0 where
  no_agents nothing_picked no_task : Missed
  unpicked : PickError → Missed
  not_read : StoreError → Missed

-- A flag, what the user picks, and whether any coding agent is configured.
pub record ContinueOptions : Type 0 where
  pub task_id : Text
  pub pick : List Task → Picked
  pub has_agents : Bool

abbrev pub Chosen : Type 0
Chosen = Result Missed Task

-- A row that the user names may be absent.
of_named : Result StoreError Task → Chosen
of_named (err (not_exist name)) = err no_task
of_named (err e) = err (not_read e)
of_named (ok t) = ok t

of_picked : Result StoreError Task → Chosen
of_picked (err e) = err (not_read e)
of_picked (ok t) = ok t

abbrev pub Continued : Type 0 → Type 0 → Type 0
Continued B O = Result Missed Dispatch × World B O

module _ (toml : Toml) {O : Type 0} where
  open toml use {Bytes}

  read_picked : World Bytes O → Result PickError (Option Text) → Chosen
  unfolding of_picked
  read_picked world (err e) = err (unpicked e)
  read_picked world (ok none) = err nothing_picked
  read_picked world (ok (some id)) = of_picked (get_task toml id world.store)

  unfoldable pub resolve_continue_task_from_store :
      ContinueEnv O → ContinueOptions → World Bytes O → Chosen
  unfolding of_named read_picked
  resolve_continue_task_from_store env opts world =
      if is_empty opts.task_id
      then read_picked world (pick_from_store toml env.faults opts.pick world.store)
      else of_named (get_task toml opts.task_id world.store)

  on_chosen : ContinueEnv O → World Bytes O → Chosen → Continued Bytes O
  on_chosen env world (err m) = (err m, world)
  on_chosen env world (ok t) = let (d, after) = dispatch_by_status toml env t world in (ok d, after)

  unfoldable pub run_continue : ContinueEnv O → ContinueOptions → World Bytes O → Continued Bytes O
  unfolding on_chosen
  run_continue env opts world =
      if opts.has_agents
      then on_chosen env world (resolve_continue_task_from_store env opts world)
      else (err no_agents, world)
