-- ===== src/Cli/Continue.antt =====
-- continue.go and continue_dispatch.go: `j tasks continue` sends a row to the phase that it waits
-- for. What the launched process does is not part of it.
pub mod Laws
pub mod Entry
use j.Prelude.{
  ℕ, Bool, true, false, Text, codes, List, [], ◌∷◌, ◌++◌, Option, none, some, Result, ok, err,
  is_empty, ltb, if◌then◌else◌,
}
use j.Tasks.Status.{
  TaskStatus, planning, plan_pending_approval, plan_done, working, work_done, verifying,
  needs_clarification, completed, failed, help, unlisted,
}
use j.Tasks.Row.{Task, Time, is_zero}
use j.Tasks.Fsm.{Event, plan_approve, plan_resume, work_resume, verify_resume}
use j.Tasks.Wire.{Toml}
use j.Tasks.Store.{Faults, Store, StoreError, ensure_dir, get_task, put_task}
use j.Tasks.Transit.{Hook, World, apply_and_persist_warn}
use j.Cli.Phase.{Phase, plan_phase, work_phase, verify_phase, latest_phase}

pub data Message : Type 0 where
  use_resume_plan use_resume_work already_finished : Message

pub data ContinueError : Type 0 where
  unsupported_status : TaskStatus → ContinueError
  no_resumable_phase : ContinueError
  no_target : ContinueError  -- StartTargetFromExistingTask
  no_task_dir : StoreError → ContinueError
  not_spawned : ContinueError

-- What a call ends with: a line for the user, a child that runs in the foreground, a child that
-- runs detached, or an error. The arguments are those of `j`.
pub data Dispatch : Type 0 where
  told : Message → Dispatch
  inline : List Text → Dispatch
  detached : List Text → Dispatch
  refused : ContinueError → Dispatch

-- `interactive` is the answer of resolver.Interactive, `approval` the setting, `target_fails`
-- whether StartTargetFromExistingTask fails, and `spawn_fails` whether the detached child does not
-- start. `tool` and `model` are the flags.
pub record ContinueEnv (O : Type 0) : Type 0 where
  pub faults : Faults
  pub now : Time
  pub hooks : List (Hook O)
  pub interactive : Bool
  pub approval : Bool
  pub target_fails : Bool
  pub spawn_fails : Bool
  pub tool : Text
  pub model : Text

abbrev format_bool : Bool → Text
format_bool true = codes "true"
format_bool false = codes "false"

orchestrate : Text → List Text → List Text
orchestrate id flags = codes "tasks" ∷ codes "orchestrate" ∷ codes "--id" ∷ id ∷ flags

optional_flag : Text → Text → List Text
optional_flag flag value = if is_empty value then [] else (flag ++ value) ∷ []

-- The arguments that each phase is launched with.
unfoldable pub verify_args : Text → List Text
unfolding orchestrate
verify_args id = orchestrate id (codes "--phase=verify-only" ∷ [])

unfoldable pub work_args : Bool → Text → Text → Text → List Text
unfolding orchestrate optional_flag
work_args interactive tool model id =
    orchestrate id
      (codes "--phase=from-work" ∷ (codes "--interactive=" ++ format_bool interactive) ∷ [])
    ++ optional_flag (codes "--tool=") tool
    ++ optional_flag (codes "--model=") model

unfoldable pub plan_args : Bool → Text → List Text
unfolding orchestrate
plan_args approval id =
    orchestrate id (
      (codes "--plan-requires-approval=" ++ format_bool approval) ∷ codes "--interactive=true" ∷ [])

-- taskDir is empty where EnsureDir fails, and filepath.Join then gives the bare name.
log_path : Option StoreError → Text → Text → Text
log_path none dir id = dir ++ codes "/" ++ id ++ codes "/agent.log"
log_path (some e) dir id = codes "agent.log"

abbrev pub resume_event : Phase → Event
resume_event plan_phase = plan_resume
resume_event work_phase = work_resume
resume_event verify_phase = verify_resume

module _ (toml : Toml) {O : Type 0} where
  open toml use {Bytes}

  stamped : ContinueEnv O → Text → World Bytes O → Result StoreError Task → World Bytes O
  stamped env path world (err e) = record world { warnings = world.warnings ++ e ∷ [] }
  stamped env path world (ok row) =
      let (e, s) = put_task toml env.faults (record row { agent_log_path = path }) world.store in
      record world {
        store = s;
        warnings = elim e [ none ↦ world.warnings | some x ↦ world.warnings ++ x ∷ [] ];
      }

  -- stampSpawnOnRow: the row is read again, so that only its log path changes.
  unfoldable pub stamp_spawn_on_row : ContinueEnv O → Text → Text → World Bytes O → World Bytes O
  unfolding stamped
  stamp_spawn_on_row env id path world = stamped env path world (get_task toml id world.store)

  pub spawned : ContinueEnv O → Text → Text → List Text → World Bytes O → Dispatch × World Bytes O
  unfolding stamp_spawn_on_row
  spawned env id path args world =
      if env.spawn_fails
      then (refused not_spawned, world)
      else (detached args, stamp_spawn_on_row env id path world)

  abbrev with_dir : ContinueEnv O → Text → World Bytes O → World Bytes O
  with_dir env id world = record world { store = (ensure_dir env.faults id world.store).1 }

  unfoldable pub reverify_as_detached_orchestrator :
      ContinueEnv O → Text → World Bytes O → Dispatch × World Bytes O
  unfolding spawned log_path
  reverify_as_detached_orchestrator env id world =
      let (e, s) = ensure_dir env.faults id world.store in
      spawned env id (log_path e world.store.tasks_dir id) (verify_args id)
        (record world { store = s })

  unfoldable pub resume_verifying_inline :
      ContinueEnv O → Text → World Bytes O → Dispatch × World Bytes O
  resume_verifying_inline env id world =
      (inline (verify_args id ++ codes "--interactive=true" ∷ []), with_dir env id world)

  unfoldable pub resume_work_inline_orchestrator :
      ContinueEnv O → Text → World Bytes O → Dispatch × World Bytes O
  resume_work_inline_orchestrator env id world =
      (inline (work_args true [] [] id), with_dir env id world)

  unfoldable pub resume_plan_inline_orchestrator :
      ContinueEnv O → Text → World Bytes O → Dispatch × World Bytes O
  resume_plan_inline_orchestrator env id world =
      if env.target_fails
      then (refused no_target, world)
      else (inline (plan_args env.approval id), with_dir env id world)

  pub plan_done_work :
      ContinueEnv O → Text → World Bytes O → Option StoreError → Text → Dispatch × World Bytes O
  unfolding spawned log_path
  plan_done_work env id world (some e) dir = (refused (no_task_dir e), world)
  plan_done_work env id world none dir =
      let args = work_args env.interactive env.tool env.model id in
      if env.interactive
      then (inline args, world)
      else spawned env id (log_path none dir id) args world

  unfoldable pub run_plan_done_work :
      ContinueEnv O → Text → World Bytes O → Dispatch × World Bytes O
  unfolding plan_done_work
  run_plan_done_work env id world =
      let (e, s) = ensure_dir env.faults id world.store in
      plan_done_work env id (record world { store = s }) e world.store.tasks_dir

  unfoldable pub resume_phase :
      ContinueEnv O → Text → World Bytes O → Phase → Dispatch × World Bytes O
  unfolding resume_verifying_inline resume_work_inline_orchestrator resume_plan_inline_orchestrator
  resume_phase env id world verify_phase = resume_verifying_inline env id world
  resume_phase env id world work_phase = resume_work_inline_orchestrator env id world
  resume_phase env id world plan_phase = resume_plan_inline_orchestrator env id world

  unfoldable pub dispatch_help : ContinueEnv O → Task → World Bytes O → Dispatch × World Bytes O
  unfolding resume_phase
  dispatch_help env t world = elim (latest_phase t) [
    | none ↦ (refused no_resumable_phase, world)
    | some p ↦ resume_phase env t.id world p
  ]

  unfoldable pub dispatch_clarification :
      ContinueEnv O → Task → World Bytes O → Dispatch × World Bytes O
  unfolding resume_phase
  dispatch_clarification env t world = elim (latest_phase t) [
    | none ↦ (refused no_resumable_phase, world)
    | some p ↦
        resume_phase env t.id
          (apply_and_persist_warn toml env.faults env.now env.hooks t (resume_event p) world).world
          p
  ]

  unfoldable pub dispatch_plan_approve :
      ContinueEnv O → Task → World Bytes O → Dispatch × World Bytes O
  unfolding run_plan_done_work
  dispatch_plan_approve env t world =
      run_plan_done_work env t.id
        (apply_and_persist_warn toml env.faults env.now env.hooks t plan_approve world).world

  pub dispatch_on : TaskStatus → ContinueEnv O → Task → World Bytes O → Dispatch × World Bytes O
  unfolding dispatch_plan_approve reverify_as_detached_orchestrator dispatch_clarification
      dispatch_help resume_verifying_inline run_plan_done_work
  dispatch_on planning env t world = (told use_resume_plan, world)
  dispatch_on plan_pending_approval env t world = dispatch_plan_approve env t world
  dispatch_on plan_done env t world = run_plan_done_work env t.id world
  dispatch_on working env t world = (told use_resume_work, world)
  dispatch_on work_done env t world = reverify_as_detached_orchestrator env t.id world
  dispatch_on verifying env t world = resume_verifying_inline env t.id world
  dispatch_on needs_clarification env t world = dispatch_clarification env t world
  dispatch_on completed env t world = (told already_finished, world)
  dispatch_on failed env t world = (told already_finished, world)
  dispatch_on help env t world = dispatch_help env t world
  dispatch_on (unlisted s) env t world = (refused (unsupported_status (unlisted s)), world)

  unfoldable pub dispatch_by_status :
      ContinueEnv O → Task → World Bytes O → Dispatch × World Bytes O
  unfolding dispatch_on
  dispatch_by_status env t world = dispatch_on t.status env t world
