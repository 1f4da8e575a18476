-- ===== src/Cli/Orchestrate.antt =====
-- RunOrchestrate of internal/cli/tasks/orchestrate.go, with phaseTagFor of orchestrate_lock.go: the
-- process that drives a task's agents, under the task's lock. Its signals and log lines are left out.
pub mod Holding
pub mod Laws
use j.Prelude.{
  ℕ, Bool, true, false, Text, codes, List, [], ◌∷◌, Option, none, some, Result, ok, err, Int64,
  is_empty, if◌then◌else◌,
}
use j.Tasks.Row.{Task, Time}
use j.Tasks.Fsm.{Transition}
use j.Tasks.Wire.{Toml}
use j.Tasks.Store.{Faults}
use j.Tasks.Transit.{Hook, World}
use j.Tasks.Lock.{
  Caller, Lock, LockFile, LockFaults, Write, AcquireError, acquire_lock, update_phase, release,
}
use j.Settings.Config.{ConfigError}
use j.Orchestrator.{
  RunPhase, full, plan_only, from_work, work_only, verify_only, Stage, tag, PhaseConfig, RunError,
  Stages, run_for_task,
}

pub record OrchestrateOptions : Type 0 where
  pub task_id : Text
  pub plan_requires_approval : Option Bool
  pub phase : RunPhase
  pub interactive : Bool
  pub has_agents : Bool

pub data OrchestrateError : Type 0 where
  id_required no_agents phase_conflict : OrchestrateError
  bad_config : ConfigError → OrchestrateError
  not_acquired : AcquireError → OrchestrateError
  run_error : RunError → OrchestrateError

-- `config` is the cap on iterations that LoadTaskConfig reads, `approval` the answer of
-- LoadPlanRequiresApproval, false for an error; `write` is what becomes of the write of a phase.
-- `agents` are the stages of the chain under that cap, which do not touch the lock's file.
pub record OrchestrateEnv (B O : Type 0) : Type 0 where
  pub faults : Faults
  pub now : Time
  pub hooks : List (Hook O)
  pub config : Result ConfigError Int64
  pub approval : Bool
  pub caller : Caller
  pub lock_faults : LockFaults
  pub fd : ℕ
  pub write : Text → Write
  pub close_fails : Bool
  pub agents : Int64 → Stages B O

unfoldable pub phase_tag_for : RunPhase → Text
phase_tag_for plan_only = codes "planning"
phase_tag_for work_only = codes "working"
phase_tag_for from_work = codes "working"
phase_tag_for verify_only = codes "verifying"
phase_tag_for full = codes "planning"

explicit_plan_approval : OrchestrateOptions → Bool
explicit_plan_approval opts = elim opts.plan_requires_approval [ none ↦ false | some b ↦ b ]

resolve_plan_requires_approval : Bool → Option Bool → Bool
resolve_plan_requires_approval setting none = setting
resolve_plan_requires_approval setting (some b) = b

phase_config : OrchestrateOptions → Bool → PhaseConfig
phase_config opts approval = record {
  phase = opts.phase;
  plan_requires_approval = approval;
  interactive = opts.interactive;
  has_tagger = true;
}

non_full : OrchestrateOptions → Result OrchestrateError PhaseConfig
unfolding phase_config explicit_plan_approval
non_full opts =
    if explicit_plan_approval opts then err phase_conflict else ok (phase_config opts false)

config_for : RunPhase → OrchestrateOptions → Bool → Result OrchestrateError PhaseConfig
unfolding phase_config non_full resolve_plan_requires_approval
config_for full opts setting =
    ok (phase_config opts (resolve_plan_requires_approval setting opts.plan_requires_approval))
config_for _ opts setting = non_full opts

-- dispatchOrchestratePhase, up to the call of the orchestrator.
unfoldable pub orchestrate_config : OrchestrateOptions → Bool → Result OrchestrateError PhaseConfig
unfolding config_for
orchestrate_config opts setting = config_for opts.phase opts setting

-- What the hooks observe, and the lock that the process holds with its file.
pub record Held (O : Type 0) : Type 0 where
  pub observed : O
  pub lock : Lock
  pub file : Option LockFile

module _ {O : Type 0} where
  abbrev under_lock : Hook O → Hook (Held O)
  under_lock hook step t h =
      let (o, panics) = hook step t h.observed in (record h { observed = o }, panics)

  pub under_locks : List (Hook O) → List (Hook (Held O))
  under_locks [] = []
  under_locks (hook ∷ rest) = under_lock hook ∷ under_locks rest

module _ {B O : Type 0} where
  abbrev pub inner : World B (Held O) → World B O
  inner w = record { store = w.store; observed = w.observed.observed; warnings = w.warnings }

  abbrev pub outer : Held O → World B O → World B (Held O)
  outer h w = record {
    store = w.store;
    observed = record h { observed = w.observed };
    warnings = w.warnings;
  }

  -- The stages of the chain, with the tagger, which drops the error of UpdatePhase.
  pub tagged_stages : OrchestrateEnv B O → Int64 → Stages B (Held O)
  tagged_stages env cap (tag phase) w =
      let (e, l, file) = update_phase phase (env.write phase) w.observed.lock w.observed.file in
      (record w { observed = record w.observed { lock = l; file = file } }, false)
  tagged_stages env cap stage w =
      let (after, failed) = env.agents cap stage (inner w) in (outer w.observed after, failed)

module _ (toml : Toml) {O : Type 0} where
  open toml use {Bytes}

  pub ended :
      World Bytes (Held O) × Option RunError → World Bytes (Held O) × Option OrchestrateError
  ended (w, none) = (w, none)
  ended (w, some e) = (w, some (run_error e))

  pub dispatched :
      OrchestrateEnv Bytes O
      → OrchestrateOptions
      → Int64
      → World Bytes (Held O)
      → Result OrchestrateError PhaseConfig
      → World Bytes (Held O) × Option OrchestrateError
  unfolding ended under_locks tagged_stages
  dispatched env opts cap w (err e) = (w, some e)
  dispatched env opts cap w (ok pc) = ended (
      run_for_task toml env.faults env.now (under_locks env.hooks) (tagged_stages env cap)
        opts.has_agents opts.task_id pc w)

  -- The deferred Release.
  abbrev pub given_back :
      OrchestrateEnv Bytes O
      → World Bytes (Held O) × Option OrchestrateError
      → World Bytes O × Option OrchestrateError × Option LockFile
  given_back env (w, e) = (inner w, e, (release env.close_fails w.observed.lock w.observed.file).2)

  pub on_lock :
      OrchestrateEnv Bytes O
      → OrchestrateOptions
      → Int64
      → World Bytes O
      → Result AcquireError Lock × Option LockFile
      → World Bytes O × Option OrchestrateError × Option LockFile
  unfolding dispatched
  on_lock env opts cap world (err e, file) = (world, some (not_acquired e), file)
  on_lock env opts cap world (ok l, file) = given_back env (
      dispatched env opts cap
        (record {
          store = world.store;
          observed = record { observed = world.observed; lock = l; file = file };
          warnings = world.warnings;
        })
        (orchestrate_config opts env.approval))

  pub on_config :
      OrchestrateEnv Bytes O
      → OrchestrateOptions
      → World Bytes O
      → Option LockFile
      → Result ConfigError Int64
      → World Bytes O × Option OrchestrateError × Option LockFile
  unfolding on_lock
  on_config env opts world file (err e) = (world, some (bad_config e), file)
  on_config env opts world file (ok cap) = on_lock env opts cap world (
      acquire_lock (record env.caller { phase = phase_tag_for opts.phase }) env.lock_faults env.fd
        file)

  -- RunOrchestrate: the world, the error, and the lock file.
  unfoldable pub run_orchestrate :
      OrchestrateEnv Bytes O
      → OrchestrateOptions
      → World Bytes O
      → Option LockFile
      → World Bytes O × Option OrchestrateError × Option LockFile
  unfolding on_config
  run_orchestrate env opts world file =
      if is_empty opts.task_id
      then (world, some id_required, file)
      else if opts.has_agents
      then on_config env opts world file env.config
      else (world, some no_agents, file)
