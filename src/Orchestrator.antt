-- ===== src/Orchestrator.antt =====
-- internal/lifecycle/orchestrator: the chain of agents that one run drives, the guard in front of
-- the verifier, and the last look at the row. The agents' constructors are taken to succeed; what
-- a stage does to the world is the argument `Stages`. The sequential agent of the agent kit runs
-- its parts in order, and a run ends at the first error.
pub mod Laws
pub mod Drive
use j.Prelude.{
  Bool, true, false, Text, codes, List, [], ◌∷◌, ◌++◌, Option, none, some, Result, ok, err,
  is_empty, text_eq, ◌||◌, if◌then◌else◌,
}
use j.Tasks.Status.{needs_clarification, status_eq}
use j.Tasks.Row.{Time, Task}
use j.Tasks.Fsm.{verify_stuck}
use j.Tasks.Wire.{Toml}
use j.Tasks.Store.{Faults, StoreError, get_task}
use j.Tasks.Transit.{Hook, World, Applied, TransitError, illegal, not_stored, apply_and_persist}

pub data RunPhase : Type 0 where
  full plan_only from_work work_only verify_only : RunPhase

unfoldable pub parse_run_phase : Text → Option RunPhase
parse_run_phase s =
    if is_empty s || text_eq s (codes "full")
    then some full
    else if text_eq s (codes "plan-only")
    then some plan_only
    else if text_eq s (codes "from-work")
    then some from_work
    else if text_eq s (codes "work-only")
    then some work_only
    else if text_eq s (codes "verify-only")
    then some verify_only
    else none

-- An agent of the chain: `tag` records the phase in the lock file, and the flags are Interactive.
pub data Stage : Type 0 where
  tag : Text → Stage
  planner worker : Bool → Stage
  verifier guarded_verifier : Stage

pub record PhaseConfig : Type 0 where
  pub phase : RunPhase
  pub plan_requires_approval : Bool
  pub interactive : Bool
  pub has_tagger : Bool

abbrev tagged : Bool → Text → Stage → List Stage
tagged has_tagger phase stage = if has_tagger then tag phase ∷ stage ∷ [] else stage ∷ []

pub plan_stages : PhaseConfig → List Stage
plan_stages pc = tagged pc.has_tagger (codes "planning") (planner pc.interactive)

pub work_verify_stages : PhaseConfig → Bool → List Stage
work_verify_stages pc interactive =
    tagged pc.has_tagger (codes "working") (worker interactive) ++ guarded_verifier ∷ []

pub stages_of : RunPhase → PhaseConfig → List Stage
unfolding plan_stages work_verify_stages
stages_of verify_only pc = tagged pc.has_tagger (codes "verifying") verifier
stages_of work_only pc = tagged pc.has_tagger (codes "working") (worker pc.interactive)
stages_of from_work pc = work_verify_stages pc pc.interactive
stages_of plan_only pc = plan_stages pc
stages_of full pc =
    if pc.plan_requires_approval
    then plan_stages pc
    else plan_stages pc ++ work_verify_stages pc false

-- taskSubAgents
unfoldable pub task_sub_agents : PhaseConfig → List Stage
unfolding stages_of
task_sub_agents pc = stages_of pc.phase pc

pub data RunError : Type 0 where
  task_id_required no_agents stage_failed : RunError

-- What a stage leaves, and whether it yields an error.
abbrev pub Stages : Type 0 → Type 0 → Type 0
Stages B O = Stage → World B O → World B O × Bool

unfoldable pub stopped : Result StoreError Task → Bool
unfolding status_eq
stopped (err e) = false
stopped (ok t) = status_eq t.status needs_clarification

module _ (toml : Toml) {O : Type 0} where
  open toml use {Bytes}

  -- A row that cannot be read counts as not stopped.
  unfoldable pub row_stopped_at_clarification : Text → World Bytes O → Bool
  unfolding stopped
  row_stopped_at_clarification id world = stopped (get_task toml id world.store)

  -- One agent of the chain; the guard tags the phase itself, and runs the verifier.
  unfoldable pub run_stage :
      Stages Bytes O → Bool → Text → Stage → World Bytes O → World Bytes O × Bool
  unfolding row_stopped_at_clarification
  run_stage stages has_tagger id guarded_verifier world =
      if row_stopped_at_clarification id world
      then (world, false)
      else let tagged_world =
          if has_tagger then (stages (tag (codes "verifying")) world).0 else world in
        stages verifier tagged_world
  run_stage stages has_tagger id (tag phase) world = ((stages (tag phase) world).0, false)
  run_stage stages has_tagger id stage world = stages stage world

  -- driveSequential
  unfoldable pub drive_sequential :
      Stages Bytes O → Bool → Text → List Stage → World Bytes O → World Bytes O × Bool
  drive_sequential stages has_tagger id [] world = (world, false)
  drive_sequential stages has_tagger id (stage ∷ rest) world =
      let (after, failed) = run_stage stages has_tagger id stage world in
      let end = drive_sequential stages has_tagger id rest after in
      if failed then (after, true) else end

  -- A refusal by the rules is the silent case; a refused write is a line on standard error.
  pub reported : Applied Bytes O → World Bytes O
  reported a = elim a.error [
    | none ↦ a.world
    | some (illegal x) ↦ a.world
    | some (not_stored e) ↦ record a.world { warnings = a.world.warnings ++ e ∷ [] }
  ]

  pub finalised :
      Faults → Time → List (Hook O) → World Bytes O → Result StoreError Task → World Bytes O
  unfolding reported
  finalised w now hooks world (err e) = world
  finalised w now hooks world (ok t) =
      reported (apply_and_persist toml w now hooks t verify_stuck world)

  unfoldable pub finalise_verify_fail_if_stuck :
      Faults → Time → List (Hook O) → Text → World Bytes O → World Bytes O
  unfolding finalised
  finalise_verify_fail_if_stuck w now hooks id world =
      finalised w now hooks world (get_task toml id world.store)

  -- `has_agents` tells whether any coding agent is configured.
  unfoldable pub run_for_task :
      Faults
      → Time
      → List (Hook O)
      → Stages Bytes O
      → Bool
      → Text
      → PhaseConfig
      → World Bytes O
      → World Bytes O × Option RunError
  unfolding drive_sequential finalise_verify_fail_if_stuck
  run_for_task w now hooks stages has_agents id pc world =
      let (after, failed) = drive_sequential stages pc.has_tagger id (task_sub_agents pc) world in
      if is_empty id
      then (world, some task_id_required)
      else if has_agents
      then if failed
        then (after, some stage_failed)
        else (finalise_verify_fail_if_stuck w now hooks id after, none)
      else (world, some no_agents)
