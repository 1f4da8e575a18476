-- ===== src/Lifecycle.antt =====
-- internal/lifecycle: what the begin, finish and record calls of the three phases share. The
-- structs PlanLifecycle, WorkLifecycle and VerifyLifecycle hold the same row, log path and flag;
-- the iteration cap of the last, which only words a Linear comment, is left out.
pub mod Plan
pub mod Work
pub mod Verify
pub mod Refused
pub mod Accepted
pub mod Stored
pub mod Linear
pub mod Titles
use j.Prelude.{
  Bool, true, false, Text, List, [], ◌++◌, ◌∷◌, Option, none, some, codes, is_empty, if◌then◌else◌,
}
use j.Tasks.Row.{Task, Time}
use j.Tasks.Fsm.{Event}
use j.Tasks.Wire.{Toml}
use j.Tasks.Store.{Faults, Store, StoreError, ensure_dir}
use j.Tasks.Transit.{Hook, World, Applied, persist_warn, apply_and_persist_warn}

-- What a lifecycle call finds outside of the row: the clock, the hooks, what the operating system
-- refuses, whether the task directory holds a clarification.md, the setting
-- plan_requires_approval, the project's name, and the pull request that the worker left, as
-- tuiquit detects it from the worktree's name and the log.
pub record Env (O : Type 0) : Type 0 where
  pub faults : Faults
  pub now : Time
  pub hooks : List (Hook O)
  pub clarification : Bool
  pub approval : Bool
  pub project : Text
  pub detect_pull_request_url : Text → Text → Text

pub record AgentSession : Type 0 where
  pub tool : Text
  pub model : Text
  pub resume_id : Text

pub record Lifecycle : Type 0 where
  pub agent_log_path : Text
  pub task : Task
  pub closed : Bool

joined_log_path : Option StoreError → Text → Text → Text
joined_log_path none dir id = dir ++ codes "/" ++ id ++ codes "/agent.log"
joined_log_path (some e) dir id = []

module _ {B : Type 0} where
  -- taskAgentLogPath: EnsureDir makes the directory, and its failure leaves an empty path.
  unfoldable pub task_agent_log_path : Faults → Text → Store B → Text × Store B
  unfolding joined_log_path
  task_agent_log_path w id s =
      let (e, s') = ensure_dir w id s in (joined_log_path e s.tasks_dir id, s')

module _ {B O : Type 0} where
  abbrev pub opened : Text → Applied B O → Lifecycle × World B O
  opened path a = (record { agent_log_path = path; task = a.task; closed = false }, a.world)

  abbrev pub advanced : Lifecycle → Applied B O → Lifecycle × World B O
  advanced lc a = (record lc { task = a.task; closed = true }, a.world)

module _ (toml : Toml) {O : Type 0} where
  open toml use {Bytes}

  -- Apply, persist and notify under a fresh log path: the end of most begin calls. The path is
  -- made before the row is touched.
  unfoldable pub open_lifecycle : Env O → Task → Event → World Bytes O → Lifecycle × World Bytes O
  unfolding task_agent_log_path
  open_lifecycle env t ev world =
      let (path, s) = task_agent_log_path env.faults t.id world.store in
      opened path (
        apply_and_persist_warn toml env.faults env.now env.hooks
          (record t { agent_log_path = path }) ev (record world { store = s }))

  -- RecordAgentLog closes the lifecycle, so that Finish does nothing after it.
  unfoldable pub record_agent_log :
      Env O → Text → Lifecycle → World Bytes O → Lifecycle × World Bytes O
  record_agent_log env path lc world =
      if lc.closed
      then (lc, world)
      else let t = record lc.task { agent_log_path = path } in
        (record lc { task = t; closed = true }, persist_warn toml env.faults t world)
