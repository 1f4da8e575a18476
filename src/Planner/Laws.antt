-- ===== src/Planner/Laws.antt =====
-- Where a planner's run leaves its row.
use j.Prelude.{◌≡◌, Bool, true, false, some, is_empty, ◌||◌, if◌then◌else◌}
use j.Tasks.Status.{
  TaskStatus, planning, plan_pending_approval, help, needs_clarification, status_eq,
}
use j.Tasks.Row.{Task}
use j.Tasks.Fsm.{plan_restart, plan_resume}
use j.Tasks.Fsm.Table.{accepts}
use j.Tasks.Wire.{Toml}
use j.Tasks.Transit.{World}
use j.Lifecycle.{Env, Lifecycle}
use j.Lifecycle.Plan
use j.Lifecycle.Stored.{IsStored}
use j.Planner.{Planned}

-- The begin call goes through: a recorded session is resumed, a row at `planning` is taken as it is,
-- and any other row is planned anew.
abbrev pub may_begin : Task → Bool
may_begin t =
    if is_empty t.plan_resume_session
    then status_eq t.status planning || accepts plan_restart t.status
    else accepts plan_resume t.status

abbrev pub left_status : Bool → Bool → Bool → TaskStatus
left_status failed clarification approval =
    if failed
    then help
    else if clarification
    then needs_clarification
    else if approval
    then plan_pending_approval
    else TaskStatus.plan_done

module _ (toml : Toml) {O : Type 0} where
  open toml use {Bytes}

  -- A row at planning under an open lifecycle.
  record AtPlanning (begun : Lifecycle × World Bytes O) : Type 0 where
    pub at : begun.0.task.status ≡ planning
    pub is_open : begun.0.closed ≡ false

  -- The end of a run.
  pub record PlanSettled (env : Env O) (ran : Planned Bytes O) : Type 0 where
    pub failed : Bool
    pub lifecycle : Lifecycle
    pub world : World Bytes O
    pub returned : ran ≡ some (failed, lifecycle, world)
    pub status : lifecycle.task.status ≡ left_status failed env.clarification env.approval
    pub closed : lifecycle.closed ≡ true
    pub stored : IsStored toml lifecycle.task world
