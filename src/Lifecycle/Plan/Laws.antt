-- ===== src/Lifecycle/Plan/Laws.antt =====
-- Where a planner run leaves its row.
use j.Prelude.{◌≡◌, Bool, true, false, Text, err, if◌then◌else◌, arith, ◌↔◌, ◌⊎◌}
use j.Tasks.Row.{Task}
use j.Tasks.Status.{
  TaskStatus, planning, plan_pending_approval, needs_clarification, help, working, verifying, valid,
}
use j.Tasks.Fsm.{plan_resume, IllegalTransition}
use j.Tasks.Fsm.Table.{accepts, target, apply_lem}
use j.Tasks.Wire.{Toml}
use j.Tasks.Transit.{World, stamp_terminal}
use j.Tasks.Transit.Laws.{warn_task}
use j.Lifecycle.{Env, AgentSession, Lifecycle}
use j.Lifecycle.Stored.{IsStored, warn-IsStored}
use j.Lifecycle.Plan.{begin_plan_resume, finish, pick_finish_event}

module _ (toml : Toml) {O : Type 0} where
  open toml use {Bytes}

  -- Finishing an open planner run on a `planning` row: an error leads to `help` whatever else
  -- holds, else a clarification.md leads to `needs-clarification`, else the approval setting
  -- chooses between `plan-pending-approval` and `plan-done`. The end time is stamped, the begin
  -- time is kept, and the lifecycle is closed.
  pub finish_from_planning :
      (env : Env O) (run_failed : Bool) (refined plan goal : Text) (lc : Lifecycle)
      (world : World Bytes O)
      → lc.closed ≡ false
      → lc.task.status ≡ planning
      → let lc' = (finish toml env run_failed refined plan goal lc world).0 in
        (lc'.task.status ≡ (
          if run_failed
          then help
          else if env.clarification
          then needs_clarification
          else if env.approval
          then plan_pending_approval
          else TaskStatus.plan_done))
        × (lc'.task.plan_end_at ≡ env.now)
        × (lc'.task.plan_begin_at ≡ lc.task.plan_begin_at)
        × (lc'.closed ≡ true)
  unfolding finish stamp_terminal accepts target
  finish_from_planning env run_failed refined plan goal lc world is_open at =
      let t : Task = record lc.task { plan_end_at = env.now } in
      let (ev, row) = pick_finish_event toml env run_failed refined plan goal t in
      ground (arith, warn_task toml env.faults env.now env.hooks row ev world)

  pub finish-IsStored :
      (env : Env O) (run_failed : Bool) (refined plan goal : Text) (lc : Lifecycle)
      (world : World Bytes O)
      → lc.closed ≡ false
      → lc.task.status ≡ planning
      → let done = finish toml env run_failed refined plan goal lc world in
        IsStored toml done.0.task done.1
  unfolding finish pick_finish_event accepts
  finish-IsStored env run_failed refined plan goal lc world is_open at =
      let t : Task = record lc.task { plan_end_at = env.now } in
      let (ev, row) = pick_finish_event toml env run_failed refined plan goal t in
      rw is_open (warn-IsStored toml env row ev world (ground (arith, at)))

  -- A second Finish changes nothing, whatever it is called with.
  finish_twice :
      (env env' : Env O) (f f' : Bool) (r p g r' p' g' : Text) (lc : Lifecycle)
      (world : World Bytes O)
      → let once = finish toml env f r p g lc world in
        finish toml env' f' r' p' g' once.0 once.1 ≡ once
  unfolding finish
  finish_twice env env' f f' r p g r' p' g' lc world = ground arith

  -- Of the rows with a listed status, BeginPlanResume panics exactly on those at `working`,
  -- `work-done` or `verifying`.
  pub resume_panics :
      (env : Env O) (t : Task) (session : AgentSession) (world : World Bytes O)
      → valid t.status ≡ true
      → ((x : IllegalTransition) × (begin_plan_resume toml env t session world ≡ err x))
        ↔ ((t.status ≡ working) ⊎ (t.status ≡ TaskStatus.work_done) ⊎ (t.status ≡ verifying))
  unfolding begin_plan_resume valid accepts
  resume_panics env t session world v =
      let table = apply_lem plan_resume t.status in
      (
        λ p. ground (arith, table, p.1),
        λ p. (record { from = t.status; event = plan_resume }, ground (arith, table)),
      )
