-- ===== src/Lifecycle/Plan.antt =====
-- plan.go: the row around one planner run.
pub mod Laws
use j.Prelude.{Bool, false, Text, [], Result, ok, err, is_empty, if◌then◌else◌}
use j.Tasks.Row.{Task, zero_task, is_zero}
use j.Tasks.Status.{TaskStatus}
use j.Tasks.Fsm.{
  Event, plan_begin, plan_restart, plan_resume, plan_error, plan_needs_clarification,
  plan_await_approval, Transition, IllegalTransition, apply,
}
use j.Tasks.Summary.{task_summary, pick_source}
use j.Tasks.Wire.{Toml}
use j.Tasks.Transit.{World, notify, persist_warn, apply_and_persist_warn}
use j.Lifecycle.{
  Env, AgentSession, Lifecycle, task_agent_log_path, opened, advanced, open_lifecycle,
}

pub record PlanSource : Type 0 where
  pub requirement : Text
  pub target : Text
  pub linear_issue : Text

module _ (toml : Toml) {O : Type 0} where
  open toml use {Bytes}

  unfoldable pub new_plan_task :
      Env O → Text → AgentSession → PlanSource → World Bytes O → Lifecycle × World Bytes O
  unfolding open_lifecycle
  new_plan_task env task_id session src world =
      open_lifecycle toml env
        (record zero_task {
          id = task_id;
          plan_tool = session.tool;
          plan_model = session.model;
          plan_resume_session = session.resume_id;
          summary = task_summary src.requirement src.target;
          plan_begin_at = env.now;
          linear_issue = src.linear_issue;
        })
        plan_begin world

  unfoldable pub begin_plan_restart :
      Env O → Task → AgentSession → World Bytes O → Lifecycle × World Bytes O
  unfolding open_lifecycle
  begin_plan_restart env t session world =
      open_lifecycle toml env
        (record t {
          plan_tool = session.tool;
          plan_model = session.model;
          plan_resume_session = session.resume_id;
          plan_end_at = 0;
          done_at = 0;
          plan_begin_at = if is_zero t.plan_begin_at then env.now else t.plan_begin_at;
        })
        plan_restart world

  resumed_row : Env O → Task → AgentSession → Text → TaskStatus → Task
  resumed_row env t session path to = record t {
    status = to;
    plan_tool = session.tool;
    plan_model = session.model;
    plan_end_at = 0;
    done_at = 0;
    plan_begin_at = if is_zero t.plan_begin_at then env.now else t.plan_begin_at;
    agent_log_path = path;
  }

  resumed :
      Env O
      → Task
      → AgentSession
      → Text
      → World Bytes O
      → Result IllegalTransition TaskStatus
      → Result IllegalTransition (Lifecycle × World Bytes O)
  unfolding resumed_row
  resumed env t session path world (err x) = err x
  resumed env t session path world (ok to) =
      let row = resumed_row env t session path to in
      let written = persist_warn toml env.faults row world in
      let tr : Transition = record { from = t.status; event = plan_resume; to = to } in
      ok (
        record { agent_log_path = path; task = row; closed = false },
        record written { observed = notify env.hooks tr row written.observed },
      )

  -- An illegal resume panics: `err`.
  unfoldable pub begin_plan_resume :
      Env O
      → Task
      → AgentSession
      → World Bytes O
      → Result IllegalTransition (Lifecycle × World Bytes O)
  unfolding resumed task_agent_log_path
  begin_plan_resume env t session world =
      let (path, s) = task_agent_log_path env.faults t.id world.store in
      resumed env t session path (record world { store = s }) (apply t.status plan_resume)

  -- The row is at `planning` already: no transition, and no notification.
  unfoldable pub begin_plan_existing :
      Env O → Task → AgentSession → World Bytes O → Lifecycle × World Bytes O
  unfolding task_agent_log_path
  begin_plan_existing env t session world =
      let (path, s) = task_agent_log_path env.faults t.id world.store in
      let row : Task = record t {
        plan_tool = session.tool;
        plan_model = session.model;
        plan_resume_session = session.resume_id;
        agent_log_path = path;
        plan_begin_at = if is_zero t.plan_begin_at then env.now else t.plan_begin_at;
      } in
      (
        record { agent_log_path = path; task = row; closed = false },
        persist_warn toml env.faults row (record world { store = s }),
      )

  unfoldable pub record_resume_session :
      Env O → Text → Lifecycle → World Bytes O → Lifecycle × World Bytes O
  record_resume_session env id lc world =
      if is_empty id
      then (lc, world)
      else let t = record lc.task { plan_resume_session = id } in
        (record lc { task = t }, persist_warn toml env.faults t world)

  -- pickFinishEvent, with the row whose summary it may refresh.
  unfoldable pub pick_finish_event : Env O → Bool → Text → Text → Text → Task → Event × Task
  pick_finish_event env run_failed refined_requirements plan_markdown target t =
      if run_failed
      then (plan_error, t)
      else if env.clarification
      then (plan_needs_clarification, t)
      else let summed : Task = record t {
        summary = task_summary (pick_source refined_requirements plan_markdown) target;
      } in
        if env.approval then (plan_await_approval, summed) else (Event.plan_done, summed)

  unfoldable pub finish :
      Env O → Bool → Text → Text → Text → Lifecycle → World Bytes O → Lifecycle × World Bytes O
  unfolding pick_finish_event
  finish env run_failed refined_requirements plan_markdown target lc world =
      if lc.closed
      then (lc, world)
      else let (ev, t) =
          pick_finish_event env run_failed refined_requirements plan_markdown target
            (record lc.task { plan_end_at = env.now }) in
        advanced lc (apply_and_persist_warn toml env.faults env.now env.hooks t ev world)
