-- ===== src/Lifecycle/Work.antt =====
-- work.go: the row around one worker run.
pub mod Laws
use j.Prelude.{Bool, Text, is_empty, if◌then◌else◌}
use j.Tasks.Row.{Task, zero_task, is_zero}
use j.Tasks.Status.{TaskStatus}
use j.Tasks.Fsm.{Event, work_begin, work_restart, work_resume, work_error, work_needs_clarification}
use j.Tasks.Summary.{from_plan_and_requirement}
use j.Tasks.Worktree.{worktree_name_for}
use j.Tasks.Wire.{Toml}
use j.Tasks.Transit.{World, persist_warn, apply_and_persist_warn}
use j.Lifecycle.{Env, AgentSession, Lifecycle, advanced, open_lifecycle}

pub record WorkSource : Type 0 where
  pub requirement : Text
  pub plan_body : Text
  pub plan_path : Text

unfoldable pub fill_worktree : Text → Task → Task
fill_worktree project t =
    if is_empty t.worktree then record t { worktree = worktree_name_for project t } else t

module _ (toml : Toml) {O : Type 0} where
  open toml use {Bytes}

  unfoldable pub new_work_task :
      Env O → Text → AgentSession → WorkSource → World Bytes O → Lifecycle × World Bytes O
  unfolding open_lifecycle fill_worktree
  new_work_task env task_id session src world =
      open_lifecycle toml env
        (fill_worktree env.project (record zero_task {
          id = task_id;
          status = TaskStatus.plan_done;
          work_tool = session.tool;
          work_model = session.model;
          work_resume_session = session.resume_id;
          summary = from_plan_and_requirement src.requirement src.plan_body src.plan_path;
          work_begin_at = env.now;
        }))
        work_begin world

  unfoldable pub begin_work_restart :
      Env O → Task → AgentSession → World Bytes O → Lifecycle × World Bytes O
  unfolding open_lifecycle fill_worktree
  begin_work_restart env t session world =
      open_lifecycle toml env
        (fill_worktree env.project (record t {
          work_tool = session.tool;
          work_model = session.model;
          work_resume_session = session.resume_id;
          work_begin_at = env.now;
          work_end_at = 0;
          done_at = 0;
        }))
        work_restart world

  unfoldable pub begin_work_resume : Env O → Task → World Bytes O → Lifecycle × World Bytes O
  unfolding open_lifecycle
  begin_work_resume env t world =
      open_lifecycle toml env
        (record t {
          work_end_at = 0;
          done_at = 0;
          work_begin_at = if is_zero t.work_begin_at then env.now else t.work_begin_at;
        })
        work_resume world

  -- beginWorkLifecycle of internal/agents/worker: a recorded session is resumed.
  unfoldable pub begin_work :
      Env O → Task → AgentSession → World Bytes O → Lifecycle × World Bytes O
  begin_work env t session world =
      if is_empty t.work_resume_session
      then begin_work_restart env t session world
      else begin_work_resume env t world

  unfoldable pub record_resume_session :
      Env O → Text → Lifecycle → World Bytes O → Lifecycle × World Bytes O
  record_resume_session env id lc world =
      if is_empty id
      then (lc, world)
      else let t = record lc.task { work_resume_session = id } in
        (record lc { task = t }, persist_warn toml env.faults t world)

  unfoldable pub pick_finish_event : Env O → Bool → Event
  pick_finish_event env run_failed =
      if run_failed
      then work_error
      else if env.clarification
      then work_needs_clarification
      else Event.work_done

  -- A detected URL is never empty when it is kept.
  unfoldable pub detect_pull_request_url : Env O → Text → Task → Task
  detect_pull_request_url env log_path t =
      let url = env.detect_pull_request_url t.worktree log_path in
      let found : Task = if is_empty url then t else record t { pull_request_url = url } in
      if is_empty t.pull_request_url then found else t

  unfoldable pub finish : Env O → Bool → Lifecycle → World Bytes O → Lifecycle × World Bytes O
  unfolding pick_finish_event detect_pull_request_url
  finish env run_failed lc world =
      if lc.closed
      then (lc, world)
      else let t =
          detect_pull_request_url env lc.agent_log_path
            (record lc.task { work_end_at = env.now }) in
        advanced lc (
          apply_and_persist_warn toml env.faults env.now env.hooks t
            (pick_finish_event env run_failed) world)
