-- ===== src/Planner.antt =====
-- internal/agents/planner/run.go: one run of a planner on a row that is there.
pub mod Laws
use j.Prelude.{
  ℕ, Bool, true, false, Text, codes, List, [], Option, none, some, Result, ok, err, is_empty,
  text_eq, ◌&&◌, not, if◌then◌else◌,
}
use j.Tasks.Status.{TaskStatus, planning, status_eq}
use j.Tasks.Row.{Task}
use j.Tasks.Fsm.{IllegalTransition}
use j.Tasks.Wire.{Toml}
use j.Tasks.Transit.{World}
use j.Lifecycle.{Env, AgentSession, Lifecycle}
use j.Lifecycle.Plan
use j.Resolver.{ResolveError, VerifyTask, join, resolve_plan_task}
use j.CodingAgents.{Backend, PlanRequest, ResumeProcess, Captured, capture_process, Agent}

-- `artifacts` are the texts of requirements.md and plan.md that os.ReadFile reads behind the run,
-- `none` where it cannot.
pub record PlanOptions : Type 0 where
  pub agent : Agent
  pub model : Text
  pub interactive : Bool
  pub wait_for_completion : Bool
  pub must_read : List Text
  pub artifacts : Option Text × Option Text

-- beginPlanSession
unfoldable pub begin_plan_session : PlanOptions → Task → AgentSession
begin_plan_session opts t = record {
  tool = opts.agent.name;
  model = opts.model;
  resume_id =
      if is_empty t.plan_resume_session then opts.agent.new_resume_id else t.plan_resume_session;
}

unfoldable pub build_plan_request : PlanOptions → Bool → AgentSession → VerifyTask → PlanRequest
unfolding join
build_plan_request opts clarified session res =
    let resumes =
      text_eq session.resume_id res.task.plan_resume_session && not (is_empty session.resume_id) in
    record {
      task_dir = res.task_dir;
      from_file_path = res.paths.requirements;
      model = session.model;
      requirements_output_path = res.paths.requirements;
      plan_output_path = res.paths.plan;
      clarification_path = res.paths.clarification;
      interactive = opts.interactive;
      resume_chat_id = session.resume_id;
      resume = resumes;
      resume_from_clarification = resumes && clarified;
      agent_log_path = join res.task_dir (codes "agent.log");
      must_read = opts.must_read;
    }

or_empty : Option Text → Text
or_empty none = []
or_empty (some text) = text

-- readPlanArtifacts
unfoldable pub read_plan_artifacts : Bool → Option Text × Option Text → Text × Text
unfolding or_empty
read_plan_artifacts failed (requirements, plan) =
    if failed then ([], []) else (or_empty requirements, or_empty plan)

-- Whether a run failed, its lifecycle and the world; `none` while it waits for its process.
abbrev pub Planned : Type 0 → Type 0 → Type 0
Planned B O = Option (Bool × Lifecycle × World B O)

module _ (toml : Toml) {O : Type 0} where
  open toml use {Bytes}

  -- beginPlanLifecycle; `err` is the panic of BeginPlanResume.
  unfoldable pub begin_plan :
      Env O
      → Task
      → AgentSession
      → World Bytes O
      → Result IllegalTransition (Lifecycle × World Bytes O)
  begin_plan env t session world =
      if not (is_empty t.plan_resume_session)
      then Plan.begin_plan_resume toml env t session world
      else if status_eq t.status planning
      then ok (Plan.begin_plan_existing toml env t session world)
      else ok (Plan.begin_plan_restart toml env t session world)

  abbrev pub recorder : Env O → Text → Lifecycle × World Bytes O → Lifecycle × World Bytes O
  recorder env id (lc, world) = Plan.record_resume_session toml env id lc world

  abbrev pub left : Bool → Lifecycle × World Bytes O → Planned Bytes O
  left failed (lc, world) = some (failed, lc, world)

  abbrev pub ended : Env O → Bool → Text × Text → Text → Lifecycle × World Bytes O → Planned Bytes O
  ended env failed (refined, plan) target (lc, world) =
      left failed (Plan.finish toml env failed refined plan target lc world)

  -- The rest of runPlanner behind the capture: a failed wait reads no artifacts.
  captured :
      Env O
      → Option Text × Option Text
      → Text
      → Option (Captured (Lifecycle × World Bytes O))
      → Planned Bytes O
  captured env artifacts target none = none
  captured env artifacts target (some (id, failed, begun)) =
      if failed
      then ended env true ([], []) target begun
      else ended env false (read_plan_artifacts false artifacts) target begun

  started :
      Env O
      → Env O
      → PlanOptions
      → Text
      → AgentSession
      → Backend
      → Lifecycle × World Bytes O
      → Option ℕ
      → Planned Bytes O
  unfolding captured
  started env env' opts target session b begun none =
      ended env' true (read_plan_artifacts true opts.artifacts) target begun
  started env env' opts target session b begun (some pid) = captured env' opts.artifacts target (
      capture_process (recorder env) b
        (record { pid = pid; wait = opts.wait_for_completion; resume_id = session.resume_id })
        begun)

  -- runPlanner. `env` is what the run finds at its begin, and `env'` at its end.
  unfoldable pub run_planner :
      Env O
      → Env O
      → PlanOptions
      → VerifyTask
      → AgentSession
      → Lifecycle × World Bytes O
      → Planned Bytes O
  unfolding started
  run_planner env env' opts res session begun =
      let b = opts.agent.plan (build_plan_request opts env.clarification session res) in
      started env env' opts res.paths.requirements session b begun b.pid

  -- The end of Execute: no such row, a panic, or a run.
  begun_plan :
      Env O
      → Env O
      → PlanOptions
      → VerifyTask
      → AgentSession
      → Result IllegalTransition (Lifecycle × World Bytes O)
      → Result IllegalTransition (Planned Bytes O)
  begun_plan env env' opts res session (err x) = err x
  begun_plan env env' opts res session (ok begun) = ok (run_planner env env' opts res session begun)

  -- The begin call and the run, for a row that is found.
  unfoldable pub plan_on :
      Env O
      → Env O
      → PlanOptions
      → VerifyTask
      → World Bytes O
      → Result IllegalTransition (Planned Bytes O)
  unfolding begun_plan
  plan_on env env' opts res world =
      let session = begin_plan_session opts res.task in
      begun_plan env env' opts res session (begin_plan env res.task session world)

  resolved :
      Env O
      → Env O
      → PlanOptions
      → World Bytes O
      → Result ResolveError VerifyTask
      → Result ResolveError (Result IllegalTransition (Planned Bytes O))
  resolved env env' opts world (err e) = err e
  resolved env env' opts world (ok res) = ok (plan_on env env' opts res world)

  unfoldable pub execute :
      Env O
      → Env O
      → PlanOptions
      → Text
      → World Bytes O
      → Result ResolveError (Result IllegalTransition (Planned Bytes O))
  unfolding resolved
  execute env env' opts id world =
      resolved env env' opts world (resolve_plan_task toml id world.store)
