-- ===== src/Worker.antt =====
-- internal/agents/worker/run.go: one run of a worker, from the choice of the row to the end of the
-- lifecycle. CleanAbort, which turns a cancelled picker into no error, is left out.
pub mod Laws
use j.Prelude.{
  ℕ, Bool, true, false, Text, codes, List, [], ◌∷◌, Option, none, some, Result, ok, err, is_empty,
  text_eq, ltb, ◌&&◌, not, if◌then◌else◌,
}
use j.Tasks.Status.{TaskStatus}
use j.Tasks.Row.{Task}
use j.Tasks.Wire.{Toml}
use j.Tasks.Transit.{World}
use j.Lifecycle.{Env, AgentSession, Lifecycle, record_agent_log}
use j.Lifecycle.Work
use j.Resolver.{
  ResolveError, PickTask, TaskFiles, WorkPlan, join, confirm_status_override, replan_allowed,
  resolve_work_plan,
}
use j.CodingAgents.{
  Backend, WorkRequest, ResumeProcess, Captured, capture_process, Agent, lookup_resume_agent,
}

pub data WorkError : Type 0 where
  no_agents run_failed : WorkError
  unresolved : ResolveError → WorkError
  unknown_tool : Text → WorkError
  not_selected : WorkError  -- resolver.Agent fails

-- What a run finds outside of its row: the configured backends, what resolver.Agent chooses of them
-- (`none` for an error), what the user answers, the files of the tasks, and the flags.
pub record WorkOptions : Type 0 where
  pub agents : List Agent
  pub selected : Option (Agent × Text)
  pub pick : PickTask
  pub ask : Text → Text → TaskStatus → Option Bool
  pub files : Text → TaskFiles
  pub must_read : List Text
  pub task_id : Text
  pub confirmed : Bool  -- Options.Yes
  pub interactive : Bool
  pub wait_for_completion : Bool

worker_selected : Option (Agent × Text) → Result WorkError (Agent × AgentSession)
worker_selected none = err not_selected
worker_selected (some (a, model)) =
    ok (a, record { tool = a.name; model = model; resume_id = a.new_resume_id })

worker_resumed : Task → Option Agent → Result WorkError (Agent × AgentSession)
worker_resumed t none = err (unknown_tool t.work_tool)
worker_resumed t (some a) =
    ok (a, record { tool = t.work_tool; model = t.work_model; resume_id = t.work_resume_session })

-- resolveWorker: a recorded session pins the backend and the model.
unfoldable pub resolve_worker : WorkOptions → Task → Result WorkError (Agent × AgentSession)
unfolding worker_selected worker_resumed
resolve_worker opts t =
    if is_empty t.work_resume_session
    then worker_selected opts.selected
    else worker_resumed t (lookup_resume_agent opts.agents t.work_tool)

-- `clarified` tells whether the task directory holds a clarification.md.
unfoldable pub build_work_request : WorkOptions → Bool → AgentSession → WorkPlan → WorkRequest
unfolding join
build_work_request opts clarified session res = record {
  task_dir = res.task_dir;
  plan_path = res.paths.plan;
  model = session.model;
  clarification_path = res.paths.clarification;
  interactive = opts.interactive;
  resume_chat_id = session.resume_id;
  resume =
      not (is_empty session.resume_id) && text_eq session.resume_id res.task.work_resume_session;
  resume_from_clarification = not (is_empty res.task.work_resume_session) && clarified;
  worktree = res.task.worktree;
  agent_log_path = join res.task_dir (codes "agent.log");
  must_read = opts.must_read;
}

-- The error of a run, its lifecycle and the world; `none` while the run waits for its process.
abbrev pub Ran : Type 0 → Type 0 → Type 0
Ran B O = Option (Option WorkError × Lifecycle × World B O)

-- The error of Execute and the world.
abbrev pub Executed : Type 0 → Type 0 → Type 0
Executed B O = Option (Option WorkError × World B O)

module _ (toml : Toml) {O : Type 0} where
  open toml use {Bytes}

  abbrev pub left : Option WorkError → Lifecycle × World Bytes O → Ran Bytes O
  left e (lc, world) = some (e, lc, world)

  abbrev pub recorder : Env O → Text → Lifecycle × World Bytes O → Lifecycle × World Bytes O
  recorder env id (lc, world) = Work.record_resume_session toml env id lc world

  abbrev pub ended : Env O → Bool → Lifecycle × World Bytes O → Ran Bytes O
  ended env failed (lc, world) =
      left (if failed then some run_failed else none) (Work.finish toml env failed lc world)

  -- The rest of runWorker behind the capture. A run that is not waited for is left to its process.
  captured : Env O → Text → ℕ → Bool → Option (Captured (Lifecycle × World Bytes O)) → Ran Bytes O
  captured env path pid wait none = none
  captured env path pid wait (some (id, failed, begun)) =
      if failed
      then ended env true begun
      else if ltb 0 pid && not wait
      then left none (record_agent_log toml env path begun.0 begun.1)
      else ended env false begun

  started :
      Env O
      → Env O
      → Text
      → Bool
      → AgentSession
      → Backend
      → Lifecycle × World Bytes O
      → Option ℕ
      → Ran Bytes O
  unfolding captured
  started env env' path wait session b begun none = ended env' true begun
  started env env' path wait session b begun (some pid) = captured env' path pid wait (
      capture_process (recorder env) b
        (record { pid = pid; wait = wait; resume_id = session.resume_id }) begun)

  -- runWorker. `env` is what the run finds at its begin, and `env'` at its end.
  unfoldable pub run_worker :
      Env O
      → Env O
      → WorkOptions
      → Agent
      → AgentSession
      → WorkPlan
      → Lifecycle × World Bytes O
      → Ran Bytes O
  unfolding started
  run_worker env env' opts agent session res begun =
      let req = build_work_request opts env.clarification session res in
      let b = agent.work req in
      started env env' req.agent_log_path opts.wait_for_completion session b begun b.pid

  -- The begin call and the run, for a row and a backend that are chosen.
  unfoldable pub work_on :
      Env O → Env O → WorkOptions → Agent → AgentSession → WorkPlan → World Bytes O → Ran Bytes O
  work_on env env' opts agent session res world =
      run_worker env env' opts agent session res (Work.begin_work toml env res.task session world)

  abbrev pub settled : Ran Bytes O → Executed Bytes O
  settled none = none
  settled (some (e, lc, world)) = some (e, world)

  confirmed :
      Env O
      → Env O
      → WorkOptions
      → Agent
      → AgentSession
      → WorkPlan
      → World Bytes O
      → Result ResolveError Bool
      → Executed Bytes O
  confirmed env env' opts agent session res world (err e) = some (some (unresolved e), world)
  confirmed env env' opts agent session res world (ok false) = some (none, world)
  confirmed env env' opts agent session res world (ok true) =
      settled (work_on env env' opts agent session res world)

  with_worker :
      Env O
      → Env O
      → WorkOptions
      → WorkPlan
      → World Bytes O
      → Result WorkError (Agent × AgentSession)
      → Executed Bytes O
  unfolding confirmed
  with_worker env env' opts res world (err e) = some (some e, world)
  with_worker env env' opts res world (ok (agent, session)) =
      confirmed env env' opts agent session res world
        (confirm_status_override opts.ask opts.confirmed (codes "work") res.task replan_allowed)

  on_plan :
      Env O
      → Env O
      → WorkOptions
      → World Bytes O
      → Result ResolveError (Option WorkPlan)
      → Executed Bytes O
  unfolding with_worker
  on_plan env env' opts world (err e) = some (some (unresolved e), world)
  on_plan env env' opts world (ok none) = some (none, world)
  on_plan env env' opts world (ok (some res)) =
      with_worker env env' opts res world (resolve_worker opts res.task)

  unfoldable pub execute : Env O → Env O → WorkOptions → World Bytes O → Executed Bytes O
  unfolding on_plan
  execute env env' opts world = elim opts.agents [
    | [] ↦ some (some no_agents, world)
    | a ∷ rest ↦
        on_plan env env' opts world
          (resolve_work_plan toml env.faults opts.files opts.pick opts.task_id world.store)
  ]
