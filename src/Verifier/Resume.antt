-- ===== src/Verifier/Resume.antt =====
-- internal/agents/verifier/resume.go: the verifier's session of a row is taken up again, by its id,
-- as the only one, or by the user's choice. A cancelled picker, which is no error, is the one that
-- the user has left.
pub mod Laws
use j.Prelude.{
  ℕ, Bool, true, false, Text, codes, List, [], ◌∷◌, Option, none, some, Result, ok, err, is_empty,
  text_eq, not, if◌then◌else◌,
}
use j.Tasks.Row.{Task}
use j.Tasks.Wire.{Toml}
use j.Tasks.Store.{Faults, Store, StoreError}
use j.Tasks.Transit.{World}
use j.Lifecycle.{Env, Lifecycle}
use j.Lifecycle.Verify
use j.Lifecycle.Verify.{VerifyOutcome, success, no_retries}
use j.Resolver.{
  ResolveError, PickTask, Picked, picked, left, broken, VerifyTask, task_by_id,
  list_resolvable_tasks, task_dir_for, task_paths,
}
use j.CodingAgents.{Backend, VerifyRequest, Agent, lookup_agent, wait_for_exit}
use j.Verifier.Verdict.{Verdict, pass, fail, parse_verdict}

pub data ResumeError : Type 0 where
  no_agents not_picked run_failed : ResumeError
  unresolved : ResolveError → ResumeError
  no_session not_found unknown_tool : Text → ResumeError
  not_listed : StoreError → ResumeError

-- `findings` is the text that the run leaves, `none` if it cannot be read.
pub record ResumeOptions : Type 0 where
  pub task_id : Text
  pub agents : List Agent
  pub pick : PickTask
  pub must_read : List Text
  pub findings : Option Text

has_session : Text → Task → Result ResumeError (Option Task)
has_session id t = if is_empty t.verify_resume_session then err (no_session id) else ok (some t)

-- The rows with a session of the verifier.
unfoldable pub resumable : List Task → List Task
resumable [] = []
resumable (t ∷ ts) =
    let rest = resumable ts in if is_empty t.verify_resume_session then rest else t ∷ rest

unfoldable pub row_named : Text → List Task → Option Task
row_named id [] = none
row_named id (t ∷ ts) = if text_eq t.id id then some t else row_named id ts

named_row : Text → Option Task → Result ResumeError (Option Task)
named_row id none = err (not_found id)
named_row id (some t) = ok (some t)

from_answer : List Task → Picked → Result ResumeError (Option Task)
unfolding named_row
from_answer rows (picked id) = named_row id (row_named id rows)
from_answer rows left = ok none
from_answer rows broken = err not_picked

from_resumable : PickTask → List Task → Result ResumeError (Option Task)
unfolding from_answer
from_resumable pick [] = ok none
from_resumable pick (t ∷ []) = ok (some t)
from_resumable pick (t ∷ u ∷ ts) =
    from_answer (t ∷ u ∷ ts) (pick (codes "Select a task to resume verifying") (t ∷ u ∷ ts))

from_list : PickTask → Result StoreError (List Task) → Result ResumeError (Option Task)
unfolding from_resumable
from_list pick (err e) = err (not_listed e)
from_list pick (ok rows) = from_resumable pick (resumable rows)

from_id : Text → Result ResolveError Task → Result ResumeError (Option Task)
unfolding has_session
from_id id (err e) = err (unresolved e)
from_id id (ok t) = has_session id t

unfoldable pub build_verify_resume_request : ResumeOptions → Bool → VerifyTask → VerifyRequest
build_verify_resume_request opts clarified res = record {
  task_dir = res.task_dir;
  requirements_path = res.paths.requirements;
  plan_path = res.paths.plan;
  verifier_plan_output_path = res.paths.verifier_plan;
  verifier_findings_output_path = res.paths.findings;
  clarification_path = res.paths.clarification;
  model = res.task.verify_model;
  interactive = true;
  resume = true;
  resume_from_clarification = clarified;
  resume_chat_id = res.task.verify_resume_session;
  worktree = [];
  agent_log_path = [];
  must_read = opts.must_read;
}

-- The outcome of a run that ended with or without an error.
abbrev pub resume_outcome : Bool → Option Text → VerifyOutcome
resume_outcome failed findings =
    if failed
    then no_retries
    else elim (parse_verdict findings) [ pass ↦ success | fail ↦ no_retries ]

-- The error of a call and the world; `none` while it waits for the process.
abbrev pub Resumed : Type 0 → Type 0 → Type 0
Resumed B O = Option (Option ResumeError × World B O)

module _ (toml : Toml) where
  open toml use {Bytes}

  -- resolveResumeTask: `ok none` where no row has a session, or the user has left the picker.
  unfoldable pub resolve_resume_task :
      Faults → ResumeOptions → Store Bytes → Result ResumeError (Option Task)
  unfolding from_id from_list
  resolve_resume_task w opts s =
      if is_empty opts.task_id
      then from_list opts.pick (list_resolvable_tasks toml w s)
      else from_id opts.task_id (task_by_id toml opts.task_id s)

module _ (toml : Toml) {O : Type 0} where
  open toml use {Bytes}

  abbrev pub ended :
      Env O
      → Option Text
      → Bool
      → Lifecycle × World Bytes O
      → Option (Bool × Lifecycle × World Bytes O)
  ended env findings failed (lc, world) =
      let (lc', world') = Verify.finish toml env (resume_outcome failed findings) failed lc world in
      some (failed, lc', world')

  waited :
      Env O
      → Option Text
      → Lifecycle × World Bytes O
      → Option Bool
      → Option (Bool × Lifecycle × World Bytes O)
  waited env findings begun none = none
  waited env findings begun (some failed) = ended env findings failed begun

  started :
      Env O
      → Option Text
      → Backend
      → Lifecycle × World Bytes O
      → Option ℕ
      → Option (Bool × Lifecycle × World Bytes O)
  unfolding waited
  started env findings b begun none = ended env findings true begun
  started env findings b begun (some pid) = waited env findings begun (wait_for_exit b pid)

  -- runVerifyResume. `env` is what the run finds at its begin, and `env'` at its end.
  unfoldable pub run_verify_resume :
      Env O
      → Env O
      → ResumeOptions
      → Agent
      → Task
      → World Bytes O
      → Option (Bool × Lifecycle × World Bytes O)
  unfolding started
  run_verify_resume env env' opts agent t world =
      let dir = task_dir_for toml t.id world.store in
      let res : VerifyTask = record { task = t; task_dir = dir; paths = task_paths dir } in
      let begun = Verify.begin_verify_resume toml env t world in
      let b = agent.verify (build_verify_resume_request opts env.clarification res) in
      started env' opts.findings b begun b.pid

  abbrev pub settled : Option (Bool × Lifecycle × World Bytes O) → Resumed Bytes O
  settled none = none
  settled (some (failed, lc, world)) = some (if failed then some run_failed else none, world)

  with_agent : Env O → Env O → ResumeOptions → Task → World Bytes O → Option Agent → Resumed Bytes O
  with_agent env env' opts t world none = some (some (unknown_tool t.verify_tool), world)
  with_agent env env' opts t world (some a) = settled (run_verify_resume env env' opts a t world)

  on_row :
      Env O
      → Env O
      → ResumeOptions
      → World Bytes O
      → Result ResumeError (Option Task)
      → Resumed Bytes O
  unfolding with_agent
  on_row env env' opts world (err e) = some (some e, world)
  on_row env env' opts world (ok none) = some (none, world)
  on_row env env' opts world (ok (some t)) =
      with_agent env env' opts t world (lookup_agent opts.agents t.verify_tool)

  unfoldable pub run_resume : Env O → Env O → ResumeOptions → World Bytes O → Resumed Bytes O
  unfolding on_row
  run_resume env env' opts world = elim opts.agents [
    | [] ↦ some (some no_agents, world)
    | a ∷ rest ↦ on_row env env' opts world (resolve_resume_task toml env.faults opts world.store)
  ]
