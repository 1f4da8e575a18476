-- ===== src/Cli/Resume.antt =====
-- resume_shared.go of internal/cli/tasks, with the configurations of resume_plan.go, resume_work.go and
-- resume_verify.go: a row's session is taken up again, from a process that may still hold its lock.
-- CleanAbort, which turns a cancelled form into no error, is left out.
pub mod Laws
use j.Prelude.{
  ℕ, Bool, true, false, Text, codes, List, [], ◌∷◌, Option, none, some, Result, ok, err, is_empty,
  not, if◌then◌else◌,
}
use j.Tasks.Status.{TaskStatus, working, work_done, verifying, failed, completed}
use j.Tasks.Row.{Task, is_zero}
use j.Tasks.Wire.{Toml}
use j.Tasks.Store.{Faults, Store, StoreError, list_tasks, ensure_dir}
use j.Tasks.Sort.{sort_tasks}
use j.Tasks.Lock.{
  Caller, Holder, Lock, LockFile, LockFaults, AcquireError, locked, acquire_lock, release,
  try_acquire_for_reap,
}
use j.Cli.Pick.{PickError, not_listed, from_rows}
use j.Resolver.{ResolveError, Picked, picked, left, broken, task_by_id}

-- What os.Stat tells of a file.
pub data Stat : Type 0 where
  there missing unknown : Stat

pub data ResumeError : Type 0 where
  unpicked : PickError → ResumeError
  unresolved : ResolveError → ResumeError
  no_requirements no_plan plan_unknown no_prior_work : ResumeError
  lock_failed : AcquireError → ResumeError
  not_terminated interrupted still_held : ResumeError

pub record ResumeFiles : Type 0 where
  pub requirements : Stat
  pub plan : Stat

-- A look at the lock file in the loop of waitLockReleased, and whether the context is done behind it.
pub record Look : Type 0 where
  pub file : Option LockFile
  pub done : Bool

-- What a command finds: the files of a task, what the user answers, whether the old holder can be
-- terminated, and the looks at its lock until the deadline.
pub record ResumeEnv : Type 0 where
  pub faults : Faults
  pub files : Text → ResumeFiles
  pub pick : List Task → Picked
  pub caller : Caller
  pub lock_faults : LockFaults
  pub fd : ℕ
  pub close_fails : Bool
  pub terminate_fails : ℕ → Bool
  pub looks : List Look

is_behind_work : TaskStatus → Bool
is_behind_work working = true
is_behind_work work_done = true
is_behind_work verifying = true
is_behind_work failed = true
is_behind_work completed = true
is_behind_work _ = false

unfoldable pub status_allows_verify_after_work : Task → Bool
unfolding is_behind_work
status_allows_verify_after_work t = if is_empty t.work_tool then false else is_behind_work t.status

unfoldable pub require_requirements_or_linear : ResumeFiles → Task → Option ResumeError
require_requirements_or_linear files t =
    if is_empty t.linear_issue
    then elim files.requirements [ missing ↦ some no_requirements | _ ↦ none ]
    else none

plan_missing : Stat → Option ResumeError
plan_missing there = none
plan_missing missing = some no_plan
plan_missing unknown = some plan_unknown

unfoldable pub require_plan : ResumeFiles → Task → Option ResumeError
unfolding plan_missing
require_plan files t = plan_missing files.plan

-- The checks of requirePlanAndPriorWork behind the one of the plan.
has_worked : Task → Bool
unfolding status_allows_verify_after_work
has_worked t =
    if not (is_zero t.work_begin_at)
    then true
    else if not (is_empty t.work_resume_session)
    then true
    else status_allows_verify_after_work t

behind_plan : Task → Option ResumeError → Option ResumeError
unfolding has_worked
behind_plan t (some e) = some e
behind_plan t none = if has_worked t then none else some no_prior_work

unfoldable pub require_plan_and_prior_work : ResumeFiles → Task → Option ResumeError
unfolding behind_plan
require_plan_and_prior_work files t = behind_plan t (require_plan files t)

-- resumePhaseConfig, without the words of its messages.
pub record ResumePhaseConfig : Type 0 where
  pub has_session : Task → Bool
  pub gate : ResumeFiles → Task → Option ResumeError
  pub phase_flag : Text

unfoldable pub orchestrate_args : ResumePhaseConfig → Text → List Text
orchestrate_args cfg id =
    codes "tasks"
    ∷ codes "orchestrate"
    ∷ codes "--id"
    ∷ id
    ∷ cfg.phase_flag
    ∷ codes "--interactive=true"
    ∷ []

abbrev pub resume_plan_config : ResumePhaseConfig
resume_plan_config = record {
  has_session = λ t. not (is_empty t.plan_resume_session);
  gate = require_requirements_or_linear;
  phase_flag = codes "--phase=plan-only";
}

abbrev pub resume_work_config : ResumePhaseConfig
resume_work_config = record {
  has_session = λ t. not (is_empty t.work_resume_session);
  gate = require_plan;
  phase_flag = codes "--phase=work-only";
}

abbrev pub resume_verify_config : ResumePhaseConfig
resume_verify_config = record {
  has_session = λ t. not (is_empty t.verify_resume_session);
  gate = require_plan_and_prior_work;
  phase_flag = codes "--phase=verify-only";
}

unfoldable pub filter_tasks_by_session : (Task → Bool) → List Task → List Task
filter_tasks_by_session has [] = []
filter_tasks_by_session has (t ∷ ts) =
    let rest = filter_tasks_by_session has ts in if has t then t ∷ rest else rest

-- The error of a takeover, and the lock file.
abbrev pub TakenOver : Type 0
TakenOver = Option ResumeError × Option LockFile

looked :
    ResumeEnv
    → (Unit {0} → TakenOver)
    → Look
    → Result AcquireError (Option Lock) × Option LockFile
    → TakenOver
looked env rest look (err e, file) = (some (lock_failed e), file)
looked env rest look (ok (some l), file) = (none, (release env.close_fails l file).2)
looked env rest look (ok none, file) = if look.done then (some interrupted, file) else rest tt

-- waitLockReleased, with the lock file as the last look left it.
unfoldable pub wait_lock_released : ResumeEnv → Option LockFile → List Look → TakenOver
unfolding looked
wait_lock_released env file [] = (some still_held, file)
wait_lock_released env file (look ∷ looks) =
    looked env (λ u. wait_lock_released env look.file looks) look
      (try_acquire_for_reap env.lock_faults env.fd look.file)

acquired : ResumeEnv → Result AcquireError Lock × Option LockFile → TakenOver
acquired env (ok l, file) = (none, (release env.close_fails l file).2)
acquired env (err (locked h), file) =
    if env.terminate_fails h.pid
    then (some not_terminated, file)
    else wait_lock_released env file env.looks
acquired env (err e, file) = (some (lock_failed e), file)

-- takeoverIfHeld
unfoldable pub takeover_if_held : ResumeEnv → Option LockFile → TakenOver
unfolding acquired
takeover_if_held env file = acquired env (acquire_lock env.caller env.lock_faults env.fd file)

filtered :
    ResumePhaseConfig
    → (List Task → Picked)
    → Result StoreError (List Task)
    → Result PickError (Option Text)
filtered cfg pick (err e) = err (not_listed e)
filtered cfg pick (ok rows) = from_rows pick (filter_tasks_by_session cfg.has_session rows)

module _ (toml : Toml) where
  open toml use {Bytes}

  -- The arguments that the orchestrator is started with, `none` where the user has left or no row
  -- has a session; the store and the lock file.
  abbrev pub Launched : Type 0
  Launched = Result ResumeError (Option (List Text)) × Store Bytes × Option LockFile

  unfoldable pub pick_resume_task_id :
      ResumeEnv → ResumePhaseConfig → Store Bytes → Result PickError (Option Text)
  unfolding filtered
  pick_resume_task_id env cfg s = filtered cfg env.pick (list_tasks toml env.faults s)

  taken_over : ResumePhaseConfig → Text → Store Bytes → TakenOver → Launched
  taken_over cfg id s (some e, file) = (err e, s, file)
  taken_over cfg id s (none, file) = (ok (some (orchestrate_args cfg id)), s, file)

  -- Each gate makes the task's directory first.
  gated :
      ResumeEnv
      → ResumePhaseConfig
      → Text
      → Store Bytes
      → Option LockFile
      → Option ResumeError
      → Launched
  unfolding taken_over
  gated env cfg id s file (some e) = (err e, s, file)
  gated env cfg id s file none = taken_over cfg id s (takeover_if_held env file)

  on_row :
      ResumeEnv
      → ResumePhaseConfig
      → Text
      → Store Bytes
      → Option LockFile
      → Result ResolveError Task
      → Launched
  unfolding gated
  on_row env cfg id s file (err e) = (err (unresolved e), s, file)
  on_row env cfg id s file (ok t) =
      gated env cfg id (ensure_dir env.faults t.id s).1 file (cfg.gate (env.files t.id) t)

  on_id :
      ResumeEnv
      → ResumePhaseConfig
      → Store Bytes
      → (Text → Option LockFile)
      → Result PickError (Option Text)
      → Launched
  unfolding on_row
  on_id env cfg s files (err e) = (err (unpicked e), s, none)
  on_id env cfg s files (ok none) = (ok none, s, none)
  on_id env cfg s files (ok (some id)) = on_row env cfg id s (files id) (task_by_id toml id s)

  -- runResumePhase. `files` has the lock file of each task, of which the chosen one's is returned.
  unfoldable pub run_resume_phase :
      ResumeEnv → ResumePhaseConfig → Store Bytes → (Text → Option LockFile) → Launched
  unfolding on_id
  run_resume_phase env cfg s files = on_id env cfg s files (pick_resume_task_id env cfg s)
