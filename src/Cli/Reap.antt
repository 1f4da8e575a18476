-- ===== src/Cli/Reap.antt =====
-- reap.go: `j tasks` finalises rows that were in flight when their process died. The lock on the
-- task tells whether the process is alive.
pub mod Finalise
pub mod Laws
use j.Prelude.{
  ℕ, Bool, true, false, Text, List, [], ◌∷◌, Option, none, some, Result, ok, err, is_empty,
  if◌then◌else◌, text_eq,
}
use j.Tasks.Status.{TaskStatus, planning, working, status_eq}
use j.Tasks.Row.{Task, Time}
use j.Tasks.Fsm.{
  Event, reaper_plan_done, reaper_plan_await_approval, reaper_plan_fail,
  reaper_plan_needs_clarification, reaper_work_done, reaper_work_needs_clarification,
}
use j.Tasks.Wire.{Toml}
use j.Tasks.Store.{Faults, ensure_dir}
use j.Tasks.Transit.{Hook, World, Applied, TransitError, apply_and_persist}
use j.Tasks.Summary.{summarize_markdown}
use j.Tasks.Lock.{LockFile, Lock, LockFaults, AcquireError, try_acquire_for_reap, release}

-- What the task directory holds beside the row and the lock: whether a clarification.md and a
-- plan.md are there, and the text of requirements.md if it can be read.
pub record TaskDirFiles : Type 0 where
  pub clarification : Bool
  pub requirements : Option Text
  pub plan : Bool

-- What one reap finds outside of the row. `fd` is the number of the lock file that it opens, and
-- `approval` the setting plan_requires_approval.
pub record ReapEnv (O : Type 0) : Type 0 where
  pub faults : Faults
  pub lock_faults : LockFaults
  pub fd : ℕ
  pub close_fails : Bool
  pub now : Time
  pub hooks : List (Hook O)
  pub approval : Bool
  pub files : Text → TaskDirFiles

-- The row that is shown, the error that is printed, the world, and the row's lock file.
pub record Reaped (B O : Type 0) : Type 0 where
  pub task : Task
  pub printed : Option TransitError
  pub world : World B O
  pub lock_file : Option LockFile

-- The event of finalisePlanReap.
unfoldable pub plan_event : Bool → TaskDirFiles → Event
plan_event approval f =
    if f.clarification then reaper_plan_needs_clarification else elim f.requirements [
      | none ↦ reaper_plan_fail
      | some text ↦
          if f.plan
          then (if approval then reaper_plan_await_approval else reaper_plan_done)
          else reaper_plan_fail
    ]

-- The summary is renewed only where the plan is done.
pub summarized : TaskDirFiles → Text → Text
summarized f old = if f.clarification then old else elim f.requirements [
  | none ↦ old
  | some text ↦
      let line = summarize_markdown text in
      if f.plan then (if is_empty line then old else line) else old
]

unfoldable pub work_event : TaskDirFiles → Event
work_event f = if f.clarification then reaper_work_needs_clarification else reaper_work_done

module _ (toml : Toml) {O : Type 0} where
  open toml use {Bytes}

  abbrev apply_and_warn :
      ReapEnv O → Task → Event → World Bytes O → Option LockFile → Reaped Bytes O
  apply_and_warn env t ev world file =
      let a = apply_and_persist toml env.faults env.now env.hooks t ev world in
      record { task = a.task; printed = a.error; world = a.world; lock_file = file }

  unfoldable pub finalise_plan_reap :
      ReapEnv O → Task → World Bytes O → Option LockFile → Reaped Bytes O
  unfolding plan_event summarized
  finalise_plan_reap env t world file =
      let f = env.files t.id in
      apply_and_warn env (record t { plan_end_at = env.now; summary = summarized f t.summary })
        (plan_event env.approval f) world file

  unfoldable pub finalise_work_reap :
      ReapEnv O → Task → World Bytes O → Option LockFile → Reaped Bytes O
  unfolding work_event
  finalise_work_reap env t world file =
      apply_and_warn env (record t { work_end_at = env.now }) (work_event (env.files t.id)) world
        file

  abbrev pub left_alone : Task → World Bytes O → Option LockFile → Reaped Bytes O
  left_alone t world file = record { task = t; printed = none; world = world; lock_file = file }

  pub finalise : ReapEnv O → Task → World Bytes O → Option LockFile → Reaped Bytes O
  unfolding finalise_plan_reap finalise_work_reap
  finalise env t world file =
      if status_eq t.status planning
      then finalise_plan_reap env t world file
      else finalise_work_reap env t world file

  -- Behind the probe: the lock is given back before the row is touched.
  pub probed :
      ReapEnv O
      → Task
      → World Bytes O
      → Result AcquireError (Option Lock) × Option LockFile
      → Reaped Bytes O
  unfolding finalise
  probed env t world (err e, file) = left_alone t world file
  probed env t world (ok none, file) = left_alone t world file
  probed env t world (ok (some l), file) = finalise env t world (release env.close_fails l file).2

  -- TryAcquireForReap makes sure of the directory first.
  pub probe : ReapEnv O → Task → World Bytes O → Option LockFile → Reaped Bytes O
  unfolding probed
  probe env t world file =
      let (e, s) = ensure_dir env.faults t.id world.store in
      probed env t (record world { store = s })
        (try_acquire_for_reap (record env.lock_faults { dir = e }) env.fd file)

  unfoldable pub maybe_reap : ReapEnv O → Task → World Bytes O → Option LockFile → Reaped Bytes O
  unfolding probe
  maybe_reap env t world file =
      if status_eq t.status planning
      then probe env t world file
      else if status_eq t.status working
      then probe env t world file
      else left_alone t world file

  -- reapBackgroundTasks, over the lock files by the task's id.
  unfoldable pub reap_background_tasks :
      ReapEnv O
      → List Task
      → World Bytes O
      → (Text → Option LockFile)
      → List Task × World Bytes O × (Text → Option LockFile)
  reap_background_tasks env [] world locks = ([], world, locks)
  reap_background_tasks env (t ∷ ts) world locks =
      let r = maybe_reap env t world (locks t.id) in
      let (out, world', locks') =
        reap_background_tasks env ts r.world
          (λ id. if text_eq id t.id then r.lock_file else locks id) in
      (r.task ∷ out, world', locks')
