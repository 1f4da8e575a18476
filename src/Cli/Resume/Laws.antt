-- ===== src/Cli/Resume/Laws.antt =====
-- What a resumed session is launched on.
use mathlib.Core.Path.{subst}
use j.Prelude.{
  ◌≡◌, refl, Text, List, [], ◌∷◌, Option, none, some, Result, ok, err, Bool-cases, inl, inr,
}
use j.Tasks.Row.{Task}
use j.Tasks.Wire.{Toml}
use j.Tasks.Store.{Store, get_task, ensure_dir}
use j.Tasks.Store.Laws.{get-ensure_dir}
use j.Tasks.Lock.{
  Lock, LockFile, AcquireError, dir_failed, open_failed, stat_failed, locked, acquire_lock,
  try_acquire_for_reap,
}
use j.Tasks.Lock.Laws.{IsLeftFree, acquired-IsOurs, probed-IsOurs, ours_is_freed}
use j.Cli.Pick.{PickError}
use j.Resolver.{ResolveError, task_by_id}
use j.Cli.Resume.{
  ResumeEnv, ResumeError, ResumePhaseConfig, Look, TakenOver, Launched, looked, wait_lock_released,
  acquired, takeover_if_held, orchestrate_args, pick_resume_task_id, taken_over, gated, on_row,
  on_id, run_resume_phase,
}

-- A takeover that succeeds leaves the file free.
abbrev Frees : TakenOver → Type 0
Frees (some e, file) = Unit {0}
Frees (none, file) = IsLeftFree file

look-Frees :
    (env : ResumeEnv) (rest : Unit {0} → TakenOver) (look : Look)
    (r : Result AcquireError (Option Lock) × Option LockFile)
    → try_acquire_for_reap env.lock_faults env.fd look.file ≡ r
    → Frees (rest tt)
    → Frees (looked env rest look r)
unfolding looked
look-Frees env rest look (err e, file) h after = tt
look-Frees env rest look (ok (some l), file) h after =
    ours_is_freed env.close_fails env.fd l file
      (probed-IsOurs env.lock_faults env.fd look.file file l h)
look-Frees env rest look (ok none, file) h after = elim (Bool-cases look.done) [
  | inl done ↦ rw done tt
  | inr waits ↦ rw waits after
]

wait-Frees :
    (env : ResumeEnv) (file : Option LockFile) (looks : List Look)
    → Frees (wait_lock_released env file looks)
unfolding wait_lock_released
wait-Frees env file [] = tt
wait-Frees env file (look ∷ looks) =
    look-Frees env (λ u. wait_lock_released env look.file looks) look
      (try_acquire_for_reap env.lock_faults env.fd look.file) refl (wait-Frees env look.file looks)

acquired-Frees :
    (env : ResumeEnv) (file : Option LockFile) (r : Result AcquireError Lock × Option LockFile)
    → acquire_lock env.caller env.lock_faults env.fd file ≡ r
    → Frees (acquired env r)
unfolding acquired
acquired-Frees env file (ok l, file') h =
    ours_is_freed env.close_fails env.fd l file'
      (acquired-IsOurs env.caller env.lock_faults env.fd file file' l h)
acquired-Frees env file (err (locked holder), file') h =
    elim (Bool-cases (env.terminate_fails holder.pid)) [
      | inl fails ↦ rw fails tt
      | inr ends ↦ rw ends (wait-Frees env file' env.looks)
    ]
acquired-Frees env file (err (dir_failed e), file') h = tt
acquired-Frees env file (err open_failed, file') h = tt
acquired-Frees env file (err stat_failed, file') h = tt

takeover-Frees : (env : ResumeEnv) (file : Option LockFile) → Frees (takeover_if_held env file)
unfolding takeover_if_held
takeover-Frees env file =
    acquired-Frees env file (acquire_lock env.caller env.lock_faults env.fd file) refl

module _ (toml : Toml) where
  open toml use {Bytes}

  -- What a launch of the session of the row `id` stands on.
  abbrev pub IsLaunch :
      ResumeEnv → ResumePhaseConfig → Store Bytes → List Text → Option LockFile → Text → Type 0
  IsLaunch env cfg s args file id =
      (pick_resume_task_id toml env cfg s ≡ ok (some id))
      × (args ≡ orchestrate_args cfg id)
      × ((t : Task) × (task_by_id toml id s ≡ ok t) × (cfg.gate (env.files t.id) t ≡ none))
      × IsLeftFree file

  abbrev pub KeepsRows : Store Bytes → Store Bytes → Type 0
  KeepsRows s s' = (id : Text) → get_task toml id s' ≡ get_task toml id s

  abbrev Ends : ResumeEnv → ResumePhaseConfig → Store Bytes → Launched toml → Type 0
  Ends env cfg s (ok (some args), s', file) =
      KeepsRows s s' × ((id : Text) × IsLaunch env cfg s args file id)
  Ends env cfg s (_, s', file) = KeepsRows s s'

  taken_over-Ends :
      (env : ResumeEnv) (cfg : ResumePhaseConfig) (id : Text) (s s' : Store Bytes) (t : Task)
      → pick_resume_task_id toml env cfg s ≡ ok (some id)
      → task_by_id toml id s ≡ ok t
      → cfg.gate (env.files t.id) t ≡ none
      → KeepsRows s s'
      → (over : TakenOver) → Frees over
      → Ends env cfg s (taken_over toml cfg id s' over)
  unfolding taken_over
  taken_over-Ends env cfg id s s' t chosen found passes keeps (some e, file) frees = keeps
  taken_over-Ends env cfg id s s' t chosen found passes keeps (none, file) frees =
      (keeps, (id, (chosen, refl, (t, found, passes), frees)))

  gated-Ends :
      (env : ResumeEnv) (cfg : ResumePhaseConfig) (id : Text) (s s' : Store Bytes) (t : Task)
      → pick_resume_task_id toml env cfg s ≡ ok (some id)
      → task_by_id toml id s ≡ ok t
      → KeepsRows s s'
      → (file : Option LockFile) (o : Option ResumeError) → cfg.gate (env.files t.id) t ≡ o
      → Ends env cfg s (gated toml env cfg id s' file o)
  unfolding gated
  gated-Ends env cfg id s s' t chosen found keeps file (some e) q = keeps
  gated-Ends env cfg id s s' t chosen found keeps file none passes =
      taken_over-Ends env cfg id s s' t chosen found passes keeps (takeover_if_held env file)
        (takeover-Frees env file)

  on_row-Ends :
      (env : ResumeEnv) (cfg : ResumePhaseConfig) (id : Text) (s : Store Bytes)
      (file : Option LockFile)
      → pick_resume_task_id toml env cfg s ≡ ok (some id)
      → (r : Result ResolveError Task) → task_by_id toml id s ≡ r
      → Ends env cfg s (on_row toml env cfg id s file r)
  unfolding on_row
  on_row-Ends env cfg id s file chosen (err e) found = λ k. refl
  on_row-Ends env cfg id s file chosen (ok t) found =
      gated-Ends env cfg id s (ensure_dir env.faults t.id s).1 t chosen found
        (get-ensure_dir toml env.faults t.id s) file (cfg.gate (env.files t.id) t) refl

  on_id-Ends :
      (env : ResumeEnv) (cfg : ResumePhaseConfig) (s : Store Bytes) (files : Text → Option LockFile)
      (r : Result PickError (Option Text))
      → pick_resume_task_id toml env cfg s ≡ r
      → Ends env cfg s (on_id toml env cfg s files r)
  unfolding on_id
  on_id-Ends env cfg s files (err e) chosen = λ k. refl
  on_id-Ends env cfg s files (ok none) chosen = λ k. refl
  on_id-Ends env cfg s files (ok (some id)) chosen =
      on_row-Ends env cfg id s (files id) chosen (task_by_id toml id s) refl

  -- If a resume command of any of the three phases starts the orchestrator, then it does so for one
  -- task, the one that was picked, whose row is found and passes the phase's gate; the lock file of
  -- that task is there and no open file holds its lock any more; and every row is as it was.
  pub resume_starts_unlocked :
      (env : ResumeEnv) (cfg : ResumePhaseConfig) (s s' : Store Bytes)
      (files : Text → Option LockFile) (args : List Text) (file : Option LockFile)
      → run_resume_phase toml env cfg s files ≡ (ok (some args), s', file)
      → KeepsRows s s' × ((id : Text) × IsLaunch env cfg s args file id)
  unfolding run_resume_phase
  resume_starts_unlocked env cfg s s' files args file h =
      subst (Ends env cfg s) h
        (on_id-Ends env cfg s files (pick_resume_task_id toml env cfg s) refl)
