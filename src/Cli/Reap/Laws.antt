-- ===== src/Cli/Reap/Laws.antt =====
-- What the reaper does to rows and locks.
use j.Prelude.{
  ℕ, ◌≡◌, ◌≢◌, refl, ◌∙◌, ◌⊎◌, inl, inr, true, false, Text, Option, none, some, Result, ok, err,
  arith, Bool-cases,
}
use j.Tasks.Status.{status_eq}
use j.Tasks.Row.{Task}
use j.Tasks.Wire.{Toml}
use j.Tasks.Store.{StoreError, get_task, ensure_dir}
use j.Tasks.Store.Laws.{get-ensure_dir}
use j.Tasks.Transit.{World, not_stored}
use j.Tasks.Lock.{LockFile, Lock, LockFaults, AcquireError, try_acquire_for_reap, release}
use j.Tasks.Lock.Laws.{probe_is_harmless}
use j.Cli.Reap.{ReapEnv, Reaped, maybe_reap, left_alone, finalise, probed, probe}
use j.Cli.Reap.Finalise.{reap_status, is_in_flight, in_flight-cases, finalised}

-- The lock file is not there, or an open file holds it.
abbrev pub IsUnavailable : Option LockFile → Type 0
IsUnavailable file =
    (file ≡ none) ⊎ ((f : LockFile) × (n : ℕ) × (file ≡ some f) × (f.owner ≡ some n))

nothing_got :
    (w : LockFaults) (fd : ℕ) (file : Option LockFile)
    → IsUnavailable file
    → ((l : Lock) → (try_acquire_for_reap w fd file).0 ≢ ok (some l))
      × ((try_acquire_for_reap w fd file).1 ≡ file)
unfolding try_acquire_for_reap
nothing_got w fd file (inl h) = (λ l. ground arith, ground arith)
nothing_got w fd file (inr (f, n, is, o)) = (λ l. ground arith, ground arith)

module _ (toml : Toml) {O : Type 0} where
  open toml use {Bytes}

  probed_lem :
      (env : ReapEnv O) (t : Task) (world : World Bytes O) (l : Lock)
      (p : Result AcquireError (Option Lock) × Option LockFile)
      → p.0 ≡ ok (some l)
      → probed toml env t world p ≡ finalise toml env t world (release env.close_fails l p.1).2
  unfolding probed
  probed_lem env t world l (ok (some m), file) h = cc
  probed_lem env t world l (ok none, file) h = absurd (ground arith)
  probed_lem env t world l (err e, file) h = absurd (ground arith)

  probed_nothing :
      (env : ReapEnv O) (t : Task) (world : World Bytes O)
      (p : Result AcquireError (Option Lock) × Option LockFile)
      → ((l : Lock) → p.0 ≢ ok (some l))
      → probed toml env t world p ≡ left_alone toml t world p.1
  unfolding probed
  probed_nothing env t world (ok (some m), file) h = absurd (h m refl)
  probed_nothing env t world (ok none, file) h = refl
  probed_nothing env t world (err e, file) h = refl

  in_flight_probed :
      (env : ReapEnv O) (t : Task) (world : World Bytes O) (file : Option LockFile)
      → is_in_flight t.status ≡ true
      → maybe_reap toml env t world file ≡ probe toml env t world file
  unfolding maybe_reap status_eq
  in_flight_probed env t world file h = elim (in_flight-cases t.status h) [
    | inl at ↦ rw at refl
    | inr at ↦ rw at refl
  ]

  abbrev faults_of : ReapEnv O → Task → World Bytes O → LockFaults
  faults_of env t world = record env.lock_faults {
    dir = (ensure_dir env.faults t.id world.store).0;
  }

  -- A row that is planning or working and whose lock the reaper gets is finalised: the status
  -- follows from the files (clarification.md, the readable requirements.md, plan.md and the
  -- approval setting for a plan, clarification.md for work), the lock file is as before, and the
  -- row is in the store, or an error of the store is printed: the rules never refuse the event.
  pub reap_lem :
      (env : ReapEnv O) (t : Task) (world : World Bytes O) (file : Option LockFile) (l : Lock)
      → is_in_flight t.status ≡ true
      → (try_acquire_for_reap (faults_of env t world) env.fd file).0 ≡ ok (some l)
      → let r = maybe_reap toml env t world file in
        (r.task.status ≡ reap_status env.approval (env.files t.id) t.status)
        × (r.lock_file ≡ file)
        × (((r.printed ≡ none) × (get_task toml t.id r.world.store ≡ ok r.task))
            ⊎ ((e : StoreError) × (r.printed ≡ some (not_stored e))))
  unfolding probe
  reap_lem env t world file l h got =
      let w = faults_of env t world in
      let world' = record world { store = (ensure_dir env.faults t.id world.store).1 } in
      let p = try_acquire_for_reap w env.fd file in
      let kept = (probe_is_harmless w env.fd env.close_fails file l got).0 in
      let ((b, c), d) = finalised toml env t world' (release env.close_fails l p.1).2 h in
      rw (in_flight_probed env t world file h, probed_lem env t world' l p got) (b, d ∙ kept, c)

  abbrev pub IsLeftAlone : Task → World Bytes O → Option LockFile → Reaped Bytes O → Type 0
  IsLeftAlone t world file r =
      (r.task ≡ t)
      × (r.printed ≡ none)
      × (r.lock_file ≡ file)
      × (r.world.observed ≡ world.observed)
      × ((id : Text) → get_task toml id r.world.store ≡ get_task toml id world.store)

  probe_leaves_alone :
      (env : ReapEnv O) (t : Task) (world : World Bytes O) (file : Option LockFile)
      → IsUnavailable file
      → IsLeftAlone t world file (probe toml env t world file)
  unfolding probe
  probe_leaves_alone env t world file h =
      let w = faults_of env t world in
      let world' = record world { store = (ensure_dir env.faults t.id world.store).1 } in
      let (no_lock, kept) = nothing_got w env.fd file h in
      rw (probed_nothing env t world' (try_acquire_for_reap w env.fd file) no_lock)
        (refl, refl, kept, refl, get-ensure_dir toml env.faults t.id world.store)

  not_in_flight :
      (env : ReapEnv O) (t : Task) (world : World Bytes O) (file : Option LockFile)
      → is_in_flight t.status ≡ false
      → maybe_reap toml env t world file ≡ left_alone toml t world file
  unfolding maybe_reap status_eq
  not_in_flight env t world file h = ground arith

  -- A row that is not planning or working, that has no lock file, or whose lock an open file
  -- holds, is left alone, and so are the lock file, the rows of the store and the observers, and
  -- nothing is printed.
  reap_leaves_alone :
      (env : ReapEnv O) (t : Task) (world : World Bytes O) (file : Option LockFile)
      → (is_in_flight t.status ≡ false) ⊎ IsUnavailable file
      → IsLeftAlone t world file (maybe_reap toml env t world file)
  reap_leaves_alone env t world file (inl h) =
      rw (not_in_flight env t world file h) (refl, refl, refl, refl, λ id. refl)
  reap_leaves_alone env t world file (inr h) = elim (Bool-cases (is_in_flight t.status)) [
    | inl f ↦ rw (in_flight_probed env t world file f) (probe_leaves_alone env t world file h)
    | inr f ↦ rw (not_in_flight env t world file f) (refl, refl, refl, refl, λ id. refl)
  ]
