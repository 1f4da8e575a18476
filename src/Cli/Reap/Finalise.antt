-- ===== src/Cli/Reap/Finalise.antt =====
-- finalisePlanReap and finaliseWorkReap on a row that is in flight.
use mathlib.Core.Path.{subst}
use j.Prelude.{
  ◌≡◌, ◌≢◌, refl, ap, sym, ◌∙◌, ◌⊎◌, inl, inr, Bool, true, false, Option, none, some, ok,
  if◌then◌else◌, arith,
}
use j.Tasks.Status.{
  TaskStatus, planning, plan_pending_approval, working, needs_clarification, help, status_eq,
  completed,
}
use j.Tasks.Row.{Task}
use j.Tasks.Fsm.{Event}
use j.Tasks.Fsm.Table.{accepts, target, apply_lem}
use j.Tasks.Wire.{Toml}
use j.Tasks.Store.{StoreError, get_task}
use j.Tasks.Transit.{World, not_stored, apply_and_persist, stamp_terminal}
use j.Tasks.Transit.Laws.{stored_before_notified, strict_cases}
use j.Tasks.Lock.{LockFile}
use j.Cli.Reap.{
  TaskDirFiles, ReapEnv, Reaped, plan_event, work_event, summarized, finalise_plan_reap,
  finalise_work_reap, finalise,
}

-- The status that a reap leaves, by the files.
abbrev pub plan_reap_status : Bool → TaskDirFiles → TaskStatus
plan_reap_status approval f = if f.clarification then needs_clarification else elim f.requirements [
  | none ↦ help
  | some text ↦
      if f.plan then (if approval then plan_pending_approval else TaskStatus.plan_done) else help
]

abbrev pub work_reap_status : TaskDirFiles → TaskStatus
work_reap_status f = if f.clarification then needs_clarification else TaskStatus.work_done

abbrev pub reap_status : Bool → TaskDirFiles → TaskStatus → TaskStatus
reap_status approval f s =
    if status_eq s planning then plan_reap_status approval f else work_reap_status f

abbrev pub is_in_flight : TaskStatus → Bool
is_in_flight planning = true
is_in_flight working = true
is_in_flight _ = false

plan_event-accepts :
    (approval : Bool) (f : TaskDirFiles)
    → (accepts (plan_event approval f) planning ≡ true)
      × (target (plan_event approval f) ≡ plan_reap_status approval f)
      × (plan_reap_status approval f ≢ completed)
unfolding plan_event accepts target
plan_event-accepts approval f = ground arith

work_event-accepts :
    (f : TaskDirFiles)
    → (accepts (work_event f) working ≡ true)
      × (target (work_event f) ≡ work_reap_status f)
      × (work_reap_status f ≢ completed)
unfolding work_event accepts target
work_event-accepts f = ground arith

reap_status-planning :
    (approval : Bool) (f : TaskDirFiles) (s : TaskStatus)
    → s ≡ planning
    → plan_reap_status approval f ≡ reap_status approval f s
unfolding status_eq
reap_status-planning approval f s h = rw h refl

reap_status-working :
    (approval : Bool) (f : TaskDirFiles) (s : TaskStatus)
    → s ≡ working
    → work_reap_status f ≡ reap_status approval f s
unfolding status_eq
reap_status-working approval f s h = rw h refl

pub in_flight-cases : (s : TaskStatus) → is_in_flight s ≡ true → (s ≡ planning) ⊎ (s ≡ working)
in_flight-cases s h = ground arith

module _ (toml : Toml) {O : Type 0} where
  open toml use {Bytes}

  strict_lem :
      (env : ReapEnv O) (t : Task) (ev : Event) (world : World Bytes O)
      → accepts ev t.status ≡ true
      → target ev ≢ completed
      → let a = apply_and_persist toml env.faults env.now env.hooks t ev world in
        (a.task ≡ record t { status = target ev })
        × (((a.error ≡ none) × (get_task toml t.id a.world.store ≡ ok a.task))
            ⊎ ((e : StoreError) × (a.error ≡ some (not_stored e))))
  unfolding apply_and_persist stamp_terminal
  strict_lem env t ev world h n = (
    ground (arith, apply_lem ev t.status),
    elim (strict_cases toml env.faults env.now env.hooks t ev world h) [
      | inl e ↦ inl (e, (stored_before_notified toml env.faults env.now env.hooks t ev world e).2)
      | inr s ↦ inr s
    ],
  )

  -- What a finalised row is: no refusal by the rules, the status by the files, and, without an
  -- error, the row in the store.
  abbrev IsFinalised : ReapEnv O → Task → Reaped Bytes O → Type 0
  IsFinalised env t r =
      (r.task.status ≡ reap_status env.approval (env.files t.id) t.status)
      × (((r.printed ≡ none) × (get_task toml t.id r.world.store ≡ ok r.task))
          ⊎ ((e : StoreError) × (r.printed ≡ some (not_stored e))))

  plan_finalised :
      (env : ReapEnv O) (t : Task) (world : World Bytes O) (file : Option LockFile)
      → t.status ≡ planning
      → let r = finalise_plan_reap toml env t world file in
        IsFinalised env t r × (r.task.plan_end_at ≡ env.now) × (r.lock_file ≡ file)
  unfolding finalise_plan_reap
  plan_finalised env t world file at =
      let f = env.files t.id in
      let (legal, to, n) = plan_event-accepts env.approval f in
      let row : Task = record t { plan_end_at = env.now; summary = summarized f t.summary } in
      let (b, c) = strict_lem env row (plan_event env.approval f) world (rw at legal) (rw to n) in
      (
        (ap (λ (u : Task). u.status) b ∙ to ∙ reap_status-planning env.approval f t.status at, c),
        ap (λ (u : Task). u.plan_end_at) b,
        refl,
      )

  work_finalised :
      (env : ReapEnv O) (t : Task) (world : World Bytes O) (file : Option LockFile)
      → t.status ≡ working
      → let r = finalise_work_reap toml env t world file in
        IsFinalised env t r × (r.task.work_end_at ≡ env.now) × (r.lock_file ≡ file)
  unfolding finalise_work_reap
  work_finalised env t world file at =
      let f = env.files t.id in
      let (legal, to, n) = work_event-accepts f in
      let row : Task = record t { work_end_at = env.now } in
      let (b, c) = strict_lem env row (work_event f) world (rw at legal) (rw to n) in
      (
        (ap (λ (u : Task). u.status) b ∙ to ∙ reap_status-working env.approval f t.status at, c),
        ap (λ (u : Task). u.work_end_at) b,
        refl,
      )

  finalise-planning :
      (env : ReapEnv O) (t : Task) (world : World Bytes O) (file : Option LockFile)
      → t.status ≡ planning
      → finalise toml env t world file ≡ finalise_plan_reap toml env t world file
  unfolding finalise status_eq
  finalise-planning env t world file h = rw h refl

  finalise-working :
      (env : ReapEnv O) (t : Task) (world : World Bytes O) (file : Option LockFile)
      → t.status ≡ working
      → finalise toml env t world file ≡ finalise_work_reap toml env t world file
  unfolding finalise status_eq
  finalise-working env t world file h = rw h refl

  pub finalised :
      (env : ReapEnv O) (t : Task) (world : World Bytes O) (file : Option LockFile)
      → is_in_flight t.status ≡ true
      → let r = finalise toml env t world file in IsFinalised env t r × (r.lock_file ≡ file)
  finalised env t world file h = elim (in_flight-cases t.status h) [
    | inl at ↦
        let (a, b, c) = plan_finalised env t world file at in
        subst (λ r. IsFinalised env t r × (r.lock_file ≡ file))
          (sym (finalise-planning env t world file at)) (a, c)
    | inr at ↦
        let (a, b, c) = work_finalised env t world file at in
        subst (λ r. IsFinalised env t r × (r.lock_file ≡ file))
          (sym (finalise-working env t world file at)) (a, c)
  ]
