-- ===== src/Cli/Continue/Laws.antt =====
-- Where `j tasks continue` sends a row.
use j.Prelude.{◌≡◌, ◌≢◌, refl, ◌∙◌, ap, ◌⊎◌, inl, inr, Bool, true, false, [], ◌∷◌, ◌++◌, ok, arith}
use j.Tasks.Status.{
  TaskStatus, planning, plan_pending_approval, working, completed, failed, unlisted, valid,
}
use j.Tasks.Row.{Task}
use j.Tasks.Fsm.{Event, plan_approve}
use j.Tasks.Fsm.Table.{accepts, target}
use j.Tasks.Wire.{Toml}
use j.Tasks.Store.{StoreError, get_task}
use j.Tasks.Transit.{World, notify, stamp_terminal, apply_and_persist_warn}
use j.Tasks.Transit.Laws.{best_effort_notifies, after_event, edge_of}
use j.Cli.Phase.{Phase}
use j.Cli.Continue.{
  ContinueEnv, Dispatch, inline, detached, refused, unsupported_status, dispatch_by_status,
  dispatch_on, resume_phase, run_plan_done_work, dispatch_clarification, dispatch_plan_approve,
  reverify_as_detached_orchestrator, resume_verifying_inline, dispatch_help, plan_done_work,
  spawned, resume_work_inline_orchestrator, resume_plan_inline_orchestrator,
}

-- The rows that `j tasks continue` launches nothing for.
abbrev pub is_parked : TaskStatus → Bool
is_parked planning = true
is_parked working = true
is_parked completed = true
is_parked failed = true
is_parked (unlisted s) = true
is_parked _ = false

abbrev pub launches : Dispatch → Bool
launches (inline args) = true
launches (detached args) = true
launches _ = false

module _ (toml : Toml) {O : Type 0} where
  open toml use {Bytes}

  parked_stays :
      (env : ContinueEnv O) (t : Task) (world : World Bytes O) (s : TaskStatus)
      → is_parked s ≡ true
      → let (d, after) = dispatch_on toml s env t world in (launches d ≡ false) × (after ≡ world)
  unfolding dispatch_on
  parked_stays env t world s h = ground arith

  supported :
      (env : ContinueEnv O) (t : Task) (world : World Bytes O) (s x : TaskStatus)
      → valid s ≡ true
      → (dispatch_on toml s env t world).0 ≢ refused (unsupported_status x)
  unfolding dispatch_on valid dispatch_plan_approve run_plan_done_work
      reverify_as_detached_orchestrator resume_verifying_inline dispatch_clarification dispatch_help
      resume_phase plan_done_work spawned resume_work_inline_orchestrator
      resume_plan_inline_orchestrator
  supported env t world s x h = ground arith

  -- A row that is planning, working, completed, failed or at a status that is not listed is
  -- answered by a message or an error: nothing is launched, and neither the store nor the
  -- observers change.
  pub parked_rows_stay :
      (env : ContinueEnv O) (t : Task) (world : World Bytes O)
      → is_parked t.status ≡ true
      → let (d, after) = dispatch_by_status toml env t world in
        (launches d ≡ false) × (after ≡ world)
  unfolding dispatch_by_status
  parked_rows_stay env t world h = parked_stays env t world t.status h

  -- The error for an unsupported status meets only a row whose status is not listed.
  listed_is_supported :
      (env : ContinueEnv O) (t : Task) (world : World Bytes O) (x : TaskStatus)
      → valid t.status ≡ true
      → (dispatch_by_status toml env t world).0 ≢ refused (unsupported_status x)
  unfolding dispatch_by_status
  listed_is_supported env t world x v = supported env t world t.status x v

  -- The world behind a best-effort event: the hooks have run on the moved row, which is in the
  -- store, or a warning was printed.
  abbrev pub HasMoved : ContinueEnv O → Task → Event → World Bytes O → World Bytes O → Type 0
  HasMoved env t ev world after =
      let row = after_event env.now t ev in
      (after.observed ≡ notify env.hooks (edge_of t ev) row world.observed)
      × ((get_task toml t.id after.store ≡ ok row)
          ⊎ ((e : StoreError) × (after.warnings ≡ world.warnings ++ e ∷ [])))

  moved_lem :
      (env : ContinueEnv O) (t : Task) (ev : Event) (world : World Bytes O)
      → accepts ev t.status ≡ true
      → HasMoved env t ev world
          (apply_and_persist_warn toml env.faults env.now env.hooks t ev world).world
  moved_lem env t ev world h =
      let (a, b, c, d) = best_effort_notifies toml env.faults env.now env.hooks t ev world h in
      (
        cc,
        elim d [
          | inl (stored, w) ↦ inl (stored ∙ ap (λ u. ok u) b)
          | inr (e, w, same) ↦ inr (e, w)
        ],
      )

  -- Continuing a row that waits for the approval of its plan approves it: the event runs before
  -- anything else, and what follows is the work launch of a row at `plan-done`.
  approval_then_work :
      (env : ContinueEnv O) (t : Task) (world : World Bytes O)
      → t.status ≡ plan_pending_approval
      → (w : World Bytes O) × HasMoved env t plan_approve world w
        × (dispatch_by_status toml env t world ≡ run_plan_done_work toml env t.id w)
        × ((after_event env.now t plan_approve).status ≡ TaskStatus.plan_done)
  unfolding dispatch_by_status dispatch_on dispatch_plan_approve accepts target stamp_terminal
  approval_then_work env t world at = (
    (apply_and_persist_warn toml env.faults env.now env.hooks t plan_approve world).world,
    moved_lem env t plan_approve world (rw at refl),
    ap (λ s. dispatch_on toml s env t world) at,
    refl,
  )
