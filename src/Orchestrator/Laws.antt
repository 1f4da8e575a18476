-- ===== src/Orchestrator/Laws.antt =====
-- What a run of the chain guarantees.
use mathlib.Core.Path.{subst}
use j.Prelude.{
  ◌≡◌, ◌≢◌, refl, ap, sym, ◌∙◌, ◌⊎◌, inl, inr, Bool, true, false, Text, List, [], ◌∷◌, ◌++◌, none,
  some, ok, if◌then◌else◌, arith, Bool-cases,
}
use j.Tasks.Status.{TaskStatus, needs_clarification, verifying, failed, status_eq}
use j.Tasks.Row.{Task, Time}
use j.Tasks.Fsm.{verify_stuck, IllegalTransition}
use j.Tasks.Fsm.Table.{accepts, target}
use j.Tasks.Wire.{Toml}
use j.Tasks.Store.{Faults, StoreError, get_task}
use j.Tasks.Transit.{
  Hook, World, Applied, illegal, not_stored, apply_and_persist, notify, stamp_terminal,
}
use j.Tasks.Transit.Laws.{
  illegal_changes_nothing, strict_warnings, strict_cases, stored_before_notified,
  not_stored_not_notified, edge_of,
}
use j.Orchestrator.{
  full, plan_only, from_work, work_only, verify_only, Stage, tag, planner, worker, verifier,
  guarded_verifier, PhaseConfig, task_sub_agents, Stages, run_stage, drive_sequential, finalised,
  finalise_verify_fail_if_stuck, reported, stages_of, plan_stages, work_verify_stages,
  row_stopped_at_clarification, stopped,
}

-- The agents proper of a chain, without the tags, in order.
abbrev pub agents_of : List Stage → List Stage
agents_of [] = []
agents_of (tag p ∷ rest) = agents_of rest
agents_of (stage ∷ rest) = stage ∷ agents_of rest

-- The agents that each phase drives: the planner alone where it is asked for or where the plan
-- needs an approval, the worker before a guarded verifier, and a worker behind a planner without a
-- terminal.
chain_lem :
    (pc : PhaseConfig)
    → let agents = agents_of (task_sub_agents pc) in
      (pc.phase ≡ plan_only → agents ≡ planner pc.interactive ∷ [])
      × (pc.phase ≡ work_only → agents ≡ worker pc.interactive ∷ [])
      × (pc.phase ≡ verify_only → agents ≡ verifier ∷ [])
      × (pc.phase ≡ from_work → agents ≡ worker pc.interactive ∷ guarded_verifier ∷ [])
      × (pc.phase ≡ full
          → agents ≡ (
              if pc.plan_requires_approval
              then planner pc.interactive ∷ []
              else planner pc.interactive ∷ worker false ∷ guarded_verifier ∷ []))
unfolding task_sub_agents stages_of plan_stages work_verify_stages
chain_lem pc = ground arith

stuck_accepted : (s : TaskStatus) → s ≡ verifying → accepts verify_stuck s ≡ true
unfolding accepts
stuck_accepted s h = rw h refl

stuck_only : (s : TaskStatus) → s ≢ verifying → accepts verify_stuck s ≡ false
unfolding accepts
stuck_only s h = ground (arith, h)

module _ (toml : Toml) {O : Type 0} where
  open toml use {Bytes}

  -- A row behind the worker that stands at `needs-clarification` is not verified: a chain that
  -- goes on with the guarded verifier leaves the world as it is.
  clarification_skips_verifier :
      (stages : Stages Bytes O) (has_tagger : Bool) (id : Text) (t : Task) (world : World Bytes O)
      → get_task toml id world.store ≡ ok t
      → t.status ≡ needs_clarification
      → drive_sequential toml stages has_tagger id (guarded_verifier ∷ []) world ≡ (world, false)
  unfolding drive_sequential run_stage row_stopped_at_clarification stopped status_eq
  clarification_skips_verifier stages has_tagger id t world g at = ground (arith, g, at)

  -- A refused write has added a warning, and nothing else can be seen of it.
  abbrev pub Refused : World Bytes O → World Bytes O → Type 0
  Refused world after =
      (e : StoreError) × (after.warnings ≡ world.warnings ++ e ∷ [])
      × (after.observed ≡ world.observed)
      × ((i : Text) → get_task toml i after.store ≡ get_task toml i world.store)

  reported_error :
      (a : Applied Bytes O) (e : StoreError)
      → a.error ≡ some (not_stored e)
      → reported toml a ≡ record a.world { warnings = a.world.warnings ++ e ∷ [] }
  unfolding reported
  reported_error a e h = ground (arith, h)

  reported_fine : (a : Applied Bytes O) → a.error ≡ none → reported toml a ≡ a.world
  unfolding reported
  reported_fine a h = ground (arith, h)

  reported_illegal :
      (a : Applied Bytes O) (x : IllegalTransition)
      → a.error ≡ some (illegal x)
      → reported toml a ≡ a.world
  unfolding reported
  reported_illegal a x h = ground (arith, h)

  settled_elsewhere :
      (w : Faults) (now : Time) (hooks : List (Hook O)) (t : Task) (world : World Bytes O)
      → t.status ≢ verifying
      → reported toml (apply_and_persist toml w now hooks t verify_stuck world) ≡ world
  settled_elsewhere w now hooks t world n =
      let (refused, kept, same, lax) =
        illegal_changes_nothing toml w now hooks t verify_stuck world (stuck_only t.status n) in
      reported_illegal (apply_and_persist toml w now hooks t verify_stuck world) _ refused ∙ same

  settled_stored :
      (w : Faults) (now : Time) (hooks : List (Hook O)) (t : Task) (world : World Bytes O)
      → (apply_and_persist toml w now hooks t verify_stuck world).error ≡ none
      → let after = reported toml (apply_and_persist toml w now hooks t verify_stuck world) in
        let row : Task = record t { status = failed } in
        (get_task toml t.id after.store ≡ ok row)
        × (after.observed ≡ notify hooks (edge_of t verify_stuck) row world.observed)
        × (after.warnings ≡ world.warnings)
  unfolding target stamp_terminal
  settled_stored w now hooks t world fine =
      let a = apply_and_persist toml w now hooks t verify_stuck world in
      let (ok_event, row, stored, seen) =
        stored_before_notified toml w now hooks t verify_stuck world fine in
      rw (reported_fine a fine) (
        stored ∙ ap (λ u. ok u) row,
        seen ∙ ap (λ u. notify hooks (edge_of t verify_stuck) u world.observed) row,
        strict_warnings toml w now hooks t verify_stuck world,
      )

  settled-Refused :
      (w : Faults) (now : Time) (hooks : List (Hook O)) (t : Task) (world : World Bytes O)
      (e : StoreError)
      → (apply_and_persist toml w now hooks t verify_stuck world).error ≡ some (not_stored e)
      → Refused world (reported toml (apply_and_persist toml w now hooks t verify_stuck world))
  settled-Refused w now hooks t world e refused =
      let a = apply_and_persist toml w now hooks t verify_stuck world in
      let (row, unseen, rows) =
        not_stored_not_notified toml w now hooks t verify_stuck world e refused in
      let warnings = strict_warnings toml w now hooks t verify_stuck world in
      subst (Refused world) (sym (reported_error a e refused))
        (e, ap (λ l. l ++ e ∷ []) warnings, unseen, rows)

  -- The last look at the row: at any other status than `verifying` nothing happens; at `verifying`
  -- the row is failed, in the store and before the hooks, or the write is refused, which adds a
  -- warning, and no reader of the store and no observer sees a change.
  pub finalise_lem :
      (w : Faults) (now : Time) (hooks : List (Hook O)) (id : Text) (t : Task)
      (world : World Bytes O)
      → get_task toml id world.store ≡ ok t
      → let after = finalise_verify_fail_if_stuck toml w now hooks id world in
        let row : Task = record t { status = failed } in
        ((t.status ≢ verifying) × (after ≡ world))
        ⊎ ((t.status ≡ verifying)
            × (get_task toml t.id after.store ≡ ok row)
            × (after.observed ≡ notify hooks (edge_of t verify_stuck) row world.observed)
            × (after.warnings ≡ world.warnings))
        ⊎ ((t.status ≡ verifying) × Refused world after)
  unfolding finalise_verify_fail_if_stuck status_eq
  finalise_lem w now hooks id t world g =
      let look = ap (λ r. finalised toml w now hooks world r) g in
      elim (Bool-cases (status_eq t.status verifying)) [
        | inr b ↦
            let n : t.status ≢ verifying = λ e. ground (arith, b, e) in
            inl (n, look ∙ settled_elsewhere w now hooks t world n)
        | inl b ↦
            let at : t.status ≡ verifying = ground (arith, b) in
            elim (strict_cases toml w now hooks t verify_stuck world (stuck_accepted t.status at)) [
              | inl fine ↦
                  let (r, s, o) = settled_stored w now hooks t world fine in
                  inr (inl (at, rw look r, rw look s, rw look o))
              | inr (e, refused) ↦ inr (
                  inr (
                    at,
                    subst (Refused world) (sym look)
                        (settled-Refused w now hooks t world e refused),
                  ))
            ]
      ]
