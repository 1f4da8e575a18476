-- ===== src/Lifecycle/Stored.antt =====
-- A lifecycle's row in the store.
use j.Prelude.{
  ◌≡◌, ap, ◌∙◌, ◌⊎◌, inl, inr, true, List, [], ◌∷◌, ◌++◌, ok, Option-cases, text_eq_refl, arith,
}
use j.Tasks.Row.{Task, Time}
use j.Tasks.Fsm.{Event}
use j.Tasks.Fsm.Table.{accepts}
use j.Tasks.Wire.{Toml}
use j.Tasks.Store.{Faults, StoreError, get_task, put_task}
use j.Tasks.Store.Laws.{get-put}
use j.Tasks.Transit.{World, stamp_terminal, persist_warn, apply_and_persist_warn}
use j.Tasks.Transit.Laws.{best_effort_notifies, after_event}
use j.Lifecycle.{Env}

kept_id : (now : Time) (t : Task) (ev : Event) → (after_event now t ev).id ≡ t.id
unfolding stamp_terminal
kept_id now t ev = ground arith

module _ (toml : Toml) {O : Type 0} where
  open toml use {Bytes}

  -- The store has the row, or the last line on standard error tells that its write was refused.
  abbrev pub IsStored : Task → World Bytes O → Type 0
  IsStored t world =
      (get_task toml t.id world.store ≡ ok t)
      ⊎ ((lines : List StoreError) × (e : StoreError) × (world.warnings ≡ lines ++ e ∷ []))

  pub warn-IsStored :
      (env : Env O) (t : Task) (ev : Event) (world : World Bytes O)
      → accepts ev t.status ≡ true
      → let a = apply_and_persist_warn toml env.faults env.now env.hooks t ev world in
        IsStored a.task a.world
  warn-IsStored env t ev world legal =
      let (fine, moved, seen, end) =
        best_effort_notifies toml env.faults env.now env.hooks t ev world legal in
      let a = apply_and_persist_warn toml env.faults env.now env.hooks t ev world in
      let same : a.task.id ≡ t.id = ap (λ (u : Task). u.id) moved ∙ kept_id env.now t ev in
      elim end [
        | inl (stored, silent) ↦ inl (rw same stored)
        | inr (e, line, kept) ↦ inr (world.warnings, e, line)
      ]

  pub persist_warn-IsStored :
      (w : Faults) (t : Task) (world : World Bytes O) → IsStored t (persist_warn toml w t world)
  unfolding persist_warn
  persist_warn-IsStored w t world = elim (Option-cases (put_task toml w t world.store).0) [
    | inl fine ↦ inl (ground (arith, fine, get-put toml w t world.store t.id, text_eq_refl t.id))
    | inr (e, fails) ↦ inr (world.warnings, e, ground (arith, fails))
  ]
