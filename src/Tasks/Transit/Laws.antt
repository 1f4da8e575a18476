-- ===== src/Tasks/Transit/Laws.antt =====
-- ApplyAndPersist keeps rows, store and observers in step.
use j.Prelude.{
  Text, ◌≡◌, refl, true, false, List, [], ◌∷◌, ◌++◌, none, some, ok, if◌then◌else◌, arith,
  Option-cases, ◌⊎◌, inl, inr, text_eq_refl, text_eq,
}
use j.Tasks.Fsm.{Event, Transition}
use j.Tasks.Fsm.Table.{target, accepts, apply_lem}
use j.Tasks.Row.{Task, Time}
use j.Tasks.Wire.{Toml}
use j.Tasks.Store.{Faults, StoreError, put_task, get_task}
use j.Tasks.Store.Laws.{get-put}
use j.Tasks.Transit.{
  Hook, register, notify, illegal, not_stored, World, stamp_terminal, apply_and_persist,
  apply_and_persist_warn,
}

-- The row after an accepted event: the event's target, stamped done if it is `completed`.
abbrev pub after_event : Time → Task → Event → Task
after_event now t ev = stamp_terminal now (record t { status = target ev })

abbrev pub edge_of : Task → Event → Transition
edge_of t ev = record { from = t.status; event = ev; to = target ev }

-- A hook that is registered is shown a transition last, after every earlier one has acted on it.
notify-register :
    {O : Type 0} (h : Hook O) (hooks : List (Hook O)) (edge : Transition) (t : Task) (o : O)
    → notify (register h hooks) edge t o ≡ (h edge t (notify hooks edge t o)).0
unfolding notify register
notify-register h [] edge t o = refl
notify-register h (g ∷ hooks) edge t o = notify-register h hooks edge t (g edge t o).0

module _ (toml : Toml) {O : Type 0} where
  open toml use {Bytes}

  -- An event that the rules do not accept is refused with the status and the event, and neither
  -- the row nor the world changes. The best-effort variant does the same.
  pub illegal_changes_nothing :
      (w : Faults) (now : Time) (hooks : List (Hook O)) (t : Task) (ev : Event)
      (world : World Bytes O)
      → accepts ev t.status ≡ false
      → let strict = apply_and_persist toml w now hooks t ev world in
        let lax = apply_and_persist_warn toml w now hooks t ev world in
        (strict.error ≡ some (illegal (record { from = t.status; event = ev })))
        × (strict.task ≡ t)
        × (strict.world ≡ world)
        × (lax ≡ strict)
  unfolding apply_and_persist apply_and_persist_warn
  illegal_changes_nothing w now hooks t ev world no_edge =
      rw (apply_lem ev t.status, no_edge) (refl, refl, refl, refl)

  -- ApplyAndPersist without an error: the rules accept the event, the caller's row has become the
  -- event's target, the store holds that row under its id, and the hooks have run on it, so what
  -- they saw is what a reader of the store finds.
  pub stored_before_notified :
      (w : Faults) (now : Time) (hooks : List (Hook O)) (t : Task) (ev : Event)
      (world : World Bytes O)
      → (apply_and_persist toml w now hooks t ev world).error ≡ none
      → let done = apply_and_persist toml w now hooks t ev world in
        (accepts ev t.status ≡ true)
        × (done.task ≡ after_event now t ev)
        × (get_task toml t.id done.world.store ≡ ok done.task)
        × (done.world.observed ≡ notify hooks (edge_of t ev) done.task world.observed)
  unfolding apply_and_persist stamp_terminal
  stored_before_notified w now hooks t ev world fine = ground (
    arith,
    apply_lem ev t.status,
    get-put toml w (after_event now t ev) world.store t.id,
    text_eq_refl t.id,
  )

  -- ApplyAndPersist with a refused write: the caller's row has moved, no hook has run, and a
  -- reader of the store finds what was there before, under every id.
  pub not_stored_not_notified :
      (w : Faults) (now : Time) (hooks : List (Hook O)) (t : Task) (ev : Event)
      (world : World Bytes O) (e : StoreError)
      → (apply_and_persist toml w now hooks t ev world).error ≡ some (not_stored e)
      → let done = apply_and_persist toml w now hooks t ev world in
        (done.task ≡ after_event now t ev)
        × (done.world.observed ≡ world.observed)
        × ((id : Text) → get_task toml id done.world.store ≡ get_task toml id world.store)
  unfolding apply_and_persist stamp_terminal
  not_stored_not_notified w now hooks t ev world e refused = (
    ground (arith, apply_lem ev t.status),
    ground (arith, apply_lem ev t.status),
    λ id.
        ground (arith, apply_lem ev t.status, get-put toml w (after_event now t ev) world.store id),
  )

  -- ApplyAndPersistWarn on an accepted event never reports an error: the row moves and the hooks
  -- run on it whether or not the write went through. The row is then in the store, or there is
  -- one more warning and every reader of the store finds what was there before.
  pub best_effort_notifies :
      (w : Faults) (now : Time) (hooks : List (Hook O)) (t : Task) (ev : Event)
      (world : World Bytes O)
      → accepts ev t.status ≡ true
      → let done = apply_and_persist_warn toml w now hooks t ev world in
        (done.error ≡ none)
        × (done.task ≡ after_event now t ev)
        × (done.world.observed ≡ notify hooks (edge_of t ev) done.task world.observed)
        × ((get_task toml t.id done.world.store ≡ ok done.task)
              × (done.world.warnings ≡ world.warnings)
            ⊎ ((e : StoreError) × (done.world.warnings ≡ world.warnings ++ e ∷ [])
                × ((id : Text) → get_task toml id done.world.store ≡ get_task toml id world.store)))
  unfolding apply_and_persist_warn stamp_terminal
  best_effort_notifies w now hooks t ev world legal =
      let moved_lem = apply_lem ev t.status in
      (
        ground (arith, moved_lem),
        ground (arith, moved_lem),
        ground (arith, moved_lem),
        elim (Option-cases (put_task toml w (after_event now t ev) world.store).0) [
          | inl fine ↦ inl (
            ground (
              arith,
              moved_lem,
              text_eq_refl t.id,
              get-put toml w (after_event now t ev) world.store t.id,
            ),
            ground (arith, moved_lem),
          )
          | inr (e, refused) ↦ inr (
            e,
            ground (arith, moved_lem),
            λ id. ground (arith, moved_lem, get-put toml w (after_event now t ev) world.store id),
          )
        ],
      )

  -- The row after a best-effort transition, legal or not.
  pub warn_task :
      (w : Faults) (now : Time) (hooks : List (Hook O)) (t : Task) (ev : Event)
      (world : World Bytes O)
      → (apply_and_persist_warn toml w now hooks t ev world).task
        ≡ (if accepts ev t.status then after_event now t ev else t)
  unfolding apply_and_persist_warn stamp_terminal
  warn_task w now hooks t ev world = ground (arith, apply_lem ev t.status)

  pub warn_refused :
      (w : Faults) (now : Time) (hooks : List (Hook O)) (t : Task) (ev : Event)
      (world : World Bytes O)
      → accepts ev t.status ≡ false
      → let done = apply_and_persist_warn toml w now hooks t ev world in
        (done.task ≡ t) × (done.world ≡ world)
  unfolding apply_and_persist_warn
  warn_refused w now hooks t ev world no_edge = rw (apply_lem ev t.status, no_edge) (refl, refl)

  -- The strict variant prints nothing itself, and an accepted event fails only in the store.
  pub strict_warnings :
      (w : Faults) (now : Time) (hooks : List (Hook O)) (t : Task) (ev : Event)
      (world : World Bytes O)
      → (apply_and_persist toml w now hooks t ev world).world.warnings ≡ world.warnings
  unfolding apply_and_persist
  strict_warnings w now hooks t ev world = ground arith

  pub strict_cases :
      (w : Faults) (now : Time) (hooks : List (Hook O)) (t : Task) (ev : Event)
      (world : World Bytes O)
      → accepts ev t.status ≡ true
      → let done = apply_and_persist toml w now hooks t ev world in
        (done.error ≡ none) ⊎ ((e : StoreError) × (done.error ≡ some (not_stored e)))
  unfolding apply_and_persist
  strict_cases w now hooks t ev world legal = ground (arith, apply_lem ev t.status)

  -- The row is written under its own id.
  pub others_stay :
      (w : Faults) (now : Time) (hooks : List (Hook O)) (t : Task) (ev : Event)
      (world : World Bytes O) (id : Text)
      → text_eq t.id id ≡ false
      → get_task toml id (apply_and_persist toml w now hooks t ev world).world.store
        ≡ get_task toml id world.store
  unfolding apply_and_persist stamp_terminal
  others_stay w now hooks t ev world id other =
      ground
        (arith, other, apply_lem ev t.status, get-put toml w (after_event now t ev) world.store id)
