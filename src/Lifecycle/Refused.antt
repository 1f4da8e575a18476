-- ===== src/Lifecycle/Refused.antt =====
-- What is left of a lifecycle whose begin event the row's status refuses: the begin calls drop the
-- error of ApplyAndPersistWarn.
use mathlib.Core.Path.{subst}
use j.Prelude.{◌≡◌, refl, false, Text, ap, sym}
use j.Tasks.Row.{Task}
use j.Tasks.Fsm.{Event}
use j.Tasks.Fsm.Table.{accepts}
use j.Tasks.Wire.{Toml}
use j.Tasks.Store.{get_task}
use j.Tasks.Store.Laws.{get-ensure_dir}
use j.Tasks.Transit.{World}
use j.Tasks.Transit.Laws.{warn_refused}
use j.Lifecycle.{Env, task_agent_log_path, open_lifecycle}

module _ (toml : Toml) {O : Type 0} where
  open toml use {Bytes}

  -- No reader of the store and no observer can tell two worlds apart.
  pub record SameRows (a b : World Bytes O) : Type 0 where
    pub rows : (id : Text) → get_task toml id a.store ≡ get_task toml id b.store
    pub seen : a.observed ≡ b.observed

  -- A begin whose event the row's status refuses leaves the status, the rows and the observers as
  -- they were, and hands out an open lifecycle all the same.
  pub open_refused :
      (env : Env O) (t : Task) (ev : Event) (world : World Bytes O)
      → accepts ev t.status ≡ false
      → let begun = open_lifecycle toml env t ev world in
        (begun.0.task.status ≡ t.status) × (begun.0.closed ≡ false) × SameRows begun.1 world
  unfolding open_lifecycle task_agent_log_path
  open_refused env t ev world no_edge =
      let (path, s) = task_agent_log_path env.faults t.id world.store in
      let (task_kept, world_kept) =
        warn_refused toml env.faults env.now env.hooks (record t { agent_log_path = path }) ev
          (record world { store = s }) no_edge in
      (
        ap (λ (u : Task). u.status) task_kept,
        refl,
        subst (λ u. SameRows u world) (sym world_kept)
            (record { rows = get-ensure_dir toml env.faults t.id world.store; seen = refl }),
      )
