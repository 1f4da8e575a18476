-- ===== src/Lifecycle/Accepted.antt =====
-- What a lifecycle is whose begin event the row's status accepts.
use j.Prelude.{◌≡◌, true, false, arith}
use j.Tasks.Row.{Task}
use j.Tasks.Fsm.{Event}
use j.Tasks.Fsm.Table.{accepts, target}
use j.Tasks.Wire.{Toml}
use j.Tasks.Transit.{World, stamp_terminal}
use j.Tasks.Transit.Laws.{warn_task}
use j.Lifecycle.{Env, open_lifecycle, task_agent_log_path}

module _ (toml : Toml) {O : Type 0} where
  open toml use {Bytes}

  -- An accepted begin event moves the row to its target and hands out an open lifecycle.
  pub open_accepted :
      (env : Env O) (t : Task) (ev : Event) (world : World Bytes O)
      → accepts ev t.status ≡ true
      → let lc = (open_lifecycle toml env t ev world).0 in
        (lc.task.status ≡ target ev) × (lc.closed ≡ false)
  unfolding open_lifecycle stamp_terminal
  open_accepted env t ev world h =
      let (path, s) = task_agent_log_path env.faults t.id world.store in
      ground (
        arith,
        warn_task toml env.faults env.now env.hooks (record t { agent_log_path = path }) ev
            (record world { store = s }),
      )
