-- ===== src/Lifecycle/Work/Laws.antt =====
-- Where a worker run leaves its row.
use j.Prelude.{◌≡◌, Bool, true, false, is_empty, if◌then◌else◌, arith}
use j.Tasks.Row.{Task}
use j.Tasks.Status.{TaskStatus, working, needs_clarification, help}
use j.Tasks.Fsm.Table.{accepts, target}
use j.Tasks.Wire.{Toml}
use j.Tasks.Transit.{World, stamp_terminal}
use j.Tasks.Transit.Laws.{warn_task}
use j.Lifecycle.{Env, Lifecycle}
use j.Lifecycle.Stored.{IsStored, warn-IsStored}
use j.Lifecycle.Work.{finish, pick_finish_event, detect_pull_request_url}

module _ (toml : Toml) {O : Type 0} where
  open toml use {Bytes}

  -- Finishing an open worker run on a `working` row: an error leads to `help` whatever else
  -- holds, else a clarification.md leads to `needs-clarification`, else the row is `work-done`.
  -- The end time is stamped, a row without a pull request gets the one that is detected and any
  -- other keeps its own, and the lifecycle is closed.
  pub finish_from_working :
      (env : Env O) (run_failed : Bool) (lc : Lifecycle) (world : World Bytes O)
      → lc.closed ≡ false
      → lc.task.status ≡ working
      → let lc' = (finish toml env run_failed lc world).0 in
        (lc'.task.status ≡ (
          if run_failed
          then help
          else if env.clarification
          then needs_clarification
          else TaskStatus.work_done))
        × (lc'.task.work_end_at ≡ env.now)
        × (lc'.task.pull_request_url ≡ (
            if is_empty lc.task.pull_request_url
            then env.detect_pull_request_url lc.task.worktree lc.agent_log_path
            else lc.task.pull_request_url))
        × (lc'.closed ≡ true)
  unfolding finish stamp_terminal accepts target
  finish_from_working env run_failed lc world is_open at =
      let t : Task =
        detect_pull_request_url toml env lc.agent_log_path
          (record lc.task { work_end_at = env.now }) in
      let ev = pick_finish_event toml env run_failed in
      ground (arith, warn_task toml env.faults env.now env.hooks t ev world)

  pub finish-IsStored :
      (env : Env O) (run_failed : Bool) (lc : Lifecycle) (world : World Bytes O)
      → lc.closed ≡ false
      → lc.task.status ≡ working
      → let done = finish toml env run_failed lc world in IsStored toml done.0.task done.1
  unfolding finish detect_pull_request_url pick_finish_event accepts
  finish-IsStored env run_failed lc world is_open at =
      let t : Task =
        detect_pull_request_url toml env lc.agent_log_path
          (record lc.task { work_end_at = env.now }) in
      rw is_open (
        warn-IsStored toml env t (pick_finish_event toml env run_failed) world (ground (arith, at)))

  -- A second Finish changes nothing, whatever it is called with.
  finish_twice :
      (env env' : Env O) (f f' : Bool) (lc : Lifecycle) (world : World Bytes O)
      → let once = finish toml env f lc world in finish toml env' f' once.0 once.1 ≡ once
  unfolding finish
  finish_twice env env' f f' lc world = ground arith
