-- ===== src/Lifecycle/Verify/Laws.antt =====
-- Where a verification leaves its row.
use j.Prelude.{◌≡◌, ◌⊎◌, Bool, true, false, if◌then◌else◌, arith}
use j.Tasks.Row.{Task}
use j.Tasks.Status.{TaskStatus, verifying, needs_clarification, help, completed, failed, status_eq}
use j.Tasks.Fsm.Table.{accepts, target}
use j.Tasks.Wire.{Toml}
use j.Tasks.Transit.{World, stamp_terminal}
use j.Tasks.Transit.Laws.{warn_task}
use j.Lifecycle.{Env, Lifecycle}
use j.Lifecycle.Stored.{IsStored, warn-IsStored}
use j.Lifecycle.Verify.{VerifyOutcome, success, no_retries, finish, pick_finish_event}

abbrev pub verdict_status : VerifyOutcome → TaskStatus
verdict_status success = completed
verdict_status no_retries = failed

abbrev pub IsFinished : TaskStatus → Type 0
IsFinished s = (s ≡ failed) ⊎ (s ≡ completed) ⊎ (s ≡ help)

module _ (toml : Toml) {O : Type 0} where
  open toml use {Bytes}

  -- Finishing an open verification on a `verifying` row: an error leads to `help` whatever else
  -- holds, else a clarification.md leads to `needs-clarification`, else a success completes the
  -- task and anything else fails it. The end time is stamped, a done time is stamped exactly on
  -- completion, and the lifecycle is closed.
  pub finish_from_verifying :
      (env : Env O) (outcome : VerifyOutcome) (run_failed : Bool) (lc : Lifecycle)
      (world : World Bytes O)
      → lc.closed ≡ false
      → lc.task.status ≡ verifying
      → let lc' = (finish toml env outcome run_failed lc world).0 in
        let status =
          if run_failed
          then help
          else if env.clarification
          then needs_clarification
          else verdict_status outcome in
        (lc'.task.status ≡ status)
        × (lc'.task.verify_end_at ≡ env.now)
        × (lc'.task.done_at ≡ (if status_eq status completed then env.now else lc.task.done_at))
        × (lc'.closed ≡ true)
  unfolding finish stamp_terminal accepts target status_eq
  finish_from_verifying env outcome run_failed lc world is_open at =
      let t : Task = record lc.task { verify_end_at = env.now } in
      let ev = pick_finish_event toml env outcome run_failed in
      ground (arith, warn_task toml env.faults env.now env.hooks t ev world)

  pub finish-IsStored :
      (env : Env O) (outcome : VerifyOutcome) (run_failed : Bool) (lc : Lifecycle)
      (world : World Bytes O)
      → lc.closed ≡ false
      → lc.task.status ≡ verifying
      → let done = finish toml env outcome run_failed lc world in IsStored toml done.0.task done.1
  unfolding finish pick_finish_event accepts
  finish-IsStored env outcome run_failed lc world is_open at = rw is_open (
      warn-IsStored toml env (record lc.task { verify_end_at = env.now })
        (pick_finish_event toml env outcome run_failed) world (ground (arith, at)))

  -- A second Finish changes nothing, whatever it is called with.
  finish_twice :
      (env env' : Env O) (o o' : VerifyOutcome) (f f' : Bool) (lc : Lifecycle)
      (world : World Bytes O)
      → let once = finish toml env o f lc world in finish toml env' o' f' once.0 once.1 ≡ once
  unfolding finish
  finish_twice env env' o o' f f' lc world = ground arith
