-- ===== src/Worker/Laws.antt =====
-- Where a worker's run leaves its row.
use j.Prelude.{
  ℕ, ◌≡◌, Bool, true, false, Option, none, some, is_empty, ltb, ◌&&◌, not, if◌then◌else◌,
}
use j.Tasks.Status.{TaskStatus, working, help, needs_clarification}
use j.Tasks.Row.{Task}
use j.Tasks.Fsm.{Event, work_restart, work_resume}
use j.Tasks.Wire.{Toml}
use j.Tasks.Transit.{World}
use j.Lifecycle.{Env, Lifecycle}
use j.Lifecycle.Work
use j.Lifecycle.Stored.{IsStored}
use j.Worker.{WorkError, Ran}

-- The event that begins a run: a recorded session is resumed.
abbrev pub begin_event : Task → Event
begin_event t = if is_empty t.work_resume_session then work_restart else work_resume

-- A run that is left to its process.
abbrev pub is_detached : Option ℕ → Bool → Bool
is_detached none wait = false
is_detached (some pid) wait = ltb 0 pid && not wait

-- The status behind a run: what `failed` tells decides first.
abbrev pub left_status : Option WorkError → Bool → Bool → TaskStatus
left_status (some e) detached clarification = help
left_status none detached clarification =
    if detached
    then working
    else if clarification
    then needs_clarification
    else TaskStatus.work_done

module _ (toml : Toml) {O : Type 0} where
  open toml use {Bytes}

  -- A row at work under an open lifecycle.
  record AtWork (begun : Lifecycle × World Bytes O) : Type 0 where
    pub at : begun.0.task.status ≡ working
    pub is_open : begun.0.closed ≡ false

  -- The end of a run.
  pub record WorkSettled (env : Env O) (detached : Bool) (ran : Ran Bytes O) : Type 0 where
    pub error : Option WorkError
    pub lifecycle : Lifecycle
    pub world : World Bytes O
    pub returned : ran ≡ some (error, lifecycle, world)
    pub status : lifecycle.task.status ≡ left_status error detached env.clarification
    pub closed : lifecycle.closed ≡ true
    pub stored : IsStored toml lifecycle.task world
