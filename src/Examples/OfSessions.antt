-- ===== src/Examples/OfSessions.antt =====
-- The theorems on discarding a task and on resuming its session at concrete inputs.
use j.Prelude.{
  int_of, ℕ, ◌≡◌, refl, true, false, Text, codes, List, [], ◌∷◌, Option, none, some, ok, text_eq,
  sort,
}
use j.Tasks.Status.{failed, TaskStatus, work_done}
use j.Tasks.Row.{Task}
use j.Tasks.Wire.{TaskFile, unmarshal_task, task_file_from_task, task_from_file}
use j.Tasks.Store.{no_faults, get_task, list_tasks, collect, entry_at, set_entry, ensure_dir}
use j.Tasks.Sort.{sort_tasks}
use j.Tasks.Lock.{written, LockFile, acquire_lock, release, try_acquire_for_reap, read_holder}
use j.Resolver.{picked, broken, task_by_id}
use j.Cli.Pick.{pick_from_store, from_rows}
use j.Cli.Continue.{detached, dispatch_by_status, run_plan_done_work, work_args, stamp_spawn_on_row}
use j.Cli.Continue.Entry.{ContinueOptions, resolve_continue_task_from_store, run_continue}
use j.Cli.Continue.Entry.Laws.{Ends, run_continue_lem}
use j.Examples.OfCommands.{continue_env}
use j.Orchestrator.{full}
use j.Cli.Orchestrate.{OrchestrateEnv, OrchestrateOptions}
use j.Cli.Discard.{DiscardOptions}
use j.Cli.Resume.{
  ResumeEnv, there, missing, resume_work_config, orchestrate_args, filter_tasks_by_session,
  wait_lock_released, takeover_if_held, pick_resume_task_id, require_plan, run_resume_phase,
}
use j.Cli.Resume.Laws.{IsLaunch, KeepsRows, resume_starts_unlocked}
use j.Examples.Rows.{count_hook, world_of, plain_toml, row_at, store_of}
use j.Examples.OfLocks.{sound, holder}

abbrev discard_options : DiscardOptions
discard_options = record {
  task_id = codes "t1";
  confirmed = false;
  project = codes "p";
  pick = λ rows. broken;
  confirm = λ t. some true;
}

-- A worker's row, whose lock another open file holds.
abbrev worked : Task
worked = record (row_at work_done) { work_resume_session = codes "s7" }

abbrev held_by : Option ℕ → Option LockFile
held_by owner = some (record { meta = some (holder (codes "working")); owner = owner })

abbrev resume_env : ResumeEnv
resume_env = record {
  faults = no_faults;
  files = λ id. record { requirements = missing; plan = there };
  pick = λ rows. picked (codes "t1");
  caller = holder (codes "resume-work");
  lock_faults = sound;
  fd = 4;
  close_fails = false;
  terminate_fails = λ pid. false;
  looks =
      record { file = held_by (some 9); done = false }
      ∷ record { file = held_by none; done = false }
      ∷ [];
}

abbrev launch_args : List Text
launch_args =
    codes "tasks"
    ∷ codes "orchestrate"
    ∷ codes "--id"
    ∷ codes "t1"
    ∷ codes "--phase=work-only"
    ∷ codes "--interactive=true"
    ∷ []

launched :
    run_resume_phase plain_toml resume_env resume_work_config
      (store_of worked)
      (λ id. held_by (some 9))
    ≡ (ok (some launch_args), store_of worked, held_by none)
unfolding from_rows run_resume_phase pick_resume_task_id filter_tasks_by_session list_tasks collect
    sort_tasks sort unmarshal_task task_file_from_task task_from_file task_by_id get_task entry_at
    text_eq require_plan ensure_dir set_entry takeover_if_held wait_lock_released acquire_lock
    release try_acquire_for_reap read_holder orchestrate_args
launched = refl

resume_starts_unlocked_example :
    KeepsRows plain_toml (store_of worked) (store_of worked)
    × ((id : Text) × IsLaunch plain_toml resume_env resume_work_config
          (store_of worked)
          launch_args
          (held_by none)
          id)
resume_starts_unlocked_example =
    resume_starts_unlocked plain_toml resume_env resume_work_config (store_of worked)
      (store_of worked) (λ id. held_by (some 9)) launch_args (held_by none) launched

-- The user picks the only row, which waits for a worker.
abbrev continue_options : ContinueOptions
continue_options = record { task_id = []; pick = λ rows. picked (codes "t1"); has_agents = true }

run_continue_lem_example :
    let (r, after) =
      run_continue plain_toml continue_env continue_options
        (world_of (row_at TaskStatus.plan_done)) in
    Ends plain_toml continue_env continue_options (world_of (row_at TaskStatus.plan_done)) r after
run_continue_lem_example =
    run_continue_lem plain_toml continue_env continue_options
      (world_of (row_at TaskStatus.plan_done))

continued :
    (run_continue plain_toml continue_env continue_options
      (world_of (row_at TaskStatus.plan_done))).0
    ≡ ok (
        detached (
          codes "tasks"
          ∷ codes "orchestrate"
          ∷ codes "--id"
          ∷ codes "t1"
          ∷ codes "--phase=from-work"
          ∷ codes "--interactive=false"
          ∷ []))
unfolding run_continue resolve_continue_task_from_store pick_from_store from_rows list_tasks collect
    sort_tasks sort get_task entry_at text_eq unmarshal_task task_file_from_task task_from_file
    dispatch_by_status run_plan_done_work work_args stamp_spawn_on_row ensure_dir
continued = refl

-- The stages of a run that fails behind the planner.
abbrev orchestrate_env : OrchestrateEnv TaskFile ℕ
orchestrate_env = record {
  faults = no_faults;
  now = 50;
  hooks = count_hook ∷ [];
  config = ok (int_of 3);
  approval = false;
  caller = holder [];
  lock_faults = sound;
  fd = 4;
  write = λ phase. written;
  close_fails = false;
  agents = λ cap stage world. (record world { store = store_of (row_at failed) }, true);
}

abbrev orchestrate_options : OrchestrateOptions
orchestrate_options = record {
  task_id = codes "t1";
  plan_requires_approval = none;
  phase = full;
  interactive = false;
  has_agents = true;
}
