-- ===== src/Examples/OfCommands.antt =====
-- The theorems on the commands, the reviews and the orchestrator at concrete inputs.
use j.Prelude.{
  Option, false, ℕ, ◌≡◌, refl, ◌⊎◌, true, false, codes, [], ◌∷◌, none, some, ok, text_eq, sort,
  Text, List, is_empty,
}
use j.Tasks.Status.{
  TaskStatus, planning, plan_pending_approval, verifying, needs_clarification, failed, status_eq,
}
use j.Tasks.Row.{Task}
use j.Tasks.Wire.{TaskFile, unmarshal_task, task_file_from_task, task_from_file}
use j.Tasks.Store.{no_faults, get_task, list_tasks, collect, entry_at, ensure_dir, StoreError}
use j.Tasks.Transit.{World, not_stored}
use j.Tasks.Lock.{try_acquire_for_reap, read_holder}
use j.Cli.Reap.{ReapEnv, maybe_reap}
use j.Cli.Reap.Laws.{reap_lem}
use j.Cli.Continue.{ContinueEnv}
use j.Orchestrator.{PhaseConfig, verify_only, Stages, RunError, run_for_task}
use j.Tasks.Sort.{sort_tasks}
use j.Resolver.{
  PickTask, broken, TaskFiles, VerifyTask, task_paths, resolve_verify_task,
  resolve_verify_by_task_id, from_rows, auto_pick_allowed, auto_pick_from, task_by_id,
  list_resolvable_tasks, task_dir_for, verify_allowed,
}
use j.Resolver.Laws.{resolve_verify_lem, FromList}
use j.Examples.Rows.{refusing, plain_toml, row_at, store_of, count_hook, world_of}
use j.Examples.OfLocks.{sound, free_file, probe_lock}

abbrev reap_env : ReapEnv ℕ
reap_env = record {
  faults = no_faults;
  lock_faults = sound;
  fd = 6;
  close_fails = false;
  now = 50;
  hooks = count_hook ∷ [];
  approval = true;
  files = λ id. record { clarification = false; requirements = some (codes "# Goal"); plan = true };
}

reap_lem_example :
    let r =
      maybe_reap plain_toml reap_env
        (row_at planning)
        (world_of (row_at planning))
        (some free_file) in
    (r.task.status ≡ plan_pending_approval)
    × (r.lock_file ≡ some free_file)
    × (((r.printed ≡ none) × (get_task plain_toml (codes "t1") r.world.store ≡ ok r.task))
        ⊎ ((e : StoreError) × (r.printed ≡ some (not_stored e))))
unfolding try_acquire_for_reap read_holder ensure_dir entry_at text_eq status_eq
reap_lem_example =
    reap_lem plain_toml reap_env (row_at planning) (world_of (row_at planning)) (some free_file)
      probe_lock refl refl

abbrev asked : Task
asked = record (row_at needs_clarification) { plan_end_at = 8; work_end_at = 12 }

abbrev pub continue_env : ContinueEnv ℕ
continue_env = record {
  faults = no_faults;
  now = 50;
  hooks = count_hook ∷ [];
  interactive = false;
  approval = true;
  target_fails = false;
  spawn_fails = false;
  tool = [];
  model = [];
}

stored_at :
    (s : TaskStatus) → get_task plain_toml (codes "t1") (store_of (row_at s)) ≡ ok (row_at s)
unfolding get_task entry_at text_eq unmarshal_task task_file_from_task task_from_file
stored_at s = refl

-- A verifier that leaves its row where it was, and a disk that is full.
abbrev verify_config : PhaseConfig
verify_config = record {
  phase = verify_only;
  plan_requires_approval = false;
  interactive = false;
  has_tagger = false;
}

abbrev idle_stages : Stages TaskFile ℕ
idle_stages stage world = (world, false)

abbrev stuck_run : World TaskFile ℕ × Option RunError
stuck_run =
    run_for_task plain_toml refusing 50 (count_hook ∷ []) idle_stages true (codes "t1")
      verify_config (world_of (row_at verifying))

abbrev with_plan : Text → TaskFiles
with_plan i = record { plan_stat = true; plan = some (codes "# Plan"); requirements = none }

abbrev never_asked : PickTask
never_asked title rows = broken

abbrev failed_task : VerifyTask
failed_task = record {
  task = row_at failed;
  task_dir = codes "/p/.j/tasks/t1";
  paths = task_paths (codes "/p/.j/tasks/t1");
}

picked_alone :
    resolve_verify_task plain_toml no_faults with_plan never_asked [] (store_of (row_at failed))
    ≡ ok (some failed_task)
unfolding resolve_verify_task from_rows list_resolvable_tasks list_tasks collect unmarshal_task
    task_file_from_task sort_tasks sort auto_pick_allowed auto_pick_from verify_allowed
    task_from_file resolve_verify_by_task_id task_by_id get_task entry_at text_eq task_dir_for
    task_paths
picked_alone = refl

resolve_verify_lem_example :
    (i : Text) × (get_task plain_toml i (store_of (row_at failed)) ≡ ok (row_at failed))
    × ((with_plan i).plan_stat ≡ true)
    × (failed_task.task_dir ≡ task_dir_for plain_toml i (store_of (row_at failed)))
    × (((is_empty {A = ℕ} [] ≡ false) × (i ≡ []))
        ⊎ ((is_empty {A = ℕ} [] ≡ true)
            × (rows : List Task) × (list_resolvable_tasks plain_toml no_faults
                  (store_of (row_at failed))
                ≡ ok rows)
            × FromList verify_allowed never_asked (codes "Select a task to verify") rows i))
resolve_verify_lem_example =
    resolve_verify_lem plain_toml no_faults with_plan never_asked [] (store_of (row_at failed))
      failed_task picked_alone
