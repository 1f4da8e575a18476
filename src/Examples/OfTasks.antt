-- ===== src/Examples/OfTasks.antt =====
-- The theorems on the store, the state machine and the texts at concrete inputs.
use mathlib.Core.List.{Mem}
use j.Prelude.{◌≡◌, refl, true, Text, codes, List, [], ◌∷◌, ◌++◌, ok, IsSorted, text_eq, sort}
use j.Tasks.Status.{TaskStatus, planning, working, verifying, completed, valid}
use j.Tasks.Fsm.{Event, work_begin, verify_begin, verify_pass, IllegalTransition, apply}
use j.Tasks.Fsm.Table.{apply_lem, accepts, target}
use j.Tasks.Fsm.Runs.{run, completed_needs_pass, completed_is_reachable}
use j.Tasks.Wire.{
  marshal_task, unmarshal_task, unmarshal-marshal, task_file_from_task, task_from_file,
}
use j.Tasks.Store.{
  no_faults, put_task, get_task, list_tasks, io_failed, entry_at, set_entry, collect,
}
use j.Tasks.Store.Laws.{get-put, list_tasks_lem, by_id}
use j.Tasks.Transit.{notify, stamp_terminal, apply_and_persist}
use j.Tasks.Transit.Laws.{stored_before_notified, not_stored_not_notified, after_event, edge_of}
use j.Examples.Rows.{plain_toml, row_at, store_of, count_hook, world_of, refusing}

apply_lem_example : apply TaskStatus.plan_done work_begin ≡ ok working
unfolding accepts target
apply_lem_example = apply_lem work_begin TaskStatus.plan_done

abbrev history : List Event
history = verify_begin ∷ verify_pass ∷ []

history_completes : run TaskStatus.work_done history ≡ completed
unfolding run apply
history_completes = refl

completed_needs_pass_example :
    (before : List Event) × (after : List Event) × (history ≡ before ++ verify_pass ∷ after)
    × (run TaskStatus.work_done before ≡ verifying)
completed_needs_pass_example =
    completed_needs_pass TaskStatus.work_done history (λ e. cc) history_completes

completed_is_reachable_example : (es : List Event) × (run planning es ≡ completed)
unfolding valid
completed_is_reachable_example = completed_is_reachable planning refl

unmarshal-marshal_example :
    unmarshal_task plain_toml (marshal_task plain_toml (row_at working)) (codes "t1")
    ≡ ok (row_at working)
unmarshal-marshal_example = unmarshal-marshal plain_toml (row_at working) (codes "t1") refl

get-put_example :
    get_task plain_toml
      (codes "t1")
      (put_task plain_toml no_faults (row_at working) (store_of (row_at planning))).1
    ≡ ok (row_at working)
unfolding put_task get_task entry_at set_entry text_eq valid marshal_task unmarshal_task
    task_file_from_task task_from_file
get-put_example =
    get-put plain_toml no_faults (row_at working) (store_of (row_at planning)) (codes "t1")

read_back : get_task plain_toml (codes "t1") (store_of (row_at working)) ≡ ok (row_at working)
unfolding get_task entry_at text_eq unmarshal_task task_file_from_task task_from_file
read_back = refl

listing : list_tasks plain_toml no_faults (store_of (row_at working)) ≡ ok (row_at working ∷ [])
unfolding list_tasks collect sort unmarshal_task task_file_from_task task_from_file
listing = refl

list_tasks_lem_example :
    IsSorted (by_id plain_toml) (row_at working ∷ []) × Mem (row_at working) (row_at working ∷ [])
list_tasks_lem_example =
    list_tasks_lem plain_toml no_faults (store_of (row_at working)) (row_at working ∷ [])
      (codes "t1") (row_at working) listing refl read_back

abbrev refused_event : IllegalTransition
refused_event = record { from = planning; event = verify_pass }

stored_before_notified_example :
    let done =
      apply_and_persist plain_toml no_faults 50
        (count_hook ∷ [])
        (row_at verifying)
        verify_pass
        (world_of (row_at verifying)) in
    (accepts verify_pass verifying ≡ true)
    × (done.task ≡ after_event 50 (row_at verifying) verify_pass)
    × (get_task plain_toml (codes "t1") done.world.store ≡ ok done.task)
    × (done.world.observed
        ≡ notify (count_hook ∷ []) (edge_of (row_at verifying) verify_pass) done.task 0)
unfolding apply_and_persist apply put_task stamp_terminal valid entry_at
stored_before_notified_example =
    stored_before_notified plain_toml no_faults 50 (count_hook ∷ []) (row_at verifying) verify_pass
      (world_of (row_at verifying)) refl

not_stored_not_notified_example :
    let done =
      apply_and_persist plain_toml refusing 50
        (count_hook ∷ [])
        (row_at verifying)
        verify_pass
        (world_of (row_at verifying)) in
    (done.task ≡ after_event 50 (row_at verifying) verify_pass)
    × (done.world.observed ≡ 0)
    × ((id : Text)
        → get_task plain_toml id done.world.store
          ≡ get_task plain_toml id (store_of (row_at verifying)))
unfolding apply_and_persist apply put_task stamp_terminal valid entry_at
not_stored_not_notified_example =
    not_stored_not_notified plain_toml refusing 50 (count_hook ∷ []) (row_at verifying) verify_pass
      (world_of (row_at verifying)) io_failed refl
