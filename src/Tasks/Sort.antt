-- ===== src/Tasks/Sort.antt =====
-- sort.go: the order in which `j tasks` lists the rows.
pub mod Laws
use j.Prelude.{
  Bool, true, false, List, Ordering, compare, text_compare, sort, ltb, ◌==◌, ◌&&◌, not,
  if◌then◌else◌,
}
use j.Tasks.Status.{
  TaskStatus, planning, plan_pending_approval, working, verifying, needs_clarification, help,
}
use j.Tasks.Row.{Task, Time, zero_time, is_zero}

unfoldable pub task_is_active : TaskStatus → Bool
task_is_active planning = true
task_is_active plan_pending_approval = true
task_is_active working = true
task_is_active verifying = true
task_is_active needs_clarification = true
task_is_active help = true
task_is_active _ = false

unfoldable pub task_fallback_time : Task → Time
task_fallback_time t =
    if not (is_zero t.done_at)
    then t.done_at
    else if not (is_zero t.verify_end_at)
    then t.verify_end_at
    else if not (is_zero t.work_end_at)
    then t.work_end_at
    else if not (is_zero t.plan_end_at)
    then t.plan_end_at
    else zero_time

abbrev reversed : Ordering → Ordering
reversed Ordering.lt = Ordering.gt
reversed Ordering.eq = Ordering.eq
reversed Ordering.gt = Ordering.lt

-- The comparison that SortTasks hands to the sort, on the two rows' tests and times.
unfoldable pub compare_by : Bool → Bool → Time → Time → Ordering → Ordering
compare_by true false ta tb ids = Ordering.lt
compare_by false true ta tb ids = Ordering.gt
compare_by true true ta tb ids = ids
compare_by false false ta tb ids =
    if ta == tb then reversed ids else if ltb tb ta then Ordering.lt else Ordering.gt

unfoldable pub compare_tasks : Task → Task → Ordering
unfolding compare_by
compare_tasks a b =
    compare_by (task_is_active a.status) (task_is_active b.status) (task_fallback_time a)
      (task_fallback_time b) (text_compare a.id b.id)

unfoldable pub sort_tasks : List Task → List Task
sort_tasks ts = sort compare_tasks ts
