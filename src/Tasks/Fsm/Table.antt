-- ===== src/Tasks/Fsm/Table.antt =====
-- The transition table of fsm.go against the rules that it encodes.
use j.Prelude.{◌≡◌, refl, Bool, true, false, [], ok, err, if◌then◌else◌}
use j.Tasks.Status.{
  TaskStatus, planning, plan_pending_approval, working, verifying, needs_clarification, completed,
  failed, help, unset, unlisted, status_eq,
}
use j.Tasks.Fsm.{
  Event, plan_begin, plan_restart, plan_await_approval, plan_approve, plan_quit, plan_error,
  plan_needs_clarification, plan_resume, reaper_plan_done, reaper_plan_await_approval,
  reaper_plan_fail, reaper_plan_needs_clarification, work_begin, work_restart, work_resume,
  work_quit, work_error, work_needs_clarification, reaper_work_done,
  reaper_work_needs_clarification, verify_begin, verify_restart, verify_resume, verify_pass,
  verify_fail, verify_quit, verify_error, verify_stuck, verify_needs_clarification,
  reaper_verify_needs_clarification, apply,
}

-- An event leads to one status, whatever the status that it leaves.
unfoldable pub target : Event → TaskStatus
target plan_begin = planning
target plan_restart = planning
target Event.plan_done = TaskStatus.plan_done
target plan_await_approval = plan_pending_approval
target plan_approve = TaskStatus.plan_done
target plan_quit = help
target plan_error = help
target plan_needs_clarification = needs_clarification
target plan_resume = planning
target reaper_plan_done = TaskStatus.plan_done
target reaper_plan_await_approval = plan_pending_approval
target reaper_plan_fail = help
target reaper_plan_needs_clarification = needs_clarification
target work_begin = working
target work_restart = working
target work_resume = working
target Event.work_done = TaskStatus.work_done
target work_quit = help
target work_error = help
target work_needs_clarification = needs_clarification
target reaper_work_done = TaskStatus.work_done
target reaper_work_needs_clarification = needs_clarification
target verify_begin = verifying
target verify_restart = verifying
target verify_resume = verifying
target verify_pass = completed
target verify_fail = failed
target verify_quit = help
target verify_error = help
target verify_stuck = failed
target verify_needs_clarification = needs_clarification
target reaper_verify_needs_clarification = needs_clarification

-- The statuses that each kind of event leaves.
from_plan_restart : TaskStatus → Bool
from_plan_restart verifying = false
from_plan_restart needs_clarification = false
from_plan_restart (unlisted s) = false
from_plan_restart _ = true

from_plan_resume : TaskStatus → Bool
from_plan_resume working = false
from_plan_resume TaskStatus.work_done = false
from_plan_resume verifying = false
from_plan_resume (unlisted s) = false
from_plan_resume _ = true

from_work_restart : TaskStatus → Bool
from_work_restart plan_pending_approval = false
from_work_restart verifying = false
from_work_restart needs_clarification = false
from_work_restart (unlisted s) = false
from_work_restart _ = true

from_work_resume : TaskStatus → Bool
from_work_resume working = true
from_work_resume failed = true
from_work_resume completed = true
from_work_resume help = true
from_work_resume needs_clarification = true
from_work_resume _ = false

from_verify_begin : TaskStatus → Bool
from_verify_begin planning = true
from_verify_begin TaskStatus.plan_done = true
from_verify_begin TaskStatus.work_done = true
from_verify_begin verifying = true
from_verify_begin _ = false

from_verify_restart : TaskStatus → Bool
from_verify_restart working = true
from_verify_restart TaskStatus.work_done = true
from_verify_restart verifying = true
from_verify_restart failed = true
from_verify_restart completed = true
from_verify_restart help = true
from_verify_restart _ = false

from_verify_resume : TaskStatus → Bool
from_verify_resume TaskStatus.plan_done = true
from_verify_resume verifying = true
from_verify_resume failed = true
from_verify_resume completed = true
from_verify_resume help = true
from_verify_resume needs_clarification = true
from_verify_resume _ = false

-- Whether an event is legal from a status.
unfoldable pub accepts : Event → TaskStatus → Bool
unfolding from_plan_restart from_plan_resume from_work_restart from_work_resume from_verify_begin
    from_verify_restart from_verify_resume status_eq
accepts plan_begin s = status_eq unset s
accepts plan_restart s = from_plan_restart s
accepts plan_approve s = status_eq plan_pending_approval s
accepts plan_resume s = from_plan_resume s
accepts work_begin s = status_eq TaskStatus.plan_done s
accepts work_restart s = from_work_restart s
accepts work_resume s = from_work_resume s
accepts Event.work_done s = status_eq working s
accepts work_quit s = status_eq working s
accepts work_error s = status_eq working s
accepts work_needs_clarification s = status_eq working s
accepts reaper_work_done s = status_eq working s
accepts reaper_work_needs_clarification s = status_eq working s
accepts verify_begin s = from_verify_begin s
accepts verify_restart s = from_verify_restart s
accepts verify_resume s = from_verify_resume s
accepts verify_pass s = status_eq verifying s
accepts verify_fail s = status_eq verifying s
accepts verify_quit s = status_eq verifying s
accepts verify_error s = status_eq verifying s
accepts verify_stuck s = status_eq verifying s
accepts verify_needs_clarification s = status_eq verifying s
accepts reaper_verify_needs_clarification s = status_eq verifying s
accepts _ s = status_eq planning s

-- For every event and status, the first match in the table is what the rules say: the event's
-- target where the rules accept the event, and an error that names both where they do not.
pub apply_lem :
    (e : Event) (s : TaskStatus)
    → apply s e ≡ (if accepts e s then ok (target e) else err (record { from = s; event = e }))
unfolding apply accepts target
apply_lem plan_begin (unlisted []) = refl
apply_lem plan_begin planning = refl
apply_lem _ (unlisted []) = refl
apply_lem _ _ = refl
