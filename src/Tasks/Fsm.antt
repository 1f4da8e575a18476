-- ===== src/Tasks/Fsm.antt =====
-- fsm.go: the events, the transition table, and the lookup `Apply`.
pub mod Table
pub mod Runs
use j.Prelude.{ℕ, Bool, true, false, ◌&&◌, List, [], ◌∷◌, Result, ok, err, ◌==◌, if◌then◌else◌}
use j.Tasks.Status.{
  TaskStatus, planning, plan_pending_approval, working, verifying, needs_clarification, completed,
  failed, help, unset, status_eq,
}

pub data Event : Type 0 where
  plan_begin plan_restart plan_done plan_await_approval plan_approve plan_quit : Event
  plan_error plan_needs_clarification plan_resume reaper_plan_done : Event
  reaper_plan_await_approval reaper_plan_fail reaper_plan_needs_clarification : Event
  work_begin work_restart work_resume work_done work_quit work_error : Event
  work_needs_clarification reaper_work_done reaper_work_needs_clarification : Event
  verify_begin verify_restart verify_resume verify_pass verify_fail verify_quit : Event
  verify_error verify_stuck verify_needs_clarification : Event
  reaper_verify_needs_clarification : Event

abbrev event_code : Event → ℕ
event_code plan_begin = 0
event_code plan_restart = 1
event_code plan_done = 2
event_code plan_await_approval = 3
event_code plan_approve = 4
event_code plan_quit = 5
event_code plan_error = 6
event_code plan_needs_clarification = 7
event_code plan_resume = 8
event_code reaper_plan_done = 9
event_code reaper_plan_await_approval = 10
event_code reaper_plan_fail = 11
event_code reaper_plan_needs_clarification = 12
event_code work_begin = 13
event_code work_restart = 14
event_code work_resume = 15
event_code work_done = 16
event_code work_quit = 17
event_code work_error = 18
event_code work_needs_clarification = 19
event_code reaper_work_done = 20
event_code reaper_work_needs_clarification = 21
event_code verify_begin = 22
event_code verify_restart = 23
event_code verify_resume = 24
event_code verify_pass = 25
event_code verify_fail = 26
event_code verify_quit = 27
event_code verify_error = 28
event_code verify_stuck = 29
event_code verify_needs_clarification = 30
event_code reaper_verify_needs_clarification = 31

-- Go's `==` on events, which are pairwise different strings.
unfoldable pub event_eq : Event → Event → Bool
event_eq a b = event_code a == event_code b

pub record Transition : Type 0 where
  pub from : TaskStatus
  pub event : Event
  pub to : TaskStatus

abbrev edge : TaskStatus → Event → TaskStatus → Transition
edge s e t = record { from = s; event = e; to = t }

-- The table, in the order of the source.
unfoldable pub transitions : List Transition
transitions =
    edge planning Event.plan_done TaskStatus.plan_done
    ∷ edge planning plan_await_approval plan_pending_approval
    ∷ edge planning plan_error help
    ∷ edge planning plan_quit help
    ∷ edge planning reaper_plan_done TaskStatus.plan_done
    ∷ edge planning reaper_plan_await_approval plan_pending_approval
    ∷ edge planning reaper_plan_fail help
    ∷ edge planning plan_needs_clarification needs_clarification
    ∷ edge planning reaper_plan_needs_clarification needs_clarification
    ∷ edge planning plan_restart planning
    ∷ edge planning plan_resume planning
    ∷ edge planning work_restart working
    ∷ edge planning verify_begin verifying
    ∷ edge plan_pending_approval plan_approve TaskStatus.plan_done
    ∷ edge plan_pending_approval plan_restart planning
    ∷ edge plan_pending_approval plan_resume planning
    ∷ edge TaskStatus.plan_done plan_restart planning
    ∷ edge TaskStatus.plan_done plan_resume planning
    ∷ edge TaskStatus.plan_done work_begin working
    ∷ edge TaskStatus.plan_done work_restart working
    ∷ edge TaskStatus.plan_done verify_begin verifying
    ∷ edge TaskStatus.plan_done verify_resume verifying
    ∷ edge working plan_restart planning
    ∷ edge working verify_restart verifying
    ∷ edge working work_restart working
    ∷ edge working Event.work_done TaskStatus.work_done
    ∷ edge working work_quit help
    ∷ edge working work_error help
    ∷ edge working work_resume working
    ∷ edge working reaper_work_done TaskStatus.work_done
    ∷ edge working work_needs_clarification needs_clarification
    ∷ edge working reaper_work_needs_clarification needs_clarification
    ∷ edge TaskStatus.work_done plan_restart planning
    ∷ edge TaskStatus.work_done work_restart working
    ∷ edge TaskStatus.work_done verify_begin verifying
    ∷ edge TaskStatus.work_done verify_restart verifying
    ∷ edge verifying verify_begin verifying
    ∷ edge verifying verify_restart verifying
    ∷ edge verifying verify_pass completed
    ∷ edge verifying verify_fail failed
    ∷ edge verifying verify_stuck failed
    ∷ edge verifying verify_error help
    ∷ edge verifying verify_quit help
    ∷ edge verifying verify_resume verifying
    ∷ edge verifying verify_needs_clarification needs_clarification
    ∷ edge verifying reaper_verify_needs_clarification needs_clarification
    ∷ edge failed plan_restart planning
    ∷ edge failed work_restart working
    ∷ edge failed verify_restart verifying
    ∷ edge failed plan_resume planning
    ∷ edge failed work_resume working
    ∷ edge failed verify_resume verifying
    ∷ edge completed plan_restart planning
    ∷ edge completed plan_resume planning
    ∷ edge completed work_restart working
    ∷ edge completed work_resume working
    ∷ edge completed verify_restart verifying
    ∷ edge completed verify_resume verifying
    ∷ edge help plan_restart planning
    ∷ edge help plan_resume planning
    ∷ edge help work_restart working
    ∷ edge help work_resume working
    ∷ edge help verify_restart verifying
    ∷ edge help verify_resume verifying
    ∷ edge needs_clarification plan_resume planning
    ∷ edge needs_clarification work_resume working
    ∷ edge needs_clarification verify_resume verifying
    ∷ edge unset plan_begin planning
    ∷ []

pub record IllegalTransition : Type 0 where
  pub from : TaskStatus
  pub event : Event

-- The loop of `Apply`.
scan : List Transition → TaskStatus → Event → Result IllegalTransition TaskStatus
unfolding status_eq event_eq
scan [] s e = err (record { from = s; event = e })
scan (tr ∷ rest) s e =
    if status_eq tr.from s && event_eq tr.event e then ok tr.to else scan rest s e

unfoldable pub apply : TaskStatus → Event → Result IllegalTransition TaskStatus
unfolding scan transitions
apply s e = scan transitions s e
