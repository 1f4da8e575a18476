-- ===== src/Lifecycle/Linear.antt =====
-- linear_push.go and linear_state_sync.go: the hooks that mirror a transition onto the linked Linear
-- issue, as the calls that they make. A call that fails is reported and does not stop the others,
-- so only the answers that later calls depend on are arguments.
pub mod Laws
use j.Prelude.{
  Bool, true, false, Text, codes, List, [], ◌∷◌, ◌++◌, Option, none, some, is_empty, text_eq,
  trim_space, ◌&&◌, ◌||◌, not, if◌then◌else◌,
}
use j.Tasks.Status.{
  TaskStatus, planning, plan_pending_approval, working, verifying, needs_clarification, completed,
  status_eq,
}
use j.Tasks.Fsm.{
  Event, Transition, plan_await_approval, reaper_plan_done, reaper_plan_await_approval,
  plan_needs_clarification, work_needs_clarification, verify_needs_clarification,
  reaper_plan_needs_clarification, reaper_work_needs_clarification,
  reaper_verify_needs_clarification, verify_begin, event_eq,
}
use j.Tasks.Row.{Task}

pub data Call : Type 0 where
  update_state : Text → Call  -- issueUpdate, with the id of a workflow state
  update_description : Text → Call
  create_comment : Text → Call
  remind : Call

-- What the hooks find: whether a client and the issue are at hand (runLinearHook), the workflow
-- states of the issue's team as pairs of a name and an id (`none` where the request fails), and the
-- files of the task directory, `none` where they cannot be read.
pub record Upstream : Type 0 where
  pub reachable : Bool
  pub states : Option (List (Text × Text))
  pub requirements : Option Text
  pub plan : Option Text
  pub clarification : Option Text

pub record StateSyncTarget : Type 0 where
  pub state_name : Text
  pub ping : Bool

abbrev to : Text → Bool → Option StateSyncTarget
to name ping = some (record { state_name = name; ping = ping })

unfoldable pub state_sync_table : TaskStatus → Option StateSyncTarget
state_sync_table planning = to (codes "Todo") false
state_sync_table TaskStatus.plan_done = to (codes "Todo") true
state_sync_table plan_pending_approval = to (codes "Todo") true
state_sync_table working = to (codes "In Progress") false
state_sync_table verifying = to (codes "In Progress") false
state_sync_table needs_clarification = to (codes "In Progress") false
state_sync_table completed = to (codes "In Review") true
state_sync_table _ = none

unfoldable pub is_needs_clarification_event : Event → Bool
is_needs_clarification_event plan_needs_clarification = true
is_needs_clarification_event work_needs_clarification = true
is_needs_clarification_event verify_needs_clarification = true
is_needs_clarification_event reaper_plan_needs_clarification = true
is_needs_clarification_event reaper_work_needs_clarification = true
is_needs_clarification_event reaper_verify_needs_clarification = true
is_needs_clarification_event _ = false

unfoldable pub find_state_by_name : Text → List (Text × Text) → Option Text
find_state_by_name name [] = none
find_state_by_name name ((n, id) ∷ rest) =
    let later = find_state_by_name name rest in if text_eq n name then some id else later

unfoldable pub resolve_state_id : Upstream → Text → Option Text
unfolding find_state_by_name
resolve_state_id u name = elim u.states [ none ↦ none | some ss ↦ find_state_by_name name ss ]

post_clarification_comment : Option Text → List Call
post_clarification_comment none = []
post_clarification_comment (some body) =
    if is_empty (trim_space body) then [] else create_comment body ∷ []

unfoldable pub handle_needs_clarification : Upstream → Task → List Call
unfolding post_clarification_comment
handle_needs_clarification u t =
    (if is_empty t.agent_log_path then [] else post_clarification_comment u.clarification)
    ++ remind ∷ []

-- The calls behind the change of the state.
unfoldable pub follow_up : Upstream → Transition → Task → Bool → List Call
unfolding handle_needs_clarification is_needs_clarification_event status_eq event_eq
follow_up u tr t ping =
    if status_eq tr.to needs_clarification && is_needs_clarification_event tr.event
    then handle_needs_clarification u t
    else if status_eq tr.to verifying
        && event_eq tr.event verify_begin
        && not (is_empty t.pull_request_url)
    then create_comment t.pull_request_url ∷ remind ∷ []
    else if ping
    then remind ∷ []
    else []

synced : Upstream → Transition → Task → Bool → Option Text → List Call
unfolding follow_up
synced u tr t ping none = []
synced u tr t ping (some id) = update_state id ∷ follow_up u tr t ping

mirrored : Upstream → Transition → Task → Option StateSyncTarget → List Call
unfolding synced resolve_state_id
mirrored u tr t none = []
mirrored u tr t (some target) =
    if u.reachable then synced u tr t target.ping (resolve_state_id u target.state_name) else []

unfoldable pub linear_state_sync_hook : Upstream → Transition → Task → List Call
unfolding mirrored state_sync_table
linear_state_sync_hook u tr t =
    if is_empty t.linear_issue then [] else mirrored u tr t (state_sync_table tr.to)

unfoldable pub is_plan_success_event : Event → Bool
is_plan_success_event Event.plan_done = true
is_plan_success_event plan_await_approval = true
is_plan_success_event reaper_plan_done = true
is_plan_success_event reaper_plan_await_approval = true
is_plan_success_event _ = false

pushed : Bool → Option Text → Option Text → List Call
pushed reachable (some r) (some p) =
    if reachable then update_description r ∷ create_comment p ∷ [] else []
pushed reachable none p = []
pushed reachable (some r) none = []

unfoldable pub linear_push_hook : Upstream → Transition → Task → List Call
unfolding pushed is_plan_success_event status_eq
linear_push_hook u tr t =
    if is_empty t.linear_issue
    then []
    else if not (is_plan_success_event tr.event)
    then []
    else if status_eq tr.to TaskStatus.plan_done || status_eq tr.to plan_pending_approval
    then pushed u.reachable u.requirements u.plan
    else []
