-- ===== src/Lifecycle/Linear/Laws.antt =====
-- When the owner of the linked issue is reminded.
use j.Prelude.{
  ℕ, suc, ◌≡◌, refl, ◌∙◌, ap, Bool, true, false, Text, List, [], ◌∷◌, some, is_empty, arith, ◌&&◌,
  ◌||◌, not, if◌then◌else◌,
}
use j.Tasks.Status.{TaskStatus, plan_pending_approval, needs_clarification, completed, status_eq}
use j.Tasks.Fsm.{Event, Transition, verify_begin, event_eq}
use j.Tasks.Fsm.Table.{target}
use j.Tasks.Row.{Task}
use j.Lifecycle.Linear.{
  Call, update_state, update_description, create_comment, remind, Upstream, StateSyncTarget,
  state_sync_table, resolve_state_id, handle_needs_clarification, follow_up, linear_state_sync_hook,
  is_needs_clarification_event,
}

abbrev pub reminders : List Call → ℕ
reminders [] = 0
reminders (remind ∷ cs) = suc (reminders cs)
reminders (update_state id ∷ cs) = reminders cs
reminders (update_description d ∷ cs) = reminders cs
reminders (create_comment b ∷ cs) = reminders cs

-- The statuses that wait for a person.
abbrev pub waits_for_person : TaskStatus → Bool
waits_for_person TaskStatus.plan_done = true
waits_for_person plan_pending_approval = true
waits_for_person needs_clarification = true
waits_for_person completed = true
waits_for_person _ = false

abbrev pub is_paged : Event → Task → Bool
is_paged ev t =
    waits_for_person (target ev) || (event_eq ev verify_begin && not (is_empty t.pull_request_url))

abbrev pub edge_from : TaskStatus → Event → Transition
edge_from s ev = record { from = s; event = ev; to = target ev }

reminders-follow_up :
    (u : Upstream) (s : TaskStatus) (ev : Event) (t : Task) (goal : StateSyncTarget)
    → state_sync_table (target ev) ≡ some goal
    → reminders (follow_up u (edge_from s ev) t goal.ping) ≡ (if is_paged ev t then 1 else 0)
unfolding follow_up handle_needs_clarification state_sync_table target status_eq event_eq
    is_needs_clarification_event
reminders-follow_up u s ev t goal h = ground arith

-- On any transition of the table, for a row with a linked issue that can be reached and whose team
-- has the state that the destination is mirrored to, the hook first sets that state, and reminds
-- the owner once where the destination waits for a person (a finished plan, a pending approval, a
-- clarification, a completed task) or where a verification begins on a row with a pull request,
-- and not at all otherwise.
pub owner_is_paged :
    (u : Upstream) (s : TaskStatus) (ev : Event) (t : Task) (goal : StateSyncTarget) (id : Text)
    → is_empty t.linear_issue ≡ false
    → u.reachable ≡ true
    → state_sync_table (target ev) ≡ some goal
    → resolve_state_id u goal.state_name ≡ some id
    → let calls = linear_state_sync_hook u (edge_from s ev) t in
      (calls ≡ update_state id ∷ follow_up u (edge_from s ev) t goal.ping)
      × (reminders calls ≡ (if is_paged ev t then 1 else 0))
unfolding linear_state_sync_hook
owner_is_paged u s ev t goal id linked reach at found =
    let calls = linear_state_sync_hook u (edge_from s ev) t in
    let made : calls ≡ update_state id ∷ follow_up u (edge_from s ev) t goal.ping =
      rw (linked, at, reach, found) refl in
    (made, ap reminders made ∙ reminders-follow_up u s ev t goal at)
