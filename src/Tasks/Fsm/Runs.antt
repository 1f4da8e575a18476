-- ===== src/Tasks/Fsm/Runs.antt =====
-- Histories of events over a row's status, as ApplyAndPersist drives it: an illegal event leaves
-- the status alone.
use j.Prelude.{
  ◌≡◌, refl, ◌≢◌, inl, inr, Bool, true, false, List, [], ◌∷◌, ◌++◌, Result, ok, err, if◌then◌else◌,
  arith, Bool-cases, ap, ℕ, Text,
}
use native.Mathlib.Decide.{ℕ_discrete}
use j.Tasks.Status.{
  TaskStatus, planning, verifying, completed, needs_clarification, unlisted, valid,
  plan_pending_approval, working,
}
use j.Tasks.Fsm.{
  Event, plan_begin, plan_resume, verify_begin, verify_pass, verify_resume, plan_approve,
  work_begin, work_resume, plan_restart, IllegalTransition, apply,
}
use j.Tasks.Fsm.Table.{target, accepts, apply_lem}

settle : TaskStatus → Result IllegalTransition TaskStatus → TaskStatus
settle s (ok t) = t
settle s (err x) = s

unfoldable pub run : TaskStatus → List Event → TaskStatus
unfolding settle
run s [] = s
run s (e ∷ es) = run (settle s (apply s e)) es

run-step :
    (s : TaskStatus) (e : Event) (es : List Event)
    → run s (e ∷ es) ≡ run (if accepts e s then target e else s) es
unfolding run
run-step s e es = elim (Bool-cases (accepts e s)) [
  | inl a ↦ rw (apply_lem e s, a)
  | inr r ↦ rw (apply_lem e s, r)
]

TaskStatus-discrete : Discrete TaskStatus
TaskStatus-discrete = hlevel ℕ_discrete

-- Only `verify_pass`, from `verifying`, leads to `completed`.
completed_entry :
    (e : Event) (s : TaskStatus)
    → accepts e s ≡ true
    → target e ≡ completed
    → (e ≡ verify_pass) × (s ≡ verifying)
unfolding target accepts
completed_entry verify_pass s a h = (refl, ground arith)
completed_entry _ s a h = cc

-- A history that brings a row from a status other than `completed` to `completed` has passed a
-- verification: it splits at a `verify_pass` before which the row was `verifying`.
pub completed_needs_pass :
    (s : TaskStatus) (es : List Event)
    → s ≢ completed
    → run s es ≡ completed
    → (before : List Event) × (after : List Event) × (es ≡ before ++ verify_pass ∷ after)
      × (run s before ≡ verifying)
unfolding run
completed_needs_pass s [] n h = absurd (n h)
completed_needs_pass s (e ∷ es) n h = elim (Bool-cases (accepts e s)) [
  | inr r ↦
      let (before, after, split, was) = completed_needs_pass s es n (rw (apply_lem e s, r) at h) in
      (e ∷ before, after, ap (λ l. e ∷ l) split, rw (apply_lem e s, r) was)
  | inl a ↦ elim (TaskStatus-discrete (target e) completed) [
    | yes c ↦ let (pass, was) = completed_entry e s a c in ([], es, ap (λ x. x ∷ es) pass, was)
    | no d ↦
        let (before, after, split, was) =
          completed_needs_pass (target e) es d (rw (apply_lem e s, a) at h) in
        (e ∷ before, after, ap (λ l. e ∷ l) split, rw (apply_lem e s, a) was)
  ]
]

valid-target : (e : Event) → valid (target e) ≡ true
unfolding valid target
valid-target plan_begin = refl
valid-target _ = refl

-- A row whose status is on the list stays on the list, whatever the history.
run-valid : (s : TaskStatus) (es : List Event) → valid s ≡ true → valid (run s es) ≡ true
unfolding run
run-valid s [] v = v
run-valid s (e ∷ es) v = elim (Bool-cases (accepts e s)) [
  | inl a ↦ rw (apply_lem e s, a) (run-valid (target e) es (valid-target e))
  | inr r ↦ rw (apply_lem e s, r) (run-valid s es v)
]

misspelt_refuses : (c : ℕ) (s : Text) (e : Event) → accepts e (unlisted (c ∷ s)) ≡ false
unfolding accepts
misspelt_refuses c s plan_begin = refl
misspelt_refuses c s _ = refl

-- A row whose status is neither on the list nor empty is stuck: no history moves it.
misspelt_is_stuck :
    (c : ℕ) (s : Text) (es : List Event) → run (unlisted (c ∷ s)) es ≡ unlisted (c ∷ s)
unfolding run
misspelt_is_stuck c s [] = refl
misspelt_is_stuck c s (e ∷ es) =
    rw (apply_lem e (unlisted (c ∷ s)), misspelt_refuses c s e) (misspelt_is_stuck c s es)

-- A way from each listed status to `completed`.
way : TaskStatus → List Event
way plan_pending_approval =
    plan_approve ∷ work_begin ∷ Event.work_done ∷ verify_begin ∷ verify_pass ∷ []
way planning = Event.plan_done ∷ work_begin ∷ Event.work_done ∷ verify_begin ∷ verify_pass ∷ []
way TaskStatus.plan_done = work_begin ∷ Event.work_done ∷ verify_begin ∷ verify_pass ∷ []
way working = Event.work_done ∷ verify_begin ∷ verify_pass ∷ []
way TaskStatus.work_done = verify_begin ∷ verify_pass ∷ []
way verifying = verify_pass ∷ []
way completed = []
way _ = verify_resume ∷ verify_pass ∷ []

-- No listed status is a dead end: from each of them some history completes the task.
pub completed_is_reachable :
    (s : TaskStatus) → valid s ≡ true → (es : List Event) × (run s es ≡ completed)
unfolding run valid way apply
completed_is_reachable planning v = (way planning, refl)
completed_is_reachable (unlisted s) v = cc
completed_is_reachable s v = (way s, refl)

abbrev pub is_resume : Event → Bool
is_resume plan_resume = true
is_resume work_resume = true
is_resume verify_resume = true
is_resume _ = false

abbrev pub is_plan_answer : Event → Bool
is_plan_answer plan_approve = true
is_plan_answer plan_restart = true
is_plan_answer plan_resume = true
is_plan_answer _ = false

abbrev pub is_ok : Result IllegalTransition TaskStatus → Bool
is_ok (ok t) = true
is_ok (err x) = false

-- A row that waits for a person moves only by that person's act: from `needs-clarification` by a
-- resume of one of the phases, and from `plan-pending-approval` by the approval, by planning again
-- or by resuming the plan.
waiting_rows_wait :
    (e : Event)
    → (is_ok (apply needs_clarification e) ≡ is_resume e)
      × (is_ok (apply plan_pending_approval e) ≡ is_plan_answer e)
unfolding accepts
waiting_rows_wait e =
    ground (arith, apply_lem e needs_clarification, apply_lem e plan_pending_approval)
