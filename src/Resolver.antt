-- ===== src/Resolver.antt =====
-- task.go of the resolver, and paths.go: which row a command works on. A command names its task, or
-- the only row in a fitting status is taken, or the user picks one from the list.
pub mod Laws
pub mod Choice
use j.Prelude.{
  ℕ, suc, Bool, true, false, Text, codes, List, [], ◌∷◌, ◌++◌, Option, none, some, Result, ok, err,
  is_empty, ◌==◌, ◌||◌, if◌then◌else◌,
}
use j.Tasks.Status.{TaskStatus, plan_done, work_done, failed, help}
use j.Tasks.Row.{Task}
use j.Tasks.Wire.{Toml}
use j.Tasks.Store.{Faults, Store, StoreError, not_exist, get_task, list_tasks}
use j.Tasks.Sort.{sort_tasks}

pub data ResolveError : Type 0 where
  task_not_found : Text → ResolveError
  store_failed : StoreError → ResolveError
  plan_unreadable : ResolveError
  no_tasks : ResolveError
  not_picked : ResolveError  -- the picker failed
  not_confirmed : ResolveError  -- the question failed

-- What the picker comes back with: an id, or the user has left it, or it failed.
pub data Picked : Type 0 where
  picked : Text → Picked
  left : Picked
  broken : Picked

abbrev pub PickTask : Type 0
PickTask = Text → List Task → Picked

-- What the calls on the files of a task directory give: `plan_stat` whether os.Stat finds the plan,
-- `plan` and `requirements` the texts that os.ReadFile reads.
pub record TaskFiles : Type 0 where
  pub plan_stat : Bool
  pub plan : Option Text
  pub requirements : Option Text

pub record TaskPaths : Type 0 where
  pub requirements : Text
  pub plan : Text
  pub verifier_plan : Text
  pub findings : Text
  pub clarification : Text

-- VerifyTask, which PlanTask repeats field for field.
pub record VerifyTask : Type 0 where
  pub task : Task
  pub task_dir : Text
  pub paths : TaskPaths

pub record WorkPlan : Type 0 where
  pub task : Task
  pub task_dir : Text
  pub paths : TaskPaths
  pub body : Text
  pub requirement : Text

replan_status : TaskStatus → Bool
replan_status plan_done = true
replan_status help = true
replan_status _ = false

unfoldable pub replan_allowed : Task → Bool
unfolding replan_status
replan_allowed t = replan_status t.status

verify_status : TaskStatus → Bool
verify_status work_done = true
verify_status failed = true
verify_status help = true
verify_status _ = false

unfoldable pub verify_allowed : Task → Bool
unfolding verify_status
verify_allowed t = verify_status t.status

-- `ask` is the question to the user, with the command, the id and the status.
unfoldable pub confirm_status_override :
    (Text → Text → TaskStatus → Option Bool)
    → Bool
    → Text
    → Task
    → (Task → Bool)
    → Result ResolveError Bool
confirm_status_override ask flag cmd t allowed =
    if allowed t || flag
    then ok true
    else elim (ask cmd t.id t.status) [ none ↦ err not_confirmed | some answer ↦ ok answer ]

-- The loop of autoPickAllowed, with the id that it holds and the rows that it has counted.
unfoldable pub auto_pick_from : (Task → Bool) → List Task → Text → ℕ → Text × Bool
auto_pick_from allowed [] id count = (id, count == 1)
auto_pick_from allowed (row ∷ rest) id count =
    auto_pick_from allowed rest (if allowed row then row.id else id)
      (if allowed row then suc count else count)

unfoldable pub auto_pick_allowed : List Task → (Task → Bool) → Text × Bool
auto_pick_allowed rows allowed = auto_pick_from allowed rows [] 0

-- filepath.Join of two clean names.
unfoldable pub join : Text → Text → Text
join dir name = if is_empty dir then name else dir ++ codes "/" ++ name

unfoldable pub task_paths : Text → TaskPaths
unfolding join
task_paths dir = record {
  requirements = join dir (codes "requirements.md");
  plan = join dir (codes "plan.md");
  verifier_plan = join dir (codes "verifier_plan.md");
  findings = join dir (codes "verifier_findings.md");
  clarification = join dir (codes "clarification.md");
}

module _ (toml : Toml) where
  open toml use {Bytes}

  -- The error of a get, as a command shows it.
  reported : Text → StoreError → ResolveError
  reported id (not_exist name) = task_not_found id
  reported id e = store_failed e

  unfoldable pub task_by_id : Text → Store Bytes → Result ResolveError Task
  unfolding reported
  task_by_id id s = elim (get_task toml id s) [ ok t ↦ ok t | err e ↦ err (reported id e) ]

  unfoldable pub list_resolvable_tasks : Faults → Store Bytes → Result StoreError (List Task)
  list_resolvable_tasks w s = elim (list_tasks toml w s) [
    | ok all ↦ ok (sort_tasks all)
    | err e ↦ err e
  ]

  unfoldable pub task_dir_for : Text → Store Bytes → Text
  unfolding join
  task_dir_for id s = join s.tasks_dir id

  resolved_in : Store Bytes → Text → Task → VerifyTask
  resolved_in s id t =
      let dir = task_dir_for id s in record { task = t; task_dir = dir; paths = task_paths dir }

  unfoldable pub resolve_plan_task : Text → Store Bytes → Result ResolveError VerifyTask
  unfolding resolved_in
  resolve_plan_task id s = elim (task_by_id id s) [ err e ↦ err e | ok t ↦ ok (resolved_in s id t) ]

  unfoldable pub resolve_verify_by_task_id :
      (Text → TaskFiles) → Text → Store Bytes → Result ResolveError VerifyTask
  unfolding resolved_in
  resolve_verify_by_task_id files id s = elim (task_by_id id s) [
    | err e ↦ err e
    | ok t ↦ if (files id).plan_stat then ok (resolved_in s id t) else err plan_unreadable
  ]

  or_empty : Option Text → Text
  or_empty none = []
  or_empty (some text) = text

  unfoldable pub resolve_work_by_task_id :
      (Text → TaskFiles) → Text → Store Bytes → Result ResolveError WorkPlan
  unfolding or_empty
  resolve_work_by_task_id files id s = elim (task_by_id id s) [
    | err e ↦ err e
    | ok t ↦ elim (files id).plan [
      | none ↦ err plan_unreadable
      | some body ↦
          let dir = task_dir_for id s in
          ok (record {
            task = t;
            task_dir = dir;
            paths = task_paths dir;
            body = body;
            requirement = or_empty (files id).requirements;
          })
    ]
  ]

module _ {R : Type 0} where
  -- A result by id is the call's result; only the picker can leave without one.
  chosen : Result ResolveError R → Result ResolveError (Option R)
  chosen (ok r) = ok (some r)
  chosen (err e) = err e

  from_picker : (Text → Result ResolveError R) → Picked → Result ResolveError (Option R)
  unfolding chosen
  from_picker by_id (picked id) = chosen (by_id id)
  from_picker by_id left = ok none
  from_picker by_id broken = err not_picked

  -- The part that ResolveWorkPlan and ResolveVerifyTask share where no id is given: the result of
  -- autoPickAllowed on the rows, or else the picker's.
  from_auto_pick :
      (Text → Result ResolveError R) → Picked → Text × Bool → Result ResolveError (Option R)
  unfolding chosen from_picker
  from_auto_pick by_id answer (id, true) = chosen (by_id id)
  from_auto_pick by_id answer (id, false) = from_picker by_id answer

  unfoldable pub from_rows :
      (Text → Result ResolveError R)
      → (Task → Bool)
      → PickTask
      → Text
      → Result StoreError (List Task)
      → Result ResolveError (Option R)
  unfolding from_auto_pick
  from_rows by_id allowed ui title (err e) = err (store_failed e)
  from_rows by_id allowed ui title (ok []) = err no_tasks
  from_rows by_id allowed ui title (ok (t ∷ ts)) =
      from_auto_pick by_id (ui title (t ∷ ts)) (auto_pick_allowed (t ∷ ts) allowed)

module _ (toml : Toml) where
  open toml use {Bytes}

  -- `ok none` is the call that the user has left.
  unfoldable pub resolve_work_plan :
      Faults
      → (Text → TaskFiles)
      → PickTask
      → Text
      → Store Bytes
      → Result ResolveError (Option WorkPlan)
  unfolding chosen
  resolve_work_plan w files ui id s =
      if is_empty id
      then from_rows (λ i. resolve_work_by_task_id toml files i s) replan_allowed ui
          (codes "Select a task to work") (list_resolvable_tasks toml w s)
      else chosen (resolve_work_by_task_id toml files id s)

  unfoldable pub resolve_verify_task :
      Faults
      → (Text → TaskFiles)
      → PickTask
      → Text
      → Store Bytes
      → Result ResolveError (Option VerifyTask)
  unfolding chosen
  resolve_verify_task w files ui id s =
      if is_empty id
      then from_rows (λ i. resolve_verify_by_task_id toml files i s) verify_allowed ui
          (codes "Select a task to verify") (list_resolvable_tasks toml w s)
      else chosen (resolve_verify_by_task_id toml files id s)
