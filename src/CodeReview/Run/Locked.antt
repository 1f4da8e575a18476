-- ===== src/CodeReview/Run/Locked.antt =====
-- A code review under the lock of its task.
use j.Prelude.{
  ℕ, ◌≡◌, ◌⊎◌, inl, inr, refl, Bool, true, Bool-cases, Text, [], Option, none, some, Result, ok,
  err, is_empty,
}
use j.Tasks.Row.{Task}
use j.Tasks.Wire.{Toml}
use j.Tasks.Store.{Store}
use j.Tasks.Lock.{Caller, Lock, LockFile, LockFaults, AcquireError, acquire_lock}
use j.Tasks.Lock.Laws.{held_is_refused, free_is_acquired, release_frees}
use j.Resolver.{task_by_id}
use j.CodeReview.Rounds.{Rounds}
use j.CodeReview.Run.{
  RunError, task_required, no_pr_url, status_forbids, lock_failed, ReviewEnv, guarded, under_lock,
  locked_run, run_code_review_child, review_disallowed, guard_code_review_task,
}

module _ (toml : Toml) where
  open toml use {Bytes}

  -- While another open file holds the task's lock, RunCodeReviewChild fails, and neither the rounds nor
  -- the lock file change: the planner is not run.
  pub held_lock_stops_review :
      (env : ReviewEnv) (has_agents : Bool) (c : Caller) (w : LockFaults) (close_fails : Bool)
      (fd : ℕ) (id : Text) (s : Store Bytes) (rounds : Rounds) (f : LockFile) (owner : ℕ)
      → f.owner ≡ some owner
      → (e : RunError) × (run_code_review_child toml env has_agents c w close_fails fd id s rounds
            (some f)
          ≡ ((some e, rounds), some f))
  unfolding run_code_review_child
  held_lock_stops_review env has_agents c w close_fails fd id s rounds f owner held =
      let (e, refused) = held_is_refused c w fd f owner held in
      elim (Bool-cases (is_empty id)) [
        | inl unnamed ↦ (task_required, rw unnamed refl)
        | inr named ↦ elim (Bool-cases has_agents) [
          | inl has ↦ (lock_failed e, rw (named, has, refused) (unfold locked_run in refl))
          | inr has_none ↦ (RunError.no_agents, rw (named, has_none) refl)
        ]
      ]

  -- RunCodeReviewChild on a free lock leaves it free, whatever happens in between, the failure of the
  -- release included.
  pub review_gives_lock_back :
      (env : ReviewEnv) (has_agents : Bool) (c : Caller) (w : LockFaults) (close_fails : Bool)
      (fd : ℕ) (id : Text) (s : Store Bytes) (rounds : Rounds) (f : LockFile)
      → f.owner ≡ none
      → (g : LockFile) × ((run_code_review_child toml env has_agents c w close_fails fd id s rounds
            (some f)).1
          ≡ some g)
        × (g.owner ≡ none)
  unfolding run_code_review_child
  review_gives_lock_back env has_agents c w close_fails fd id s rounds f free =
      elim (Bool-cases (is_empty id)) [
        | inl unnamed ↦ (f, rw unnamed refl, free)
        | inr named ↦ elim (Bool-cases has_agents) [
          | inr has_none ↦ (f, rw (named, has_none) refl, free)
          | inl has ↦ elim (free_is_acquired c w fd f free) [
            | inl (e, refused) ↦ (f, rw (named, has, refused) (unfold locked_run in refl), free)
            | inr (l, g, got, mine, its) ↦ (
              record g { owner = none },
              rw (named, has, got) (unfold locked_run in release_frees close_fails l g fd mine its),
              refl,
            )
          ]
        ]
      ]

  guard_stops :
      (row : Task)
      → (review_disallowed row.status ≡ true) ⊎ (row.pull_request_url ≡ [])
      → (e : RunError) × (guard_code_review_task row ≡ some e)
  unfolding guard_code_review_task
  guard_stops row (inr none_there) = (no_pr_url, rw none_there refl)
  guard_stops row (inl busy) = elim (Bool-cases (is_empty row.pull_request_url)) [
    | inl unset ↦ (no_pr_url, rw unset refl)
    | inr there ↦ (status_forbids row.status, rw (there, busy) refl)
  ]

  stopped :
      (env : ReviewEnv) (close_fails : Bool) (id : Text) (s : Store Bytes) (rounds : Rounds)
      (row : Task)
      → task_by_id toml id s ≡ ok row
      → (review_disallowed row.status ≡ true) ⊎ (row.pull_request_url ≡ [])
      → (got : Result AcquireError Lock × Option LockFile)
      → (e : RunError) × ((locked_run toml env close_fails id s rounds got).0 ≡ (some e, rounds))
  unfolding locked_run
  stopped env close_fails id s rounds row at busy (err e, file) = (lock_failed e, refl)
  stopped env close_fails id s rounds row at busy (ok l, file) =
      let (e, stops) = guard_stops row busy in
      (e, rw (at, under_lock, stops) (unfold guarded in refl))

  -- A row that is planning, working or verifying, or that has no pull request, is not reviewed: no
  -- round changes, and the planner is not run.
  pub busy_row_is_not_reviewed :
      (env : ReviewEnv) (has_agents : Bool) (c : Caller) (w : LockFaults) (close_fails : Bool)
      (fd : ℕ) (id : Text) (s : Store Bytes) (rounds : Rounds) (file : Option LockFile) (row : Task)
      → task_by_id toml id s ≡ ok row
      → (review_disallowed row.status ≡ true) ⊎ (row.pull_request_url ≡ [])
      → (e : RunError) × ((run_code_review_child toml env has_agents c w close_fails fd id s rounds
            file).0
          ≡ (some e, rounds))
  unfolding run_code_review_child
  busy_row_is_not_reviewed env has_agents c w close_fails fd id s rounds file row at busy =
      elim (Bool-cases (is_empty id)) [
        | inl unnamed ↦ (task_required, rw unnamed refl)
        | inr named ↦ elim (Bool-cases has_agents) [
          | inr has_none ↦ (RunError.no_agents, rw (named, has_none) refl)
          | inl has ↦
              let (e, stops) =
                stopped env close_fails id s rounds row at busy (acquire_lock c w fd file) in
              (e, rw (named, has) stops)
        ]
      ]
