-- ===== src/Tasks/Status.antt =====
-- status.go: the task statuses. A Go `TaskStatus` is a string, so a value off the list is possible:
-- `unlisted` carries it, and `unlisted []` is the zero value of a row that has no status yet.
use j.Prelude.{ℕ, Bool, true, false, [], Text, text_eq, ◌==◌}

pub data TaskStatus : Type 0 where
  planning plan_pending_approval plan_done working work_done : TaskStatus
  verifying needs_clarification completed failed help : TaskStatus
  unlisted : Text → TaskStatus

abbrev pub unset : TaskStatus
unset = unlisted []

-- TaskStatus.Valid
unfoldable pub valid : TaskStatus → Bool
valid (unlisted s) = false
valid _ = true

abbrev rank : TaskStatus → ℕ
rank planning = 0
rank plan_pending_approval = 1
rank plan_done = 2
rank working = 3
rank work_done = 4
rank verifying = 5
rank needs_clarification = 6
rank completed = 7
rank failed = 8
rank help = 9
rank (unlisted s) = 10

-- Go's `==` on statuses.
unfoldable pub status_eq : TaskStatus → TaskStatus → Bool
unfolding text_eq
status_eq (unlisted s) (unlisted t) = text_eq s t
status_eq s t = rank s == rank t
