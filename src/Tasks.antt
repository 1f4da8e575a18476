-- ===== src/Tasks.antt =====
-- internal/store/tasks: the task rows, their lifecycle and their storage.
pub mod Status
pub mod Fsm
pub mod Row
pub mod Wire
pub mod Store
pub mod Transit
pub mod Summary
pub mod Worktree
pub mod Sort
pub mod Lock
