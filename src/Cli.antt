-- ===== src/Cli.antt =====
-- internal/cli/tasks: what `j tasks` does with rows that are in flight.
pub mod Reap
pub mod Pick
pub mod Discard
pub mod Resume
pub mod Orchestrate
pub mod Continue
pub mod Phase
