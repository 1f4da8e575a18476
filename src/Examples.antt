-- ===== src/Examples.antt =====
-- Runs at concrete inputs: a task store whose TOML is the sectioned file itself, a row, and agents
-- whose second verification passes.
mod Rows
mod OfTasks
mod OfLocks
mod OfAgents
mod OfCommands
mod OfReviews
mod OfRounds
mod OfTitles
mod OfRuns
mod OfSessions
