-- ===== src/Cli/Orchestrate/Laws.antt =====
-- What a run of the orchestrator does to the task's lock.
use j.Prelude.{◌≡◌, ◌⊎◌, Bool, true, false, Option, none, some}
use j.Tasks.Wire.{Toml}
use j.Tasks.Transit.{World}
use j.Tasks.Lock.{Lock, LockFile}
use j.Tasks.Lock.Laws.{IsLeftFree}
use j.Cli.Orchestrate.{OrchestrateError}

-- An open file has the kernel's lock.
abbrev pub is_held : Option LockFile → Bool
is_held none = false
is_held (some f) = elim f.owner [ none ↦ false | some o ↦ true ]

module _ (toml : Toml) {O : Type 0} where
  open toml use {Bytes}

  -- Either nothing has happened but a report, or the lock was free and is free again.
  abbrev pub LeavesLock :
      World Bytes O
      → Option LockFile
      → World Bytes O × Option OrchestrateError × Option LockFile
      → Type 0
  LeavesLock world file (after, error, file') =
      (((e : OrchestrateError) × (error ≡ some e)) × (after ≡ world) × (file' ≡ file))
      ⊎ ((is_held file ≡ false) × IsLeftFree file')
