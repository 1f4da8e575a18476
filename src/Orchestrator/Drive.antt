-- ===== src/Orchestrator/Drive.antt =====
-- The stages of the chain in order, and what follows the last one.
use j.Prelude.{
  false, true, ◌++◌, ◌≡◌, refl, inl, inr, Bool, true, false, Text, List, [], ◌∷◌, err, Bool-cases,
}
use j.Tasks.Row.{Time}
use j.Tasks.Wire.{Toml}
use j.Tasks.Store.{Faults, StoreError, get_task}
use j.Tasks.Transit.{Hook, World}
use j.Orchestrator.{
  Stage, tag, planner, worker, verifier, guarded_verifier, Stages, run_stage, drive_sequential,
  finalised, finalise_verify_fail_if_stuck, row_stopped_at_clarification,
}

module _ (toml : Toml) {O : Type 0} where
  open toml use {Bytes}

  module _ (P : World Bytes O → Type 0) (stages : Stages Bytes O)
      (keeps : (stage : Stage) (world : World Bytes O) → P world → P (stages stage world).0) where
    stage_keeps :
        (has_tagger : Bool) (id : Text) (stage : Stage) (world : World Bytes O)
        → P world
        → P (run_stage toml stages has_tagger id stage world).0
    unfolding run_stage
    stage_keeps has_tagger id (tag phase) world h = keeps (tag phase) world h
    stage_keeps has_tagger id (planner i) world h = keeps (planner i) world h
    stage_keeps has_tagger id (worker i) world h = keeps (worker i) world h
    stage_keeps has_tagger id verifier world h = keeps verifier world h
    stage_keeps true id guarded_verifier world h =
        elim (Bool-cases (row_stopped_at_clarification toml id world)) [
          | inl asked ↦ rw asked h
          | inr goes ↦ rw goes (keeps verifier _ (keeps (tag _) world h))
        ]
    stage_keeps false id guarded_verifier world h =
        elim (Bool-cases (row_stopped_at_clarification toml id world)) [
          | inl asked ↦ rw asked h
          | inr goes ↦ rw goes (keeps verifier world h)
        ]

    pub drive_keeps :
        (has_tagger : Bool) (id : Text) (chain : List Stage) (world : World Bytes O)
        → P world
        → P (drive_sequential toml stages has_tagger id chain world).0
    unfolding drive_sequential
    drive_keeps has_tagger id [] world h = h
    drive_keeps has_tagger id (stage ∷ rest) world h =
        let (after, stops) = run_stage toml stages has_tagger id stage world in
        let here = stage_keeps has_tagger id stage world h in
        elim (Bool-cases stops) [
          | inl ends ↦ rw ends here
          | inr goes ↦ rw goes (drive_keeps has_tagger id rest after here)
        ]

  pub finalise_unread :
      (w : Faults) (now : Time) (hooks : List (Hook O)) (id : Text) (e : StoreError)
      (world : World Bytes O)
      → get_task toml id world.store ≡ err e
      → finalise_verify_fail_if_stuck toml w now hooks id world ≡ world
  unfolding finalise_verify_fail_if_stuck finalised
  finalise_unread w now hooks id e world h = rw h refl

  -- The last line on standard error tells of a write that was refused.
  abbrev pub IsWarned : World Bytes O → Type 0
  IsWarned world = (lines : List StoreError) × (e : StoreError) × (world.warnings ≡ lines ++ e ∷ [])
