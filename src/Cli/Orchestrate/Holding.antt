-- ===== src/Cli/Orchestrate/Holding.antt =====
-- The lock of the process through the stages of the chain.
use mathlib.Core.Path.{subst}
use j.Prelude.{
  ℕ, ◌≡◌, refl, sym, inl, inr, Bool, Text, List, [], ◌∷◌, Option, Int64, is_empty, arith,
  Bool-cases, Result-cases,
}
use j.Tasks.Row.{Task}
use j.Tasks.Fsm.{Transition}
use j.Tasks.Wire.{Toml}
use j.Tasks.Store.{get_task}
use j.Tasks.Transit.{Hook, World, notify}
use j.Tasks.Lock.{Lock, LockFile, Write, update_phase, write_holder}
use j.Tasks.Lock.Laws.{IsOurs}
use j.Orchestrator.{
  Stage, tag, planner, worker, verifier, guarded_verifier, PhaseConfig, run_for_task,
  drive_sequential, task_sub_agents, finalise_verify_fail_if_stuck,
}
use j.Orchestrator.Laws.{finalise_lem}
use j.Orchestrator.Drive.{drive_keeps, finalise_unread}
use j.Cli.Orchestrate.{OrchestrateEnv, Held, under_locks, tagged_stages}

updated-IsOurs :
    (phase : Text) (w : Write) (fd : ℕ) (l : Lock) (file : Option LockFile)
    → IsOurs fd l file
    → IsOurs fd (update_phase phase w l file).1 (update_phase phase w l file).2
unfolding update_phase write_holder
updated-IsOurs phase w fd l file (o, (f, is, owner)) = (
  ground (arith, o),
  (
    write_holder w (record l.holder { phase = phase }) f,
    ground (arith, o, is),
    ground (arith, owner),
  ),
)

module _ {O : Type 0} where
  hooks_keep :
      (hooks : List (Hook O)) (step : Transition) (t : Task) (h : Held O)
      → let after = notify (under_locks hooks) step t h in
        (after.lock ≡ h.lock) × (after.file ≡ h.file)
  unfolding notify under_locks
  hooks_keep [] step t h = (refl, refl)
  hooks_keep (hook ∷ rest) step t h =
      hooks_keep rest step t (record h { observed = (hook step t h.observed).0 })

module _ (toml : Toml) {O : Type 0} where
  open toml use {Bytes}

  -- The lock of the process is open, under its number.
  abbrev pub Holds : ℕ → Held O → Type 0
  Holds fd h = IsOurs fd h.lock h.file

  stage-Holds :
      (env : OrchestrateEnv Bytes O) (cap : Int64) (stage : Stage) (w : World Bytes (Held O))
      → Holds env.fd w.observed
      → Holds env.fd (tagged_stages env cap stage w).0.observed
  unfolding tagged_stages
  stage-Holds env cap (tag phase) w h =
      updated-IsOurs phase (env.write phase) env.fd w.observed.lock w.observed.file h
  stage-Holds env cap (planner i) w h = h
  stage-Holds env cap (worker i) w h = h
  stage-Holds env cap verifier w h = h
  stage-Holds env cap guarded_verifier w h = h

  notified-Holds :
      (fd : ℕ) (hooks : List (Hook O)) (step : Transition) (t : Task) (h : Held O)
      → Holds fd h
      → Holds fd (notify (under_locks hooks) step t h)
  notified-Holds fd hooks step t h held = let (l, f) = hooks_keep hooks step t h in rw (l, f) held

  finalise-Holds :
      (env : OrchestrateEnv Bytes O) (id : Text) (w : World Bytes (Held O))
      → Holds env.fd w.observed
      → Holds env.fd
          (finalise_verify_fail_if_stuck toml env.faults env.now
            (under_locks env.hooks)
            id
            w).observed
  finalise-Holds env id w h = elim (Result-cases (get_task toml id w.store)) [
    | inr (e, unread) ↦
        subst (λ (v : World Bytes (Held O)). Holds env.fd v.observed)
          (sym (finalise_unread toml env.faults env.now (under_locks env.hooks) id e w unread)) h
    | inl (t, found) ↦
        elim (finalise_lem toml env.faults env.now (under_locks env.hooks) id t w found) [
          | inl (n, same) ↦
              subst (λ (v : World Bytes (Held O)). Holds env.fd v.observed) (sym same) h
          | inr (inl (at, stored, seen, silent)) ↦
              subst (Holds env.fd) (sym seen) (notified-Holds env.fd env.hooks _ _ w.observed h)
          | inr (inr (at, (e, line, unseen, rows))) ↦ subst (Holds env.fd) (sym unseen) h
        ]
  ]

  pub run-Holds :
      (env : OrchestrateEnv Bytes O) (cap : Int64) (has_agents : Bool) (id : Text)
      (pc : PhaseConfig) (w : World Bytes (Held O))
      → Holds env.fd w.observed
      → Holds env.fd
          (run_for_task toml env.faults env.now
            (under_locks env.hooks)
            (tagged_stages env cap)
            has_agents
            id
            pc
            w).0.observed
  unfolding run_for_task
  run-Holds env cap has_agents id pc w h = elim (Bool-cases (is_empty id)) [
    | inl unnamed ↦ rw unnamed h
    | inr named ↦ elim (Bool-cases has_agents) [
      | inr without ↦ rw (named, without) h
      | inl some_agent ↦
          let (after, stops) =
            drive_sequential toml (tagged_stages env cap) pc.has_tagger id (task_sub_agents pc) w in
          let here =
            drive_keeps toml (λ (v : World Bytes (Held O)). Holds env.fd v.observed)
              (tagged_stages env cap) (stage-Holds env cap) pc.has_tagger id (task_sub_agents pc) w
              h in
          elim (Bool-cases stops) [
            | inl ends ↦ rw (named, some_agent, ends) here
            | inr goes ↦ rw (named, some_agent, goes) (finalise-Holds env id after here)
          ]
    ]
  ]
