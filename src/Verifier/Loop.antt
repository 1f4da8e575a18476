-- ===== src/Verifier/Loop.antt =====
-- loop.go and verify.go: the bounded loop of verifier turns and worker fix turns, and the run
-- around it. What the agents and their processes do is the argument `Agents`.
pub mod Laws
pub mod Pass
pub mod Outcome
use j.Prelude.{
  ℕ, zero, suc, ◌+◌, Bool, true, false, Text, List, [], ◌∷◌, ◌++◌, Option, none, some, is_empty,
  leb, ltb, ◌==◌, ◌&&◌, not, if◌then◌else◌,
}
use j.Tasks.Row.{Task}
use j.Tasks.Wire.{Toml}
use j.Tasks.Transit.{World}
use j.Lifecycle.{Env, AgentSession, Lifecycle}
use j.Lifecycle.Verify
use j.Lifecycle.Verify.{VerifyOutcome, success, no_retries}
use j.Verifier.Verdict.{Verdict, pass, fail, parse_verdict}

-- The turns by their iteration: the process that a verifier or a worker turn starts (`none` for an
-- error), whether waiting for it fails, the text of the findings after the turn (`none` if it
-- cannot be read), and whether the backend recorded on the row is one of those configured.
-- `watched` is the session that the watcher finds during the first turn, `[]` for none.
pub record Agents : Type 0 where
  pub verify_pid : ℕ → Option ℕ
  pub verify_wait_fails : ℕ → Bool
  pub watched : Text
  pub findings : ℕ → Option Text
  pub fix_agent_known : Bool
  pub fix_pid : ℕ → Option ℕ
  pub fix_wait_fails : ℕ → Bool

-- resolver.ParseVerdict on the findings of the iteration.
abbrev pub verdict_of : Agents → ℕ → Verdict
verdict_of a i = parse_verdict (a.findings i)

-- A request to an agent: a verifier turn with its Resume flag and session, or a fix turn.
pub data Turn : Type 0 where
  verify_turn : Bool → Text → Turn
  fix_turn : Turn

-- `recorded` is the session that the loop has the lifecycle record, `[]` for none.
pub record Progress : Type 0 where
  pub turns : List Turn
  pub outcome : VerifyOutcome
  pub error : Bool
  pub session : Text
  pub recorded : Text

abbrev stop : List Turn → VerifyOutcome → Bool → Text → Text → Progress
stop ts o e s r = record { turns = ts; outcome = o; error = e; session = s; recorded = r }

-- runFixTurn, after resolveFixAgent.
unfoldable pub fix_fails : Agents → ℕ → Bool
fix_fails a i = elim (a.fix_pid i) [ none ↦ true | some p ↦ a.fix_wait_fails i ]

-- finishVerifyIteration, behind the request `ts`.
unfoldable pub finish_iteration : Agents → ℕ → ℕ → List Turn → Text → Text → Progress
finish_iteration a max_iterations i ts session recorded = elim (verdict_of a i) [
  | pass ↦ stop ts success false session recorded
  | fail ↦
      if leb max_iterations (i + 1)
      then stop ts no_retries false session recorded
      else if not a.fix_agent_known
      then stop ts no_retries true session recorded
      else stop (ts ++ fix_turn ∷ []) no_retries (fix_fails a i) session recorded
]

-- The session that CaptureAndSaveProcessResumeID finds in the first turn.
abbrev captured : Agents → ℕ → Text → Text
captured a pid session = if ltb 0 pid && is_empty session then a.watched else session

-- runVerifyIteration
unfoldable pub started : Agents → ℕ → ℕ → Text → Option ℕ → Progress
unfolding finish_iteration
started a max_iterations i session none =
    stop (verify_turn (ltb 0 i) session ∷ []) no_retries true session []
started a max_iterations i session (some pid) =
    let ts = verify_turn (ltb 0 i) session ∷ [] in
    let found = captured a pid session in
    let recorded = if ltb 0 pid && is_empty session then a.watched else [] in
    if i == 0
    then if ltb 0 pid && a.verify_wait_fails i
      then stop ts no_retries true found recorded
      else finish_iteration a max_iterations i ts found recorded
    else if a.verify_wait_fails i
    then stop ts no_retries true session []
    else finish_iteration a max_iterations i ts session []

unfoldable pub iteration : Agents → ℕ → ℕ → Text → Progress
unfolding started
iteration a max_iterations i session = started a max_iterations i session (a.verify_pid i)

abbrev pub is_over : Progress → Bool
is_over p = if p.error then true else elim p.outcome [ success ↦ true | no_retries ↦ false ]

-- The rest of the loop behind an iteration that did not end it.
abbrev pub continued : Progress → Progress → Progress
continued p rest = record rest {
  turns = p.turns ++ rest.turns;
  recorded = if is_empty p.recorded then rest.recorded else p.recorded;
}

-- The loop of runVerifyLoop, with `left` iterations left.
unfoldable pub loop : Agents → ℕ → ℕ → ℕ → Text → Progress
loop a max_iterations zero i session = stop [] no_retries false session []
loop a max_iterations (suc left) i session =
    let p = iteration a max_iterations i session in
    let rest = loop a max_iterations left (i + 1) p.session in
    if is_over p then p else continued p rest

abbrev pub default_max_iterations : ℕ
default_max_iterations = 3

-- withDefaults, on the cap.
abbrev pub capped : ℕ → ℕ
capped n = if n == 0 then default_max_iterations else n

unfoldable pub run_verify_loop : Agents → ℕ → Text → Progress
run_verify_loop a max_iterations session = let n = capped max_iterations in loop a n n 0 session

module _ (toml : Toml) {O : Type 0} where
  open toml use {Bytes}

  -- Run, behind the resolution of the task and of the agents: begin, loop, finish.
  unfoldable pub run :
      Env O → Env O → Agents → ℕ → Task → AgentSession → World Bytes O → Lifecycle × World Bytes O
  run env env' a max_iterations t session world =
      let (lc, w) = Verify.begin_verify_restart toml env t session world in
      let p = run_verify_loop a max_iterations session.resume_id in
      let (lc', w') = Verify.record_resume_session toml env p.recorded lc w in
      Verify.finish toml env' p.outcome p.error lc' w'
