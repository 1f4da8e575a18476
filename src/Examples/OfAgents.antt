-- ===== src/Examples/OfAgents.antt =====
-- The theorems on verification runs and lifecycles at concrete inputs: the first verification
-- fails, the worker fixes it, and the second passes.
use mathlib.Core.List.{reverse}
use j.Prelude.{
  ℕ, zero, suc, ◌+◌, ◌≤◌, ◌<◌, ◌≡◌, ◌↔◌, refl, ◌⊎◌, true, false, Text, codes, Option, [], ◌∷◌, none,
  some, err, split_on,
}
use j.Tasks.Status.{TaskStatus, working, verifying, valid}
use j.Tasks.Fsm.{IllegalTransition}
use j.Tasks.Row.{Task}
use j.Lifecycle.Plan
use j.Lifecycle.Plan.Laws.{resume_panics}
use j.Lifecycle.Work
use j.Lifecycle.Verify
use j.Lifecycle.Verify.{success, no_retries}
use j.Verifier.Verdict.{pass, fail, parse_verdict}
use j.Verifier.Verdict.Laws.{parse_verdict_pass, EndsInPass}
use j.Verifier.Loop.{Agents, run_verify_loop}
use j.Verifier.Loop.Laws.{turns_bounded, verify_turns, fix_turns}
use j.Verifier.Loop.Pass.{success_lem, SeesPass}
use j.Lifecycle.Linear.{Upstream, StateSyncTarget}
use j.Examples.Rows.{plain_toml, row_at, world_of, plain_env, session}

abbrev second_passes : ℕ → Option Text
second_passes zero = some (codes "VERDICT: FAIL")
second_passes (suc i) = some (codes "VERDICT: PASS")

abbrev agents : Agents
agents = record {
  verify_pid = λ i. some (100 + i);
  verify_wait_fails = λ i. false;
  watched = codes "s1";
  findings = second_passes;
  fix_agent_known = true;
  fix_pid = λ i. some (200 + i);
  fix_wait_fails = λ i. false;
}

success_lem_example :
    ((run_verify_loop agents 0 []).outcome ≡ success) ↔ ((k : ℕ) × (k < 3) × SeesPass agents 0 k)
success_lem_example = success_lem agents 0 []

turns_bounded_example :
    (verify_turns (run_verify_loop agents 5 []).turns ≤ 5)
    × (fix_turns (run_verify_loop agents 5 []).turns + 1 ≤ 5)
turns_bounded_example = turns_bounded agents 5 []

abbrev findings : Text
findings = codes "Looks fine.\nverdict:  pass\n"

parse_verdict_pass_example :
    ((parse_verdict (some findings) ≡ pass) ↔ EndsInPass (reverse (split_on 10 findings)))
    × (parse_verdict none ≡ fail)
parse_verdict_pass_example = parse_verdict_pass findings

abbrev replanned : Task
replanned = record (row_at TaskStatus.plan_done) { work_resume_session = codes "s9" }

resume_panics_example :
    ((x : IllegalTransition) × (Plan.begin_plan_resume plain_toml plain_env
          (row_at working)
          session
          (world_of (row_at working))
        ≡ err x))
    ↔ ((working ≡ working) ⊎ (working ≡ TaskStatus.work_done) ⊎ (working ≡ verifying))
unfolding valid
resume_panics_example =
    resume_panics plain_toml plain_env (row_at working) session (world_of (row_at working)) refl

abbrev upstream : Upstream
upstream = record {
  reachable = true;
  states = some ((codes "Todo", codes "s1") ∷ (codes "In Review", codes "s3") ∷ []);
  requirements = none;
  plan = none;
  clarification = none;
}

abbrev linked : Task
linked = record (row_at verifying) { linear_issue = codes "SPA-1" }

abbrev in_review : StateSyncTarget
in_review = record { state_name = codes "In Review"; ping = true }
