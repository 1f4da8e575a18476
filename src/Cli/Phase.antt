-- ===== src/Cli/Phase.antt =====
-- continue_dispatch.go: the phase of a row that was interrupted last.
pub mod Laws
use j.Prelude.{Bool, Option, none, some, is_empty, ltb, if◌then◌else◌}
use j.Tasks.Row.{Task, Time, is_zero}

pub data Phase : Type 0 where
  plan_phase work_phase verify_phase : Phase

-- One turn of the loop of latestEndAt, with the best phase so far and its time.
abbrev later : Phase → Time → Option Phase × Time → Option Phase × Time
later phase at (none, best_at) = if is_zero at then (none, best_at) else (some phase, at)
later phase at (some best, best_at) =
    if is_zero at
    then (some best, best_at)
    else if ltb best_at at
    then (some phase, at)
    else (some best, best_at)

unfoldable pub latest_end_at : Task → Option Phase
latest_end_at t =
    (later plan_phase t.plan_end_at
      (later work_phase t.work_end_at (later verify_phase t.verify_end_at (none, 0)))).0

-- The phase by the session that is set, where no phase has ended.
unfoldable pub latest_session : Task → Option Phase
latest_session t =
    if is_empty t.verify_resume_session
    then if is_empty t.work_resume_session
      then (if is_empty t.plan_resume_session then none else some plan_phase)
      else some work_phase
    else some verify_phase

unfoldable pub latest_phase : Task → Option Phase
unfolding latest_session latest_end_at
latest_phase t = elim (latest_end_at t) [ some p ↦ some p | none ↦ latest_session t ]
