-- ===== src/Lifecycle/Verify.antt =====
-- verify.go: the row around one verification.
pub mod Laws
use j.Prelude.{Bool, Text, is_empty, if◌then◌else◌}
use j.Tasks.Row.{Task, is_zero}
use j.Tasks.Fsm.{
  Event, verify_begin, verify_resume, verify_error, verify_needs_clarification, verify_pass,
  verify_fail,
}
use j.Tasks.Wire.{Toml}
use j.Tasks.Transit.{World, persist_warn, apply_and_persist_warn}
use j.Lifecycle.{Env, AgentSession, Lifecycle, advanced, open_lifecycle}

pub data VerifyOutcome : Type 0 where
  success no_retries : VerifyOutcome

outcome_event : VerifyOutcome → Event
outcome_event success = verify_pass
outcome_event no_retries = verify_fail

module _ (toml : Toml) {O : Type 0} where
  open toml use {Bytes}

  -- The event is `verify_begin`, as in the source.
  unfoldable pub begin_verify_restart :
      Env O → Task → AgentSession → World Bytes O → Lifecycle × World Bytes O
  unfolding open_lifecycle
  begin_verify_restart env t session world =
      open_lifecycle toml env
        (record t {
          verify_tool = session.tool;
          verify_model = session.model;
          verify_resume_session = session.resume_id;
          verify_begin_at = env.now;
          verify_end_at = 0;
          done_at = 0;
        })
        verify_begin world

  unfoldable pub begin_verify_resume : Env O → Task → World Bytes O → Lifecycle × World Bytes O
  unfolding open_lifecycle
  begin_verify_resume env t world =
      open_lifecycle toml env
        (record t {
          verify_end_at = 0;
          done_at = 0;
          verify_begin_at = if is_zero t.verify_begin_at then env.now else t.verify_begin_at;
        })
        verify_resume world

  unfoldable pub record_resume_session :
      Env O → Text → Lifecycle → World Bytes O → Lifecycle × World Bytes O
  record_resume_session env id lc world =
      if is_empty id
      then (lc, world)
      else let t = record lc.task { verify_resume_session = id } in
        (record lc { task = t }, persist_warn toml env.faults t world)

  unfoldable pub pick_finish_event : Env O → VerifyOutcome → Bool → Event
  unfolding outcome_event
  pick_finish_event env outcome run_failed =
      if run_failed
      then verify_error
      else if env.clarification
      then verify_needs_clarification
      else outcome_event outcome

  unfoldable pub finish :
      Env O → VerifyOutcome → Bool → Lifecycle → World Bytes O → Lifecycle × World Bytes O
  unfolding pick_finish_event
  finish env outcome run_failed lc world =
      if lc.closed
      then (lc, world)
      else advanced lc (
          apply_and_persist_warn toml env.faults env.now env.hooks
            (record lc.task { verify_end_at = env.now }) (pick_finish_event env outcome run_failed)
            world)
