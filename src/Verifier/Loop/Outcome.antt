-- ===== src/Verifier/Loop/Outcome.antt =====
-- What a verification run leaves on its row.
use j.Prelude.{Bool, if◌then◌else◌}
use j.Tasks.Status.{TaskStatus, needs_clarification, help}
use j.Lifecycle.{Lifecycle}
use j.Lifecycle.Verify
use j.Lifecycle.Verify.{VerifyOutcome, no_retries}
use j.Lifecycle.Verify.Laws.{verdict_status}
use j.Verifier.Loop.{Progress}

abbrev pub left_status : Progress → Bool → TaskStatus
left_status p clarification =
    if p.error
    then help
    else if clarification
    then needs_clarification
    else verdict_status p.outcome
