-- ===== src/Tasks/Row.antt =====
-- task.go: the task row, and the tool and model that `j tasks` shows for it. A time is the number
-- of its instant, and 0 is Go's zero time, "not set".
use j.Prelude.{ℕ, Bool, Text, [], is_empty, if◌then◌else◌, ◌==◌}
use j.Tasks.Status.{
  TaskStatus, planning, plan_pending_approval, plan_done, working, work_done, verifying,
  needs_clarification, completed, failed, help, unset, unlisted,
}

abbrev pub Time : Type 0
Time = ℕ

abbrev pub zero_time : Time
zero_time = 0

abbrev pub is_zero : Time → Bool
is_zero t = t == 0

pub record Task : Type 0 where
  pub id : Text
  pub status : TaskStatus
  pub plan_tool : Text
  pub plan_model : Text
  pub work_tool : Text
  pub work_model : Text
  pub verify_tool : Text
  pub verify_model : Text
  pub worktree : Text
  pub summary : Text
  pub plan_resume_session : Text
  pub work_resume_session : Text
  pub verify_resume_session : Text
  pub plan_begin_at : Time
  pub plan_end_at : Time
  pub work_begin_at : Time
  pub work_end_at : Time
  pub verify_begin_at : Time
  pub verify_end_at : Time
  pub done_at : Time
  pub agent_log_path : Text
  pub linear_issue : Text
  pub pull_request_url : Text

-- The zero value of the struct.
abbrev pub zero_task : Task
zero_task = record {
  id = [];
  status = unset;
  plan_tool = [];
  plan_model = [];
  work_tool = [];
  work_model = [];
  verify_tool = [];
  verify_model = [];
  worktree = [];
  summary = [];
  plan_resume_session = [];
  work_resume_session = [];
  verify_resume_session = [];
  plan_begin_at = 0;
  plan_end_at = 0;
  work_begin_at = 0;
  work_end_at = 0;
  verify_begin_at = 0;
  verify_end_at = 0;
  done_at = 0;
  agent_log_path = [];
  linear_issue = [];
  pull_request_url = [];
}

-- The deepest phase with a tool, for a row that got stuck.
deepest_tool_model : Task → Text × Text
deepest_tool_model t =
    if is_empty t.verify_tool
    then if is_empty t.work_tool then (t.plan_tool, t.plan_model) else (t.work_tool, t.work_model)
    else (t.verify_tool, t.verify_model)

tool_model_for : TaskStatus → Task → Text × Text
unfolding deepest_tool_model
tool_model_for planning t = (t.plan_tool, t.plan_model)
tool_model_for plan_pending_approval t = (t.plan_tool, t.plan_model)
tool_model_for plan_done t = (t.plan_tool, t.plan_model)
tool_model_for working t = (t.work_tool, t.work_model)
tool_model_for work_done t = (t.work_tool, t.work_model)
tool_model_for verifying t = (t.verify_tool, t.verify_model)
tool_model_for failed t = (t.verify_tool, t.verify_model)
tool_model_for completed t = (t.verify_tool, t.verify_model)
tool_model_for help t = deepest_tool_model t
tool_model_for needs_clarification t = deepest_tool_model t
tool_model_for (unlisted s) t = (t.plan_tool, t.plan_model)

-- Task.DisplayToolModel
unfoldable pub display_tool_model : Task → Text × Text
unfolding tool_model_for
display_tool_model t = tool_model_for t.status t
