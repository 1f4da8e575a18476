-- ===== src/Tasks/Wire.antt =====
-- task_wire.go: the sectioned shape of task.toml, and its decoding with the fallback to the flat
-- layout of older files. The TOML library is a parameter.
use j.Prelude.{Text, ◌≡◌, Option, none, some, Result, ok, err, false, is_empty, if◌then◌else◌}
use j.Tasks.Status.{TaskStatus}
use j.Tasks.Row.{Task, Time}

pub record MetadataSection : Type 0 where
  pub id : Text
  pub status : TaskStatus
  pub summary : Text
  pub done_at : Time

pub record PhaseSection : Type 0 where
  pub tool : Text
  pub model : Text
  pub resume_session : Text
  pub begin_at : Time
  pub end_at : Time

pub record WorkerSection : Type 0 where
  pub tool : Text
  pub model : Text
  pub resume_session : Text
  pub begin_at : Time
  pub end_at : Time
  pub worktree : Text

pub record TaskFile : Type 0 where
  pub metadata : MetadataSection
  pub planner : PhaseSection
  pub worker : WorkerSection
  pub verifier : PhaseSection
  pub linear_issue : Text  -- [linear] issue
  pub pull_request_url : Text  -- [github] pull_request_url
  pub agent_log_path : Text  -- [logs] agent_log_path

unfoldable pub task_file_from_task : Task → TaskFile
task_file_from_task t = record {
  metadata = record { id = t.id; status = t.status; summary = t.summary; done_at = t.done_at };
  planner = record {
    tool = t.plan_tool;
    model = t.plan_model;
    resume_session = t.plan_resume_session;
    begin_at = t.plan_begin_at;
    end_at = t.plan_end_at;
  };
  worker = record {
    tool = t.work_tool;
    model = t.work_model;
    resume_session = t.work_resume_session;
    begin_at = t.work_begin_at;
    end_at = t.work_end_at;
    worktree = t.worktree;
  };
  verifier = record {
    tool = t.verify_tool;
    model = t.verify_model;
    resume_session = t.verify_resume_session;
    begin_at = t.verify_begin_at;
    end_at = t.verify_end_at;
  };
  linear_issue = t.linear_issue;
  pull_request_url = t.pull_request_url;
  agent_log_path = t.agent_log_path;
}

unfoldable pub task_from_file : TaskFile → Task
task_from_file f = record {
  id = f.metadata.id;
  status = f.metadata.status;
  summary = f.metadata.summary;
  done_at = f.metadata.done_at;
  plan_tool = f.planner.tool;
  plan_model = f.planner.model;
  plan_resume_session = f.planner.resume_session;
  plan_begin_at = f.planner.begin_at;
  plan_end_at = f.planner.end_at;
  work_tool = f.worker.tool;
  work_model = f.worker.model;
  work_resume_session = f.worker.resume_session;
  work_begin_at = f.worker.begin_at;
  work_end_at = f.worker.end_at;
  worktree = f.worker.worktree;
  verify_tool = f.verifier.tool;
  verify_model = f.verifier.model;
  verify_resume_session = f.verifier.resume_session;
  verify_begin_at = f.verifier.begin_at;
  verify_end_at = f.verifier.end_at;
  linear_issue = f.linear_issue;
  pull_request_url = f.pull_request_url;
  agent_log_path = f.agent_log_path;
}

-- The calls of the TOML library: what it writes for a sectioned file it reads back.
pub record Toml : Type 1 where
  pub Bytes : Type 0
  pub encode : TaskFile → Bytes
  pub decode_file : Bytes → Option TaskFile
  pub decode_flat : Bytes → Option Task
  pub decode_file-encode : (f : TaskFile) → decode_file (encode f) ≡ some f

module _ (toml : Toml) where
  open toml use {Bytes, encode, decode_file, decode_flat, decode_file-encode}

  unfoldable pub marshal_task : Task → Bytes
  marshal_task t = encode (task_file_from_task t)

  flat_or_error : Option Task → Text → Result Text Task
  flat_or_error none id = err id
  flat_or_error (some t) id = ok t

  -- The error carries the id that it names.
  sections_or_flat : Option TaskFile → Bytes → Text → Result Text Task
  unfolding flat_or_error
  sections_or_flat none data_bytes id = flat_or_error (decode_flat data_bytes) id
  sections_or_flat (some f) data_bytes id =
      if is_empty f.metadata.id
      then flat_or_error (decode_flat data_bytes) id
      else ok (task_from_file f)

  unfoldable pub unmarshal_task : Bytes → Text → Result Text Task
  unfolding sections_or_flat
  unmarshal_task data_bytes id = sections_or_flat (decode_file data_bytes) data_bytes id

  -- A row with an id reads back, field for field, from what is written for it.
  pub unmarshal-marshal :
      (t : Task) (id : Text) → is_empty t.id ≡ false → unmarshal_task (marshal_task t) id ≡ ok t
  unfolding unmarshal_task marshal_task task_file_from_task task_from_file
  unmarshal-marshal t id named =
      rw (decode_file-encode (task_file_from_task t), sections_or_flat) (rw named)
