-- ===== src/Examples/Rows.antt =====
-- The rows, stores and environments of the examples, and runs over them.
use j.Prelude.{ℕ, suc, refl, true, false, codes, [], ◌∷◌, none, some}
use j.Tasks.Status.{TaskStatus}
use j.Tasks.Row.{Task, zero_task}
use j.Tasks.Wire.{Toml, TaskFile, task_file_from_task}
use j.Tasks.Store.{Faults, no_faults, task_dir, present, Store}
use j.Tasks.Transit.{Hook, World}
use j.Lifecycle.{Env, AgentSession, Lifecycle}

-- A TOML library that keeps the value itself.
abbrev pub plain_toml : Toml
plain_toml = record {
  Bytes = TaskFile;
  encode = λ f. f;
  decode_file = λ f. some f;
  decode_flat = λ f. none;
  decode_file-encode = λ f. refl;
}

abbrev pub row_at : TaskStatus → Task
row_at s = record zero_task { id = codes "t1"; status = s; plan_begin_at = 3 }

abbrev pub store_of : Task → Store TaskFile
store_of t = record {
  tasks_dir = codes "/p/.j/tasks";
  exists = true;
  entries = (codes "t1", task_dir (present (task_file_from_task t))) ∷ [];
}

-- The observers count the transitions that they have seen.
abbrev pub count_hook : Hook ℕ
count_hook tr t n = (suc n, false)

abbrev pub world_of : Task → World TaskFile ℕ
world_of t = record { store = store_of t; observed = 0; warnings = [] }

abbrev pub refusing : Faults
refusing = record no_faults { write = true }

abbrev pub plain_env : Env ℕ
plain_env = record {
  faults = no_faults;
  now = 50;
  hooks = count_hook ∷ [];
  clarification = false;
  approval = true;
  project = codes "p";
  detect_pull_request_url = λ worktree log. [];
}

abbrev pub session : AgentSession
session = record { tool = codes "claude"; model = codes "opus"; resume_id = [] }

abbrev pub open_on : Task → Lifecycle
open_on t = record { agent_log_path = codes "agent.log"; task = t; closed = false }
