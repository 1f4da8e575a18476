-- ===== src/Examples/OfRuns.antt =====
-- The theorems on the runs of the three phases and on the settings at concrete inputs.
use j.Prelude.{
  ◌≡◌, refl, sym, ap, ◌∙◌, Bool, true, false, Text, codes, List, [], ◌∷◌, none, some, ok, text_eq,
  int_of, decimal, ◌&&◌, ◌||◌, if◌then◌else◌, arith,
}
use j.Tasks.Status.{TaskStatus}
use j.Resolver.{VerifyTask, WorkPlan, task_paths, left}
use j.Settings.{Bolt, Kv, value_of, no_refusals, put, list, persist_agent_selection}
use j.Settings.Config.{opened, project, load_task_config}
use j.Settings.Config.Laws.{load-put, load_range, IsCap}
use j.CodingAgents.{Backend, Agent, tick, file_event, polled, lookup_agent}
use j.Worker.{WorkOptions}
use j.Planner.{PlanOptions}
use j.Verifier.Resume.{ResumeOptions}
use j.Resolver.Choice.{AgentOptions, agent, agent_from_store, read_tool_model, setting, pick_agent}
use j.Resolver.Choice.Laws.{choice_is_remembered}
use j.Examples.Rows.{row_at}

-- A process that writes its session while it runs, and ends.
abbrev child : Backend
child = record {
  pid = some 17;
  captures = true;
  at_once = [];
  watcher_fails = false;
  wakes = file_event [] ∷ file_event (codes "s1") ∷ tick [] false ∷ [];
  alive = true;
  polls = polled true ∷ polled false ∷ [];
}

abbrev coder : Agent
coder = record {
  name = codes "codex";
  models = some (codes "o3" ∷ []);
  logged_in = true;
  new_resume_id = [];
  plan = λ r. child;
  work = λ r. child;
  verify = λ r. child;
}

abbrev work_options : WorkOptions
work_options = record {
  agents = coder ∷ [];
  selected = some (coder, codes "o3");
  pick = λ title rows. left;
  ask = λ cmd id status. none;
  files = λ id. record { plan_stat = true; plan = some []; requirements = none };
  must_read = [];
  task_id = codes "t1";
  confirmed = false;
  interactive = false;
  wait_for_completion = true;
}

abbrev planned_row : WorkPlan
planned_row = record {
  task = row_at TaskStatus.plan_done;
  task_dir = codes "d";
  paths = task_paths (codes "d");
  body = [];
  requirement = [];
}

abbrev found_row : TaskStatus → VerifyTask
found_row s = record { task = row_at s; task_dir = codes "d"; paths = task_paths (codes "d") }

abbrev plan_options : PlanOptions
plan_options = record {
  agent = coder;
  model = codes "o3";
  interactive = false;
  wait_for_completion = true;
  must_read = [];
  artifacts = (some (codes "r"), some (codes "p"));
}

abbrev resume_options : ResumeOptions
resume_options = record {
  task_id = codes "t1";
  agents = coder ∷ [];
  pick = λ title rows. left;
  must_read = [];
  findings = some (codes "VERDICT: PASS");
}

-- A database in memory: the names of its buckets, and what was put, the last first.
record Memory : Type 0 where
  names : List Text
  puts : List (Text × Text × Text)

abbrev has_name : Text → List Text → Bool
has_name b [] = false
has_name b (n ∷ ns) = text_eq n b || has_name b ns

abbrev pairs_of : Text → List (Text × Text × Text) → List Kv
pairs_of b [] = []
pairs_of b ((c, k, v) ∷ puts) =
    let rest = pairs_of b puts in if text_eq c b then (k, v) ∷ rest else rest

value_of-put :
    (b k v bucket key : Text) (puts : List (Text × Text × Text))
    → value_of (pairs_of bucket ((b, k, v) ∷ puts)) key
      ≡ (if text_eq b bucket && text_eq k key then some v else value_of (pairs_of bucket puts) key)
unfolding value_of
value_of-put b k v bucket key puts = ground arith

created_in :
    (b : Text) (db : Memory) {after : Memory}
    → some (record db { names = b ∷ db.names }) ≡ some after
    → record db { names = b ∷ db.names } ≡ after
created_in b db h = cc

written_in :
    (b k v : Text) (db : Memory) {after : Memory}
    → some (record db { puts = (b, k, v) ∷ db.puts }) ≡ some after
    → record db { puts = (b, k, v) ∷ db.puts } ≡ after
written_in b k v db h = cc

abbrev memory : Bolt
memory = record {
  Db = Memory;
  bucket_names = λ db. db.names;
  has_bucket = λ b db. has_name b db.names;
  pairs = λ b db. pairs_of b db.puts;
  get = λ b k db. value_of (pairs_of b db.puts) k;
  create_bucket = λ b db. some (record db { names = b ∷ db.names });
  put_in = λ b k v db. some (record db { puts = (b, k, v) ∷ db.puts });
  delete_in = λ b k db. none;
  drop_bucket = λ b db. none;
  get-create_bucket = λ b db db' h bucket key.
      ap (λ (d : Memory). value_of (pairs_of bucket d.puts) key) (sym (created_in b db h));
  has_bucket-create_bucket =
      λ b db db' h bucket. ap (λ (d : Memory). has_name bucket d.names) (sym (created_in b db h));
  has_bucket-put_in = λ b k v db db' h bucket.
      ap (λ (d : Memory). has_name bucket d.names) (sym (written_in b k v db h));
  get-put_in = λ b k v db db' h bucket key.
      ap (λ (d : Memory). value_of (pairs_of bucket d.puts) key) (sym (written_in b k v db h))
      ∙ value_of-put b k v bucket key db.puts;
  value_of-pairs = λ b k db. refl;
}

abbrev fresh_db : Memory
fresh_db = record { names = []; puts = [] }

abbrev five_db : Memory
five_db = record { names = project ∷ []; puts = (project, codes "max_iterations", decimal 5) ∷ [] }

load-put_example : load_task_config memory no_refusals (opened five_db) ≡ ok (int_of 5)
unfolding put
load-put_example =
    load-put memory no_refusals no_refusals 5 fresh_db five_db (omega arith) (omega arith) refl refl

load_range_example : IsCap (int_of 5)
load_range_example = load_range memory no_refusals (opened five_db) (int_of 5) load-put_example

abbrev asking : AgentOptions
asking = record {
  bucket = codes "worker";
  agents = coder ∷ [];
  explicit_tool = [];
  explicit_model = [];
  select_tool = λ names. some (codes "codex");
  select_model = λ models. some (codes "o3");
  reads = true;
  writes = true;
}

choice_is_remembered_example :
    agent memory no_refusals
      (record asking { select_tool = λ names. none })
      (agent memory no_refusals asking fresh_db).db
    ≡ record {
      result = ok (coder, codes "o3");
      asked = false;
      saved = false;
      db = (agent memory no_refusals asking fresh_db).db;
    }
unfolding agent agent_from_store read_tool_model list setting value_of pick_agent lookup_agent
    text_eq persist_agent_selection put
choice_is_remembered_example =
    choice_is_remembered memory no_refusals no_refusals asking
      (record asking { select_tool = λ names. none }) fresh_db coder (codes "o3") refl refl refl
      refl refl refl refl refl refl refl
