-- ===== src/CodingAgents.antt =====
-- internal/coding-agents: the session of a run, found while it runs (resume.go, watch.go), the wait
-- for its process (internal/util/run/process.go), and the choice of a backend by its name. The
-- backends themselves are arguments.
pub mod Laws
use j.Prelude.{
  ℕ, Bool, true, false, Text, List, [], ◌∷◌, Option, none, some, is_empty, text_eq, ltb, ◌==◌, ◌&&◌,
  not, if◌then◌else◌,
}

-- What the loop of WatchActiveResumeID wakes up for, with what the scan of the session files finds
-- (`[]` for nothing), and for a tick whether the process is alive.
pub data Wake : Type 0 where
  cancelled : Wake
  tick : Text → Bool → Wake
  file_event : Text → Wake

-- The loop: `none` as long as it waits.
unfoldable pub watch : List Wake → Option Text
watch [] = none
watch (cancelled ∷ ws) = some []
watch (tick id alive ∷ ws) =
    let rest = watch ws in if not (is_empty id) then some id else if alive then rest else some []
watch (file_event id ∷ ws) = let rest = watch ws in if is_empty id then rest else some id

-- What the loop of WaitForExit wakes up for.
pub data Poll : Type 0 where
  interrupted : Poll
  polled : Bool → Poll  -- whether the process is alive

unfoldable pub poll_exit : List Poll → Option Bool
poll_exit [] = none
poll_exit (interrupted ∷ ps) = some true
poll_exit (polled alive ∷ ps) = let rest = poll_exit ps in if alive then rest else some false

-- A run of a backend. `pid` is what the call that starts it returns, `none` for an error and 0 for a
-- run that has ended already. `captures` tells whether the backend is a ResumeIDCapturer, `at_once`
-- what its first scan finds; `alive` is the first look at the process.
pub record Backend : Type 0 where
  pub pid : Option ℕ
  pub captures : Bool
  pub at_once : Text
  pub watcher_fails : Bool
  pub wakes : List Wake
  pub alive : Bool
  pub polls : List Poll

-- WaitForExit: whether it fails, `none` as long as it waits.
unfoldable pub wait_for_exit : Backend → ℕ → Option Bool
wait_for_exit b pid =
    let polling = poll_exit b.polls in
    if pid == 0 then some false else if b.alive then polling else some false

unfoldable pub watch_active_resume_id : Backend → Option Text
watch_active_resume_id b = let found = watch b.wakes in if b.watcher_fails then some [] else found

-- The parts of ResumeProcess behind the backend's own.
pub record ResumeProcess : Type 0 where
  pub pid : ℕ
  pub wait : Bool
  pub resume_id : Text

-- An id, whether the wait failed, and the recorder's state.
abbrev pub Captured : Type 0 → Type 0
Captured S = Text × Bool × S

module _ {S : Type 0} (record_session : Text → S → S) where
  found : S → Option Text → Option (Text × S)
  found s none = none
  found s (some id) = some (if is_empty id then (id, s) else (id, record_session id s))

  -- WatchAndSaveActiveResumeID: nothing is recorded where nothing is found.
  unfoldable pub watch_and_save : Backend → ℕ → S → Option (Text × S)
  unfolding found
  watch_and_save b pid s =
      if b.captures && ltb 0 pid
      then if is_empty b.at_once
        then found s (watch_active_resume_id b)
        else some (b.at_once, record_session b.at_once s)
      else some ([], s)

  waited : Text → S → Option Bool → Option (Captured S)
  waited id s none = none
  waited id s (some fails) = some (id, fails, s)

  behind_watch : Backend → ResumeProcess → Option (Text × S) → Option (Captured S)
  unfolding waited
  behind_watch b p none = none
  behind_watch b p (some (id, s)) =
      if ltb 0 p.pid && p.wait then waited id s (wait_for_exit b p.pid) else some (id, false, s)

  -- CaptureAndSaveProcessResumeID
  unfoldable pub capture_process : Backend → ResumeProcess → S → Option (Captured S)
  unfolding behind_watch
  capture_process b p s = behind_watch b p (
      if ltb 0 p.pid && is_empty p.resume_id
      then watch_and_save b p.pid s
      else some (p.resume_id, s))

-- The requests of the three phases, without the fields that only the worker's fix turn sets.
pub record PlanRequest : Type 0 where
  pub task_dir : Text
  pub from_file_path : Text
  pub model : Text
  pub requirements_output_path : Text
  pub plan_output_path : Text
  pub clarification_path : Text
  pub interactive : Bool
  pub resume_chat_id : Text
  pub resume : Bool
  pub resume_from_clarification : Bool
  pub agent_log_path : Text
  pub must_read : List Text

pub record WorkRequest : Type 0 where
  pub task_dir : Text
  pub plan_path : Text
  pub model : Text
  pub clarification_path : Text
  pub interactive : Bool
  pub resume_chat_id : Text
  pub resume : Bool
  pub resume_from_clarification : Bool
  pub worktree : Text
  pub agent_log_path : Text
  pub must_read : List Text

pub record VerifyRequest : Type 0 where
  pub task_dir : Text
  pub requirements_path : Text
  pub plan_path : Text
  pub verifier_plan_output_path : Text
  pub verifier_findings_output_path : Text
  pub clarification_path : Text
  pub model : Text
  pub interactive : Bool
  pub resume : Bool
  pub resume_from_clarification : Bool
  pub resume_chat_id : Text
  pub worktree : Text
  pub agent_log_path : Text
  pub must_read : List Text

-- A configured backend: its name, its models (`none` for an error), whether it is logged in, the
-- session that NewResumeID hands out, and what it makes of a request.
pub record Agent : Type 0 where
  pub name : Text
  pub models : Option (List Text)
  pub logged_in : Bool
  pub new_resume_id : Text
  pub plan : PlanRequest → Backend
  pub work : WorkRequest → Backend
  pub verify : VerifyRequest → Backend

unfoldable pub lookup_agent : List Agent → Text → Option Agent
lookup_agent [] name = none
lookup_agent (a ∷ rest) name = if text_eq a.name name then some a else lookup_agent rest name

-- The lookup of a recorded backend, where no name finds none.
unfoldable pub lookup_resume_agent : List Agent → Text → Option Agent
lookup_resume_agent agents name = if is_empty name then none else lookup_agent agents name
