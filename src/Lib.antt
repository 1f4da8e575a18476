-- ===== src/Lib.antt =====
-- j is a command line tool that takes a task through three agents: a planner, a worker and a
-- verifier. A task is a row in a TOML file of its own directory, with a status; every change of
-- the status is an event of one transition table. The lifecycles of the three phases fire the
-- events around an agent's run, the verifier loops with fix turns of the worker until the findings
-- pass, `j tasks` reaps rows whose process died, `j tasks continue` sends a row to the phase that
-- it waits for, the resolver chooses the row that a command works on, the orchestrator chains the
-- agents, and a code review takes a pull request's feedback through the planner.
--
-- Parts, with the files that model them:
--   Tasks/Status, Tasks/Fsm, Tasks/Fsm/Table, Tasks/Fsm/Runs: internal/store/tasks/status.go and
--     fsm.go. `transitions` is the table in the source's order, `apply` the lookup Apply, `run` a
--     history of events.
--   Tasks/Row, Tasks/Wire: the row and its file (task.go, task_wire.go). The TOML library is the
--     parameter `Toml`, of which the code relies on reading back what it writes.
--   Tasks/Store, with Tasks/Store/Refine for the store as a map: PutTask, GetTask, DeleteTask,
--     ListTasks, EnsureDir and RemoveDir (task.go, dir.go) over one directory for each task. What
--     the operating system refuses is the argument `Faults`.
--   Tasks/Transit: apply_persist.go, persist.go and hooks.go. A hook acts on a state `O` of its own,
--     and may panic.
--   Tasks/Summary, Tasks/Worktree, Tasks/Sort: summary.go, worktree.go and sort.go.
--   Tasks/Lock: lock.go. Tasks/Lock/Traces has the interleaved calls of any number of processes as
--     a step relation.
--   Lifecycle, with Plan, Work and Verify: internal/lifecycle/plan.go, work.go and verify.go, and
--     beginWorkLifecycle of internal/agents/worker/run.go. `Env` is what a call finds outside of
--     the row: the clock, the hooks, the files and the settings. Lifecycle/Stored tells
--     when the store has the row of a lifecycle.
--   Lifecycle/Linear: linear_state_sync.go and linear_push.go of internal/lifecycle, as the calls
--     that the hooks make.
--   Verifier/Verdict: internal/resolver/verdict.go; the regular expression is written out.
--   Verifier/Loop: internal/agents/verifier/loop.go and the run around it in verify.go. What the
--     agents answer is the argument `Agents`, by the iteration.
--   Verifier/Resume: internal/agents/verifier/resume.go.
--   CodingAgents: resume.go, watch.go and agent.go of internal/coding-agents, and WaitForExit of
--     internal/util/run/process.go. The loops run over the list of what they wake up for, and `none`
--     tells that they wait for more.
--   Worker, Planner: run.go of internal/agents/worker and internal/agents/planner.
--   Settings, Settings/Config: internal/store/store.go and settings.go. bbolt is the parameter `Bolt`,
--     of which the code relies on Get, ForEach and Put agreeing.
--   Resolver/Choice: internal/resolver/agent.go, and PickAgent of internal/cli/picker/agent.go.
--   Cli/Reap, Cli/Phase, Cli/Pick, Cli/Continue, Cli/Discard, Cli/Orchestrate, Cli/Resume: reap.go,
--     ui.go, continue.go, continue_dispatch.go, discard.go, orchestrate.go, and resume_shared.go with
--     the configurations of its three commands, all of internal/cli/tasks. A resume ends with the
--     arguments of the orchestrator.
--   CodeReview: internal/store/codereview/review.go and validate.go. CodeReview/Rounds: round.go of
--     the same directory. CodeReview/Run: io.go, internal/cli/tasks/code_review_child.go and
--     internal/resolver/code_review.go. What the planner makes of a round is the argument `Planner`.
--   Github: internal/tools/github/items.go and reply.go. Github/Url, Github/Fetch: url.go and fetch.go
--     with the pages of query.go. What net/url makes of a text and what the transport answers are
--     arguments.
--   Lifecycle/Titles: internal/lifecycle/linear_title_sync.go.
--   Resolver: internal/resolver/task.go. What the user answers and what a task directory holds are
--     arguments; paths are joined as they stand.
--   Orchestrator: internal/lifecycle/orchestrator. What a stage does to the world is the argument
--     `Stages`, which Cli/Orchestrate fills with the tags of the lock.
--   Prelude: tests, lists, texts, sorting and scanning that the parts share. Examples: every
--     result below at a concrete input.
--
-- Bounds. Strings are lists of code points, so invalid UTF-8 is left out. A time is the number of
-- its instant, and 0 is the zero time. The verification loop is bounded by the cap on iterations
-- itself: it recurses on the iterations that are left, so no fuel is needed. A cap that is not
-- positive is 0 here. The paging of fetch.go takes fuel for the pages that are asked for, and the
-- pages that are there are enough of it. The loop that strips signs from a title takes the length of
-- the title, and each turn takes a character off. Numbers are natural numbers, but for the number of
-- a round and of a pull request, which are 64-bit integers: Prelude/Decimal has their range, their
-- print and strconv.Atoi, and the number behind the last one wraps around.
--
-- Not modelled: the agents' processes and their command lines, the terminal, the project's layout,
-- HTTP clients, prompts, and logging, which have no logic over the rows of their own.
pub mod Prelude
pub mod Tasks
pub mod Lifecycle
pub mod Verifier
pub mod Settings
pub mod Cli
pub mod CodingAgents
pub mod Worker
pub mod Planner
pub mod CodeReview
pub mod Orchestrator
pub mod Github
pub mod Resolver
pub mod Examples
