-- ===== src/Fleet.antt =====
-- src/worker_harness/orchestration.py: the sessions of the orchestrator, the project managers and the
-- task agents, with their worktrees and panes. A method is an action on the session tables and the
-- list of the calls that were sent to machines; what a machine answers is a parameter, for each call
-- from the calls before it, and so is what other tasks do to the tables while a method sleeps.
pub mod Action
pub mod Worktrees
pub mod Names
pub mod Sandbox
pub mod Sessions
pub mod Launch
pub mod Traces
pub mod Quiet
pub mod Waits
pub mod Phases
pub mod Stopping
pub mod Managers
pub mod Attempts
pub mod Grammar
pub mod Guards
pub mod Removals
pub mod Retirement
pub mod Rows
pub mod Closing
pub mod Failing
pub mod Fresh
pub mod Examples
pub mod Kept
