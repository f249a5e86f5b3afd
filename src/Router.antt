-- ===== src/Router.antt =====
-- src/orchestrator/router.ts, `AgentRouter`, in parts: its state, the making of a session, the life of a
-- run, streamed runs, tool approvals, and the credentials of a spawn, and
-- workspace paths.
pub mod State
pub mod Sessions
pub mod Runs
pub mod Streams
pub mod Approvals
pub mod Spawn
pub mod Workspace
