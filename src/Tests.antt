-- ===== src/Tests.antt =====
-- The theorems at concrete inputs, a file for each component.
mod Sessions
mod Queue
mod Agents
mod Vaults
mod Users
mod Audit
mod Access
mod Router
mod Spawn
mod Workspace
mod Tokens
mod Gateway
mod Pool
mod Streams
mod Server
mod EventLog
