-- ===== src/Types.antt =====
-- src/orchestrator/types.ts and src/store/types.ts: the data that the stores hold. An optional or
-- nullable field is an `Option`; times and token counts are numbers; `costUsd` is counted in the
-- smallest unit that the deployment bills in, so its sums are exact.
pub mod Agent
pub mod Same
pub mod Vault
use openclaw_managed_agents.Prelude.{ℕ, String, Bool, Option}

pub data SessionStatus : Type 0 where
  idle starting running failed : SessionStatus

pub record Session : Type 0 where
  pub session_id : String
  pub agent_id : String
  pub environment_id : Option String
  pub status : SessionStatus
  pub ephemeral : Bool
  pub remaining_subagent_depth : ℕ
  pub turns : ℕ
  pub tokens_in : ℕ
  pub tokens_out : ℕ
  pub cost_usd : ℕ
  pub error : Option String
  pub created_at : ℕ
  pub last_event_at : Option ℕ
  pub vault_id : Option String
  pub parent_session_id : Option String
  pub user_id : Option String

pub record RunUsage : Type 0 where
  pub tokens_in : ℕ
  pub tokens_out : ℕ
  pub cost_usd : ℕ

pub record QueuedEvent : Type 0 where
  pub content : String
  pub model : Option String
  pub thinking_level : Option String
  pub enqueued_at : ℕ
