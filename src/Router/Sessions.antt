-- ===== src/Router/Sessions.antt =====
-- `createSession` and `assertQuota` of src/orchestrator/router.ts.
pub mod Quotas
use openclaw_managed_agents.Prelude.{
  ℕ, ◌+◌, ◌-◌, String, Bool, false, not, ◌&&◌, Option, none, some, leb, nat_eq, str_eq, get_or,
  is_some,
}
use openclaw_managed_agents.JsMap
use openclaw_managed_agents.Types.{Session}
use openclaw_managed_agents.Types.Agent.{AgentConfig, Quota}
use openclaw_managed_agents.Agents
use openclaw_managed_agents.Sessions
use openclaw_managed_agents.Sessions.{CreateArgs}
use openclaw_managed_agents.Vaults
use openclaw_managed_agents.Router.State.{
  Router, Result, ok, ◌>>=◌, ◌>>◌, throw_if, found, agent_not_found, agent_archived,
  vault_not_found, quota_exceeded_cost, quota_exceeded_tokens, quota_exceeded_duration,
}

pub record CreateOptions : Type 0 where
  pub environment_id : Option String
  pub remaining_subagent_depth : Option ℕ
  pub vault_id : Option String
  pub parent_session_id : Option String
  pub user_id : Option String

-- `agent.archivedAt` as a test; a time of 0 counts as none.
abbrev pub is_archived : AgentConfig → Bool
is_archived a = elim a.archived_at [ none ↦ false | some t ↦ not (nat_eq t 0) ]

-- `opts?.vaultId && !this.vaults.getVault(opts.vaultId)`.
abbrev pub lacks_vault : Router → Option String → Bool
lacks_vault r none = false
lacks_vault r (some v) = not (str_eq v "") && not (is_some (Vaults.get_vault r.vaults v))

abbrev pub session_args : AgentConfig → String → CreateOptions → CreateArgs
session_args agent agent_id opts = record {
  agent_id = agent_id;
  session_id = none;
  environment_id = opts.environment_id;
  ephemeral = none;
  remaining_subagent_depth = some (get_or opts.remaining_subagent_depth agent.max_subagent_depth);
  vault_id = opts.vault_id;
  parent_session_id = opts.parent_session_id;
  user_id = opts.user_id;
}

abbrev pub stored : Router → AgentConfig → String → CreateOptions → String → ℕ → Session × Router
stored r agent agent_id opts fresh now =
    let (s, m) = Sessions.create r.sessions (session_args agent agent_id opts) fresh now in
    (s, record r { sessions = m })

-- The session that `create_session` makes, with the store that holds it.
unfoldable pub create_session :
    Router → String → CreateOptions → String → ℕ → Result (Session × Router)
create_session r agent_id opts fresh now = do
  agent ← found (Agents.get r.agents agent_id) agent_not_found
  throw_if (is_archived agent) agent_archived
  throw_if (lacks_vault r opts.vault_id) vault_not_found
  ok (stored r agent agent_id opts fresh now)

-- `limit !== undefined && amount >= limit`.
abbrev pub reaches : Option ℕ → ℕ → Bool
reaches none amount = false
reaches (some limit) amount = leb limit amount

-- `Date.now() - session.createdAt` stops at 0 here; the schema keeps the limit positive.
abbrev pub within : Quota → Session → ℕ → Result (Unit {0})
within q s now = do
  throw_if (reaches q.max_cost_usd_per_session s.cost_usd) quota_exceeded_cost
  throw_if (reaches q.max_tokens_per_session (s.tokens_in + s.tokens_out)) quota_exceeded_tokens
  throw_if (reaches q.max_wall_duration_ms (now - s.created_at)) quota_exceeded_duration

unfoldable pub assert_quota : Session → AgentConfig → ℕ → Result (Unit {0})
assert_quota s agent now = elim agent.quota [ none ↦ ok tt | some q ↦ within q s now ]
