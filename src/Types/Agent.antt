-- ===== src/Types/Agent.antt =====
-- src/orchestrator/types.ts: agent templates, the requests that create and change them, and the
-- environments. `JSON.stringify` of two values of one of these types gives the same text exactly if
-- the values are the same, key order included, so that comparison is structural here.
use openclaw_managed_agents.Prelude.{ℕ, String, Bool, Option, List}
use openclaw_managed_agents.Prelude.Eq.{eq_nat, eq_string, eq_bool, eq_list, eq_option, eq_pair}
use openclaw_managed_agents.JsMap.{JsMap}

pub data PermissionPolicy : Type 0 where
  always_allow : PermissionPolicy
  deny : List String → PermissionPolicy
  always_ask : Option (List String) → PermissionPolicy

pub data ThinkingLevel : Type 0 where
  off low medium high xhigh : ThinkingLevel

pub record Quota : Type 0 where
  pub max_cost_usd_per_session : Option ℕ
  pub max_tokens_per_session : Option ℕ
  pub max_wall_duration_ms : Option ℕ

-- The values of `env` are kept as texts, and so are the keys that the schema only passes through.
pub record McpServerConfig : Type 0 where
  pub command : Option String
  pub args : Option (List String)
  pub env : Option (JsMap String)
  pub cwd : Option String
  pub url : Option String
  pub headers : Option (JsMap String)
  pub passthrough : JsMap String

abbrev pub McpServers : Type 0
McpServers = JsMap McpServerConfig

pub record Channels : Type 0 where
  pub telegram_enabled : Bool

pub record AgentConfig : Type 0 where
  pub agent_id : String
  pub model : String
  pub tools : List String
  pub instructions : String
  pub permission_policy : PermissionPolicy
  pub name : Option String
  pub created_at : ℕ
  pub updated_at : ℕ
  pub archived_at : Option ℕ
  pub version : ℕ
  pub callable_agents : List String
  pub max_subagent_depth : ℕ
  pub mcp_servers : McpServers
  pub quota : Option Quota
  pub thinking_level : ThinkingLevel
  pub channels : Channels

pub record CreateAgentRequest : Type 0 where
  pub model : String
  pub tools : List String
  pub instructions : String
  pub permission_policy : PermissionPolicy
  pub name : Option String
  pub callable_agents : List String
  pub max_subagent_depth : ℕ
  pub mcp_servers : McpServers
  pub quota : Option Quota
  pub thinking_level : ThinkingLevel
  pub channels : Channels

-- A field of a patch that is both nullable and optional: left out, null, or a value.
pub data Patch {ℓ} (A : Type ℓ) : Type ℓ where
  absent : Patch A
  null : Patch A
  value : A → Patch A

pub record UpdateAgentRequest : Type 0 where
  pub version : ℕ
  pub model : Option String
  pub tools : Patch (List String)
  pub instructions : Patch String
  pub permission_policy : Option PermissionPolicy
  pub name : Patch String
  pub callable_agents : Patch (List String)
  pub max_subagent_depth : Option ℕ
  pub mcp_servers : Patch McpServers
  pub quota : Patch Quota
  pub thinking_level : Option ThinkingLevel
  pub channels : Option Channels

pub data Networking : Type 0 where
  unrestricted : Networking
  limited : List String → Bool → Bool → Networking

-- The package lists by manager (`pip`, `apt`, ...), those that are given.
abbrev pub Packages : Type 0
Packages = JsMap (List String)

pub record EnvironmentConfig : Type 0 where
  pub environment_id : String
  pub name : String
  pub description : String
  pub packages : Option Packages
  pub networking : Networking
  pub created_at : ℕ
