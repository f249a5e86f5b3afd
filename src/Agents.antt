-- ===== src/Agents.antt =====
-- src/store/memory.ts, `InMemoryAgentStore`: the current template of each agent, and the copies that
-- were kept of every version. A method takes the time that `Date.now()` returns and the identifier
-- that `nanoid()` draws; one that writes returns its result and the new store.
pub mod Updates
pub mod Versions
use openclaw_managed_agents.Prelude.{
  every, ℕ, ◌+◌, String, Bool, not, Option, none, some, List, [], ◌∷◌, ◌++◌, nat_eq, if◌then◌else◌,
  get_or,
}
use openclaw_managed_agents.Prelude.Eq.{
  ◌==◌, eq_nat, eq_string, eq_bool, eq_list, eq_option, eq_pair,
}
use openclaw_managed_agents.Types.Same.{eq_policy, eq_thinking, eq_quota, eq_server, eq_channels}
use openclaw_managed_agents.JsMap
use openclaw_managed_agents.JsMap.{JsMap}
use openclaw_managed_agents.Types.Agent.{
  AgentConfig, CreateAgentRequest, UpdateAgentRequest, Patch, absent, null, value,
}

pub record AgentStore : Type 0 where
  pub agents : JsMap AgentConfig
  pub versions : JsMap (List AgentConfig)

abbrev pub new_agent : CreateAgentRequest → String → ℕ → AgentConfig
new_agent req agent_id now = record {
  agent_id = agent_id;
  model = req.model;
  tools = req.tools;
  instructions = req.instructions;
  permission_policy = req.permission_policy;
  name = req.name;
  created_at = now;
  updated_at = now;
  archived_at = none;
  version = 1;
  callable_agents = req.callable_agents;
  max_subagent_depth = req.max_subagent_depth;
  mcp_servers = req.mcp_servers;
  quota = req.quota;
  thinking_level = req.thinking_level;
  channels = req.channels;
}

-- `agent_id` is `agt_${nanoid()}`.
unfoldable pub create : AgentStore → CreateAgentRequest → String → ℕ → AgentConfig × AgentStore
create s req agent_id now =
    let agent = new_agent req agent_id now in
    (
      agent,
      record {
        agents = JsMap.set s.agents agent_id agent;
        versions = JsMap.set s.versions agent_id (agent ∷ []);
      },
    )

unfoldable pub get : AgentStore → String → Option AgentConfig
get s agent_id = JsMap.get s.agents agent_id

unfoldable pub list : AgentStore → List AgentConfig
list s = JsMap.values s.agents

unfoldable pub delete : AgentStore → String → Bool × AgentStore
delete s agent_id = (
  JsMap.has s.agents agent_id,
  record { agents = JsMap.delete s.agents agent_id; versions = JsMap.delete s.versions agent_id },
)

-- `p === null ? cleared : (p ?? current)`.
abbrev pub patched {ℓ} : {A : Type ℓ} → Patch A → A → A → A
patched absent cleared current = current
patched null cleared current = cleared
patched (value a) cleared current = a

abbrev pub patched_option {ℓ} : {A : Type ℓ} → Patch A → Option A → Option A
patched_option absent current = current
patched_option null current = none
patched_option (value a) current = some a

unfoldable pub updated : AgentConfig → UpdateAgentRequest → ℕ → AgentConfig
updated current req now = record {
  agent_id = current.agent_id;
  model = get_or req.model current.model;
  tools = patched req.tools [] current.tools;
  instructions = patched req.instructions "" current.instructions;
  permission_policy = get_or req.permission_policy current.permission_policy;
  name = patched_option req.name current.name;
  created_at = current.created_at;
  updated_at = now;
  archived_at = current.archived_at;
  version = current.version + 1;
  callable_agents = patched req.callable_agents [] current.callable_agents;
  max_subagent_depth = get_or req.max_subagent_depth current.max_subagent_depth;
  mcp_servers = patched req.mcp_servers [] current.mcp_servers;
  quota = patched_option req.quota current.quota;
  thinking_level = get_or req.thinking_level current.thinking_level;
  channels = get_or req.channels current.channels;
}

abbrev pub comparisons : AgentConfig → AgentConfig → List Bool
comparisons a b =
    (a.model == b.model)
    ∷ (a.tools == b.tools)
    ∷ (a.instructions == b.instructions)
    ∷ (a.permission_policy == b.permission_policy)
    ∷ (a.name == b.name)
    ∷ (a.callable_agents == b.callable_agents)
    ∷ (a.max_subagent_depth == b.max_subagent_depth)
    ∷ (a.mcp_servers == b.mcp_servers)
    ∷ (a.quota == b.quota)
    ∷ (a.thinking_level == b.thinking_level)
    ∷ (a.channels == b.channels)
    ∷ []

-- The test under which `update` returns the current template and writes nothing.
unfoldable pub unchanged : AgentConfig → AgentConfig → Bool
unchanged a b = every (comparisons a b)

abbrev pub commit : AgentStore → String → AgentConfig → AgentStore
commit s agent_id a = record {
  agents = JsMap.set s.agents agent_id a;
  versions = JsMap.set s.versions agent_id (get_or (JsMap.get s.versions agent_id) [] ++ a ∷ []);
}

abbrev pub update_current :
    AgentStore
    → String
    → UpdateAgentRequest
    → ℕ
    → Option AgentConfig
    → Option AgentConfig × AgentStore
update_current s agent_id req now none = (none, s)
update_current s agent_id req now (some current) =
    let a = updated current req now in
    if not (nat_eq current.version req.version)
    then (none, s)
    else if unchanged a current
    then (some current, s)
    else (some a, commit s agent_id a)

unfoldable pub update :
    AgentStore → String → UpdateAgentRequest → ℕ → Option AgentConfig × AgentStore
update s agent_id req now = update_current s agent_id req now (JsMap.get s.agents agent_id)

unfoldable pub list_versions : AgentStore → String → List AgentConfig
list_versions s agent_id = get_or (JsMap.get s.versions agent_id) []

abbrev pub archive_current :
    AgentStore → String → ℕ → ℕ → Option AgentConfig → Option AgentConfig × AgentStore
archive_current s agent_id archived_at updated_at none = (none, s)
archive_current s agent_id archived_at updated_at (some current) =
    let a : AgentConfig = record current {
      archived_at = some archived_at;
      updated_at = updated_at;
    } in
    (some a, record s { agents = JsMap.set s.agents agent_id a })

-- The source reads the clock twice.
unfoldable pub archive : AgentStore → String → ℕ → ℕ → Option AgentConfig × AgentStore
archive s agent_id archived_at updated_at =
    archive_current s agent_id archived_at updated_at (JsMap.get s.agents agent_id)
