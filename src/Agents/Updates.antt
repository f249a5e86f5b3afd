-- ===== src/Agents/Updates.antt =====
-- `update` of an agent: when it refuses, when it does nothing, and what it writes.
mod Template
pub use Template.{template, unchanged_iff}
use openclaw_managed_agents.Prelude.{
  ℕ, ◌+◌, String, ◌≡◌, refl, ◌≢◌, inl, inr, Option, none, some, [], ◌∷◌, ◌++◌, ap, get_or, str_eq,
  if◌then◌else◌, arith, eq_refl, nat_eq, Bool-cases,
}
use openclaw_managed_agents.Prelude.Eq.{eq_nat, eq_string, eq_bool, eq_list, eq_option, eq_pair}
use openclaw_managed_agents.JsMap
use openclaw_managed_agents.JsMap.{get-set}
use openclaw_managed_agents.Types.Same.{eq_server, eq_quota, eq_policy, eq_thinking, eq_channels}
use openclaw_managed_agents.Types.Agent.{AgentConfig, UpdateAgentRequest}
use openclaw_managed_agents.Agents.{
  AgentStore, update, updated, patched, patched_option, unchanged, update_current, commit,
}

-- The fields of a template after a request: what the request gives, the empty value where it gives null, and
-- else what was there.
pub record IsPatched (a : AgentConfig) (req : UpdateAgentRequest) (now : ℕ) (b : AgentConfig)
    : Type 0 where
  pub version_is : b.version ≡ req.version + 1
  pub agent_id_is : b.agent_id ≡ a.agent_id
  pub created_at_is : b.created_at ≡ a.created_at
  pub updated_at_is : b.updated_at ≡ now
  pub archived_at_is : b.archived_at ≡ a.archived_at
  pub model_is : b.model ≡ get_or req.model a.model
  pub tools_is : b.tools ≡ patched req.tools [] a.tools
  pub instructions_is : b.instructions ≡ patched req.instructions "" a.instructions
  pub permission_policy_is : b.permission_policy ≡ get_or req.permission_policy a.permission_policy
  pub name_is : b.name ≡ patched_option req.name a.name
  pub callable_agents_is : b.callable_agents ≡ patched req.callable_agents [] a.callable_agents
  pub max_subagent_depth_is :
      b.max_subagent_depth ≡ get_or req.max_subagent_depth a.max_subagent_depth
  pub mcp_servers_is : b.mcp_servers ≡ patched req.mcp_servers [] a.mcp_servers
  pub quota_is : b.quota ≡ patched_option req.quota a.quota
  pub thinking_level_is : b.thinking_level ≡ get_or req.thinking_level a.thinking_level
  pub channels_is : b.channels ≡ get_or req.channels a.channels

-- The store holds the template as the agent's current one and at the end of its history, and every other agent as
-- it was.
pub record IsCommitted (s : AgentStore) (id : String) (b : AgentConfig) (s' : AgentStore)
    : Type 0 where
  pub agents_are :
      (k : String) → JsMap.get s'.agents k ≡ (if str_eq id k then some b else JsMap.get s.agents k)
  pub versions_are :
      (k : String)
      → JsMap.get s'.versions k ≡ (
          if str_eq id k
          then some (get_or (JsMap.get s.versions id) [] ++ b ∷ [])
          else JsMap.get s.versions k)

commit-IsCommitted :
    (s : AgentStore) (id : String) (b : AgentConfig) → IsCommitted s id b (commit s id b)
commit-IsCommitted s id b = record {
  agents_are = λ k. get-set s.agents id k b;
  versions_are = λ k. get-set s.versions id k (get_or (JsMap.get s.versions id) [] ++ b ∷ []);
}

updated-IsPatched :
    (a : AgentConfig) (req : UpdateAgentRequest) (now : ℕ)
    → a.version ≡ req.version
    → IsPatched a req now (updated a req now)
unfolding updated
updated-IsPatched a req now v = record {
  version_is = ap (λ n. n + 1) v;
  agent_id_is = refl;
  created_at_is = refl;
  updated_at_is = refl;
  archived_at_is = refl;
  model_is = refl;
  tools_is = refl;
  instructions_is = refl;
  permission_policy_is = refl;
  name_is = refl;
  callable_agents_is = refl;
  max_subagent_depth_is = refl;
  mcp_servers_is = refl;
  quota_is = refl;
  thinking_level_is = refl;
  channels_is = refl;
}

-- What an update comes to, as a specification.
pub data Outcome (s : AgentStore) (id : String) (req : UpdateAgentRequest) (now : ℕ)
    : Option AgentConfig × AgentStore → Type 0 where
  missing : JsMap.get s.agents id ≡ none → Outcome s id req now (none, s)
  stale :
      (a : AgentConfig)
      → JsMap.get s.agents id ≡ some a
      → a.version ≢ req.version
      → Outcome s id req now (none, s)
  same :
      (a b : AgentConfig)
      → JsMap.get s.agents id ≡ some a
      → a.version ≡ req.version
      → IsPatched a req now b
      → template b ≡ template a
      → Outcome s id req now (some a, s)
  written :
      (a b : AgentConfig) (s' : AgentStore)
      → JsMap.get s.agents id ≡ some a
      → a.version ≡ req.version
      → IsPatched a req now b
      → template b ≢ template a
      → IsCommitted s id b s'
      → Outcome s id req now (some b, s')

update_current-Outcome :
    (s : AgentStore) (id : String) (req : UpdateAgentRequest) (now : ℕ) (o : Option AgentConfig)
    → JsMap.get s.agents id ≡ o
    → Outcome s id req now (update_current s id req now o)
update_current-Outcome s id req now none h = missing h
update_current-Outcome s id req now (some a) h = elim (Bool-cases (nat_eq a.version req.version)) [
  | inr differs ↦ rw differs (stale a h (ground arith))
  | inl agrees ↦ rw agrees (current_version (ground arith))
]
  where
    b : AgentConfig
    b = updated a req now

    current_version :
        a.version ≡ req.version
        → Outcome s id req now (if unchanged b a then (some a, s) else (some b, commit s id b))
    current_version v = elim (Bool-cases (unchanged b a)) [
      | inl u ↦ rw u (same a b h v (updated-IsPatched a req now v) ((unchanged_iff b a).0 u))
      | inr u ↦ rw u (
          written a b (commit s id b) h v (updated-IsPatched a req now v)
            (λ p. cc (u, (unchanged_iff b a).1 p)) (commit-IsCommitted s id b))
    ]

-- An update of an unknown agent or from another version than the current one is refused and writes
-- nothing; one that changes no part of the template returns the current template and writes nothing;
-- any other stores the patched template under the next version, appends it to the history and leaves every other
-- agent as it was.
pub update-Outcome :
    (s : AgentStore) (id : String) (req : UpdateAgentRequest) (now : ℕ)
    → Outcome s id req now (update s id req now)
unfolding update
update-Outcome s id req now = update_current-Outcome s id req now (JsMap.get s.agents id) refl

-- What a first update that changed the template has left.
written_state :
    {s : AgentStore} {id : String} {req : UpdateAgentRequest} {now : ℕ}
    {r : Option AgentConfig × AgentStore} (a b : AgentConfig)
    → Outcome s id req now r
    → JsMap.get s.agents id ≡ some a
    → r.0 ≡ some b
    → template b ≢ template a
    → (JsMap.get r.1.agents id ≡ some b) × (b.version ≡ req.version + 1)
written_state a b (missing h) e p d = cc
written_state a b (stale c h v) e p d = cc
written_state a b (same c _ h v _ t) e p d = absurd (d (cc))
written_state {id = id} a b (written c b' s' h v q t k) e p d =
    ground (arith, k.agents_are id, q.version_is, eq_refl id)

stale_update :
    (s : AgentStore) (id : String) (req : UpdateAgentRequest) (now : ℕ) (b : AgentConfig)
    → JsMap.get s.agents id ≡ some b
    → b.version ≢ req.version
    → (update s id req now).0 ≡ none
unfolding update
stale_update s id req now b e d = rw e (ground arith)

-- Of two updates that start from the same version, once the first has changed the template the
-- second is refused, whatever it asks for: no change is lost.
pub update_twice :
    (s : AgentStore) (id : String) (req other : UpdateAgentRequest) (now later : ℕ)
    (a b : AgentConfig)
    → JsMap.get s.agents id ≡ some a
    → (update s id req now).0 ≡ some b
    → template b ≢ template a
    → other.version ≡ req.version
    → (update (update s id req now).1 id other later).0 ≡ none
update_twice s id req other now later a b e p d v =
    let (there, next) = written_state a b (update-Outcome s id req now) e p d in
    stale_update (update s id req now).1 id other later b there (omega arith)
