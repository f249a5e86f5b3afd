-- ===== src/Agents/Updates/Template.antt =====
-- The comparison of templates in `update`.
use openclaw_managed_agents.Prelude.{
  every_sound, every_complete, ◌≡◌, ◌↔◌, true, eq_iff, nat_eq_iff,
}
use openclaw_managed_agents.Prelude.Eq.{eq_nat, eq_string, eq_bool, eq_list, eq_option, eq_pair}
use openclaw_managed_agents.Prelude.Eq.{list_eq_iff, option_eq_iff}
use openclaw_managed_agents.Types.Same.{
  policy_eq_iff, thinking_eq_iff, channels_eq_iff, eq_server, eq_quota, eq_policy, eq_thinking,
  eq_channels,
}
use openclaw_managed_agents.Types.Agent.{AgentConfig, CreateAgentRequest}
use openclaw_managed_agents.Agents.{unchanged, comparisons}

-- The part of a template that its author writes.
abbrev pub template : AgentConfig → CreateAgentRequest
template a = record {
  model = a.model;
  tools = a.tools;
  instructions = a.instructions;
  permission_policy = a.permission_policy;
  name = a.name;
  callable_agents = a.callable_agents;
  max_subagent_depth = a.max_subagent_depth;
  mcp_servers = a.mcp_servers;
  quota = a.quota;
  thinking_level = a.thinking_level;
  channels = a.channels;
}

unchanged_sound : (a b : AgentConfig) → unchanged a b ≡ true → template a ≡ template b
unfolding unchanged
unchanged_sound a b h =
    let t = every_sound (comparisons a b) h in
    λ i. record {
      model = (eq_iff a.model b.model).0 t.0 i;
      tools = (list_eq_iff a.tools b.tools).0 t.1.0 i;
      instructions = (eq_iff a.instructions b.instructions).0 t.1.1.0 i;
      permission_policy = (policy_eq_iff a.permission_policy b.permission_policy).0 t.1.1.1.0 i;
      name = (option_eq_iff a.name b.name).0 t.1.1.1.1.0 i;
      callable_agents = (list_eq_iff a.callable_agents b.callable_agents).0 t.1.1.1.1.1.0 i;
      max_subagent_depth =
          (nat_eq_iff a.max_subagent_depth b.max_subagent_depth).0 t.1.1.1.1.1.1.0 i;
      mcp_servers = (list_eq_iff a.mcp_servers b.mcp_servers).0 t.1.1.1.1.1.1.1.0 i;
      quota = (option_eq_iff a.quota b.quota).0 t.1.1.1.1.1.1.1.1.0 i;
      thinking_level =
          (thinking_eq_iff a.thinking_level b.thinking_level).0 t.1.1.1.1.1.1.1.1.1.0 i;
      channels = (channels_eq_iff a.channels b.channels).0 t.1.1.1.1.1.1.1.1.1.1.0 i;
    }

unchanged_complete : (a b : AgentConfig) → template a ≡ template b → unchanged a b ≡ true
unfolding unchanged
unchanged_complete a b h = every_complete (comparisons a b) (
  (eq_iff a.model b.model).1 (λ i. (h i).model),
  (
    (list_eq_iff a.tools b.tools).1 (λ i. (h i).tools),
    (
      (eq_iff a.instructions b.instructions).1 (λ i. (h i).instructions),
      (
        (policy_eq_iff a.permission_policy b.permission_policy).1 (λ i. (h i).permission_policy),
        (
          (option_eq_iff a.name b.name).1 (λ i. (h i).name),
          (
            (list_eq_iff a.callable_agents b.callable_agents).1 (λ i. (h i).callable_agents),
            (
              (nat_eq_iff a.max_subagent_depth b.max_subagent_depth).1
                  (λ i. (h i).max_subagent_depth),
              (
                (list_eq_iff a.mcp_servers b.mcp_servers).1 (λ i. (h i).mcp_servers),
                (
                  (option_eq_iff a.quota b.quota).1 (λ i. (h i).quota),
                  (
                    (thinking_eq_iff a.thinking_level b.thinking_level).1
                        (λ i. (h i).thinking_level),
                    ((channels_eq_iff a.channels b.channels).1 (λ i. (h i).channels), tt),
                  ),
                ),
              ),
            ),
          ),
        ),
      ),
    ),
  ),
)

pub unchanged_iff : (a b : AgentConfig) → (unchanged a b ≡ true) ↔ (template a ≡ template b)
unchanged_iff a b = (unchanged_sound a b, unchanged_complete a b)
