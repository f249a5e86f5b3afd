-- ===== src/Types/Same.antt =====
-- Comparison of the parts of an agent template, for the `JSON.stringify(a) === JSON.stringify(b)` of
-- src/store/memory.ts.
use openclaw_managed_agents.Prelude.{◌≡◌, ◌↔◌, Bool, true, false, ◌&&◌, arith}
use openclaw_managed_agents.Prelude.Eq.{
  Comparable, ◌==◌, eq_nat, eq_string, eq_bool, eq_list, eq_option, eq_pair,
}
use openclaw_managed_agents.Prelude.Eq.{list_eq_iff, option_eq_iff, bool_eq_iff}
use openclaw_managed_agents.Types.Agent.{
  PermissionPolicy, always_allow, deny, always_ask, ThinkingLevel, off, low, medium, high, xhigh,
  Quota, McpServerConfig, Channels,
}

abbrev pub policy_eq : PermissionPolicy → PermissionPolicy → Bool
policy_eq always_allow always_allow = true
policy_eq (deny xs) (deny ys) = xs == ys
policy_eq (always_ask xs) (always_ask ys) = xs == ys
policy_eq _ _ = false

pub policy_eq_iff : (p q : PermissionPolicy) → (policy_eq p q ≡ true) ↔ (p ≡ q)
policy_eq_iff (deny xs) (deny ys) = ground (arith, list_eq_iff xs ys)
policy_eq_iff (always_ask xs) (always_ask ys) = ground (arith, option_eq_iff xs ys)
policy_eq_iff _ _ = ground arith

instance abbrev pub eq_policy : Comparable PermissionPolicy
eq_policy = record { same = policy_eq; same_iff = policy_eq_iff }

abbrev pub thinking_eq : ThinkingLevel → ThinkingLevel → Bool
thinking_eq off off = true
thinking_eq low low = true
thinking_eq medium medium = true
thinking_eq high high = true
thinking_eq xhigh xhigh = true
thinking_eq _ _ = false

pub thinking_eq_iff : (p q : ThinkingLevel) → (thinking_eq p q ≡ true) ↔ (p ≡ q)
thinking_eq_iff p q = ground arith

instance abbrev pub eq_thinking : Comparable ThinkingLevel
eq_thinking = record { same = thinking_eq; same_iff = thinking_eq_iff }

abbrev pub quota_eq : Quota → Quota → Bool
quota_eq p q =
    p.max_cost_usd_per_session == q.max_cost_usd_per_session
    && (p.max_tokens_per_session == q.max_tokens_per_session
        && p.max_wall_duration_ms == q.max_wall_duration_ms)

pub quota_eq_iff : (p q : Quota) → (quota_eq p q ≡ true) ↔ (p ≡ q)
quota_eq_iff p q = ground (
  arith,
  option_eq_iff p.max_cost_usd_per_session q.max_cost_usd_per_session,
  option_eq_iff p.max_tokens_per_session q.max_tokens_per_session,
  option_eq_iff p.max_wall_duration_ms q.max_wall_duration_ms,
)

instance abbrev pub eq_quota : Comparable Quota
eq_quota = record { same = quota_eq; same_iff = quota_eq_iff }

abbrev pub server_eq : McpServerConfig → McpServerConfig → Bool
server_eq p q =
    p.command == q.command
    && (p.args == q.args
        && (p.env == q.env
            && (p.cwd == q.cwd
                && (p.url == q.url && (p.headers == q.headers && p.passthrough == q.passthrough)))))

pub server_eq_iff : (p q : McpServerConfig) → (server_eq p q ≡ true) ↔ (p ≡ q)
server_eq_iff p q = ground (
  arith,
  option_eq_iff p.command q.command,
  option_eq_iff p.args q.args,
  option_eq_iff p.env q.env,
  option_eq_iff p.cwd q.cwd,
  option_eq_iff p.url q.url,
  option_eq_iff p.headers q.headers,
  list_eq_iff p.passthrough q.passthrough,
)

instance abbrev pub eq_server : Comparable McpServerConfig
eq_server = record { same = server_eq; same_iff = server_eq_iff }

abbrev pub channels_eq : Channels → Channels → Bool
channels_eq p q = p.telegram_enabled == q.telegram_enabled

pub channels_eq_iff : (p q : Channels) → (channels_eq p q ≡ true) ↔ (p ≡ q)
channels_eq_iff p q = ground (arith, bool_eq_iff p.telegram_enabled q.telegram_enabled)

instance abbrev pub eq_channels : Comparable Channels
eq_channels = record { same = channels_eq; same_iff = channels_eq_iff }
