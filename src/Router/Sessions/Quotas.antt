-- ===== src/Router/Sessions/Quotas.antt =====
-- What a session may spend before its next turn is refused, and what a new session is bound to.
use openclaw_managed_agents.Prelude.{
  ℕ, ◌+◌, ◌-◌, ◌<◌, String, ◌≡◌, refl, ◌↔◌, Bool, true, false, Option, none, some, arith, eq_refl,
  get_or,
}
use mathlib.Core.Path.{subst}
use openclaw_managed_agents.JsMap
use openclaw_managed_agents.JsMap.{get-set}
use openclaw_managed_agents.Types.{Session}
use openclaw_managed_agents.Types.Agent.{AgentConfig, Quota}
use openclaw_managed_agents.Agents
use openclaw_managed_agents.Sessions
use openclaw_managed_agents.Sessions.{is_inflight}
use openclaw_managed_agents.Router.State.{
  Router, Result, ok, ◌>>=◌, ◌>>◌, throw_if, found, ok_inj, RouterError, quota_exceeded_cost,
  quota_exceeded_tokens, quota_exceeded_duration, agent_not_found, agent_archived, vault_not_found,
}
use openclaw_managed_agents.Router.Sessions.{
  CreateOptions, is_archived, lacks_vault, reaches, within, assert_quota, create_session, stored,
}

-- A limit that is not set is never reached.
abbrev pub IsUnder : Option ℕ → ℕ → Type 0
IsUnder none amount = Unit
IsUnder (some limit) amount = amount < limit

abbrev pub IsAffordable : Option Quota → Session → ℕ → Type 0
IsAffordable none s now = Unit
IsAffordable (some q) s now =
    IsUnder q.max_cost_usd_per_session s.cost_usd
    × IsUnder q.max_tokens_per_session (s.tokens_in + s.tokens_out)
    × IsUnder q.max_wall_duration_ms (now - s.created_at)

reaches-IsUnder : (o : Option ℕ) (a : ℕ) → reaches o a ≡ false ↔ IsUnder o a
reaches-IsUnder none a = ((λ _. tt), λ _. refl)
reaches-IsUnder (some l) a = ((λ e. ground arith), λ h. ground arith)

passes :
    (b : Bool) (e : RouterError) (m : Result (Unit {0}))
    → throw_if b e >> m ≡ ok tt ↔ (b ≡ false × m ≡ ok tt)
passes true e m = ground arith
passes false e m = ground arith

last_passes : (b : Bool) (e : RouterError) → throw_if b e ≡ ok tt ↔ b ≡ false
last_passes true e = ground arith
last_passes false e = ground arith

within_iff :
    (q : Quota) (s : Session) (now : ℕ) → within q s now ≡ ok tt ↔ IsAffordable (some q) s now
within_iff q s now = ground (
  arith,
  passes (reaches q.max_cost_usd_per_session s.cost_usd) quota_exceeded_cost (
      throw_if (reaches q.max_tokens_per_session (s.tokens_in + s.tokens_out)) quota_exceeded_tokens
      >> throw_if (reaches q.max_wall_duration_ms (now - s.created_at)) quota_exceeded_duration),
  passes (reaches q.max_tokens_per_session (s.tokens_in + s.tokens_out)) quota_exceeded_tokens
      (throw_if (reaches q.max_wall_duration_ms (now - s.created_at)) quota_exceeded_duration),
  last_passes (reaches q.max_wall_duration_ms (now - s.created_at)) quota_exceeded_duration,
  reaches-IsUnder q.max_cost_usd_per_session s.cost_usd,
  reaches-IsUnder q.max_tokens_per_session (s.tokens_in + s.tokens_out),
  reaches-IsUnder q.max_wall_duration_ms (now - s.created_at),
)

-- A turn is let through exactly when every limit that the agent's quota sets is above what the session
-- has spent: its cost, its input and output tokens together, and the time since it was created.
pub assert_quota_iff :
    (s : Session) (agent : AgentConfig) (now : ℕ)
    → assert_quota s agent now ≡ ok tt ↔ IsAffordable agent.quota s now
unfolding assert_quota
assert_quota_iff s agent now = go agent.quota
  where
    go :
        (o : Option Quota)
        → ◌≡◌ {A = Result (Unit {0})} (elim o [ none ↦ ok tt | some q ↦ within q s now ]) (ok tt)
          ↔ IsAffordable o s now
    go none = ((λ _. tt), λ _. refl)
    go (some q) = within_iff q s now

-- What the session is bound to, and where it can be found.
abbrev pub IsBound : Router → Router → Session → String → CreateOptions → Type 0
IsBound r r' s agent_id opts =
    s.agent_id ≡ agent_id
    × s.parent_session_id ≡ opts.parent_session_id
    × s.user_id ≡ opts.user_id
    × is_inflight s.status ≡ false
    × JsMap.get r'.sessions s.session_id ≡ some s
    × r'.queue ≡ r.queue
    × r'.tasks ≡ r.tasks

-- A call that creates a session found an agent that is not archived, and the vault that it was given.
abbrev pub IsAllowed : Option AgentConfig → Session → Router → CreateOptions → Type 0
IsAllowed none s r opts = ⊥
IsAllowed (some agent) s r opts =
    is_archived agent ≡ false
    × lacks_vault r opts.vault_id ≡ false
    × s.remaining_subagent_depth ≡ get_or opts.remaining_subagent_depth agent.max_subagent_depth

-- A session that `create_session` returns can be looked up as it is, has no run in flight, and belongs
-- to the agent, the parent and the user that were given; the queue and the tasks stay; the agent
-- exists and is not archived, a vault that was given exists, and the session's subagent depth is the
-- one that was given, or else the agent's.
pub create_session_lem :
    (r : Router) (agent_id : String) (opts : CreateOptions) (fresh : String) (now : ℕ) (s : Session)
    (r' : Router)
    → create_session r agent_id opts fresh now ≡ ok (s, r')
    → IsBound r r' s agent_id opts × IsAllowed (Agents.get r.agents agent_id) s r opts
unfolding create_session Sessions.create
create_session_lem r agent_id opts fresh now s r' e =
    go (Agents.get r.agents agent_id) (lacks_vault r opts.vault_id) e refl
  where
    own : (k : String) (v : Session) → JsMap.get (JsMap.set r.sessions k v) k ≡ some v
    own k v = ground (arith, get-set r.sessions k k v, eq_refl k)

    bound :
        (agent : AgentConfig)
        → IsBound r
            (stored r agent agent_id opts fresh now).1
            (stored r agent agent_id opts fresh now).0
            agent_id
            opts
    bound agent = (refl, refl, refl, refl, own fresh _, refl, refl)

    Claim : AgentConfig → Session × Router → Type 0
    Claim agent y = IsBound r y.1 y.0 agent_id opts × IsAllowed (some agent) y.0 r opts

    last :
        (agent : AgentConfig) (archived : Bool)
        → (throw_if archived agent_archived >> ok (stored r agent agent_id opts fresh now))
          ≡ ok (s, r')
        → is_archived agent ≡ archived
        → lacks_vault r opts.vault_id ≡ false
        → Claim agent (s, r')
    last agent true p a q = ground arith
    last agent false p a q = subst (Claim agent) (ok_inj p) (bound agent, (a, q, refl))

    go :
        (o : Option AgentConfig) (lacks : Bool)
        → (found o agent_not_found >>= λ agent.
            throw_if (is_archived agent) agent_archived
            >> (throw_if lacks vault_not_found >> ok (stored r agent agent_id opts fresh now)))
          ≡ ok (s, r')
        → lacks_vault r opts.vault_id ≡ lacks
        → IsBound r r' s agent_id opts × IsAllowed o s r opts
    go none lacks p q = ground arith
    go (some agent) true p q = ground arith
    go (some agent) false p q = last agent (is_archived agent) p refl q
