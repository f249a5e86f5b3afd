-- ===== src/Tests/Agents.antt =====
-- The agent store at concrete requests.
use openclaw_managed_agents.Prelude.{
  ℕ, ◌≡◌, ◌≢◌, Option, String, ap, arith, refl, false, none, some, [], ◌∷◌,
}
use openclaw_managed_agents.JsMap
use openclaw_managed_agents.Types.Agent.{
  CreateAgentRequest, UpdateAgentRequest, always_allow, off, absent, value,
}
use openclaw_managed_agents.Agents
use openclaw_managed_agents.Agents.{AgentStore, update, list_versions}
use openclaw_managed_agents.Agents.Updates.{Outcome, template, update-Outcome, update_twice}
use openclaw_managed_agents.Agents.Versions.{
  creates, updates, IsVersioned, run, run-IsVersioned, Extends, run-Extends,
}

abbrev asked : CreateAgentRequest
asked = record {
  model = "openai/gpt";
  tools = [];
  instructions = "Be brief.";
  permission_policy = always_allow;
  name = none;
  callable_agents = [];
  max_subagent_depth = 1;
  mcp_servers = [];
  quota = none;
  thinking_level = off;
  channels = record { telegram_enabled = false };
}

abbrev rename : ℕ → UpdateAgentRequest
rename version = record {
  version = version;
  model = some "openai/other";
  tools = absent;
  instructions = absent;
  permission_policy = none;
  name = value "Scout";
  callable_agents = absent;
  max_subagent_depth = none;
  mcp_servers = absent;
  quota = absent;
  thinking_level = none;
  channels = none;
}

abbrev empty_store : AgentStore
empty_store = record { agents = []; versions = [] }

abbrev one_agent : AgentStore
one_agent = record {
  agents = ("a1", Agents.new_agent asked "a1" 10) ∷ [];
  versions = ("a1", Agents.new_agent asked "a1" 10 ∷ []) ∷ [];
}

update-Outcome_example : Outcome one_agent "a1" (rename 1) 20 (update one_agent "a1" (rename 1) 20)
update-Outcome_example = update-Outcome one_agent "a1" (rename 1) 20

run-IsVersioned_example :
    IsVersioned (run empty_store (creates asked "a1" 10 ∷ updates "a1" (rename 1) 20 ∷ []))
unfolding JsMap.get
run-IsVersioned_example =
    run-IsVersioned empty_store (creates asked "a1" 10 ∷ updates "a1" (rename 1) 20 ∷ []) (λ id. tt)

update_twice_example : (update (update one_agent "a1" (rename 1) 20).1 "a1" (rename 1) 30).0 ≡ none
unfolding update JsMap.get JsMap.set Agents.updated Agents.unchanged
update_twice_example =
    update_twice one_agent "a1" (rename 1) (rename 1) 20 30 (Agents.new_agent asked "a1" 10)
      (Agents.updated (Agents.new_agent asked "a1" 10) (rename 1) 20) refl refl renamed refl
  where
    named : ◌≡◌ {A = Option String} (some "Scout") none → ⊥
    named e = ground arith

    renamed :
        template (Agents.updated (Agents.new_agent asked "a1" 10) (rename 1) 20)
        ≢ template (Agents.new_agent asked "a1" 10)
    renamed e = named (ap (λ (t : CreateAgentRequest). t.name) e)

run-Extends_example :
    Extends
      (list_versions one_agent "a1")
      (list_versions (run one_agent (updates "a1" (rename 1) 20 ∷ [])) "a1")
run-Extends_example = run-Extends one_agent (updates "a1" (rename 1) 20 ∷ []) "a1" (refl, tt)
