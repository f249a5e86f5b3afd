-- ===== src/Tests/Router.antt =====
-- The router at concrete calls.
use openclaw_managed_agents.Prelude.{
  String, ◌≡◌, ◌⊎◌, refl, ◌↔◌, true, false, none, some, List, [], ◌∷◌, str_eq, if◌then◌else◌,
}
use openclaw_managed_agents.JsMap
use openclaw_managed_agents.Types.{Session, RunUsage, SessionStatus, idle, running}
use openclaw_managed_agents.Types.Agent.{AgentConfig, always_allow, off}
use openclaw_managed_agents.Agents
use openclaw_managed_agents.Queue
use openclaw_managed_agents.Sessions
use openclaw_managed_agents.Queue.{queue_of}
use openclaw_managed_agents.Router.State.{Router, PendingApproval, ok}
use openclaw_managed_agents.Router.Sessions.{CreateOptions, assert_quota, stored}
use openclaw_managed_agents.Router.Sessions.Quotas.{IsAffordable, assert_quota_iff}
use openclaw_managed_agents.Router.Runs.{
  RunEventArgs, inflight_at, run_event, after_acquire, after_turn,
}
use openclaw_managed_agents.Router.Runs.Schedule.{Action, posts, acquires, completes, run, step}
use openclaw_managed_agents.Router.Runs.Drained.{run-IsDrained}
use openclaw_managed_agents.Router.Streams.{succeeded, begin_stream, stream_event, finalize}
use openclaw_managed_agents.Router.Streams.Outcome.{stream_event_lem, finalize_lem}
use openclaw_managed_agents.Router.Approvals.Lookup.{
  Change, replaces, upserts, removes, lookup, apply_all, entries, lookup-apply_all,
}

abbrev pub agent : AgentConfig
agent = record {
  agent_id = "a1";
  model = "openai/gpt";
  tools = [];
  instructions = "Be brief.";
  permission_policy = always_allow;
  name = none;
  created_at = 0;
  updated_at = 0;
  archived_at = none;
  version = 1;
  callable_agents = [];
  max_subagent_depth = 1;
  mcp_servers = [];
  quota = some (record {
    max_cost_usd_per_session = some 100;
    max_tokens_per_session = none;
    max_wall_duration_ms = none;
  });
  thinking_level = off;
  channels = record { telegram_enabled = false };
}

abbrev pub session : SessionStatus → Session
session status = record {
  session_id = "s1";
  agent_id = "a1";
  environment_id = none;
  status = status;
  ephemeral = false;
  remaining_subagent_depth = 1;
  turns = 0;
  tokens_in = 0;
  tokens_out = 0;
  cost_usd = 0;
  error = none;
  created_at = 10;
  last_event_at = none;
  vault_id = none;
  parent_session_id = none;
  user_id = none;
}

abbrev pub router : SessionStatus → Router
router status = record {
  agents = record { agents = ("a1", agent) ∷ []; versions = [] };
  environments = [];
  sessions = ("s1", session status) ∷ [];
  queue = [];
  vaults = record { vaults = []; credentials = [] };
  pending_approvals = [];
  cancelled_during_acquire = [];
  tasks = [];
  next_task_id = 0;
  evicted = [];
}

abbrev say : String → RunEventArgs
say content = record {
  session_id = "s1";
  content = content;
  model = none;
  thinking_level = none;
  reject_if_busy = false;
}

abbrev usage : RunUsage
usage = record { tokens_in = 5; tokens_out = 6; cost_usd = 7 }

-- Two events, the second queued behind the first; both turns complete.
abbrev two_turns : List Action
two_turns =
    posts (say "one") 20
    ∷ acquires 0 21
    ∷ posts (say "two") 22
    ∷ completes 0 usage 30
    ∷ acquires 1 31
    ∷ completes 1 usage 40
    ∷ []

run-IsDrained_example : queue_of (run (router idle) two_turns).queue "s1" ≡ []
unfolding run step run_event after_acquire after_turn assert_quota Agents.get JsMap.get JsMap.set
    Queue.enqueue Queue.shift Sessions.begin_run Sessions.bump_turns Sessions.mark_running
    Sessions.add_usage Sessions.end_run_success JsMap.delete
run-IsDrained_example =
    run-IsDrained "s1" (router idle) two_turns (refl, (refl, (refl, (refl, (refl, (refl, tt))))))
      (λ e. refl) ended
  where
    ended : inflight_at (run (router idle) two_turns) "s1" ≡ false
    ended = refl

assert_quota_example :
    assert_quota (session idle) agent 20 ≡ ok tt ↔ IsAffordable agent.quota (session idle) 20
assert_quota_example = assert_quota_iff (session idle) agent 20

abbrev options : CreateOptions
options = record {
  environment_id = none;
  remaining_subagent_depth = some 0;
  vault_id = none;
  parent_session_id = some "s1";
  user_id = none;
}

abbrev made : Session × Router
made = stored (router idle) agent "a1" options "s2" 50

stream_event_example :
    inflight_at (router idle) "s1" ≡ false
    × ((id : String)
        → inflight_at (begin_stream (router idle) "s1" 20).1 id
          ≡ (if str_eq "s1" id then true else inflight_at (router idle) id))
unfolding stream_event JsMap.get Agents.get assert_quota
stream_event_example =
    stream_event_lem (router idle) (say "hello") 20 (begin_stream (router idle) "s1" 20).0
      (begin_stream (router idle) "s1" 20).1 refl

finalize_example :
    ((inflight_at (router running) "s1" ≡ true)
      ⊎ (finalize (router running) "s1" (succeeded usage) 20 ≡ router running))
    × ((finalize (router running) "s1" (succeeded usage) 20).queue ≡ (router running).queue)
    × ((k : String)
        → inflight_at (finalize (router running) "s1" (succeeded usage) 20) k
          ≡ (if str_eq "s1" k then false else inflight_at (router running) k))
    × ((k : String)
        → JsMap.get (finalize (router running) "s1" (succeeded usage) 20).sessions k ≡ (
            if str_eq "s1" k
            then JsMap.get (finalize (router running) "s1" (succeeded usage) 20).sessions "s1"
            else JsMap.get (router running).sessions k))
finalize_example = finalize_lem (router running) "s1" (succeeded usage) 20

abbrev approval : String → String → PendingApproval
approval id tool = record {
  approval_id = id;
  session_id = "s1";
  tool_name = tool;
  tool_call_id = none;
  description = "";
  arrived_at = 5;
}

abbrev changes : List Change
changes =
    replaces "s1" (approval "p1" "bash" ∷ approval "p2" "read" ∷ [])
    ∷ upserts "s1" (approval "p1" "write")
    ∷ removes "s1" "p2"
    ∷ []

lookup-apply_all_example : lookup (apply_all [] changes) "s1" "p1" ≡ entries changes "s1" "p1" none
unfolding JsMap.get
lookup-apply_all_example = lookup-apply_all [] changes "s1" "p1"
