-- ===== src/Router/Streams.antt =====
-- `streamEvent` of src/orchestrator/router.ts, by the stretches of code that run without a pause: up to
-- the first await, once the container is there, a failure before the stream is handed out, and the
-- `finalize` that the caller is given. Each is one step here: no other call
-- comes in while `finalize` waits for the log or for an eviction. What the stream relays is not modelled.
pub mod Outcome
use openclaw_managed_agents.Prelude.{ℕ, String, Option, [], ◌∷◌, ◌++◌, if◌then◌else◌}
use openclaw_managed_agents.JsMap
use openclaw_managed_agents.Types.{Session, RunUsage}
use openclaw_managed_agents.Agents
use openclaw_managed_agents.Sessions
use openclaw_managed_agents.Sessions.{is_inflight}
use openclaw_managed_agents.Router.Sessions.{assert_quota}
use openclaw_managed_agents.Router.State.{
  Router, Result, ok, ◌>>=◌, ◌>>◌, throw_if, found, agent_not_found, session_not_found,
  session_busy,
}
use openclaw_managed_agents.Router.Runs.{RunEventArgs, drop_approvals, inflight_at}

-- `beginRun`, then `bumpTurns`, for a session that can stream.
abbrev pub begin_stream : Router → String → ℕ → Option Session × Router
begin_stream r id now =
    let m = (Sessions.begin_run r.sessions id now).1 in
    let m' = (Sessions.bump_turns m id now).1 in (JsMap.get m' id, record r { sessions = m' })

unfoldable pub stream_event : Router → RunEventArgs → ℕ → Result (Option Session × Router)
stream_event r args now = do
  session ← found (JsMap.get r.sessions args.session_id) session_not_found
  agent ← found (Agents.get r.agents session.agent_id) agent_not_found
  throw_if (is_inflight session.status) session_busy
  assert_quota session agent now
  ok (begin_stream r args.session_id now)

unfoldable pub stream_acquired : Router → String → ℕ → Router
stream_acquired r id now = record r { sessions = (Sessions.mark_running r.sessions id now).1 }

-- What both failures of a stream do: one before the stream is handed out, and one that `finalize` is told of.
unfoldable pub stream_failed : Router → String → String → ℕ → Router
stream_failed r id message now = record (drop_approvals r id) {
  evicted = r.evicted ++ id ∷ [];
  sessions = (Sessions.end_run_failure r.sessions id message now).1;
}

pub data StreamOutcome : Type 0 where
  succeeded : RunUsage → StreamOutcome
  failed : String → StreamOutcome

abbrev pub end_stream : Router → String → StreamOutcome → ℕ → Router
end_stream r id (succeeded usage) now = record (drop_approvals r id) {
  sessions = (Sessions.end_run_success r.sessions id usage now).1;
}
end_stream r id (failed message) now = stream_failed r id message now

unfoldable pub finalize : Router → String → StreamOutcome → ℕ → Router
finalize r id outcome now = if inflight_at r id then end_stream r id outcome now else r
