-- ===== src/Router/Runs.antt =====
-- The life of a run in src/orchestrator/router.ts. A method that awaits is one function for each
-- stretch of code that runs without a pause: `runEvent` starts a background task, and the task goes on
-- when its container is acquired (`after_acquire`), when its turn is done (`after_turn`), or when it
-- fails (`handle_background_failure`). Between two stretches any other may run.
pub mod Schedule
pub mod Drained
use openclaw_managed_agents.Prelude.{
  ℕ, suc, String, Bool, true, false, not, Option, none, some, [], ◌∷◌, ◌++◌, if◌then◌else◌,
}
use openclaw_managed_agents.JsMap
use openclaw_managed_agents.Types.{Session, QueuedEvent, RunUsage}
use openclaw_managed_agents.Types.Agent.{AgentConfig}
use openclaw_managed_agents.Agents
use openclaw_managed_agents.Sessions
use openclaw_managed_agents.Sessions.{is_inflight}
use openclaw_managed_agents.Sessions.Inflight.{inflight_in}
use openclaw_managed_agents.Queue
use openclaw_managed_agents.Router.Sessions.{assert_quota}
use openclaw_managed_agents.Router.State.{
  Router, Task, acquiring, Result, ok, err, ◌>>=◌, ◌>>◌, throw_if, found, contains, add, remove,
  without_task, advance_task, agent_not_found, session_not_found, session_busy, session_not_running,
  cancel_failed,
}

pub record RunEventArgs : Type 0 where
  pub session_id : String
  pub content : String
  pub model : Option String
  pub thinking_level : Option String
  pub reject_if_busy : Bool

pub record RunEventResult : Type 0 where
  pub session : Option Session
  pub queued : Bool

abbrev pub inflight_at : Router → String → Bool
inflight_at r id = inflight_in r.sessions id

-- `void this.executeInBackground(...)`: a task that first acquires a container.
abbrev pub start_task :
    Router → String → AgentConfig → String → Option String → Option String → Router
start_task r id agent content model thinking_level = record r {
  tasks =
      r.tasks
      ++ record {
        task_id = r.next_task_id;
        session_id = id;
        agent = agent;
        content = content;
        model = model;
        thinking_level = thinking_level;
        phase = acquiring;
      }
        ∷ [];
  next_task_id = suc r.next_task_id;
}

-- The branch for a session that has a run in flight.
abbrev pub queue_event : Router → RunEventArgs → ℕ → Result (RunEventResult × Router)
queue_event r args now =
    if args.reject_if_busy
    then err session_busy
    else (let m = (Sessions.bump_turns r.sessions args.session_id now).1 in
        ok (
          record { session = JsMap.get m args.session_id; queued = true },
          record r {
            queue = Queue.enqueue r.queue args.session_id (record {
              content = args.content;
              model = args.model;
              thinking_level = args.thinking_level;
              enqueued_at = now;
            });
            sessions = m;
          },
        ))

-- The branch for any other session.
abbrev pub begin_event : Router → RunEventArgs → AgentConfig → ℕ → RunEventResult × Router
begin_event r args agent now =
    let m = (Sessions.begin_run r.sessions args.session_id now).1 in
    let m' = (Sessions.bump_turns m args.session_id now).1 in
    (
      record { session = JsMap.get m' args.session_id; queued = false },
      start_task (record r { sessions = m' }) args.session_id agent args.content args.model
          args.thinking_level,
    )

unfoldable pub run_event : Router → RunEventArgs → ℕ → Result (RunEventResult × Router)
run_event r args now = do
  session ← found (JsMap.get r.sessions args.session_id) session_not_found
  agent ← found (Agents.get r.agents session.agent_id) agent_not_found
  assert_quota session agent now
  if is_inflight session.status then queue_event r args now else ok (begin_event r args agent now)

abbrev pub drop_approvals : Router → String → Router
drop_approvals r id = record r { pending_approvals = JsMap.delete r.pending_approvals id }

-- `executeInBackground` from the container on: it stops here if the session was cancelled meanwhile.
unfoldable pub after_acquire : Router → Task → ℕ → Router
after_acquire r t now =
    if contains r.cancelled_during_acquire t.session_id
    then record r {
      cancelled_during_acquire = remove r.cancelled_during_acquire t.session_id;
      tasks = without_task r.tasks t.task_id;
    }
    else record r {
      sessions = (Sessions.mark_running r.sessions t.session_id now).1;
      tasks = advance_task r.tasks t.task_id;
    }

abbrev pub go_on : Router → Task → RunUsage → ℕ → Option QueuedEvent → Router
go_on r t usage now (some next) =
    start_task (record r { sessions = (Sessions.add_usage r.sessions t.session_id usage now).1 })
      t.session_id t.agent next.content next.model next.thinking_level
go_on r t usage now none = record (drop_approvals r t.session_id) {
  sessions = (Sessions.end_run_success r.sessions t.session_id usage now).1;
}

-- The rest of `executeInBackground`, once the usage of the turn is known.
unfoldable pub after_turn : Router → Task → RunUsage → ℕ → Router
after_turn r t usage now =
    let (next, q) = Queue.shift r.queue t.session_id in
    go_on (record r { queue = q; tasks = without_task r.tasks t.task_id }) t usage now next

-- What a failure does to a session that has a run in flight.
abbrev pub fail_session : Router → String → String → ℕ → Router
fail_session r id message now = record (drop_approvals r id) {
  queue = (Queue.clear r.queue id).1;
  evicted = r.evicted ++ id ∷ [];
  sessions = (Sessions.end_run_failure r.sessions id message now).1;
}

unfoldable pub handle_background_failure : Router → Task → String → ℕ → Router
handle_background_failure r t message now =
    let r' = record r {
      cancelled_during_acquire = remove r.cancelled_during_acquire t.session_id;
      tasks = without_task r.tasks t.task_id;
    } in
    if inflight_at r t.session_id then fail_session r' t.session_id message now else r'

-- What the pool has for a session: no client, or one whose `abort` succeeds or fails.
pub data AbortResult : Type 0 where
  no_client aborted abort_failed : AbortResult

abbrev pub cancelled_session : Router → String → ℕ → Option Session × Router
cancelled_session r id now =
    let m = (Sessions.end_run_cancelled r.sessions id now).1 in
    (
      JsMap.get m id,
      record (drop_approvals r id) { queue = (Queue.clear r.queue id).1; sessions = m },
    )

abbrev pub cancel_with : Router → String → AbortResult → ℕ → Result (Option Session × Router)
cancel_with r id no_client now = ok (
    cancelled_session (record r { cancelled_during_acquire = add r.cancelled_during_acquire id }) id
      now)
cancel_with r id aborted now = ok (cancelled_session r id now)
cancel_with r id abort_failed now = err cancel_failed

unfoldable pub cancel : Router → String → AbortResult → ℕ → Result (Option Session × Router)
cancel r id ws now = do
  session ← found (JsMap.get r.sessions id) session_not_found
  throw_if (not (is_inflight session.status)) session_not_running
  cancel_with r id ws now

unfoldable pub dispose_session_runtime : Router → String → Router
dispose_session_runtime r id = record (drop_approvals r id) {
  cancelled_during_acquire = remove r.cancelled_during_acquire id;
  queue = (Queue.clear r.queue id).1;
  evicted = r.evicted ++ id ∷ [];
}

-- What the deletion of a session does behind `disposeSessionRuntime`, which awaits the eviction.
unfoldable pub delete_row : Router → String → Router
delete_row r id = record r { sessions = (Sessions.delete r.sessions id).1 }
