-- ===== src/Router/Runs/Drained/Stretches.antt =====
-- What the stretches of a background run do to the queue of one session.
use openclaw_managed_agents.Prelude.{ℕ, String, ◌≡◌, true, false, [], arith, eq_iff, is_some}
use openclaw_managed_agents.JsMap
use openclaw_managed_agents.Types.{RunUsage}
use openclaw_managed_agents.Types.Agent.{AgentConfig}
use openclaw_managed_agents.Sessions
use openclaw_managed_agents.Sessions.Inflight.{
  inflight-begin_run, inflight-mark_running, inflight-end_run_success, inflight-end_run_failure,
  inflight-add_usage, inflight-bump_turns,
}
use openclaw_managed_agents.Queue.{queue_of}
use openclaw_managed_agents.Queue.Fifo.{
  queue_of-enqueue, queue_of-shift, queue_of-clear, reply-shift,
}
use openclaw_managed_agents.Router.State.{Router, Task}
use openclaw_managed_agents.Router.Runs.{
  RunEventArgs, queue_event, begin_event, inflight_at, after_acquire, after_turn,
  handle_background_failure,
}
use openclaw_managed_agents.Router.Runs.Schedule.{settle}

module _ (id : String) where
  -- For the session `id`.
  abbrev pub IsDrained : Router → Type 0
  IsDrained r = inflight_at r id ≡ false → queue_of r.queue id ≡ []

  pub after_acquire-IsDrained :
      (r : Router) (t : Task) (now : ℕ) → IsDrained r → IsDrained (after_acquire r t now)
  unfolding after_acquire
  after_acquire-IsDrained r t now h p =
      ground (arith, h, inflight-mark_running r.sessions t.session_id id now)

  pub after_turn-IsDrained :
      (r : Router) (t : Task) (u : RunUsage) (now : ℕ)
      → IsDrained r
      → IsDrained (after_turn r t u now)
  unfolding after_turn
  after_turn-IsDrained r t u now h p = ground (
    arith,
    h,
    eq_iff t.session_id id,
    inflight-add_usage r.sessions t.session_id id now u,
    inflight-end_run_success r.sessions t.session_id id now u,
    queue_of-shift r.queue t.session_id id,
    reply-shift r.queue t.session_id,
  )

  pub handle_background_failure-IsDrained :
      (r : Router) (t : Task) (message : String) (now : ℕ)
      → IsDrained r
      → IsDrained (handle_background_failure r t message now)
  unfolding handle_background_failure
  handle_background_failure-IsDrained r t message now h p = ground (
    arith,
    h,
    eq_iff t.session_id id,
    inflight-end_run_failure r.sessions t.session_id id now message,
    queue_of-clear r.queue t.session_id id,
  )

  pub queue_event-IsDrained :
      (r : Router) (args : RunEventArgs) (now : ℕ)
      → inflight_at r args.session_id ≡ true
      → IsDrained r
      → IsDrained (settle r (queue_event r args now))
  queue_event-IsDrained r args now f h p = ground (
    arith,
    h,
    eq_iff args.session_id id,
    inflight-bump_turns r.sessions args.session_id id now,
    queue_of-enqueue r.queue args.session_id id (record {
      content = args.content;
      model = args.model;
      thinking_level = args.thinking_level;
      enqueued_at = now;
    }),
  )

  pub begin_event-IsDrained :
      (r : Router) (args : RunEventArgs) (agent : AgentConfig) (now : ℕ)
      → is_some (JsMap.get r.sessions args.session_id) ≡ true
      → IsDrained r
      → IsDrained (begin_event r args agent now).1
  begin_event-IsDrained r args agent now s h p = ground (
    arith,
    h,
    eq_iff args.session_id id,
    inflight-begin_run r.sessions args.session_id id now,
    inflight-bump_turns (Sessions.begin_run r.sessions args.session_id now).1 args.session_id id
        now,
  )
