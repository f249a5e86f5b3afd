-- ===== src/Router/Runs/Drained.antt =====
-- The queues of sessions without a run in flight, under each action of Router/Runs/Schedule.
pub mod Stretches
use openclaw_managed_agents.Prelude.{
  ℕ, String, ◌≡◌, refl, true, false, not, Option, none, some, List, [], ◌∷◌, arith, eq_iff,
  if-cases, is_some, Bool, All, str_eq,
}
use openclaw_managed_agents.JsMap
use openclaw_managed_agents.JsMap.{get-delete, get-set}
use openclaw_managed_agents.Types.{Session, RunUsage}
use openclaw_managed_agents.Types.Agent.{AgentConfig}
use openclaw_managed_agents.Sessions
use openclaw_managed_agents.Sessions.{is_inflight}
use openclaw_managed_agents.Sessions.Inflight.{session_inflight, inflight-end_run_cancelled}
use openclaw_managed_agents.Agents
use openclaw_managed_agents.Router.Sessions.{
  assert_quota, CreateOptions, create_session, is_archived, lacks_vault, stored,
}
use openclaw_managed_agents.Queue.{queue_of}
use openclaw_managed_agents.Queue.Fifo.{queue_of-clear}
use openclaw_managed_agents.Router.State.{
  Router, Task, Phase, acquiring, invoking, Result, ok, throw_if, found, task_at, agent_not_found,
  agent_archived, vault_not_found, session_not_found, session_not_running,
}
use openclaw_managed_agents.Router.Runs.{
  RunEventArgs, RunEventResult, queue_event, begin_event, run_event, inflight_at, AbortResult,
  no_client, aborted, abort_failed, cancel, cancel_with, cancelled_session, dispose_session_runtime,
  delete_row,
}
use openclaw_managed_agents.Router.Runs.Schedule.{
  Action, posts, acquires, completes, fails, cancels, ends_cancel, disposes, deletes, creates,
  settle, acquire_at, complete_at, fail_at, step, run, acquire_task, complete_task, settle-bind,
}
use openclaw_managed_agents.Router.State.{add}
use openclaw_managed_agents.Router.Runs.Drained.Stretches.{
  IsDrained, after_acquire-IsDrained, after_turn-IsDrained, handle_background_failure-IsDrained,
  queue_event-IsDrained, begin_event-IsDrained,
}

module _ (id : String) where
  run_event-IsDrained :
      (r : Router) (args : RunEventArgs) (now : ℕ)
      → IsDrained id r
      → IsDrained id (settle r (run_event r args now))
  unfolding run_event
  run_event-IsDrained r args now h =
      settle-bind (IsDrained id) r (found (JsMap.get r.sessions args.session_id) session_not_found)
        _ h
        λ s es.
          settle-bind (IsDrained id) r (found (Agents.get r.agents s.agent_id) agent_not_found) _ h
            λ agent ea. settle-bind (IsDrained id) r (assert_quota s agent now) _ h λ _ _.
              if-cases (λ (x : Result (RunEventResult × Router)). IsDrained id (settle r x))
                (is_inflight s.status) (queue_event r args now) (ok (begin_event r args agent now))
                (λ y. queue_event-IsDrained id r args now (known _ s es y) h)
                (λ n. begin_event-IsDrained id r args agent now (there _ s es) h)
    where
      known :
          (o : Option Session) (s : Session)
          → found o session_not_found ≡ ok s
          → is_inflight s.status ≡ true
          → session_inflight o ≡ true
      known o s e y = ground arith

      there :
          (o : Option Session) (s : Session) → found o session_not_found ≡ ok s → is_some o ≡ true
      there o s e = ground arith

  cancelled-IsDrained :
      (r r' : Router) (k : String) (now : ℕ)
      → r'.sessions ≡ r.sessions
      → r'.queue ≡ r.queue
      → IsDrained id r
      → IsDrained id (cancelled_session r' k now).1
  cancelled-IsDrained r r' k now es eq h p = ground (
    arith,
    h,
    eq_iff k id,
    inflight-end_run_cancelled r'.sessions k id now,
    queue_of-clear r'.queue k id,
  )

  cancel-IsDrained :
      (r : Router) (k : String) (ws : AbortResult) (now : ℕ)
      → IsDrained id r
      → IsDrained id (settle r (cancel r k ws now))
  unfolding cancel
  cancel-IsDrained r k ws now h =
      settle-bind (IsDrained id) r (found (JsMap.get r.sessions k) session_not_found) _ h λ s es.
        settle-bind (IsDrained id) r (throw_if (not (is_inflight s.status)) session_not_running) _ h
          λ _ _. go ws
    where
      go : (w : AbortResult) → IsDrained id (settle r (cancel_with r k w now))
      go no_client =
          cancelled-IsDrained r
            (record r { cancelled_during_acquire = add r.cancelled_during_acquire k }) k now refl
            refl h
      go aborted = cancelled-IsDrained r r k now refl refl h
      go abort_failed = h

  dispose-IsDrained :
      (r : Router) (k : String) → IsDrained id r → IsDrained id (dispose_session_runtime r k)
  unfolding dispose_session_runtime
  dispose-IsDrained r k h p = ground (arith, h, queue_of-clear r.queue k id)

  acquire_at-IsDrained :
      (r : Router) (now : ℕ) (o : Option Task) → IsDrained id r → IsDrained id (acquire_at r now o)
  acquire_at-IsDrained r now none h = h
  acquire_at-IsDrained r now (some t) h = go t.phase
    where
      go : (p : Phase) → IsDrained id (acquire_task r now t p)
      go acquiring = after_acquire-IsDrained id r t now h
      go invoking = h

  complete_at-IsDrained :
      (r : Router) (u : RunUsage) (now : ℕ) (o : Option Task)
      → IsDrained id r
      → IsDrained id (complete_at r u now o)
  complete_at-IsDrained r u now none h = h
  complete_at-IsDrained r u now (some t) h = go t.phase
    where
      go : (p : Phase) → IsDrained id (complete_task r u now t p)
      go acquiring = h
      go invoking = after_turn-IsDrained id r t u now h

  fail_at-IsDrained :
      (r : Router) (message : String) (now : ℕ) (o : Option Task)
      → IsDrained id r
      → IsDrained id (fail_at r message now o)
  fail_at-IsDrained r message now none h = h
  fail_at-IsDrained r message now (some t) h =
      handle_background_failure-IsDrained id r t message now h

  delete-IsDrained :
      (r : Router) (k : String)
      → str_eq k id ≡ false
      → IsDrained id r
      → IsDrained id (delete_row r k)
  unfolding delete_row Sessions.delete
  delete-IsDrained r k n h p = ground (arith, h, n, get-delete r.sessions k id)

  inflight-stored :
      (r : Router) (a : AgentConfig) (agent_id : String) (opts : CreateOptions) (fresh : String)
      (now : ℕ)
      → str_eq fresh id ≡ false
      → inflight_at (stored r a agent_id opts fresh now).1 id ≡ inflight_at r id
  unfolding Sessions.create
  inflight-stored r a agent_id opts fresh now n =
      rw (get-set r.sessions fresh id (stored r a agent_id opts fresh now).0, n) refl

  create_session-IsDrained :
      (r : Router) (agent_id : String) (opts : CreateOptions) (fresh : String) (now : ℕ)
      → str_eq fresh id ≡ false
      → IsDrained id r
      → IsDrained id (settle r (create_session r agent_id opts fresh now))
  unfolding create_session
  create_session-IsDrained r agent_id opts fresh now n h =
      settle-bind (IsDrained id) r (found (Agents.get r.agents agent_id) agent_not_found) _ h
        λ a ea. settle-bind (IsDrained id) r (throw_if (is_archived a) agent_archived) _ h λ _ _.
          settle-bind (IsDrained id) r (throw_if (lacks_vault r opts.vault_id) vault_not_found) _ h
            λ _ _ p. ground (arith, h, n, inflight-stored r a agent_id opts fresh now n)

  -- The calls that neither delete the session nor create it anew.
  abbrev pub spares : Action → Bool
  spares (deletes k) = not (str_eq k id)
  spares (creates agent_id opts fresh now) = not (str_eq fresh id)
  spares _ = true

  step-IsDrained :
      (r : Router) (a : Action) → spares a ≡ true → IsDrained id r → IsDrained id (step r a)
  unfolding step
  step-IsDrained r (posts args now) e h = run_event-IsDrained r args now h
  step-IsDrained r (acquires i now) e h = acquire_at-IsDrained r now (task_at r.tasks i) h
  step-IsDrained r (completes i u now) e h = complete_at-IsDrained r u now (task_at r.tasks i) h
  step-IsDrained r (fails i message now) e h = fail_at-IsDrained r message now (task_at r.tasks i) h
  step-IsDrained r (cancels k ws now) e h = cancel-IsDrained r k ws now h
  step-IsDrained r (ends_cancel k now) e h = cancelled-IsDrained r r k now refl refl h
  step-IsDrained r (disposes k) e h = dispose-IsDrained r k h
  step-IsDrained r (deletes k) e h = delete-IsDrained r k (ground arith) h
  step-IsDrained r (creates agent_id opts fresh now) e h =
      create_session-IsDrained r agent_id opts fresh now (ground arith) h

  run-keeps_IsDrained :
      (r : Router) (as' : List Action)
      → All (λ a. spares a ≡ true) as'
      → IsDrained id r
      → IsDrained id (run r as')
  unfolding run
  run-keeps_IsDrained r [] e h = h
  run-keeps_IsDrained r (a ∷ as') e h =
      run-keeps_IsDrained (step r a) as' e.1 (step-IsDrained r a e.0 h)

  -- Whatever clients post, cancel, dispose, delete and create, and in whatever order the background tasks acquire
  -- their container, complete and fail: a session that has no run in flight has no event waiting, if that is so at
  -- the start and the session is neither deleted nor created anew. Streamed runs are not among the actions.
  pub run-IsDrained :
      (r : Router) (as' : List Action)
      → All (λ a. spares a ≡ true) as'
      → IsDrained id r
      → inflight_at (run r as') id ≡ false
      → queue_of (run r as').queue id ≡ []
  run-IsDrained r as' e h = run-keeps_IsDrained r as' e h
