-- ===== src/Router/Streams/Outcome.antt =====
-- When a session can stream, and what the end of a stream leaves behind.
use openclaw_managed_agents.Prelude.{
  ℕ, String, ◌≡◌, ◌⊎◌, inl, inr, refl, Bool, true, false, Option, arith, eq_iff, str_eq,
  if◌then◌else◌, if-cases, is_some,
}
use mathlib.Core.Path.{subst}
use openclaw_managed_agents.JsMap
use openclaw_managed_agents.Types.{Session, RunUsage}
use openclaw_managed_agents.Agents
use openclaw_managed_agents.Sessions
use openclaw_managed_agents.Sessions.{SessionStore, is_inflight}
use openclaw_managed_agents.Sessions.History.{succeeds, fails, step, effect, get-step}
use openclaw_managed_agents.Sessions.Inflight.{
  session_inflight, inflight-begin_run, inflight-bump_turns, inflight-end_run_success,
  inflight-end_run_failure,
}
use openclaw_managed_agents.Router.Sessions.{assert_quota}
use openclaw_managed_agents.Router.State.{
  Router, ok, throw_if, found, bind_ok, ok_inj, agent_not_found, session_not_found, session_busy,
}
use openclaw_managed_agents.Router.Runs.{RunEventArgs, inflight_at}
use openclaw_managed_agents.Router.Streams.{
  StreamOutcome, succeeded, failed, begin_stream, stream_event, stream_failed, end_stream, finalize,
}

-- A stream is opened only for a session that is not in flight; it puts that session in flight, and
-- no other session comes into flight or out of it.
pub stream_event_lem :
    (r : Router) (args : RunEventArgs) (now : ℕ) (s : Option Session) (r' : Router)
    → stream_event r args now ≡ ok (s, r')
    → inflight_at r args.session_id ≡ false
      × ((id : String)
          → inflight_at r' id ≡ (if str_eq args.session_id id then true else inflight_at r id))
unfolding stream_event
stream_event_lem r args now s r' e =
    bind_ok Opens (found (JsMap.get r.sessions args.session_id) session_not_found) _
      (λ t et. bind_ok Opens (found (Agents.get r.agents t.agent_id) agent_not_found) _ λ agent ea.
        bind_ok Opens (throw_if (is_inflight t.status) session_busy) _ λ _ n.
          bind_ok Opens (assert_quota t agent now) _ λ _ q b p.
            subst Opens (ok_inj p) (idle_before _ t et (passed _ n), opened (there _ t et)))
      (s, r') e
  where
    Opens : Option Session × Router → Type 0
    Opens b =
        inflight_at r args.session_id ≡ false
        × ((id : String)
            → inflight_at b.1 id ≡ (if str_eq args.session_id id then true else inflight_at r id))

    passed : (b : Bool) → throw_if b session_busy ≡ ok tt → b ≡ false
    passed true e = ground arith
    passed false e = refl

    idle_before :
        (o : Option Session) (t : Session)
        → found o session_not_found ≡ ok t
        → is_inflight t.status ≡ false
        → session_inflight o ≡ false
    idle_before o t e n = ground arith

    there : (o : Option Session) (t : Session) → found o session_not_found ≡ ok t → is_some o ≡ true
    there o t e = ground arith

    opened :
        is_some (JsMap.get r.sessions args.session_id) ≡ true
        → (id : String)
        → inflight_at (begin_stream r args.session_id now).1 id
          ≡ (if str_eq args.session_id id then true else inflight_at r id)
    opened h id = ground (
      arith,
      eq_iff args.session_id id,
      inflight-begin_run r.sessions args.session_id id now,
      inflight-bump_turns (Sessions.begin_run r.sessions args.session_id now).1 args.session_id id
          now,
    )

-- A run that ends writes its own session only.
get-end_run_success :
    (m : SessionStore) (id k : String) (now : ℕ) (u : RunUsage)
    → JsMap.get (Sessions.end_run_success m id u now).1 k ≡ (
        if str_eq id k then JsMap.get (Sessions.end_run_success m id u now).1 id else JsMap.get m k)
unfolding step effect
get-end_run_success m id k now u = ground (arith, eq_iff id k, get-step m (succeeds id u now) k)

get-end_run_failure :
    (m : SessionStore) (id k : String) (now : ℕ) (e : String)
    → JsMap.get (Sessions.end_run_failure m id e now).1 k ≡ (
        if str_eq id k then JsMap.get (Sessions.end_run_failure m id e now).1 id else JsMap.get m k)
unfolding step effect
get-end_run_failure m id k now e = ground (arith, eq_iff id k, get-step m (fails id e now) k)

-- The end of a stream changes nothing unless its session is in flight. In either case the session is not in
-- flight afterwards, every other session is as it was, and the events that were queued while it streamed stay in
-- the queue.
pub finalize_lem :
    (r : Router) (id : String) (o : StreamOutcome) (now : ℕ)
    → ((inflight_at r id ≡ true) ⊎ (finalize r id o now ≡ r))
      × (finalize r id o now).queue ≡ r.queue
      × ((k : String)
          → inflight_at (finalize r id o now) k ≡ (if str_eq id k then false else inflight_at r k))
      × ((k : String)
          → JsMap.get (finalize r id o now).sessions k ≡ (
              if str_eq id k
              then JsMap.get (finalize r id o now).sessions id
              else JsMap.get r.sessions k))
unfolding finalize stream_failed
finalize_lem r id o now =
    if-cases Ends (inflight_at r id) (end_stream r id o now) r
      (λ y. let (queued, flights, others) = ended o in (inl y, queued, flights, others))
      (λ n. (inr refl, refl, unchanged n, same))
  where
    IsEnded : Router → Type 0
    IsEnded r' =
        r'.queue ≡ r.queue
        × ((k : String) → inflight_at r' k ≡ (if str_eq id k then false else inflight_at r k))
        × ((k : String)
            → JsMap.get r'.sessions k
              ≡ (if str_eq id k then JsMap.get r'.sessions id else JsMap.get r.sessions k))

    Ends : Router → Type 0
    Ends r' =
        ((inflight_at r id ≡ true) ⊎ (r' ≡ r))
        × (r'.queue ≡ r.queue)
        × ((k : String) → inflight_at r' k ≡ (if str_eq id k then false else inflight_at r k))
        × ((k : String)
            → JsMap.get r'.sessions k
              ≡ (if str_eq id k then JsMap.get r'.sessions id else JsMap.get r.sessions k))

    ended : (o' : StreamOutcome) → IsEnded (end_stream r id o' now)
    ended (succeeded u) = (
      refl,
      λ k. inflight-end_run_success r.sessions id k now u,
      λ k. get-end_run_success r.sessions id k now u,
    )
    ended (failed m) = (
      refl,
      λ k. inflight-end_run_failure r.sessions id k now m,
      λ k. get-end_run_failure r.sessions id k now m,
    )

    same :
        (k : String)
        → JsMap.get r.sessions k
          ≡ (if str_eq id k then JsMap.get r.sessions id else JsMap.get r.sessions k)
    same k = ground (arith, eq_iff id k)

    unchanged :
        inflight_at r id ≡ false
        → (k : String) → inflight_at r k ≡ (if str_eq id k then false else inflight_at r k)
    unchanged n k = ground (arith, eq_iff id k)
