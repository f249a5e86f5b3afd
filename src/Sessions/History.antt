-- ===== src/Sessions/History.antt =====
-- The calls of `SessionStore` (src/store/types.ts) as data, a history of them run against the store,
-- and the same calls as seen by one session: a state machine that knows nothing of the map.
use openclaw_managed_agents.JsMap
use openclaw_managed_agents.JsMap.{map_laws}
use openclaw_managed_agents.Prelude.{
  ℕ, ◌+◌, String, ◌≡◌, Option, none, some, List, [], ◌∷◌, arith, eq_iff, get_or, str_eq,
  if◌then◌else◌, refl, false, ◌∙◌, ap,
}
use openclaw_managed_agents.Types.{
  Session, SessionStatus, idle, starting, running, failed, RunUsage,
}
use openclaw_managed_agents.Sessions.{
  SessionStore, CreateArgs, create, delete, begin_run, mark_running, end_run_success,
  end_run_failure, end_run_cancelled, add_usage, bump_turns, fail_running_sessions, is_inflight,
  write,
}

pub data Call : Type 0 where
  creates : CreateArgs → String → ℕ → Call
  deletes : String → Call
  begins : String → ℕ → Call
  marks_running : String → ℕ → Call
  succeeds : String → RunUsage → ℕ → Call
  fails : String → String → ℕ → Call
  cancels : String → ℕ → Call
  adds_usage : String → RunUsage → ℕ → Call
  bumps_turns : String → ℕ → Call
  fails_running : String → ℕ → Call

unfoldable pub step : SessionStore → Call → SessionStore
step m (creates args fresh now) = (create m args fresh now).1
step m (deletes k) = (delete m k).1
step m (begins k now) = (begin_run m k now).1
step m (marks_running k now) = (mark_running m k now).1
step m (succeeds k usage now) = (end_run_success m k usage now).1
step m (fails k error now) = (end_run_failure m k error now).1
step m (cancels k now) = (end_run_cancelled m k now).1
step m (adds_usage k usage now) = (add_usage m k usage now).1
step m (bumps_turns k now) = (bump_turns m k now).1
step m (fails_running reason now) = (fail_running_sessions m reason now).1

unfoldable pub run : SessionStore → List Call → SessionStore
run m [] = m
run m (c ∷ cs) = run (step m c) cs

-- A session that enters a status, with the error that goes with it.
abbrev enter : SessionStatus → Option String → ℕ → Session → Session
enter status error now s = record s { status = status; error = error; last_event_at = some now }

-- A session that is charged for a turn.
abbrev charge : RunUsage → ℕ → Session → Session
charge u now s = record s {
  tokens_in = s.tokens_in + u.tokens_in;
  tokens_out = s.tokens_out + u.tokens_out;
  cost_usd = s.cost_usd + u.cost_usd;
  last_event_at = some now;
}

abbrev born : CreateArgs → String → ℕ → Session
born args id now = record {
  session_id = id;
  agent_id = args.agent_id;
  environment_id = args.environment_id;
  status = idle;
  ephemeral = get_or args.ephemeral false;
  remaining_subagent_depth = get_or args.remaining_subagent_depth 0;
  turns = 0;
  tokens_in = 0;
  tokens_out = 0;
  cost_usd = 0;
  error = none;
  created_at = now;
  last_event_at = none;
  vault_id = args.vault_id;
  parent_session_id = args.parent_session_id;
  user_id = args.user_id;
}

abbrev when_there : (Session → Session) → Option Session → Option Session
when_there f none = none
when_there f (some s) = some (f s)

abbrev at_key : String → String → (Session → Session) → Option Session → Option Session
at_key k id f o = if str_eq k id then when_there f o else o

-- One call as the session `id` sees it.
unfoldable pub effect : Call → String → Option Session → Option Session
effect (creates args fresh now) id o =
    let k = get_or args.session_id fresh in if str_eq k id then some (born args k now) else o
effect (deletes k) id o = if str_eq k id then none else o
effect (begins k now) id o = at_key k id (enter starting none now) o
effect (marks_running k now) id o = at_key k id (enter running none now) o
effect (succeeds k u now) id o = at_key k id (λ s. record (charge u now s) { status = idle }) o
effect (fails k error now) id o = at_key k id (enter failed (some error) now) o
effect (cancels k now) id o = at_key k id (enter idle none now) o
effect (adds_usage k u now) id o = at_key k id (charge u now) o
effect (bumps_turns k now) id o =
    at_key k id (λ s. record s { turns = s.turns + 1; last_event_at = some now }) o
effect (fails_running reason now) id o =
    when_there (λ s. if is_inflight s.status then enter failed (some reason) now s else s) o

unfoldable pub effects : List Call → String → Option Session → Option Session
effects [] id o = o
effects (c ∷ cs) id o = effects cs id (effect c id o)

get-fail_running_sessions :
    (m : SessionStore) (reason : String) (now : ℕ) (id : String)
    → JsMap.get (fail_running_sessions m reason now).1 id
      ≡ effect (fails_running reason now) id (JsMap.get m id)
unfolding fail_running_sessions JsMap.get effect
get-fail_running_sessions [] reason now id = refl
get-fail_running_sessions ((k, s) ∷ m) reason now id =
    ground (arith, get-fail_running_sessions m reason now id)

-- A write in place, or its absence, as the session `id` sees it.
get-write :
    (m : SessionStore) (k id : String) (f : Session → Session) (o : Option Session)
    → JsMap.get m k ≡ o
    → JsMap.get (write m k f o).1 id ≡ at_key k id f (JsMap.get m id)
get-write m k id f none h = ground (arith, eq_iff k id, h)
get-write m k id f (some s) h = simp map_laws (ground (arith, eq_iff k id, h))

-- After any call the store holds of each session what that session's state machine makes of it, and
-- every other session is as it was.
pub get-step :
    (m : SessionStore) (c : Call) (id : String)
    → JsMap.get (step m c) id ≡ effect c id (JsMap.get m id)
unfolding step effect create delete begin_run mark_running end_run_success end_run_failure
    end_run_cancelled add_usage bump_turns
get-step m (creates args fresh now) id = simp map_laws
get-step m (deletes k) id = simp map_laws
get-step m (begins k now) id = get-write m k id _ (JsMap.get m k) refl
get-step m (marks_running k now) id = get-write m k id _ (JsMap.get m k) refl
get-step m (succeeds k u now) id = get-write m k id _ (JsMap.get m k) refl
get-step m (fails k error now) id = get-write m k id _ (JsMap.get m k) refl
get-step m (cancels k now) id = get-write m k id _ (JsMap.get m k) refl
get-step m (adds_usage k u now) id = get-write m k id _ (JsMap.get m k) refl
get-step m (bumps_turns k now) id = get-write m k id _ (JsMap.get m k) refl
get-step m (fails_running reason now) id = get-fail_running_sessions m reason now id

-- After any history of calls, what the store holds for a session is what that session's own state machine
-- is in after the same calls: the store refines the product of its sessions' state machines.
pub get-run :
    (m : SessionStore) (cs : List Call) (id : String)
    → JsMap.get (run m cs) id ≡ effects cs id (JsMap.get m id)
unfolding run effects
get-run m [] id = refl
get-run m (c ∷ cs) id = get-run (step m c) cs id ∙ ap (effects cs id) (get-step m c id)
