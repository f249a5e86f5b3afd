-- ===== src/Sessions.antt =====
-- src/store/memory.ts, `InMemorySessionStore`. A method takes the time that `Date.now()` returns and
-- the identifier that `nanoid()` draws; one that writes returns its result and the new map. The
-- source changes the stored object in place, which here is a `set` at its key.
pub mod History
pub mod Billing
pub mod Errors
pub mod Inflight
use openclaw_managed_agents.Prelude.{
  ℕ, suc, ◌+◌, String, Bool, true, false, Option, none, some, List, [], ◌∷◌, get_or, str_eq, filter,
  if◌then◌else◌,
}
use openclaw_managed_agents.JsMap
use openclaw_managed_agents.JsMap.{JsMap}
use openclaw_managed_agents.Types.{
  Session, SessionStatus, idle, starting, running, failed, RunUsage,
}

abbrev pub SessionStore : Type 0
SessionStore = JsMap Session

pub record CreateArgs : Type 0 where
  pub agent_id : String
  pub session_id : Option String
  pub environment_id : Option String
  pub ephemeral : Option Bool
  pub remaining_subagent_depth : Option ℕ
  pub vault_id : Option String
  pub parent_session_id : Option String
  pub user_id : Option String

-- `fresh` is `ses_${nanoid()}`.
unfoldable pub create : SessionStore → CreateArgs → String → ℕ → Session × SessionStore
create m args fresh now =
    let session : Session = record {
      session_id = get_or args.session_id fresh;
      agent_id = args.agent_id;
      environment_id = args.environment_id;
      status = idle;
      ephemeral = get_or args.ephemeral false;
      remaining_subagent_depth = get_or args.remaining_subagent_depth 0;
      turns = 0;
      tokens_in = 0;
      tokens_out = 0;
      cost_usd = 0;
      error = none;
      created_at = now;
      last_event_at = none;
      vault_id = args.vault_id;
      parent_session_id = args.parent_session_id;
      user_id = args.user_id;
    } in
    (session, JsMap.set m (get_or args.session_id fresh) session)

unfoldable pub get : SessionStore → String → Option Session
get m session_id = JsMap.get m session_id

unfoldable pub list : SessionStore → List Session
list m = JsMap.values m

abbrev is_child_of : String → Session → Bool
is_child_of parent s = elim s.parent_session_id [ none ↦ false | some p ↦ str_eq p parent ]

unfoldable pub list_by_parent : SessionStore → String → List Session
list_by_parent m parent = filter (is_child_of parent) (JsMap.values m)

unfoldable pub delete : SessionStore → String → Bool × SessionStore
delete m session_id = (JsMap.has m session_id, JsMap.delete m session_id)

-- What the writing methods share: nothing for an unknown session, or the write in place.
abbrev pub write :
    SessionStore → String → (Session → Session) → Option Session → Option Session × SessionStore
write m session_id f none = (none, m)
write m session_id f (some s) = (some (f s), JsMap.set m session_id (f s))

unfoldable pub begin_run : SessionStore → String → ℕ → Option Session × SessionStore
begin_run m session_id now =
    write m session_id (λ s. record s { status = starting; error = none; last_event_at = some now })
      (JsMap.get m session_id)

unfoldable pub mark_running : SessionStore → String → ℕ → Option Session × SessionStore
mark_running m session_id now =
    write m session_id (λ s. record s { status = running; error = none; last_event_at = some now })
      (JsMap.get m session_id)

unfoldable pub end_run_success :
    SessionStore → String → RunUsage → ℕ → Option Session × SessionStore
end_run_success m session_id usage now =
    write m session_id
      (λ s. record s {
        status = idle;
        tokens_in = s.tokens_in + usage.tokens_in;
        tokens_out = s.tokens_out + usage.tokens_out;
        cost_usd = s.cost_usd + usage.cost_usd;
        last_event_at = some now;
      })
      (JsMap.get m session_id)

unfoldable pub end_run_failure : SessionStore → String → String → ℕ → Option Session × SessionStore
end_run_failure m session_id error now =
    write m session_id
      (λ s. record s { status = failed; error = some error; last_event_at = some now })
      (JsMap.get m session_id)

unfoldable pub end_run_cancelled : SessionStore → String → ℕ → Option Session × SessionStore
end_run_cancelled m session_id now =
    write m session_id (λ s. record s { status = idle; error = none; last_event_at = some now })
      (JsMap.get m session_id)

unfoldable pub add_usage : SessionStore → String → RunUsage → ℕ → Option Session × SessionStore
add_usage m session_id usage now =
    write m session_id
      (λ s. record s {
        tokens_in = s.tokens_in + usage.tokens_in;
        tokens_out = s.tokens_out + usage.tokens_out;
        cost_usd = s.cost_usd + usage.cost_usd;
        last_event_at = some now;
      })
      (JsMap.get m session_id)

unfoldable pub bump_turns : SessionStore → String → ℕ → Option Session × SessionStore
bump_turns m session_id now =
    write m session_id (λ s. record s { turns = s.turns + 1; last_event_at = some now })
      (JsMap.get m session_id)

-- `status === "starting" || status === "running"`.
abbrev pub is_inflight : SessionStatus → Bool
is_inflight starting = true
is_inflight running = true
is_inflight _ = false

-- The loop of `failRunningSessions`, with its count.
unfoldable pub fail_running_sessions : SessionStore → String → ℕ → ℕ × SessionStore
fail_running_sessions [] reason now = (0, [])
fail_running_sessions ((k, s) ∷ m) reason now =
    let (count, rest) = fail_running_sessions m reason now in
    if is_inflight s.status
    then (
      suc count,
      (k, record s { status = failed; error = some reason; last_event_at = some now }) ∷ rest,
    )
    else (count, (k, s) ∷ rest)
