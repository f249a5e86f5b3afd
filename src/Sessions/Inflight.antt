-- ===== src/Sessions/Inflight.antt =====
-- What each method of the session store does to the question whether a session has a run in flight,
-- and to the presence of a session.
use openclaw_managed_agents.Prelude.{
  ℕ, String, ◌≡◌, Bool, false, Option, none, some, arith, str_eq, if◌then◌else◌, is_some,
}
use openclaw_managed_agents.JsMap
use openclaw_managed_agents.Types.{Session, RunUsage}
use openclaw_managed_agents.Sessions.{
  SessionStore, begin_run, mark_running, end_run_success, end_run_failure, end_run_cancelled,
  add_usage, bump_turns, is_inflight,
}
use openclaw_managed_agents.Sessions.History.{
  begins, marks_running, succeeds, fails, cancels, adds_usage, bumps_turns, step, effect, get-step,
}

-- Whether the store holds a session that is starting or running.
abbrev pub session_inflight : Option Session → Bool
session_inflight none = false
session_inflight (some s) = is_inflight s.status

abbrev pub inflight_in : SessionStore → String → Bool
inflight_in m id = session_inflight (JsMap.get m id)

module _ (m : SessionStore) (k id : String) (now : ℕ) where
  pub inflight-begin_run :
      inflight_in (begin_run m k now).1 id
      ≡ (if str_eq k id then is_some (JsMap.get m id) else inflight_in m id)
  unfolding step effect
  inflight-begin_run = rw (get-step m (begins k now) id) (ground arith)

  pub inflight-mark_running :
      inflight_in (mark_running m k now).1 id
      ≡ (if str_eq k id then is_some (JsMap.get m id) else inflight_in m id)
  unfolding step effect
  inflight-mark_running = rw (get-step m (marks_running k now) id) (ground arith)

  pub inflight-end_run_success :
      (u : RunUsage)
      → inflight_in (end_run_success m k u now).1 id
        ≡ (if str_eq k id then false else inflight_in m id)
  unfolding step effect
  inflight-end_run_success u = rw (get-step m (succeeds k u now) id) (ground arith)

  pub inflight-end_run_failure :
      (e : String)
      → inflight_in (end_run_failure m k e now).1 id
        ≡ (if str_eq k id then false else inflight_in m id)
  unfolding step effect
  inflight-end_run_failure e = rw (get-step m (fails k e now) id) (ground arith)

  pub inflight-end_run_cancelled :
      inflight_in (end_run_cancelled m k now).1 id
      ≡ (if str_eq k id then false else inflight_in m id)
  unfolding step effect
  inflight-end_run_cancelled = rw (get-step m (cancels k now) id) (ground arith)

  pub inflight-add_usage :
      (u : RunUsage) → inflight_in (add_usage m k u now).1 id ≡ inflight_in m id
  unfolding step effect
  inflight-add_usage u = rw (get-step m (adds_usage k u now) id) (ground arith)

  pub inflight-bump_turns : inflight_in (bump_turns m k now).1 id ≡ inflight_in m id
  unfolding step effect
  inflight-bump_turns = rw (get-step m (bumps_turns k now) id) (ground arith)

  pub is_some-begin_run : is_some (JsMap.get (begin_run m k now).1 id) ≡ is_some (JsMap.get m id)
  unfolding step effect
  is_some-begin_run = rw (get-step m (begins k now) id) (ground arith)
