-- ===== src/Sessions/Errors.antt =====
-- `failRunningSessions`, and how `error` goes with the status `failed`.
use openclaw_managed_agents.Prelude.{
  ℕ, String, ◌≡◌, refl, ◌≢◌, ◌↔◌, Bool, true, Option, none, some, List, [], ◌∷◌, arith, eq_iff,
  is_some, length, filter,
}
use openclaw_managed_agents.Types.{Session, failed}
use openclaw_managed_agents.JsMap
use openclaw_managed_agents.JsMap.{values}
use openclaw_managed_agents.Sessions.{SessionStore, is_inflight, fail_running_sessions}
use openclaw_managed_agents.Sessions.History.{
  Call, creates, succeeds, run, effect, effects, get-run,
}

abbrev pub inflight : Session → Bool
inflight s = is_inflight s.status

-- After the orchestrator has failed the sessions that a crash left behind, none is in flight, and the
-- count that it reports is the number of those that were.
pub fail_running_sessions_lem :
    (m : SessionStore) (reason : String) (now : ℕ)
    → (filter inflight (values (fail_running_sessions m reason now).1) ≡ [])
      × ((fail_running_sessions m reason now).0 ≡ length (filter inflight (values m)))
unfolding fail_running_sessions
fail_running_sessions_lem [] reason now = (refl, refl)
fail_running_sessions_lem ((k, s) ∷ m) reason now =
    ground (arith, fail_running_sessions_lem m reason now)

-- A session has an error exactly while it is failed.
abbrev pub IsCoherent : Session → Type 0
IsCoherent s = (is_some s.error ≡ true) ↔ (s.status ≡ failed)

-- The call ends no turn of a failed session.
abbrev pub Respects : Option Session → String → Call → Type 0
Respects none id c = Unit
Respects (some s) id (succeeds k u now) = k ≡ id → s.status ≢ failed
Respects (some s) id _ = Unit

abbrev pub CoherentAt : Option Session → Type 0
CoherentAt none = Unit
CoherentAt (some s) = IsCoherent s

abbrev pub RespectsAll : Option Session → String → List Call → Type 0
RespectsAll o id [] = Unit
RespectsAll o id (c ∷ cs) = Respects o id c × RespectsAll (effect c id o) id cs

effect-CoherentAt :
    (c : Call) (id : String) (o : Option Session)
    → CoherentAt o
    → Respects o id c
    → CoherentAt (effect c id o)
unfolding effect
effect-CoherentAt (creates args fresh now) id none h r = ground arith
effect-CoherentAt (creates args fresh now) id (some s) h r = ground arith
effect-CoherentAt _ id none h r = ground arith
effect-CoherentAt (succeeds k u now) id (some s) h r = ground (arith, eq_iff k id)
effect-CoherentAt _ id (some s) h r = ground arith

effects-CoherentAt :
    (cs : List Call) (id : String) (o : Option Session)
    → CoherentAt o
    → RespectsAll o id cs
    → CoherentAt (effects cs id o)
unfolding effects
effects-CoherentAt [] id o h r = h
effects-CoherentAt (c ∷ cs) id o h r =
    effects-CoherentAt cs id (effect c id o) (effect-CoherentAt c id o h r.0) r.1

-- Over any history of the store in which a success is recorded only for a session that is not
-- failed, a session that carries an error is failed and a failed one carries an error.
pub run-CoherentAt :
    (m : SessionStore) (cs : List Call) (id : String)
    → CoherentAt (JsMap.get m id)
    → RespectsAll (JsMap.get m id) id cs
    → CoherentAt (JsMap.get (run m cs) id)
run-CoherentAt m cs id h r = rw get-run (effects-CoherentAt cs id (JsMap.get m id) h r)
