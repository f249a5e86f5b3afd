-- ===== src/Tests/Sessions.antt =====
-- The session store at concrete calls.
use openclaw_managed_agents.Prelude.{
  String, ◌≡◌, refl, ◌≢◌, false, none, some, List, [], ◌∷◌, arith,
}
use openclaw_managed_agents.JsMap
use openclaw_managed_agents.Types.{Session, RunUsage, idle, failed}
use openclaw_managed_agents.Sessions.{SessionStore, CreateArgs}
use openclaw_managed_agents.Sessions.History.{
  Call, creates, begins, succeeds, fails, bumps_turns, effect, effects, run, get-run,
}
use openclaw_managed_agents.Sessions.Billing.{BilledTo, total, run-Billed}
use openclaw_managed_agents.Sessions.Errors.{CoherentAt, run-CoherentAt}

abbrev args : CreateArgs
args = record {
  agent_id = "a1";
  session_id = none;
  environment_id = none;
  ephemeral = none;
  remaining_subagent_depth = some 2;
  vault_id = none;
  parent_session_id = none;
  user_id = some "u1";
}

abbrev usage : RunUsage
usage = record { tokens_in = 120; tokens_out = 30; cost_usd = 7 }

abbrev one_turn : List Call
one_turn =
    begins "s1" 20
    ∷ bumps_turns "s1" 20
    ∷ succeeds "s1" usage 30
    ∷ begins "s2" 31
    ∷ fails "s2" "boom" 32
    ∷ []

abbrev session : String → Session
session id = record {
  session_id = id;
  agent_id = "a1";
  environment_id = none;
  status = idle;
  ephemeral = false;
  remaining_subagent_depth = 2;
  turns = 0;
  tokens_in = 0;
  tokens_out = 0;
  cost_usd = 0;
  error = none;
  created_at = 10;
  last_event_at = none;
  vault_id = none;
  parent_session_id = none;
  user_id = some "u1";
}

abbrev store : SessionStore
store = ("s1", session "s1") ∷ ("s2", session "s2") ∷ []

get-run_example :
    JsMap.get (run [] (creates args "s1" 10 ∷ one_turn)) "s1"
    ≡ effects (creates args "s1" 10 ∷ one_turn) "s1" none
unfolding JsMap.get
get-run_example = get-run [] (creates args "s1" 10 ∷ one_turn) "s1"

run-Billed_example :
    BilledTo (total "s1" one_turn) 1 (session "s1") (JsMap.get (run store one_turn) "s1")
unfolding JsMap.get
run-Billed_example =
    run-Billed store one_turn "s1" (session "s1") (refl, (refl, (refl, (refl, (refl, tt))))) refl

run-CoherentAt_example : CoherentAt (JsMap.get (run store one_turn) "s2")
unfolding JsMap.get effect
run-CoherentAt_example =
    run-CoherentAt store one_turn "s2" idle_is_coherent
      (tt, (tt, ((λ _. idle_is_not_failed), (tt, (tt, tt)))))
  where
    idle_is_coherent : CoherentAt (some (session "s2"))
    idle_is_coherent = ground arith

    idle_is_not_failed : idle ≢ failed
    idle_is_not_failed = ground arith
