-- ===== src/Pool/Schedule.antt =====
-- What may happen to the pool, in any order: the calls of clients, the stretches of their acquires (`goes_on` is the one
-- behind a second eviction), the rounds and the ends of acquires, and
-- the entries of a sweep. `admits` may come at any time, so these histories include those in which no lock
-- orders the rounds. Adoption, which happens before the server listens, is not among them.
use openclaw_managed_agents.Prelude.{ℕ, String, Bool, Option, List, [], ◌∷◌}
use openclaw_managed_agents.Pool.{
  Pool, ActiveContainer, WarmContainer, Owned, touch_session, evict_session, reap_entry,
}
use openclaw_managed_agents.Pool.Active.{
  acquire_for_session, after_probe, look_again, join_or_start, admit, do_spawn, spawn_fails,
  claim_warm,
}

pub data Action : Type 0 where
  acquires : String → String → Action
  probed : String → ActiveContainer → Bool → ℕ → Action
  looks_again : String → Action
  goes_on : String → Action
  admits : (String → Bool) → String → Action
  claims : String → String → Bool → Bool → ℕ → WarmContainer → Action
  spawns : String → String → String → Option Owned → ℕ → Action
  fails : String → Action
  evicts : String → Action
  touches : String → ℕ → Action
  reaps : (String → Bool) → (String → Bool) → ℕ → ActiveContainer → Action

unfoldable pub step : Pool → Action → Pool
step p (acquires session_id signature) = (acquire_for_session p session_id signature).1
step p (probed session_id e healthy now) = (after_probe p session_id e healthy now).1
step p (looks_again session_id) = (look_again p session_id).1
step p (goes_on session_id) = (join_or_start p session_id).1
step p (admits is_busy session_id) = admit p is_busy session_id
step p (claims session_id signature healthy renames now w) =
    claim_warm p session_id signature healthy renames now w
step p (spawns session_id container_id signature owned now) =
    do_spawn p session_id container_id signature owned now
step p (fails session_id) = spawn_fails p session_id
step p (evicts session_id) = evict_session p session_id
step p (touches session_id now) = touch_session p session_id now
step p (reaps is_busy should_reap now e) = reap_entry p is_busy should_reap now e

unfoldable pub run : Pool → List Action → Pool
run p [] = p
run p (a ∷ as') = run (step p a) as'
