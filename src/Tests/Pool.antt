-- ===== src/Tests/Pool.antt =====
-- The container pool at concrete tables and histories.
use openclaw_managed_agents.Prelude.{
  ℕ, ◌≤◌, String, ◌≡◌, refl, false, none, List, [], ◌∷◌, arith, length,
}
use openclaw_managed_agents.Pool.{Pool, ActiveContainer, WarmContainer, admitted}
use openclaw_managed_agents.Pool.{evict_session}
use openclaw_managed_agents.Pool.Active.{
  pick_capacity_victim, pick_from, acquire_for_session, admit, reserve_active_slot, reserve_round,
  join_or_start, do_spawn, after_probe, look_again, active_count_with_reservations,
}
use openclaw_managed_agents.Pool.Schedule.{
  Action, acquires, admits, spawns, goes_on, looks_again, probed, step, run,
}
use openclaw_managed_agents.Pool.Capacity.Acquires.{IsBounded}
use openclaw_managed_agents.Pool.Capacity.{IsOrderly, run_capacity}
use openclaw_managed_agents.Pool.Warm.{occupied_slots, reserve_warm_slot, finish_warm}
use openclaw_managed_agents.Pool.Warm.Room.{occupied_slots-le}
use openclaw_managed_agents.Pool.Victim.{IsVictim, pick_capacity_victim-IsVictim}
use openclaw_managed_agents.JsMap

abbrev empty_pool : Pool
empty_pool = record {
  cfg = record {
    idle_timeout_ms = 100;
    max_active_containers = 1;
    max_warm_containers = 1;
    warm_idle_timeout_ms = 100;
  };
  active = [];
  pending = [];
  warm = [];
  warm_reservations = [];
  desired_warm_signature = [];
  active_reservations = [];
  shutting_down = false;
  stopped = [];
  removed_networks = [];
}

abbrev history : List Action
history =
    acquires "s1" "c"
    ∷ acquires "s2" "c"
    ∷ admits (λ s. false) "s1"
    ∷ admits (λ s. false) "s2"
    ∷ spawns "s1" "box1" "c" none 3
    ∷ admits (λ s. false) "s2"
    ∷ goes_on "s3"
    ∷ []

empty_pool-IsBounded : IsBounded 1 empty_pool
unfolding JsMap.get
empty_pool-IsBounded = record {
  limit = refl;
  tables = record { room = omega arith; held = λ k. tt; apart = λ k. refl };
}

run_capacity_example : length (run empty_pool history).active ≤ 1
unfolding run step acquire_for_session admit reserve_active_slot reserve_round join_or_start
    do_spawn evict_session JsMap.get JsMap.set JsMap.delete pick_capacity_victim pick_from
    active_count_with_reservations
run_capacity_example = run_capacity empty_pool history (omega arith) in_order empty_pool-IsBounded
  where
    in_order : IsOrderly empty_pool history
    in_order = (refl, (refl, (refl, (refl, (refl, (refl, (refl, tt)))))))

abbrev container_of : String → ℕ → ActiveContainer
container_of s t = record {
  session_id = s;
  container_id = s;
  config_signature = "c";
  spawned_at = 0;
  last_used_at = t;
  owned_resources = none;
}

abbrev start : String → String → List Action → List Action
start k box rest = acquires k "c" ∷ admits (λ s. false) k ∷ spawns k box "c" none 3 ∷ rest

-- Two acquires of "s1" that start while another acquire of it evicts an unhealthy container.
abbrev overtaken : List Action
overtaken = start "s1" "box1" (
    probed "s1" (container_of "s1" 3) false 4
    ∷ start "s1" "box2" (
        looks_again "s1"
        ∷ probed "s1" (container_of "s1" 3) false 5
        ∷ start "s1" "box3" (
            goes_on "s1"
            ∷ admits (λ s. false) "s1"
            ∷ acquires "s2" "c"
            ∷ admits (λ s. false) "s2"
            ∷ admits (λ s. false) "s2"
            ∷ spawns "s2" "box4" "c" none 6
            ∷ spawns "s1" "box5" "c" none 7
            ∷ [])))

limit_exceeded : length (run empty_pool overtaken).active ≡ 2
unfolding run step acquire_for_session admit reserve_active_slot reserve_round join_or_start
    do_spawn evict_session JsMap.get JsMap.set JsMap.delete pick_capacity_victim pick_from
    after_probe look_again active_count_with_reservations
limit_exceeded = refl

abbrev busy_pool : Pool
busy_pool = record empty_pool {
  active = ("s1", container_of "s1" 7) ∷ ("s2", container_of "s2" 5) ∷ [];
}

pick_capacity_victim_example :
    IsVictim
      (λ s. false)
      "s3"
      (JsMap.values busy_pool.active)
      (pick_capacity_victim busy_pool (λ s. false) "s3")
pick_capacity_victim_example = pick_capacity_victim-IsVictim (λ s. false) "s3" busy_pool

abbrev warm_box : WarmContainer
warm_box = record { agent_id = "a"; container_id = "box"; config_signature = "c"; spawned_at = 0 }

abbrev claiming_pool : Pool
claiming_pool = record empty_pool {
  warm = ("a", warm_box) ∷ [];
  pending = ("s1", admitted) ∷ ("s2", admitted) ∷ [];
}

occupied_slots-le_example :
    (occupied_slots (reserve_warm_slot claiming_pool "b" "d").1 ≤ 1)
    × (occupied_slots (finish_warm claiming_pool "b" "d" "box2" 5) ≤ 2)
unfolding JsMap.get occupied_slots
occupied_slots-le_example =
    occupied_slots-le claiming_pool "b" "d" "box2" 5 (refl, tt) (omega arith) (omega arith)
