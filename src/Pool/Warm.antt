-- ===== src/Pool/Warm.antt =====
-- The warm containers: `warmForAgent` with `reserveWarmSlot`, the end of `doWarmForAgent`, and the ways in which an entry
-- is given up. A step between two awaits is one function.
pub mod Room
use openclaw_managed_agents.Prelude.{
  ℕ, ◌+◌, String, Bool, true, false, not, ◌&&◌, ◌||◌, Option, none, some, List, [], ◌∷◌, ◌++◌, ltb,
  leb, nat_eq, str_eq, if◌then◌else◌, length,
}
use openclaw_managed_agents.JsMap
use openclaw_managed_agents.JsMap.{JsMap}
use openclaw_managed_agents.Pool.{Pool, WarmContainer}

pub record Admission : Type 0 where
  pub should_spawn : Bool
  pub stale_warm : Option WarmContainer
  pub evicted_warm : Option WarmContainer

abbrev pub older_warm : Option WarmContainer → WarmContainer → Option WarmContainer
older_warm none e = some e
older_warm (some o) e = if ltb e.spawned_at o.spawned_at then some e else some o

unfoldable pub oldest_from :
    Option WarmContainer → List (String × WarmContainer) → Option WarmContainer
oldest_from o [] = o
oldest_from o (e ∷ es) = oldest_from (older_warm o e.1) es

unfoldable pub find_oldest_warm_entry : Pool → Option WarmContainer
find_oldest_warm_entry p = oldest_from none p.warm

abbrev pub has_signature : String → Option WarmContainer → Bool
has_signature signature none = false
has_signature signature (some w) = str_eq w.config_signature signature

abbrev pub is_reserved_as : String → Option String → Bool
is_reserved_as signature none = false
is_reserved_as signature (some s) = str_eq s signature

abbrev pub reserve :
    Pool → String → String → Option WarmContainer → Option WarmContainer → Admission × Pool
reserve p agent_id signature stale evicted = (
  record { should_spawn = true; stale_warm = stale; evicted_warm = evicted },
  record p { warm_reservations = JsMap.set p.warm_reservations agent_id signature },
)

abbrev pub without : Pool → String → Pool
without p agent_id = record p { warm = JsMap.delete p.warm agent_id }

abbrev pub evict_oldest :
    Pool → String → String → Option WarmContainer → Option WarmContainer → Admission × Pool
evict_oldest p agent_id signature stale none =
    (record { should_spawn = false; stale_warm = stale; evicted_warm = none }, p)
evict_oldest p agent_id signature stale (some w) =
    reserve (without p w.agent_id) agent_id signature stale (some w)

unfoldable pub occupied_slots : Pool → ℕ
occupied_slots p = length p.warm + length p.warm_reservations

abbrev pub take_slot : Pool → String → String → Option WarmContainer → Admission × Pool
take_slot p agent_id signature stale =
    if ltb 0 p.cfg.max_warm_containers && leb p.cfg.max_warm_containers (occupied_slots p)
    then evict_oldest p agent_id signature stale (find_oldest_warm_entry p)
    else reserve p agent_id signature stale none

abbrev pub replace_stale : Pool → String → String → Option WarmContainer → Admission × Pool
replace_stale p agent_id signature none = take_slot p agent_id signature none
replace_stale p agent_id signature (some w) =
    take_slot (without p agent_id) agent_id signature (some w)

abbrev pub no_spawn : Admission
no_spawn = record { should_spawn = false; stale_warm = none; evicted_warm = none }

-- Under the lock.
unfoldable pub reserve_warm_slot : Pool → String → String → Admission × Pool
reserve_warm_slot p agent_id signature =
    if p.shutting_down
    then (no_spawn, p)
    else if has_signature signature (JsMap.get p.warm agent_id)
    then (no_spawn, p)
    else if is_reserved_as signature (JsMap.get p.warm_reservations agent_id)
    then (no_spawn, p)
    else replace_stale p agent_id signature (JsMap.get p.warm agent_id)

unfoldable pub release_warm_reservation : Pool → String → String → Pool
release_warm_reservation p agent_id signature =
    if is_reserved_as signature (JsMap.get p.warm_reservations agent_id)
    then record p { warm_reservations = JsMap.delete p.warm_reservations agent_id }
    else p

abbrev pub stop : Pool → String → Pool
stop p container_id = record p { stopped = p.stopped ++ container_id ∷ [] }

-- The test and the insertion of a container that is ready, under the lock; one that is not wanted any more is stopped.
unfoldable pub insert_warm : Pool → String → String → String → ℕ → Pool
insert_warm p agent_id signature container_id now =
    if p.shutting_down
    then stop p container_id
    else if not (is_reserved_as signature (JsMap.get p.desired_warm_signature agent_id))
    then stop p container_id
    else if has_signature signature (JsMap.get p.warm agent_id)
    then stop p container_id
    else record p {
      warm = JsMap.set p.warm agent_id (record {
        agent_id = agent_id;
        container_id = container_id;
        config_signature = signature;
        spawned_at = now;
      });
    }

-- `doWarmForAgent` behind the spawn: the two locked stretches, here with nothing in between.
unfoldable pub finish_warm : Pool → String → String → String → ℕ → Pool
finish_warm p agent_id signature container_id now =
    release_warm_reservation (insert_warm p agent_id signature container_id now) agent_id signature

-- `reapWarmEntry`.
unfoldable pub reap_warm_entry : Pool → WarmContainer → Pool
reap_warm_entry p w = stop (without p w.agent_id) w.container_id

abbrev pub reap_option : Pool → Option WarmContainer → Pool
reap_option p none = p
reap_option p (some w) = reap_warm_entry p w

abbrev pub reap_admission : Admission × Pool → Bool × Pool
reap_admission r = (r.0.should_spawn, reap_option (reap_option r.1 r.0.stale_warm) r.0.evicted_warm)

-- Whether a container is spawned. `inflight` is the signature that a spawn for the agent is under way with.
unfoldable pub warm_for_agent : Pool → String → String → Option String → Bool × Pool
warm_for_agent p agent_id signature inflight =
    if p.shutting_down || nat_eq p.cfg.max_warm_containers 0
    then (false, p)
    else if has_signature signature (JsMap.get p.warm agent_id)
    then (false, p)
    else (let q = record p {
      desired_warm_signature = JsMap.set p.desired_warm_signature agent_id signature;
    } in
        if is_reserved_as signature inflight
        then (false, q)
        else reap_admission (reserve_warm_slot q agent_id signature))

unfoldable pub drop_warm_for_agent : Pool → String → Pool
drop_warm_for_agent p agent_id =
    reap_option
      (record p { desired_warm_signature = JsMap.delete p.desired_warm_signature agent_id })
      (JsMap.get p.warm agent_id)

-- One entry of the sweep's snapshot.
unfoldable pub reap_idle_warm : Pool → ℕ → WarmContainer → Pool
reap_idle_warm p now w =
    if leb now (w.spawned_at + p.cfg.warm_idle_timeout_ms) then p else reap_warm_entry p w
