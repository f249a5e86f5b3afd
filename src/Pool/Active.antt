-- ===== src/Pool/Active.antt =====
-- How a session gets a container: `acquireForSession`, `acquireFresh` with `reserveActiveSlot`, the spawns,
-- and `adopt`. The stretches of `acquireForSession` between its awaits are functions of their own.
use openclaw_managed_agents.Prelude.{
  ℕ, ◌+◌, String, Bool, ◌&&◌, ◌||◌, Option, none, some, List, [], ◌∷◌, ◌++◌, ltb, leb, nat_eq,
  str_eq, if◌then◌else◌, get_or, length,
}
use openclaw_managed_agents.JsMap
use openclaw_managed_agents.JsMap.{JsMap}
use openclaw_managed_agents.Pool.{
  Pool, ActiveContainer, WarmContainer, Owned, Phase, waiting, looping, admitted, contains, add,
  remove, touch_entry, evict_session,
}

-- How a stretch of `acquireForSession` ends: with an error, with a container, at the await of another acquire or of
-- its own, at the probe of a container, or at the eviction of the session's own.
pub data Acquired : Type 0 where
  shut_down joins starts evicting : Acquired
  ready : String → Acquired
  probes : ActiveContainer → Acquired

-- From the look at the acquires under way on. It is also the stretch behind the second eviction.
unfoldable pub join_or_start : Pool → String → Acquired × Pool
join_or_start p session_id =
    if JsMap.has p.pending session_id
    then (joins, p)
    else (starts, record p { pending = JsMap.set p.pending session_id waiting })

abbrev pub look_up : Pool → String → Option ActiveContainer → Acquired × Pool
look_up p session_id none = join_or_start p session_id
look_up p session_id (some e) = (probes e, p)

abbrev pub first_look : Pool → String → String → Option ActiveContainer → Acquired × Pool
first_look p session_id signature none = join_or_start p session_id
first_look p session_id signature (some e) =
    if str_eq e.config_signature signature
    then (probes e, p)
    else (evicting, evict_session p session_id)

-- Up to the first await.
unfoldable pub acquire_for_session : Pool → String → String → Acquired × Pool
acquire_for_session p session_id signature =
    if p.shutting_down
    then (shut_down, p)
    else first_look p session_id signature (JsMap.get p.active session_id)

-- `existing.lastUsedAt = Date.now()`, which the table shows while it still has that entry.
abbrev pub touch_probed : Pool → String → ActiveContainer → ℕ → Option ActiveContainer → Pool
touch_probed p session_id e now none = p
touch_probed p session_id e now (some there) =
    if str_eq there.container_id e.container_id
    then touch_entry p session_id now (some there)
    else p

-- Behind either probe: an unhealthy container's session is evicted, whatever it has by then.
unfoldable pub after_probe : Pool → String → ActiveContainer → Bool → ℕ → Acquired × Pool
after_probe p session_id e healthy now =
    if healthy
    then (ready e.container_id, touch_probed p session_id e now (JsMap.get p.active session_id))
    else (evicting, evict_session p session_id)

-- Behind the first eviction.
unfoldable pub look_again : Pool → String → Acquired × Pool
look_again p session_id = look_up p session_id (JsMap.get p.active session_id)

unfoldable pub active_count_with_reservations : Pool → String → ℕ
active_count_with_reservations p exclude =
    length p.active + length (remove p.active_reservations exclude)

abbrev pub older : Option ActiveContainer → ActiveContainer → Option ActiveContainer
older none e = some e
older (some o) e = if ltb e.last_used_at o.last_used_at then some e else some o

abbrev pub is_skipped : (String → Bool) → String → ActiveContainer → Bool
is_skipped is_busy exclude e = str_eq e.session_id exclude || is_busy e.session_id

unfoldable pub pick_from :
    (String → Bool)
    → String
    → Option ActiveContainer
    → List ActiveContainer
    → Option ActiveContainer
pick_from is_busy exclude oldest [] = oldest
pick_from is_busy exclude oldest (e ∷ es) =
    pick_from is_busy exclude (if is_skipped is_busy exclude e then oldest else older oldest e) es

unfoldable pub pick_capacity_victim : Pool → (String → Bool) → String → Option ActiveContainer
pick_capacity_victim p is_busy exclude = pick_from is_busy exclude none (JsMap.values p.active)

-- What one round of `reserveActiveSlot` ends with.
pub data Round : Type 0 where
  reserved evicted full : Round

abbrev pub make_room : Pool → String → Option ActiveContainer → Round × Pool
make_room p session_id none = (full, p)
make_room p session_id (some victim) = (evicted, evict_session p victim.session_id)

-- The loop's test and body up to the await of the eviction; or the reservation behind the loop.
unfoldable pub reserve_round : Pool → (String → Bool) → String → Round × Pool
reserve_round p is_busy session_id =
    if leb p.cfg.max_active_containers (active_count_with_reservations p session_id)
    then make_room p session_id (pick_capacity_victim p is_busy session_id)
    else (reserved, record p { active_reservations = add p.active_reservations session_id })

-- The first round tests, under the lock, whether the session needs a slot at all.
unfoldable pub reserve_active_slot : Pool → (String → Bool) → String → Round × Pool
reserve_active_slot p is_busy session_id =
    if nat_eq p.cfg.max_active_containers 0
    then (reserved, p)
    else if contains p.active_reservations session_id || JsMap.has p.active session_id
    then (reserved, p)
    else reserve_round p is_busy session_id

abbrev pub fail_acquire : Pool → String → Pool
fail_acquire p session_id = record p {
  active_reservations = remove p.active_reservations session_id;
  pending = JsMap.delete p.pending session_id;
}

abbrev pub after_round : String → Round × Pool → Pool
after_round session_id (reserved, p) = record p {
  pending = JsMap.set p.pending session_id admitted;
}
after_round session_id (evicted, p) = record p { pending = JsMap.set p.pending session_id looping }
after_round session_id (full, p) = fail_acquire p session_id

-- The next round of a session whose acquire is before the lock or in the loop.
abbrev pub admit_from : Pool → (String → Bool) → String → Option Phase → Pool
admit_from p is_busy session_id (some waiting) =
    after_round session_id (reserve_active_slot p is_busy session_id)
admit_from p is_busy session_id (some looping) =
    after_round session_id (reserve_round p is_busy session_id)
admit_from p is_busy session_id (some admitted) = p
admit_from p is_busy session_id none = p

unfoldable pub admit : Pool → (String → Bool) → String → Pool
admit p is_busy session_id = admit_from p is_busy session_id (JsMap.get p.pending session_id)

-- A container becomes the session's; the reservation and the pending acquire end.
abbrev pub own : Pool → String → ActiveContainer → Pool
own p session_id e = fail_acquire (record p { active = JsMap.set p.active session_id e }) session_id

abbrev pub if_admitted : Pool → Pool → Option Phase → Pool
if_admitted p p' (some admitted) = p'
if_admitted p p' (some waiting) = p
if_admitted p p' (some looping) = p
if_admitted p p' none = p

-- The end of `doSpawn`, or of `doLimitedSpawn`, which owns a sidecar and networks.
unfoldable pub do_spawn : Pool → String → String → String → Option Owned → ℕ → Pool
do_spawn p session_id container_id signature owned now =
    if_admitted p
      (own p session_id (record {
        session_id = session_id;
        container_id = container_id;
        config_signature = signature;
        spawned_at = now;
        last_used_at = now;
        owned_resources = owned;
      }))
      (JsMap.get p.pending session_id)

-- A spawn that throws, at whatever point; what it had created it has torn down.
unfoldable pub spawn_fails : Pool → String → Pool
spawn_fails p session_id =
    if_admitted p (fail_acquire p session_id) (JsMap.get p.pending session_id)

abbrev pub drop_warm : Pool → WarmContainer → Pool
drop_warm p w = record p {
  warm = JsMap.delete p.warm w.agent_id;
  stopped = p.stopped ++ w.container_id ∷ [];
}

-- The end of the claim of a warm container that was found before its probe: one whose configuration
-- differs, whose probe fails or whose workspace cannot be renamed is dropped, and the session goes on to spawn.
-- Whether it is still the pool's is not looked at again.
abbrev pub claim : Pool → String → String → Bool → Bool → ℕ → WarmContainer → Pool
claim p session_id signature healthy renames now w =
    if str_eq w.config_signature signature && (healthy && renames)
    then own (record p { warm = JsMap.delete p.warm w.agent_id }) session_id
        (record {
          session_id = session_id;
          container_id = w.container_id;
          config_signature = signature;
          spawned_at = w.spawned_at;
          last_used_at = now;
          owned_resources = none;
        })
    else drop_warm p w

unfoldable pub claim_warm : Pool → String → String → Bool → Bool → ℕ → WarmContainer → Pool
claim_warm p session_id signature healthy renames now w =
    if_admitted p (claim p session_id signature healthy renames now w)
      (JsMap.get p.pending session_id)

-- A container that outlived the last process; none if the session has one already.
unfoldable pub adopt :
    Pool → String → String → Option String → Option ℕ → Option Owned → ℕ → Option Pool
adopt p session_id container_id signature spawned_at owned now =
    if JsMap.has p.active session_id
    then none
    else some (record p {
      active = JsMap.set p.active session_id (record {
        session_id = session_id;
        container_id = container_id;
        config_signature = get_or signature "adopted";
        spawned_at = get_or spawned_at 0;
        last_used_at = now;
        owned_resources = owned;
      });
    })
