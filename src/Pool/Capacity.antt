-- ===== src/Pool/Capacity.antt =====
-- How many containers the sessions own together, over any history.
pub mod Tables
pub mod Acquires
use openclaw_managed_agents.Prelude.{
  ℕ, ◌+◌, ◌≤◌, ◌<◌, String, ◌≡◌, refl, Bool, true, not, ◌&&◌, ◌||◌, Option, none, some, List, [],
  ◌∷◌, arith, leb, nat_eq, str_eq, if-cases, is_some, length,
}
use openclaw_managed_agents.JsMap
use openclaw_managed_agents.JsMap.{JsMap}
use openclaw_managed_agents.Pool.{
  Pool, ActiveContainer, Phase, waiting, looping, admitted, contains, add, remove,
}
use openclaw_managed_agents.Pool.{WarmContainer, evict_entry, evict_session, touch_session}
use openclaw_managed_agents.Pool.Active.{
  active_count_with_reservations, pick_capacity_victim, Round, reserved, make_room, reserve_round,
  reserve_active_slot, fail_acquire, after_round, admit_from, admit, own, if_admitted, do_spawn,
  spawn_fails, drop_warm, claim, claim_warm,
}
use openclaw_managed_agents.Pool.Schedule.{
  Action, acquires, probed, looks_again, goes_on, admits, claims, spawns, fails, evicts, touches,
  reaps, step, run,
}
use openclaw_managed_agents.Pool.Capacity.Tables.{
  Inv-loop, Inv-hold, Inv-reserve, Inv-fail, Inv-own,
}
use openclaw_managed_agents.Pool.Capacity.Acquires.{
  IsBounded, evict_session-IsBounded, touch-IsBounded, reap_entry-IsBounded, acquire-IsBounded,
  after_probe-IsBounded, look_again-IsBounded, join_or_start-IsBounded,
}

-- The last stretch of an acquire does not start one for a session that has a container.
abbrev pub starts_free : Pool → Action → Bool
starts_free p (goes_on k) = not (JsMap.has p.active k)
starts_free p _ = true

abbrev pub IsOrderly : Pool → List Action → Type 0
IsOrderly p [] = Unit
IsOrderly p (a ∷ as') = (starts_free p a ≡ true) × IsOrderly (step p a) as'

module _ (max : ℕ) where
  fail-IsBounded : (p : Pool) (k : String) → IsBounded max p → IsBounded max (fail_acquire p k)
  fail-IsBounded p k h = record { limit = h.limit; tables = Inv-fail max _ _ _ h.tables k }

  loop-IsBounded :
      (p : Pool) (k : String)
      → is_some (JsMap.get p.pending k) ≡ true
      → IsBounded max p
      → IsBounded max (record p { pending = JsMap.set p.pending k looping })
  loop-IsBounded p k e h = record { limit = h.limit; tables = Inv-loop max _ _ _ h.tables k e }

  pending-evict :
      (p : Pool) (k : String) (o : Option ActiveContainer) → (evict_entry p k o).pending ≡ p.pending
  pending-evict p k none = refl
  pending-evict p k (some e) = refl

  round-IsBounded :
      (p : Pool) (b : String → Bool) (k : String)
      → is_some (JsMap.get p.pending k) ≡ true
      → IsBounded max p
      → IsBounded max (after_round k (reserve_round p b k))
  unfolding reserve_round active_count_with_reservations evict_session
  round-IsBounded p b k e h =
      if-cases (λ (x : Round × Pool). IsBounded max (after_round k x))
        (leb p.cfg.max_active_containers
          (length p.active + length (remove p.active_reservations k)))
        (make_room p k (pick_capacity_victim p b k))
        (reserved, record p { active_reservations = add p.active_reservations k })
        (λ _. room (pick_capacity_victim p b k))
        (λ n. record {
          limit = h.limit;
          tables = Inv-reserve max _ _ _ h.tables k e (ground (arith, h.limit));
        })
    where
      room : (o : Option ActiveContainer) → IsBounded max (after_round k (make_room p k o))
      room none = fail-IsBounded p k h
      room (some v) =
          loop-IsBounded (evict_session p v.session_id) k
            (rw (pending-evict p v.session_id (JsMap.get p.active v.session_id)) e)
            (evict_session-IsBounded max p v.session_id h)

  slot-IsBounded :
      (p : Pool) (b : String → Bool) (k : String)
      → 0 < max
      → is_some (JsMap.get p.pending k) ≡ true
      → IsBounded max p
      → IsBounded max (after_round k (reserve_active_slot p b k))
  unfolding reserve_active_slot
  slot-IsBounded p b k m e h =
      if-cases Keeps (nat_eq p.cfg.max_active_containers 0) (reserved, p) _
        (λ z. absurd (ground (arith, h.limit)))
        λ _.
          if-cases Keeps (contains p.active_reservations k || JsMap.has p.active k) (reserved, p)
            (reserve_round p b k)
            (λ y. record {
              limit = h.limit;
              tables = Inv-hold max _ _ _ h.tables k e (ground (arith, h.tables.apart k));
            })
            (λ _. round-IsBounded p b k e h)
    where
      Keeps : Round × Pool → Type 0
      Keeps x = IsBounded max (after_round k x)

  admit-IsBounded :
      (p : Pool) (b : String → Bool) (k : String)
      → 0 < max
      → IsBounded max p
      → IsBounded max (admit p b k)
  unfolding admit
  admit-IsBounded p b k m h = go (JsMap.get p.pending k) refl
    where
      go : (o : Option Phase) → JsMap.get p.pending k ≡ o → IsBounded max (admit_from p b k o)
      go none e = h
      go (some waiting) e = slot-IsBounded p b k m (rw e refl) h
      go (some looping) e = round-IsBounded p b k (rw e refl) h
      go (some admitted) e = h

  own-IsBounded :
      (p : Pool) (k : String) (e : ActiveContainer)
      → JsMap.get p.pending k ≡ some admitted
      → IsBounded max p
      → IsBounded max (own p k e)
  own-IsBounded p k e a h = record { limit = h.limit; tables = Inv-own max _ _ _ h.tables k e a }

  if_admitted-IsBounded :
      (p p' : Pool) (k : String)
      → (JsMap.get p.pending k ≡ some admitted → IsBounded max p')
      → IsBounded max p
      → IsBounded max (if_admitted p p' (JsMap.get p.pending k))
  if_admitted-IsBounded p p' k f h = go (JsMap.get p.pending k) refl
    where
      go : (o : Option Phase) → JsMap.get p.pending k ≡ o → IsBounded max (if_admitted p p' o)
      go none e = h
      go (some waiting) e = h
      go (some looping) e = h
      go (some admitted) e = f e

  claim-IsBounded :
      (p : Pool) (k signature : String) (healthy renames : Bool) (now : ℕ) (w : WarmContainer)
      → JsMap.get p.pending k ≡ some admitted
      → IsBounded max p
      → IsBounded max (claim p k signature healthy renames now w)
  claim-IsBounded p k signature healthy renames now w a h =
      if-cases (IsBounded max) (str_eq w.config_signature signature && (healthy && renames))
        (own dropped k claimed) (drop_warm p w)
        (λ _. own-IsBounded dropped k claimed a (record { limit = h.limit; tables = h.tables }))
        (λ _. record { limit = h.limit; tables = h.tables })
    where
      dropped : Pool
      dropped = record p { warm = JsMap.delete p.warm w.agent_id }

      claimed : ActiveContainer
      claimed = record {
        session_id = k;
        container_id = w.container_id;
        config_signature = signature;
        spawned_at = w.spawned_at;
        last_used_at = now;
        owned_resources = none;
      }

  step-IsBounded :
      (p : Pool) (a : Action)
      → 0 < max
      → starts_free p a ≡ true
      → IsBounded max p
      → IsBounded max (step p a)
  unfolding step do_spawn spawn_fails claim_warm touch_session
  step-IsBounded p (acquires k signature) m f h = acquire-IsBounded max p k signature h
  step-IsBounded p (probed k e healthy now) m f h = after_probe-IsBounded max p k e healthy now h
  step-IsBounded p (looks_again k) m f h = look_again-IsBounded max p k h
  step-IsBounded p (goes_on k) m f h = join_or_start-IsBounded max p k (ground arith) h
  step-IsBounded p (admits b k) m f h = admit-IsBounded p b k m h
  step-IsBounded p (claims k signature healthy renames now w) m f h =
      if_admitted-IsBounded p _ k (λ a. claim-IsBounded p k signature healthy renames now w a h) h
  step-IsBounded p (spawns k c signature owned now) m f h =
      if_admitted-IsBounded p _ k (λ a. own-IsBounded p k _ a h) h
  step-IsBounded p (fails k) m f h = if_admitted-IsBounded p _ k (λ a. fail-IsBounded p k h) h
  step-IsBounded p (evicts k) m f h = evict_session-IsBounded max p k h
  step-IsBounded p (touches k now) m f h = touch-IsBounded max p k now (JsMap.get p.active k) refl h
  step-IsBounded p (reaps b s now e) m f h = reap_entry-IsBounded max p b s now e h

  run-IsBounded :
      (p : Pool) (as' : List Action)
      → 0 < max
      → IsOrderly p as'
      → IsBounded max p
      → IsBounded max (run p as')
  unfolding run
  run-IsBounded p [] m f h = h
  run-IsBounded p (a ∷ as') m f h = run-IsBounded (step p a) as' m f.1 (step-IsBounded p a m f.0 h)

-- With a limit on active containers: whatever sessions acquire, claim, spawn, fail, are evicted or swept, in any order and
-- with any number of acquires under way at once, the sessions never own more containers than the limit. The
-- condition is that an acquire that comes back from evicting its session's container a second time does not find that
-- another acquire has given the session a new one.
pub run_capacity :
    (p : Pool) (as' : List Action)
    → 0 < p.cfg.max_active_containers
    → IsOrderly p as'
    → IsBounded p.cfg.max_active_containers p
    → length (run p as').active ≤ p.cfg.max_active_containers
run_capacity p as' m f h =
    omega (arith, (run-IsBounded p.cfg.max_active_containers p as' m f h).tables.room)
