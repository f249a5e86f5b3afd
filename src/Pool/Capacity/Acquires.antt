-- ===== src/Pool/Capacity/Acquires.antt =====
-- The bound under the stretches of `acquireForSession`, the evictions and the sweep.
use openclaw_managed_agents.Prelude.{
  ℕ, ◌+◌, String, ◌≡◌, refl, Bool, true, false, not, Option, none, some, leb, str_eq, if-cases,
  is_some,
}
use openclaw_managed_agents.JsMap
use openclaw_managed_agents.JsMap.{JsMap}
use openclaw_managed_agents.Pool.{Pool, ActiveContainer, waiting}
use openclaw_managed_agents.Pool.{
  release, evict_entry, evict_session, touch, touch_entry, reap_entry,
}
use openclaw_managed_agents.Pool.Active.{
  Acquired, joins, starts, shut_down, join_or_start, evicting, probes, look_up, first_look,
  touch_probed, after_probe, look_again, acquire_for_session,
}
use openclaw_managed_agents.Pool.Capacity.Tables.{Inv, Inv-evict, Inv-touch, Inv-start}

module _ (max : ℕ) where
  -- The limit is `max`, and the tables keep to it.
  pub record IsBounded (p : Pool) : Type 0 where
    pub limit : p.cfg.max_active_containers ≡ max
    pub tables : Inv max p.active p.pending p.active_reservations

  release-IsBounded :
      (p : Pool) (k : String) (e : ActiveContainer) → IsBounded p → IsBounded (release p k e)
  release-IsBounded p k e h = record { limit = h.limit; tables = Inv-evict max _ _ _ h.tables k }

  evict_entry-IsBounded :
      (p : Pool) (k : String) (o : Option ActiveContainer)
      → IsBounded p
      → IsBounded (evict_entry p k o)
  evict_entry-IsBounded p k none h = h
  evict_entry-IsBounded p k (some e) h = release-IsBounded p k e h

  pub evict_session-IsBounded :
      (p : Pool) (k : String) → IsBounded p → IsBounded (evict_session p k)
  unfolding evict_session
  evict_session-IsBounded p k h = evict_entry-IsBounded p k (JsMap.get p.active k) h

  pub touch-IsBounded :
      (p : Pool) (k : String) (now : ℕ) (o : Option ActiveContainer)
      → JsMap.get p.active k ≡ o
      → IsBounded p
      → IsBounded (touch_entry p k now o)
  touch-IsBounded p k now none e h = h
  touch-IsBounded p k now (some c) e h = record {
    limit = h.limit;
    tables = Inv-touch max _ _ _ h.tables k (touch now c) (rw e refl);
  }

  pub reap_entry-IsBounded :
      (p : Pool) (b s : String → Bool) (now : ℕ) (e : ActiveContainer)
      → IsBounded p
      → IsBounded (reap_entry p b s now e)
  unfolding reap_entry
  reap_entry-IsBounded p b s now e h =
      if-cases IsBounded (leb now (e.last_used_at + p.cfg.idle_timeout_ms)) p _ (λ _. h)
        λ _.
          if-cases IsBounded (b e.session_id) p _ (λ _. h)
            λ _.
              if-cases IsBounded (not (s e.session_id)) p (release p e.session_id e) (λ _. h)
                λ _. release-IsBounded p e.session_id e h

  pub join_or_start-IsBounded :
      (p : Pool) (k : String)
      → is_some (JsMap.get p.active k) ≡ false
      → IsBounded p
      → IsBounded (join_or_start p k).1
  unfolding join_or_start
  join_or_start-IsBounded p k e h =
      if-cases (λ (x : Acquired × Pool). IsBounded x.1) (JsMap.has p.pending k) (joins, p)
        (starts, record p { pending = JsMap.set p.pending k waiting }) (λ _. h)
        (λ _. record { limit = h.limit; tables = Inv-start max _ _ _ h.tables k e })

  look_up-IsBounded :
      (p : Pool) (k : String) (o : Option ActiveContainer)
      → JsMap.get p.active k ≡ o
      → IsBounded p
      → IsBounded (look_up p k o).1
  look_up-IsBounded p k none e h = join_or_start-IsBounded p k (rw e refl) h
  look_up-IsBounded p k (some c) e h = h

  pub look_again-IsBounded : (p : Pool) (k : String) → IsBounded p → IsBounded (look_again p k).1
  unfolding look_again
  look_again-IsBounded p k h = look_up-IsBounded p k (JsMap.get p.active k) refl h

  first_look-IsBounded :
      (p : Pool) (k signature : String) (o : Option ActiveContainer)
      → JsMap.get p.active k ≡ o
      → IsBounded p
      → IsBounded (first_look p k signature o).1
  first_look-IsBounded p k signature none e h = join_or_start-IsBounded p k (rw e refl) h
  first_look-IsBounded p k signature (some c) e h =
      if-cases (λ (x : Acquired × Pool). IsBounded x.1) (str_eq c.config_signature signature)
        (probes c, p) (evicting, evict_session p k) (λ _. h) (λ _. evict_session-IsBounded p k h)

  pub acquire-IsBounded :
      (p : Pool) (k signature : String)
      → IsBounded p
      → IsBounded (acquire_for_session p k signature).1
  unfolding acquire_for_session
  acquire-IsBounded p k signature h =
      if-cases (λ (x : Acquired × Pool). IsBounded x.1) p.shutting_down (shut_down, p) _ (λ _. h)
        λ _. first_look-IsBounded p k signature (JsMap.get p.active k) refl h

  touch_probed-IsBounded :
      (p : Pool) (k : String) (c : ActiveContainer) (now : ℕ) (o : Option ActiveContainer)
      → JsMap.get p.active k ≡ o
      → IsBounded p
      → IsBounded (touch_probed p k c now o)
  touch_probed-IsBounded p k c now none e h = h
  touch_probed-IsBounded p k c now (some d) e h =
      if-cases IsBounded (str_eq d.container_id c.container_id) (touch_entry p k now (some d)) p
        (λ _. touch-IsBounded p k now (some d) e h) (λ _. h)

  pub after_probe-IsBounded :
      (p : Pool) (k : String) (c : ActiveContainer) (healthy : Bool) (now : ℕ)
      → IsBounded p
      → IsBounded (after_probe p k c healthy now).1
  unfolding after_probe
  after_probe-IsBounded p k c true now h =
      touch_probed-IsBounded p k c now (JsMap.get p.active k) refl h
  after_probe-IsBounded p k c false now h = evict_session-IsBounded p k h
