-- ===== src/Pool/Warm/Room.antt =====
-- The warm containers and the reservations for more stay within the limit.
use openclaw_managed_agents.Prelude.{
  ℕ, suc, ◌+◌, ◌≤◌, String, ◌≡◌, refl, sym, ap, ◌∙◌, inl, inr, Bool, true, false, not, ◌&&◌, Option,
  none, some, [], ◌∷◌, arith, eq_iff, ltb, leb, str_eq, if◌then◌else◌, Bool-cases, if-cases,
  is_some, length, All,
}
use openclaw_managed_agents.JsMap
use openclaw_managed_agents.JsMap.{JsMap}
use openclaw_managed_agents.Pool.{Pool, WarmContainer}
use openclaw_managed_agents.Pool.Capacity.Tables.{length-set, length-delete-le}
use openclaw_managed_agents.Pool.Warm.{
  Admission, older_warm, oldest_from, find_oldest_warm_entry, has_signature, is_reserved_as,
  reserve, without, evict_oldest, occupied_slots, take_slot, replace_stale, no_spawn,
  reserve_warm_slot, release_warm_reservation, insert_warm, finish_warm, stop,
}

-- The warm containers are listed under their agents.
abbrev pub IsKeyed : JsMap WarmContainer → Type 0
IsKeyed = All (λ e. str_eq e.0 e.1.agent_id ≡ true)

abbrev Holds : (WarmContainer → Type 0) → Option WarmContainer → Type 0
Holds P none = Unit
Holds P (some w) = P w

Holds-older :
    (P : WarmContainer → Type 0) (o : Option WarmContainer) (w : WarmContainer)
    → Holds P o
    → P w
    → Holds P (older_warm o w)
Holds-older P none w h p = p
Holds-older P (some v) w h p =
    if-cases (Holds P) (ltb w.spawned_at v.spawned_at) (some w) (some v) (λ y. p) (λ n. h)

Holds-oldest :
    (P : WarmContainer → Type 0) (es : JsMap WarmContainer) (o : Option WarmContainer)
    → Holds P o
    → All (λ e. P e.1) es
    → Holds P (oldest_from o es)
unfolding oldest_from
Holds-oldest P [] o h a = h
Holds-oldest P (e ∷ es) o h a = Holds-oldest P es (older_warm o e.1) (Holds-older P o e.1 h a.0) a.1

module _ (m : JsMap WarmContainer) where
  has-cons :
      (e : String × WarmContainer) (k : String)
      → is_some (JsMap.get m k) ≡ true
      → is_some (JsMap.get (e ∷ m) k) ≡ true
  unfolding JsMap.get
  has-cons e k h = ground arith

  has-head :
      (e : String × WarmContainer)
      → str_eq e.0 e.1.agent_id ≡ true
      → is_some (JsMap.get (e ∷ m) e.1.agent_id) ≡ true
  unfolding JsMap.get
  has-head e h = rw h refl

All-has-cons :
    (m : JsMap WarmContainer) (e : String × WarmContainer) (es : JsMap WarmContainer)
    → All (λ d. is_some (JsMap.get m d.1.agent_id) ≡ true) es
    → All (λ d. is_some (JsMap.get (e ∷ m) d.1.agent_id) ≡ true) es
All-has-cons m e [] h = tt
All-has-cons m e (d ∷ ds) h = (has-cons m e d.1.agent_id h.0, All-has-cons m e ds h.1)

keyed_has :
    (m : JsMap WarmContainer) → IsKeyed m → All (λ e. is_some (JsMap.get m e.1.agent_id) ≡ true) m
keyed_has [] h = tt
keyed_has (e ∷ m) h = (has-head m e h.0, All-has-cons m e m (keyed_has m h.1))

module _ {V : Type 0} where
  length-delete-has :
      (m : JsMap V) (k : String)
      → is_some (JsMap.get m k) ≡ true
      → suc (length (JsMap.delete m k)) ≤ length m
  unfolding JsMap.delete JsMap.get
  length-delete-has [] k h = absurd (ground arith)
  length-delete-has ((j, w) ∷ m) k h =
      ground (arith, eq_iff j k, length-delete-has m k, length-delete-le m k)

  length-set-le : (m : JsMap V) (k : String) (v : V) → length (JsMap.set m k v) ≤ suc (length m)
  length-set-le m k v = ground (arith, length-set m k v)

module _ (max : ℕ) where
  reserve_le :
      (p : Pool) (a s : String) (x y : Option WarmContainer)
      → suc (occupied_slots p) ≤ max
      → occupied_slots (reserve p a s x y).1 ≤ max
  unfolding occupied_slots
  reserve_le p a s x y h = omega (arith, length-set-le p.warm_reservations a s, h)

  evict_le :
      (p : Pool) (a s : String) (x o : Option WarmContainer)
      → Holds (λ w. is_some (JsMap.get p.warm w.agent_id) ≡ true) o
      → occupied_slots p ≤ max
      → occupied_slots (evict_oldest p a s x o).1 ≤ max
  unfolding occupied_slots
  evict_le p a s x none k h = h
  evict_le p a s x (some w) k h =
      omega (arith, length-set-le p.warm_reservations a s, length-delete-has p.warm w.agent_id k, h)

take_slot_le :
    (p : Pool) (a s : String) (x : Option WarmContainer)
    → IsKeyed p.warm
    → 1 ≤ p.cfg.max_warm_containers
    → occupied_slots p ≤ p.cfg.max_warm_containers
    → occupied_slots (take_slot p a s x).1 ≤ p.cfg.max_warm_containers
unfolding find_oldest_warm_entry
take_slot_le p a s x k m h =
    let max = p.cfg.max_warm_containers in
    if-cases (λ r. occupied_slots r.1 ≤ max) (ltb 0 max && leb max (occupied_slots p))
      (evict_oldest p a s x (find_oldest_warm_entry p)) (reserve p a s x none)
      (λ y.
        evict_le max p a s x (find_oldest_warm_entry p)
          (Holds-oldest (λ w. is_some (JsMap.get p.warm w.agent_id) ≡ true) p.warm none tt
            (keyed_has p.warm k))
          h)
      (λ n. reserve_le max p a s x none (free n))
  where
    free :
        ltb 0 p.cfg.max_warm_containers && leb p.cfg.max_warm_containers (occupied_slots p) ≡ false
        → suc (occupied_slots p) ≤ p.cfg.max_warm_containers
    free n = ground (arith, m)

IsKeyed-delete : (m : JsMap WarmContainer) (k : String) → IsKeyed m → IsKeyed (JsMap.delete m k)
unfolding JsMap.delete
IsKeyed-delete [] k h = tt
IsKeyed-delete ((j, w) ∷ m) k h = ground (arith, h.0, IsKeyed-delete m k h.1)

replace_stale_le :
    (p : Pool) (a s : String) (o : Option WarmContainer)
    → IsKeyed p.warm
    → 1 ≤ p.cfg.max_warm_containers
    → occupied_slots p ≤ p.cfg.max_warm_containers
    → occupied_slots (replace_stale p a s o).1 ≤ p.cfg.max_warm_containers
unfolding occupied_slots
replace_stale_le p a s none k m h = take_slot_le p a s none k m h
replace_stale_le p a s (some w) k m h =
    take_slot_le (without p a) a s (some w) (IsKeyed-delete p.warm a k) m
      (omega (arith, length-delete-le p.warm a, h))

reserve_warm_slot_le :
    (p : Pool) (a s : String)
    → IsKeyed p.warm
    → 1 ≤ p.cfg.max_warm_containers
    → occupied_slots p ≤ p.cfg.max_warm_containers
    → occupied_slots (reserve_warm_slot p a s).1 ≤ p.cfg.max_warm_containers
unfolding reserve_warm_slot
reserve_warm_slot_le p a s k m h =
    unless p.shutting_down _ (replace (has_signature s (JsMap.get p.warm a)))
  where
    unless :
        (c : Bool) (r : Admission × Pool)
        → occupied_slots r.1 ≤ p.cfg.max_warm_containers
        → occupied_slots (if c then (no_spawn, p) else r).1 ≤ p.cfg.max_warm_containers
    unless true r i = h
    unless false r i = i

    replace :
        (c : Bool)
        → occupied_slots
            (if c
              then (no_spawn, p)
              else if is_reserved_as s (JsMap.get p.warm_reservations a)
              then (no_spawn, p)
              else replace_stale p a s (JsMap.get p.warm a)).1
          ≤ p.cfg.max_warm_containers
    replace c = unless c _ (
        unless (is_reserved_as s (JsMap.get p.warm_reservations a)) _
          (replace_stale_le p a s (JsMap.get p.warm a) k m h))

-- An insertion adds one at most, and leaves the reservations.
IsInserted : Pool → Pool → Type 0
IsInserted p q = (length q.warm ≤ suc (length p.warm)) × (q.warm_reservations ≡ p.warm_reservations)

insert_warm-IsInserted :
    (p : Pool) (a s c : String) (now : ℕ) → IsInserted p (insert_warm p a s c now)
unfolding insert_warm IsInserted
insert_warm-IsInserted p a s c now = unless p.shutting_down _ (
    unless (not (is_reserved_as s (JsMap.get p.desired_warm_signature a))) _ (
      unless (has_signature s (JsMap.get p.warm a)) _ (
        length-set-le p.warm a
            (record { agent_id = a; container_id = c; config_signature = s; spawned_at = now }),
        refl,
      )))
  where
    unless : (b : Bool) (q : Pool) → IsInserted p q → IsInserted p (if b then stop p c else q)
    unless true q i = (omega arith, refl)
    unless false q i = i

reserved_has : (s : String) (o : Option String) → is_reserved_as s o ≡ true → is_some o ≡ true
reserved_has s none h = absurd (ground arith)
reserved_has s (some t) h = refl

release_le :
    (p q : Pool) (a s : String)
    → IsInserted p q
    → occupied_slots (release_warm_reservation q a s)
      ≤ occupied_slots p + (if is_reserved_as s (JsMap.get p.warm_reservations a) then 0 else 1)
unfolding release_warm_reservation occupied_slots IsInserted
release_le p q a s (i, e) = elim (Bool-cases (is_reserved_as s (JsMap.get q.warm_reservations a))) [
  | inl y ↦
      rw (y, ap (λ m. is_reserved_as s (JsMap.get m a)) (sym e) ∙ y)
        (omega (
          arith,
          i,
          ap length e,
          length-delete-has q.warm_reservations a
              (reserved_has s (JsMap.get q.warm_reservations a) y),
        ))
  | inr n ↦
      rw (n, ap (λ m. is_reserved_as s (JsMap.get m a)) (sym e) ∙ n) (omega (arith, i, ap length e))
]

-- The slots that are occupied, by warm containers and by reservations, stay within a limit that is not 0 when a slot is
-- reserved. When the container is ready they stay within what they were if its reservation still holds, and else within one more.
pub occupied_slots-le :
    (p : Pool) (agent_id signature container_id : String) (now : ℕ)
    → IsKeyed p.warm
    → 1 ≤ p.cfg.max_warm_containers
    → occupied_slots p ≤ p.cfg.max_warm_containers
    → (occupied_slots (reserve_warm_slot p agent_id signature).1 ≤ p.cfg.max_warm_containers)
      × (occupied_slots (finish_warm p agent_id signature container_id now)
          ≤ occupied_slots p
            + (if is_reserved_as signature (JsMap.get p.warm_reservations agent_id) then 0 else 1))
unfolding finish_warm
occupied_slots-le p a s c now k m h = (
  reserve_warm_slot_le p a s k m h,
  release_le p (insert_warm p a s c now) a s (insert_warm-IsInserted p a s c now),
)
