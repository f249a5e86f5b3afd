-- ===== src/Pool.antt =====
-- src/runtime/pool.ts, `SessionContainerPool`: the tables of the pool and the containers and networks that it
-- asks the runtime to stop and remove, in order. What the session store says of a session, `isBusy` and
-- `shouldReapSession`, are arguments, and so are a probe's result and the container that a spawn gives.
pub mod Active
pub mod Warm
pub mod Schedule
pub mod Capacity
pub mod Victim
use openclaw_managed_agents.Prelude.{
  ℕ, ◌+◌, String, Bool, true, not, Option, none, some, List, [], ◌∷◌, ◌++◌, map, leb, str_eq,
  if◌then◌else◌, filter, any,
}
use openclaw_managed_agents.JsMap
use openclaw_managed_agents.JsMap.{JsMap}

-- `ownedResources` of a session with limited networking.
pub record Owned : Type 0 where
  pub sidecar_id : String
  pub networks : List String

pub record ActiveContainer : Type 0 where
  pub session_id : String
  pub container_id : String
  pub config_signature : String
  pub spawned_at : ℕ
  pub last_used_at : ℕ
  pub owned_resources : Option Owned

pub record WarmContainer : Type 0 where
  pub agent_id : String
  pub container_id : String
  pub config_signature : String
  pub spawned_at : ℕ

-- A limit of 0 is none.
pub record PoolConfig : Type 0 where
  pub idle_timeout_ms : ℕ
  pub max_active_containers : ℕ
  pub max_warm_containers : ℕ
  pub warm_idle_timeout_ms : ℕ

-- Where the acquire of a fresh container stands: before the lock, within the loop that frees a slot, or behind it.
pub data Phase : Type 0 where
  waiting looping admitted : Phase

pub record Pool : Type 0 where
  pub cfg : PoolConfig
  pub active : JsMap ActiveContainer
  pub pending : JsMap Phase
  pub warm : JsMap WarmContainer
  pub warm_reservations : JsMap String
  pub desired_warm_signature : JsMap String
  pub active_reservations : List String
  pub shutting_down : Bool
  pub stopped : List String
  pub removed_networks : List String

-- A `Set` of strings.
abbrev pub contains : List String → String → Bool
contains xs k = any (λ x. str_eq x k) xs

abbrev pub add : List String → String → List String
add xs k = if contains xs k then xs else xs ++ k ∷ []

abbrev pub remove : List String → String → List String
remove xs k = filter (λ x. not (str_eq x k)) xs

unfoldable pub get_container_id : Pool → String → Option String
get_container_id p session_id = elim (JsMap.get p.active session_id) [
  | none ↦ none
  | some e ↦ some e.container_id
]

abbrev pub touch : ℕ → ActiveContainer → ActiveContainer
touch now e = record e { last_used_at = now }

abbrev pub touch_entry : Pool → String → ℕ → Option ActiveContainer → Pool
touch_entry p session_id now none = p
touch_entry p session_id now (some e) = record p {
  active = JsMap.set p.active session_id (touch now e);
}

unfoldable pub touch_session : Pool → String → ℕ → Pool
touch_session p session_id now = touch_entry p session_id now (JsMap.get p.active session_id)

-- The containers of an entry in the order in which they are stopped: the agent's first.
abbrev pub containers_of : ActiveContainer → List String
containers_of e = e.container_id ∷ elim e.owned_resources [ none ↦ [] | some o ↦ o.sidecar_id ∷ [] ]

abbrev pub networks_of : ActiveContainer → List String
networks_of e = elim e.owned_resources [ none ↦ [] | some o ↦ o.networks ]

-- What is left of a pool when an entry's session is gone and its resources are torn down.
abbrev pub release : Pool → String → ActiveContainer → Pool
release p session_id e = record p {
  active = JsMap.delete p.active session_id;
  stopped = p.stopped ++ containers_of e;
  removed_networks = p.removed_networks ++ networks_of e;
}

abbrev pub evict_entry : Pool → String → Option ActiveContainer → Pool
evict_entry p session_id none = p
evict_entry p session_id (some e) = release p session_id e

unfoldable pub evict_session : Pool → String → Pool
evict_session p session_id = evict_entry p session_id (JsMap.get p.active session_id)

-- One entry of the sweep's snapshot, which another call may have replaced meanwhile.
unfoldable pub reap_entry : Pool → (String → Bool) → (String → Bool) → ℕ → ActiveContainer → Pool
reap_entry p is_busy should_reap now e =
    if leb now (e.last_used_at + p.cfg.idle_timeout_ms)
    then p
    else if is_busy e.session_id
    then p
    else if not (should_reap e.session_id)
    then p
    else release p e.session_id e

-- `shutdown` up to its wait for the acquires and warms under way.
unfoldable pub shutdown_begins : Pool → Pool
shutdown_begins p = record p { shutting_down = true; desired_warm_signature = [] }

abbrev flat {ℓ κ} : {A : Type ℓ} {B : Type κ} → (A → List B) → List A → List B
flat f [] = []
flat f (x ∷ xs) = f x ++ flat f xs

abbrev sidecars_of : ActiveContainer → List String
sidecars_of e = elim e.owned_resources [ none ↦ [] | some o ↦ o.sidecar_id ∷ [] ]

-- The rest of it.
unfoldable pub shutdown_ends : Pool → Pool
shutdown_ends p =
    let entries = JsMap.values p.active in
    record p {
      active = [];
      warm = [];
      stopped =
          p.stopped
          ++ map (λ e. e.container_id) entries
          ++ flat sidecars_of entries
          ++ map (λ e. e.container_id) (JsMap.values p.warm);
      removed_networks = p.removed_networks ++ flat networks_of entries;
    }
