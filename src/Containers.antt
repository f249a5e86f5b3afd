-- ===== src/Containers.antt =====
-- src/store/memory.ts, `InMemorySessionContainerStore`: which container a session has. An entry is copied
-- on its way in and out, which a value needs no copy for.
use openclaw_managed_agents.Prelude.{ℕ, String, Option, List}
use openclaw_managed_agents.JsMap
use openclaw_managed_agents.JsMap.{JsMap}

pub data PoolSource : Type 0 where
  cold warm limited adopt : PoolSource

pub record SessionContainer : Type 0 where
  pub session_id : String
  pub agent_id : String
  pub container_id : String
  pub container_name : String
  pub container_port : ℕ
  pub gateway_token : String
  pub claimed_at : ℕ
  pub config_signature : Option String
  pub spawned_at : Option ℕ
  pub boot_ms : Option ℕ
  pub pool_source : PoolSource

abbrev pub SessionContainerStore : Type 0
SessionContainerStore = JsMap SessionContainer

unfoldable pub put : SessionContainerStore → SessionContainer → SessionContainerStore
put m entry = JsMap.set m entry.session_id entry

unfoldable pub get : SessionContainerStore → String → Option SessionContainer
get m session_id = JsMap.get m session_id

unfoldable pub delete : SessionContainerStore → String → SessionContainerStore
delete m session_id = JsMap.delete m session_id

unfoldable pub list : SessionContainerStore → List SessionContainer
list m = JsMap.values m
