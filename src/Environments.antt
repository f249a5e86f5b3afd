-- ===== src/Environments.antt =====
-- src/store/memory.ts, `InMemoryEnvironmentStore`.
use openclaw_managed_agents.Prelude.{ℕ, String, Bool, Option, List, get_or}
use openclaw_managed_agents.JsMap
use openclaw_managed_agents.JsMap.{JsMap}
use openclaw_managed_agents.Types.Agent.{EnvironmentConfig, Networking, Packages}

abbrev pub EnvironmentStore : Type 0
EnvironmentStore = JsMap EnvironmentConfig

pub record CreateEnvironmentRequest : Type 0 where
  pub name : String
  pub description : Option String
  pub packages : Option Packages
  pub networking : Networking

-- `fresh` is what `nanoid()` draws, with its prefix.
unfoldable pub create :
    EnvironmentStore → CreateEnvironmentRequest → String → ℕ → EnvironmentConfig × EnvironmentStore
create m req fresh now =
    let env : EnvironmentConfig = record {
      environment_id = fresh;
      name = req.name;
      description = get_or req.description "";
      packages = req.packages;
      networking = req.networking;
      created_at = now;
    } in
    (env, JsMap.set m fresh env)

unfoldable pub get : EnvironmentStore → String → Option EnvironmentConfig
get m environment_id = JsMap.get m environment_id

unfoldable pub list : EnvironmentStore → List EnvironmentConfig
list m = JsMap.values m

unfoldable pub delete : EnvironmentStore → String → Bool × EnvironmentStore
delete m environment_id = (JsMap.has m environment_id, JsMap.delete m environment_id)
