-- ===== src/Router/Spawn.antt =====
-- What a container is spawned with, as far as it depends on the session: `injectVaultCredentials`,
-- `resolveNetworking` and `shouldBypassWarmPool` of src/orchestrator/router.ts. The lengths of two
-- addresses are compared in bytes; both are prefixes of one URL, where the source's UTF-16 units order
-- them alike.
pub mod Credentials
use openclaw_managed_agents.Prelude.{
  String, Bool, false, not, ◌||◌, Option, none, some, List, [], ◌∷◌, ◌++◌, map, ltb, leb, str_eq,
  if◌then◌else◌, get_or, is_some, length, filter, any,
}
use Prim.Native.String
use Prim.Native.String.{len}
use text.Mathlib.Text.{starts_with}
use openclaw_managed_agents.JsMap
use openclaw_managed_agents.JsMap.{JsMap}
use openclaw_managed_agents.Types.{Session}
use openclaw_managed_agents.Types.Agent.{
  McpServers, McpServerConfig, EnvironmentConfig, Networking, unrestricted, limited,
}
use openclaw_managed_agents.Types.Vault.{VaultCredential, Secret, static_bearer, mcp_oauth}
use openclaw_managed_agents.Vaults
use openclaw_managed_agents.Prelude.Sort
use openclaw_managed_agents.Router.State.{Router}

abbrev pub bearer_of : Secret → String
bearer_of (static_bearer token) = token
bearer_of (mcp_oauth o) = o.access_token

-- `xs[0]`.
abbrev pub first_of : List VaultCredential → Option VaultCredential
first_of [] = none
first_of (c ∷ cs) = some c

abbrev pub longer : VaultCredential → VaultCredential → Bool
longer a b = leb (len b.match_url) (len a.match_url)

unfoldable pub credential_for : List VaultCredential → String → Option VaultCredential
credential_for creds url =
    first_of (Sort.sort longer (filter (λ c. starts_with url c.match_url) creds))

abbrev pub authorise : McpServerConfig → Option VaultCredential → McpServerConfig
authorise server none = server
authorise server (some c) = record server {
  headers = some (
      JsMap.set (get_or server.headers []) "Authorization"
        (String.◌++◌ "Bearer " (bearer_of c.secret)));
}

-- A server without a URL, or with an empty one, is passed through.
abbrev pub serve : List VaultCredential → McpServerConfig → Option String → McpServerConfig
serve creds server none = server
serve creds server (some url) =
    if str_eq url "" then server else authorise server (credential_for creds url)

abbrev pub inject_all : List VaultCredential → McpServers → McpServers
inject_all [] servers = servers
inject_all (c ∷ cs) servers = map (λ e. (e.0, serve (c ∷ cs) e.1 e.1.url)) servers

unfoldable pub inject_vault_credentials : Router → McpServers → Option String → McpServers
inject_vault_credentials r servers none = servers
inject_vault_credentials r servers (some vault_id) =
    if str_eq vault_id ""
    then servers
    else inject_all (Vaults.list_credentials r.vaults vault_id) servers

abbrev pub environment_of : Router → Session → Option EnvironmentConfig
environment_of r s = elim s.environment_id [
  | none ↦ none
  | some id ↦ if str_eq id "" then none else JsMap.get r.environments id
]

abbrev pub networking_of : Option EnvironmentConfig → Option Networking
networking_of none = none
networking_of (some e) = elim e.networking [
  | unrestricted ↦ none
  | limited hosts mcp packages ↦ some (limited hosts mcp packages)
]

unfoldable pub resolve_networking : Router → Session → Option Networking
resolve_networking r s = networking_of (environment_of r s)

abbrev pub has_packages : Option EnvironmentConfig → Bool
has_packages none = false
has_packages (some e) = elim e.packages [
  | none ↦ false
  | some p ↦ any (λ xs. ltb 0 (length xs)) (JsMap.values p)
]

abbrev pub given : Option String → Bool
given none = false
given (some v) = not (str_eq v "")

unfoldable pub should_bypass_warm_pool : Router → Option Session → Bool
should_bypass_warm_pool r none = false
should_bypass_warm_pool r (some s) =
    given s.vault_id || (is_some (resolve_networking r s) || has_packages (environment_of r s))
