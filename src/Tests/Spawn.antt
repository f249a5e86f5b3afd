-- ===== src/Tests/Spawn.antt =====
-- The choice of credentials at a concrete vault.
use openclaw_managed_agents.Prelude.{String, ◌≡◌, refl, none, some, List, [], ◌∷◌}
use Prim.Native.String
use openclaw_managed_agents.JsMap
use openclaw_managed_agents.Types.Agent.{McpServerConfig}
use openclaw_managed_agents.Types.Vault.{VaultCredential, static_bearer}
use openclaw_managed_agents.Vaults
use openclaw_managed_agents.Router.State.{Router}
use openclaw_managed_agents.Router.Spawn.{credential_for, inject_vault_credentials}
use openclaw_managed_agents.Router.Spawn.Credentials.{
  IsBest, credential_for-IsBest, header, inject_vault_credentials-header,
}

abbrev credential : String → String → String → VaultCredential
credential id url bearer = record {
  credential_id = id;
  vault_id = "v1";
  name = id;
  match_url = url;
  secret = static_bearer bearer;
  created_at = 1;
  updated_at = 1;
}

abbrev narrow : VaultCredential
narrow = credential "c2" "https://mcp.example/mail" "narrow"

abbrev credentials : List VaultCredential
credentials = credential "c1" "https://mcp.example/" "wide" ∷ narrow ∷ []

abbrev router : Router
router = record {
  agents = record { agents = []; versions = [] };
  environments = [];
  sessions = [];
  queue = [];
  vaults = record {
    vaults = [];
    credentials = ("c1", credential "c1" "https://mcp.example/" "wide") ∷ ("c2", narrow) ∷ [];
  };
  pending_approvals = [];
  cancelled_during_acquire = [];
  tasks = [];
  next_task_id = 0;
  evicted = [];
}

abbrev server : McpServerConfig
server = record {
  command = none;
  args = none;
  env = none;
  cwd = none;
  url = some "https://mcp.example/mail/v1";
  headers = some (("X-Trace", "1") ∷ []);
  passthrough = [];
}

credential_for_example :
    IsBest credentials "https://mcp.example/mail/v1"
      (credential_for credentials "https://mcp.example/mail/v1")
credential_for_example = credential_for-IsBest credentials "https://mcp.example/mail/v1"

inject_vault_credentials_example :
    header
      (JsMap.get (inject_vault_credentials router (("mail", server) ∷ []) (some "v1")) "mail")
      "Authorization"
    ≡ some (String.◌++◌ "Bearer " "narrow")
unfolding JsMap.get Vaults.list_credentials credential_for
inject_vault_credentials_example =
    inject_vault_credentials-header router (("mail", server) ∷ []) "v1" "mail"
      "https://mcp.example/mail/v1" "Authorization" server narrow refl refl refl refl refl
