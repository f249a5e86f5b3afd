-- ===== src/Tests/Vaults.antt =====
-- The vault store at concrete calls.
use openclaw_managed_agents.Prelude.{ℕ, String, refl, none, [], ◌∷◌}
use openclaw_managed_agents.JsMap
use openclaw_managed_agents.Types.Vault.{Vault, VaultCredential, mcp_oauth}
use openclaw_managed_agents.Vaults.{VaultStore, OAuthTokens, update_oauth_tokens}
use openclaw_managed_agents.Vaults.Ownership.{
  deletes_vault, updates_tokens, run, IsOwned, run-IsOwned,
}
use openclaw_managed_agents.Vaults.Tokens.{Rotation, update_oauth_tokens-Rotation}

abbrev vault : String → ℕ → Vault
vault id t = record { vault_id = id; user_id = "u1"; name = "keys"; created_at = t; updated_at = t }

abbrev credential : String → String → ℕ → VaultCredential
credential id v t = record {
  credential_id = id;
  vault_id = v;
  name = "api";
  match_url = "https://mcp.example/";
  secret = mcp_oauth (record {
    access_token = "old";
    refresh_token = "r";
    expires_at = 100;
    token_endpoint = "https://auth.example/token";
    client_id = "c";
    client_secret = "";
    scopes = none;
  });
  created_at = t;
  updated_at = t;
}

abbrev store : VaultStore
store = record {
  vaults = ("v1", vault "v1" 1) ∷ ("v2", vault "v2" 2) ∷ [];
  credentials =
      ("c1", credential "c1" "v1" 9)
      ∷ ("c2", credential "c2" "v2" 5)
      ∷ ("c3", credential "c3" "v1" 3)
      ∷ [];
}

abbrev fresh_tokens : OAuthTokens
fresh_tokens = record { access_token = "new"; refresh_token = none; expires_at = 900 }

run-IsOwned_example :
    IsOwned (run store (updates_tokens "c1" fresh_tokens 50 ∷ deletes_vault "v1" ∷ []))
unfolding JsMap.get
run-IsOwned_example =
    run-IsOwned store (updates_tokens "c1" fresh_tokens 50 ∷ deletes_vault "v1" ∷ [])
      (refl, (refl, (refl, tt)))

update_oauth_tokens-Rotation_example :
    Rotation store "c1" fresh_tokens 50 (update_oauth_tokens store "c1" fresh_tokens 50)
update_oauth_tokens-Rotation_example = update_oauth_tokens-Rotation store "c1" fresh_tokens 50
