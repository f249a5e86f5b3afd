-- ===== src/Vaults.antt =====
-- src/store/memory.ts, `InMemoryVaultStore`: vaults, and the credentials that belong to them. A method
-- takes the time and the identifier that it draws; one that writes returns its result and the store.
pub mod Ownership
pub mod Tokens
use openclaw_managed_agents.Prelude.{
  ℕ, String, Bool, true, false, Option, none, some, List, [], ◌∷◌, leb, str_eq, if◌then◌else◌,
  get_or, filter,
}
use openclaw_managed_agents.Prelude.Sort
use openclaw_managed_agents.JsMap
use openclaw_managed_agents.JsMap.{JsMap}
use openclaw_managed_agents.Types.Vault.{
  Vault, VaultCredential, Secret, OAuthSecret, static_bearer, mcp_oauth,
}

pub record VaultStore : Type 0 where
  pub vaults : JsMap Vault
  pub credentials : JsMap VaultCredential

unfoldable pub create_vault : VaultStore → String → String → String → ℕ → Vault × VaultStore
create_vault s user_id name vault_id now =
    let vault : Vault = record {
      vault_id = vault_id;
      user_id = user_id;
      name = name;
      created_at = now;
      updated_at = now;
    } in
    (vault, record s { vaults = JsMap.set s.vaults vault_id vault })

unfoldable pub get_vault : VaultStore → String → Option Vault
get_vault s vault_id = JsMap.get s.vaults vault_id

-- An empty `userId` is no filter, as the source tests it for truth.
unfoldable pub list_vaults : VaultStore → Option String → List Vault
list_vaults s user_id =
    let all = JsMap.values s.vaults in
    let user = get_or user_id "" in
    let chosen = if str_eq user "" then all else filter (λ v. str_eq v.user_id user) all in
    Sort.sort (λ a b. leb b.created_at a.created_at) chosen

-- The loop that drops the credentials of a deleted vault.
unfoldable pub cascade : String → JsMap VaultCredential → JsMap VaultCredential
cascade vault_id [] = []
cascade vault_id ((k, c) ∷ m) =
    let rest = cascade vault_id m in if str_eq c.vault_id vault_id then rest else (k, c) ∷ rest

unfoldable pub delete_vault : VaultStore → String → Bool × VaultStore
delete_vault s vault_id =
    if JsMap.has s.vaults vault_id
    then (
      true,
      record {
        vaults = JsMap.delete s.vaults vault_id;
        credentials = cascade vault_id s.credentials;
      },
    )
    else (false, s)

pub record AddCredentialInput : Type 0 where
  pub vault_id : String
  pub name : String
  pub match_url : String
  pub secret : Secret

abbrev touched : Option Vault → JsMap Vault → String → ℕ → JsMap Vault
touched none m vault_id now = m
touched (some v) m vault_id now = JsMap.set m vault_id (record v { updated_at = now })

unfoldable pub add_credential :
    VaultStore → AddCredentialInput → String → ℕ → Option VaultCredential × VaultStore
add_credential s args credential_id now =
    let cred : VaultCredential = record {
      credential_id = credential_id;
      vault_id = args.vault_id;
      name = args.name;
      match_url = args.match_url;
      secret = args.secret;
      created_at = now;
      updated_at = now;
    } in
    if JsMap.has s.vaults args.vault_id
    then (
      some cred,
      record {
        vaults = touched (JsMap.get s.vaults args.vault_id) s.vaults args.vault_id now;
        credentials = JsMap.set s.credentials credential_id cred;
      },
    )
    else (none, s)

pub record OAuthTokens : Type 0 where
  pub access_token : String
  pub refresh_token : Option String
  pub expires_at : ℕ

abbrev pub rotated : VaultCredential → OAuthSecret → OAuthTokens → ℕ → VaultCredential
rotated c o args now = record c {
  secret = mcp_oauth (record o {
    access_token = args.access_token;
    refresh_token = get_or args.refresh_token o.refresh_token;
    expires_at = args.expires_at;
  });
  updated_at = now;
}

abbrev pub rotate_secret :
    VaultStore
    → String
    → OAuthTokens
    → ℕ
    → VaultCredential
    → Secret
    → Option VaultCredential × VaultStore
rotate_secret s id args now c (static_bearer token) = (none, s)
rotate_secret s id args now c (mcp_oauth o) = (
  some (rotated c o args now),
  record s { credentials = JsMap.set s.credentials id (rotated c o args now) },
)

abbrev pub rotate :
    VaultStore
    → String
    → OAuthTokens
    → ℕ
    → Option VaultCredential
    → Option VaultCredential × VaultStore
rotate s id args now none = (none, s)
rotate s id args now (some c) = rotate_secret s id args now c c.secret

unfoldable pub update_oauth_tokens :
    VaultStore → String → OAuthTokens → ℕ → Option VaultCredential × VaultStore
update_oauth_tokens s credential_id args now =
    rotate s credential_id args now (JsMap.get s.credentials credential_id)

unfoldable pub get_credential : VaultStore → String → Option VaultCredential
get_credential s credential_id = JsMap.get s.credentials credential_id

unfoldable pub list_credentials : VaultStore → String → List VaultCredential
list_credentials s vault_id =
    Sort.sort (λ a b. leb a.created_at b.created_at)
      (filter (λ c. str_eq c.vault_id vault_id) (JsMap.values s.credentials))

unfoldable pub delete_credential : VaultStore → String → Bool × VaultStore
delete_credential s credential_id = (
  JsMap.has s.credentials credential_id,
  record s { credentials = JsMap.delete s.credentials credential_id },
)
