-- ===== src/Types/Vault.antt =====
-- src/store/types.ts and src/orchestrator/types.ts: vaults, credentials, users and audit records.
use openclaw_managed_agents.Prelude.{ℕ, String, Option, List}

pub record Vault : Type 0 where
  pub vault_id : String
  pub user_id : String
  pub name : String
  pub created_at : ℕ
  pub updated_at : ℕ

pub record OAuthSecret : Type 0 where
  pub access_token : String
  pub refresh_token : String
  pub expires_at : ℕ
  pub token_endpoint : String
  pub client_id : String
  pub client_secret : String
  pub scopes : Option (List String)

-- What the two variants of a credential do not share.
pub data Secret : Type 0 where
  static_bearer : String → Secret
  mcp_oauth : OAuthSecret → Secret

pub record VaultCredential : Type 0 where
  pub credential_id : String
  pub vault_id : String
  pub name : String
  pub match_url : String
  pub secret : Secret
  pub created_at : ℕ
  pub updated_at : ℕ

pub data UserTier : Type 0 where
  anonymous github : UserTier

pub record User : Type 0 where
  pub user_id : String
  pub github_id : Option ℕ
  pub github_username : Option String
  pub avatar_url : Option String
  pub api_token : String
  pub tier : UserTier
  pub created_at : ℕ
  pub expires_at : Option ℕ

-- The metadata of a record is kept as its JSON text.
pub record AuditRecord : Type 0 where
  pub id : ℕ
  pub ts : ℕ
  pub request_id : Option String
  pub actor : String
  pub action : String
  pub target : Option String
  pub outcome : String
  pub metadata : Option String
