-- ===== src/Vaults/Tokens.antt =====
-- The listings of vaults and credentials, and the rotation of OAuth tokens.
use mathlib.Core.List.{Perm, List}
use openclaw_managed_agents.Prelude.{
  ℕ, String, ◌≡◌, refl, Bool, true, false, Option, none, some, arith, leb, str_eq, if◌then◌else◌,
  get_or, filter,
}
use openclaw_managed_agents.Prelude.Sort.{sort-IsSorted, IsSorted, sort-perm}
use openclaw_managed_agents.JsMap
use openclaw_managed_agents.JsMap.{JsMap, map_laws, values}
use openclaw_managed_agents.Types.Vault.{
  Vault, VaultCredential, Secret, OAuthSecret, static_bearer, mcp_oauth,
}
use openclaw_managed_agents.Vaults.{
  VaultStore, OAuthTokens, rotate, rotate_secret, rotated, update_oauth_tokens, get_credential,
  list_credentials, list_vaults,
}

abbrev pub older : VaultCredential → VaultCredential → Bool
older a b = leb a.created_at b.created_at

abbrev pub newer : Vault → Vault → Bool
newer a b = leb b.created_at a.created_at

older_total : (a b : VaultCredential) → older a b ≡ false → older b a ≡ true
older_total a b h = ground arith

newer_total : (a b : Vault) → newer a b ≡ false → newer b a ≡ true
newer_total a b h = ground arith

-- The credentials of a vault are listed oldest first, each once, and none of another vault.
pub list_credentials_lem :
    (s : VaultStore) (k : String)
    → IsSorted older (list_credentials s k)
      × Perm (list_credentials s k) (filter (λ c. str_eq c.vault_id k) (values s.credentials))
unfolding list_credentials
list_credentials_lem s k =
    let own = filter (λ (c : VaultCredential). str_eq c.vault_id k) (values s.credentials) in
    (sort-IsSorted older older_total own, sort-perm older own)

-- The vaults of a user are listed newest first, each once; without a user, or for the empty one, all
-- vaults are.
pub list_vaults_lem :
    (s : VaultStore) (user : Option String)
    → IsSorted newer (list_vaults s user)
      × Perm (list_vaults s user) (
          if str_eq (get_or user "") ""
          then values s.vaults
          else filter (λ v. str_eq v.user_id (get_or user "")) (values s.vaults))
unfolding list_vaults
list_vaults_lem s user =
    let chosen : List Vault =
      if str_eq (get_or user "") ""
      then values s.vaults
      else filter (λ v. str_eq v.user_id (get_or user "")) (values s.vaults) in
    (sort-IsSorted newer newer_total chosen, sort-perm newer chosen)

-- What a rotation of tokens comes to. The constructors give the reason for a refusal.
pub data Rotation (s : VaultStore) (id : String) (args : OAuthTokens) (now : ℕ)
    : Option VaultCredential × VaultStore → Type 0 where
  missing : JsMap.get s.credentials id ≡ none → Rotation s id args now (none, s)
  not_oauth :
      (c : VaultCredential) (token : String)
      → JsMap.get s.credentials id ≡ some c
      → c.secret ≡ static_bearer token
      → Rotation s id args now (none, s)
  done :
      (c c' : VaultCredential) (o : OAuthSecret) (s' : VaultStore)
      → JsMap.get s.credentials id ≡ some c
      → c.secret ≡ mcp_oauth o
      → c'.secret
        ≡ mcp_oauth (record o {
          access_token = args.access_token;
          refresh_token = get_or args.refresh_token o.refresh_token;
          expires_at = args.expires_at;
        })
      → c' ≡ record c { secret = c'.secret; updated_at = now }
      → ((j : String) → get_credential s' j ≡ (if str_eq id j then some c' else get_credential s j))
      → s'.vaults ≡ s.vaults
      → Rotation s id args now (some c', s')

rotate_secret-Rotation :
    (s : VaultStore) (id : String) (args : OAuthTokens) (now : ℕ) (c : VaultCredential) (x : Secret)
    → JsMap.get s.credentials id ≡ some c
    → c.secret ≡ x
    → Rotation s id args now (rotate_secret s id args now c x)
unfolding get_credential
rotate_secret-Rotation s id args now c (static_bearer t) e x = not_oauth c t e x
rotate_secret-Rotation s id args now c (mcp_oauth o) e x =
    done c (rotated c o args now) o _ e x refl refl (λ j. simp map_laws) refl

rotate-Rotation :
    (s : VaultStore) (id : String) (args : OAuthTokens) (now : ℕ) (o : Option VaultCredential)
    → JsMap.get s.credentials id ≡ o
    → Rotation s id args now (rotate s id args now o)
rotate-Rotation s id args now none e = missing e
rotate-Rotation s id args now (some c) e = rotate_secret-Rotation s id args now c c.secret e refl

-- A rotation is refused, with nothing written, for an unknown credential and for one that is no OAuth
-- credential. Otherwise the credential gets the new access token and expiry, keeps its refresh token
-- unless a new one is given, and keeps all else but its time of change; no other credential changes.
pub update_oauth_tokens-Rotation :
    (s : VaultStore) (id : String) (args : OAuthTokens) (now : ℕ)
    → Rotation s id args now (update_oauth_tokens s id args now)
unfolding update_oauth_tokens
update_oauth_tokens-Rotation s id args now =
    rotate-Rotation s id args now (JsMap.get s.credentials id) refl
