-- ===== src/Vaults/Ownership.antt =====
-- Which vault a credential belongs to, and the deletion of a vault.
use openclaw_managed_agents.Prelude.{
  ℕ, String, ◌≡◌, refl, ap, ◌∙◌, inl, inr, true, false, Option, none, some, List, [], ◌∷◌, arith,
  eq_iff, leb, str_eq, if◌then◌else◌, Bool-cases, if-cases, filter, All,
}
use openclaw_managed_agents.Prelude.Sort
use openclaw_managed_agents.JsMap
use openclaw_managed_agents.JsMap.{JsMap, map_laws, values}
use openclaw_managed_agents.JsMap.Entries.{All-set, All-delete, All-get}
use openclaw_managed_agents.Types.Vault.{Vault, VaultCredential, Secret, static_bearer, mcp_oauth}
use openclaw_managed_agents.Vaults.{
  VaultStore, create_vault, cascade, delete_vault, AddCredentialInput, add_credential, OAuthTokens,
  rotate, rotate_secret, rotated, update_oauth_tokens, list_credentials, delete_credential, touched,
}

pub data Call : Type 0 where
  creates_vault : String → String → String → ℕ → Call
  deletes_vault : String → Call
  adds_credential : AddCredentialInput → String → ℕ → Call
  updates_tokens : String → OAuthTokens → ℕ → Call
  deletes_credential : String → Call

unfoldable pub step : VaultStore → Call → VaultStore
step s (creates_vault user_id name id now) = (create_vault s user_id name id now).1
step s (deletes_vault id) = (delete_vault s id).1
step s (adds_credential args id now) = (add_credential s args id now).1
step s (updates_tokens id args now) = (update_oauth_tokens s id args now).1
step s (deletes_credential id) = (delete_credential s id).1

unfoldable pub run : VaultStore → List Call → VaultStore
run s [] = s
run s (c ∷ cs) = run (step s c) cs

-- The credential's vault exists.
abbrev pub Owned : JsMap Vault → VaultCredential → Type 0
Owned vs c = JsMap.has vs c.vault_id ≡ true

abbrev pub IsOwned : VaultStore → Type 0
IsOwned s = All (Owned s.vaults) (values s.credentials)

All-mono {ℓ κ λ'} :
    {A : Type ℓ} (P : A → Type κ) (Q : A → Type λ') (xs : List A)
    → ((a : A) → P a → Q a)
    → All P xs
    → All Q xs
All-mono P Q [] f h = tt
All-mono P Q (x ∷ xs) f h = (f x h.0, All-mono P Q xs f h.1)

has-set :
    (m : JsMap Vault) (k j : String) (v : Vault)
    → JsMap.has m j ≡ true
    → JsMap.has (JsMap.set m k v) j ≡ true
has-set m k j v h = simp map_laws (ground arith)

Owned-touched :
    (o : Option Vault) (m : JsMap Vault) (k : String) (now : ℕ) (c : VaultCredential)
    → Owned m c
    → Owned (touched o m k now) c
Owned-touched none m k now c h = h
Owned-touched (some v) m k now c h = has-set m k c.vault_id _ h

cascade-Owned :
    (vs : JsMap Vault) (k : String) (m : JsMap VaultCredential)
    → All (Owned vs) (values m)
    → All (Owned (JsMap.delete vs k)) (values (cascade k m))
unfolding cascade
cascade-Owned vs k [] h = tt
cascade-Owned vs k ((j, c) ∷ m) h = elim (Bool-cases (str_eq c.vault_id k)) [
  | inl y ↦ rw y (cascade-Owned vs k m h.1)
  | inr n ↦ rw n (survivor n, cascade-Owned vs k m h.1)
]
  where
    survivor : str_eq c.vault_id k ≡ false → Owned (JsMap.delete vs k) c
    survivor n = simp map_laws (ground (arith, eq_iff c.vault_id k, eq_iff k c.vault_id, h.0))

rotate-IsOwned :
    (s : VaultStore) (id : String) (args : OAuthTokens) (now : ℕ) (o : Option VaultCredential)
    → JsMap.get s.credentials id ≡ o
    → IsOwned s
    → IsOwned (rotate s id args now o).1
rotate-IsOwned s id args now none e h = h
rotate-IsOwned s id args now (some c) e h = go c.secret
  where
    go : (x : Secret) → IsOwned (rotate_secret s id args now c x).1
    go (static_bearer t) = h
    go (mcp_oauth o) =
        All-set (Owned s.vaults) s.credentials id (rotated c o args now) h
          (All-get (Owned s.vaults) s.credentials id c h e)

step-IsOwned : (s : VaultStore) (c : Call) → IsOwned s → IsOwned (step s c)
unfolding step create_vault delete_vault add_credential update_oauth_tokens delete_credential
step-IsOwned s (creates_vault user_id name id now) h =
    All-mono _ _ (values s.credentials) (λ c. has-set s.vaults id c.vault_id _) h
step-IsOwned s (deletes_vault id) h = ground (arith, cascade-Owned s.vaults id s.credentials h)
step-IsOwned s (adds_credential args id now) h =
    if-cases (λ (r : Option VaultCredential × VaultStore). IsOwned r.1)
      (JsMap.has s.vaults args.vault_id) _ _
      (λ y.
        All-mono _ _ _
          (λ c. Owned-touched (JsMap.get s.vaults args.vault_id) s.vaults args.vault_id now c)
          (All-set (Owned s.vaults) s.credentials id _ h y))
      (λ n. h)
step-IsOwned s (updates_tokens id args now) h =
    rotate-IsOwned s id args now (JsMap.get s.credentials id) refl h
step-IsOwned s (deletes_credential id) h = All-delete (Owned s.vaults) s.credentials id h

-- After any calls, every credential still belongs to a vault that exists.
pub run-IsOwned : (s : VaultStore) (cs : List Call) → IsOwned s → IsOwned (run s cs)
unfolding run
run-IsOwned s [] h = h
run-IsOwned s (c ∷ cs) h = run-IsOwned (step s c) cs (step-IsOwned s c h)

filter-cascade :
    (k j : String) (m : JsMap VaultCredential)
    → filter (λ c. str_eq c.vault_id j) (values (cascade k m))
      ≡ (if str_eq k j then [] else filter (λ c. str_eq c.vault_id j) (values m))
unfolding cascade
filter-cascade k j [] = ground arith
filter-cascade k j ((i, c) ∷ m) =
    ground (arith, filter-cascade k j m, eq_iff c.vault_id k, eq_iff c.vault_id j, eq_iff k j)

-- Deleting a vault that exists leaves it without credentials, and every other vault with its own in
-- the same order.
pub list_credentials-delete_vault :
    (s : VaultStore) (k j : String)
    → JsMap.has s.vaults k ≡ true
    → list_credentials (delete_vault s k).1 j ≡ (if str_eq k j then [] else list_credentials s j)
unfolding list_credentials delete_vault
list_credentials-delete_vault s k j h =
    rw h (ap (Sort.sort _) (filter-cascade k j s.credentials) ∙ swap)
  where
    swap :
        Sort.sort
          (λ (a b : VaultCredential). leb a.created_at b.created_at)
          (if str_eq k j then [] else filter (λ c. str_eq c.vault_id j) (values s.credentials))
        ≡ (if str_eq k j then [] else list_credentials s j)
    swap = elim (Bool-cases (str_eq k j)) [ inl y ↦ rw y | inr n ↦ rw n ]
