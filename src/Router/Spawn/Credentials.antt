-- ===== src/Router/Spawn/Credentials.antt =====
-- Which credential a server gets.
use openclaw_managed_agents.Prelude.{
  String, ◌≡◌, refl, ◌⊎◌, inl, inr, Bool, true, false, ◌&&◌, Option, none, some, List, [], ◌∷◌, map,
  arith, eq_iff, ltb, str_eq, if◌then◌else◌, if-cases, get_or, filter, All,
}
use Prim.Native.String
use Prim.Native.String.{len}
use text.Mathlib.Text.{starts_with}
use openclaw_managed_agents.JsMap
use openclaw_managed_agents.JsMap.{JsMap, get-set}
use openclaw_managed_agents.Types.Agent.{McpServers, McpServerConfig}
use openclaw_managed_agents.Types.Vault.{VaultCredential}
use openclaw_managed_agents.Vaults
use openclaw_managed_agents.Prelude.Sort
use openclaw_managed_agents.Router.State.{Router}
use openclaw_managed_agents.Router.Spawn.{
  bearer_of, first_of, longer, credential_for, authorise, serve, inject_all,
  inject_vault_credentials,
}

abbrev pub Among : VaultCredential → List VaultCredential → Type 0
Among c [] = ⊥
Among c (x ∷ xs) = (c ≡ x) ⊎ Among c xs

-- No credential has an address that the URL starts with; or this one has, and none such is longer.
abbrev pub IsBest : List VaultCredential → String → Option VaultCredential → Type 0
IsBest creds url none = All (λ c. starts_with url c.match_url ≡ false) creds
IsBest creds url (some c) =
    starts_with url c.match_url ≡ true
    × Among c creds
    × All (λ d. starts_with url d.match_url && ltb (len c.match_url) (len d.match_url) ≡ false)
        creds

pick : VaultCredential → Option VaultCredential → Option VaultCredential
pick x none = some x
pick x (some y) = if longer x y then some x else some y

first-insert :
    (x : VaultCredential) (ys : List VaultCredential)
    → first_of (Sort.insert longer x ys) ≡ pick x (first_of ys)
unfolding pick
first-insert x [] = refl
first-insert x (y ∷ ys) = ground arith

none-longer :
    (x : VaultCredential) (creds : List VaultCredential) (url : String)
    → All (λ c. starts_with url c.match_url ≡ false) creds
    → All
        (λ d. starts_with url d.match_url && ltb (len x.match_url) (len d.match_url) ≡ false)
        creds
none-longer x [] url h = tt
none-longer x (c ∷ cs) url h = (rw h.0 refl, none-longer x cs url h.1)

longer_trans :
    (x y : VaultCredential) (creds : List VaultCredential) (url : String)
    → longer x y ≡ true
    → All
        (λ d. starts_with url d.match_url && ltb (len y.match_url) (len d.match_url) ≡ false)
        creds
    → All
        (λ d. starts_with url d.match_url && ltb (len x.match_url) (len d.match_url) ≡ false)
        creds
longer_trans x y [] url l h = tt
longer_trans x y (c ∷ cs) url l h =
    (beyond (starts_with url c.match_url) h.0, longer_trans x y cs url l h.1)
  where
    beyond :
        (b : Bool)
        → (b && ltb (len y.match_url) (len c.match_url)) ≡ false
        → (b && ltb (len x.match_url) (len c.match_url)) ≡ false
    beyond b e = ground arith

pass_over :
    (x y : VaultCredential) (url : String) (creds : List VaultCredential)
    → (starts_with url x.match_url && ltb (len y.match_url) (len x.match_url)) ≡ false
    → IsBest creds url (some y)
    → IsBest (x ∷ creds) url (some y)
pass_over x y url creds e h = (h.0, inr h.1, (e, h.2))

IsBest-pick :
    (x : VaultCredential) (creds : List VaultCredential) (url : String) (o : Option VaultCredential)
    → IsBest creds url o
    → IsBest (x ∷ creds) url (if starts_with url x.match_url then pick x o else o)
unfolding pick
IsBest-pick x creds url none h =
    if-cases (IsBest (x ∷ creds) url) (starts_with url x.match_url) (some x) none
      (λ y. (y, inl refl, (own, none-longer x creds url h))) (λ n. (n, h))
  where
    own : starts_with url x.match_url && ltb (len x.match_url) (len x.match_url) ≡ false
    own = ground arith
IsBest-pick x creds url (some y) h =
    if-cases (IsBest (x ∷ creds) url) (starts_with url x.match_url) (pick x (some y)) (some y)
      (λ p.
        if-cases (IsBest (x ∷ creds) url) (longer x y) (some x) (some y)
          (λ l. (p, inl refl, (own, longer_trans x y creds url l h.2)))
          (λ n. pass_over x y url creds (ground arith) h))
      (λ n. pass_over x y url creds (rw n refl) h)
  where
    own : starts_with url x.match_url && ltb (len x.match_url) (len x.match_url) ≡ false
    own = ground arith

credential_for-cons :
    (c : VaultCredential) (cs : List VaultCredential) (url : String)
    → credential_for (c ∷ cs) url ≡ (
        if starts_with url c.match_url
        then pick c (credential_for cs url)
        else credential_for cs url)
unfolding credential_for
credential_for-cons c cs url = go (starts_with url c.match_url)
  where
    kept : List VaultCredential
    kept = filter (λ d. starts_with url d.match_url) cs

    go :
        (b : Bool)
        → first_of (Sort.sort longer (if b then c ∷ kept else kept)) ≡ (
            if b
            then pick c (first_of (Sort.sort longer kept))
            else first_of (Sort.sort longer kept))
    go true = first-insert c (Sort.sort longer kept)
    go false = refl

-- The credential for a URL is one whose address the URL starts with, and no such address is longer; there
-- is none only if the URL starts with no credential's address.
pub credential_for-IsBest :
    (creds : List VaultCredential) (url : String) → IsBest creds url (credential_for creds url)
unfolding credential_for
credential_for-IsBest [] url = tt
credential_for-IsBest (c ∷ cs) url =
    rw (credential_for-cons c cs url)
      (IsBest-pick c cs url (credential_for cs url) (credential_for-IsBest cs url))

-- A server's header by name; a server without headers has none.
abbrev pub header : Option McpServerConfig → String → Option String
header none name = none
header (some s) name = JsMap.get (get_or s.headers []) name

get-map :
    (f : McpServerConfig → McpServerConfig) (m : McpServers) (k : String) (s : McpServerConfig)
    → JsMap.get m k ≡ some s
    → JsMap.get (map (λ e. (e.0, f e.1)) m) k ≡ some (f s)
unfolding JsMap.get
get-map f [] k s e = ground arith
get-map f ((j, t) ∷ m) k s e = ground (arith, eq_iff j k, get-map f m k s)

-- In a session with a vault, a server whose URL has a credential there is given that credential's token as
-- its `Authorization` header, and keeps its other headers.
pub inject_vault_credentials-header :
    (r : Router) (servers : McpServers) (vault_id name url h : String) (server : McpServerConfig)
    (c : VaultCredential)
    → str_eq vault_id "" ≡ false
    → JsMap.get servers name ≡ some server
    → server.url ≡ some url
    → str_eq url "" ≡ false
    → credential_for (Vaults.list_credentials r.vaults vault_id) url ≡ some c
    → header (JsMap.get (inject_vault_credentials r servers (some vault_id)) name) h ≡ (
        if str_eq "Authorization" h
        then some (String.◌++◌ "Bearer " (bearer_of c.secret))
        else header (some server) h)
unfolding inject_vault_credentials credential_for
inject_vault_credentials-header r servers vault_id name url h server c v g u n b =
    rw v (given_by (Vaults.list_credentials r.vaults vault_id) b)
  where
    served :
        (creds : List VaultCredential)
        → credential_for creds url ≡ some c
        → serve creds server server.url ≡ authorise server (some c)
    served creds e = rw u (rw n (rw e refl))

    given_by :
        (creds : List VaultCredential)
        → credential_for creds url ≡ some c
        → header (JsMap.get (inject_all creds servers) name) h ≡ (
            if str_eq "Authorization" h
            then some (String.◌++◌ "Bearer " (bearer_of c.secret))
            else header (some server) h)
    given_by [] e = ground arith
    given_by (d ∷ ds) e = rw (get-map (λ s. serve (d ∷ ds) s s.url) servers name server g) (
        rw (served (d ∷ ds) e) (
          get-set (get_or server.headers []) "Authorization" h
            (String.◌++◌ "Bearer " (bearer_of c.secret))))
