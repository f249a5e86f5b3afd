-- ===== src/Auth.antt =====
-- src/auth.ts: the bearer-token middleware. The store of users is the argument `users`; texts stand
-- for their UTF-8 bytes, so the constant-time comparison of buffers is equality of texts.
pub mod Access
use openclaw_managed_agents.Prelude.{
  ℕ, String, Bool, false, not, ◌&&◌, Option, none, some, List, [], ◌∷◌, ltb, nat_eq, str_eq,
  if◌then◌else◌, any,
}
use openclaw_managed_agents.Http.{Request, bearer_token, trim, is_empty}
use openclaw_managed_agents.Types.Vault.{User, UserTier}
use openclaw_managed_agents.Users.{UserStore, get_by_token}

pub record AuthConfig : Type 0 where
  pub token : Option String
  pub users : Option UserStore

-- What the middleware puts into the request's context.
pub data Identity : Type 0 where
  nobody : Identity
  admin : Identity
  user : String → UserTier → Identity

pub data Verdict : Type 0 where
  next : Identity → Verdict
  unauthorized : String → Verdict
  token_expired : Verdict

-- `BYPASS_PATHS` and `AUTH_PATHS`.
abbrev pub open_paths : List String
open_paths =
    "/healthz" ∷ "/metrics" ∷ "/v2" ∷ "/" ∷ "/auth/anonymous" ∷ "/auth/github"
    ∷ "/auth/github/callback" ∷ []

unfoldable pub is_open : String → Bool
is_open path = any (λ p. str_eq p path) open_paths

-- The token that a request offers, or why it offers none. An empty header or query is as good as none.
pub data Offer : Type 0 where
  offered : String → Offer
  refused : String → Offer

abbrev non_empty : Option String → Option String
non_empty none = none
non_empty (some s) = if is_empty s then none else some s

abbrev from_match : Option String → Offer
from_match none = refused "Authorization header must use Bearer scheme"
from_match (some t) = if is_empty t then refused "empty bearer token" else offered t

abbrev from_query : String → Offer
from_query q = let t = trim q in if is_empty t then refused "empty bearer token" else offered t

abbrev offer_of : Option String → Option String → Offer
offer_of none none = refused "missing Authorization header (expected: Bearer <token>)"
offer_of (some header) q = from_match (bearer_token header)
offer_of none (some q) = from_query q

unfoldable pub offer : Request → Offer
offer req = offer_of (non_empty req.authorization) (non_empty req.query_token)

-- `user.expiresAt && user.expiresAt < Date.now()`.
abbrev pub has_expired : Option ℕ → ℕ → Bool
has_expired none now = false
has_expired (some t) now = not (nat_eq t 0) && ltb t now

abbrev pub check_user : Option User → ℕ → Verdict
check_user none now = unauthorized "invalid token"
check_user (some u) now =
    if has_expired u.expires_at now then token_expired else next (user u.user_id u.tier)

abbrev pub lookup_user : Option UserStore → String → Option User
lookup_user none provided = none
lookup_user (some users) provided = get_by_token users provided

abbrev pub check_offer : String → Option UserStore → ℕ → Offer → Verdict
check_offer expected users now (refused why) = unauthorized why
check_offer expected users now (offered provided) =
    if str_eq provided expected then next admin else check_user (lookup_user users provided) now

-- `cfg.token?.trim()`, or none where that is empty.
unfoldable pub expected_token : AuthConfig → Option String
expected_token cfg = elim cfg.token [ none ↦ none | some t ↦ non_empty (some (trim t)) ]

abbrev pub authorize : Option String → Option UserStore → Request → ℕ → Verdict
authorize none users req now = next admin
authorize (some expected) users req now =
    if is_open req.path then next nobody else check_offer expected users now (offer req)

unfoldable pub auth_middleware : AuthConfig → Request → ℕ → Verdict
auth_middleware cfg req now = authorize (expected_token cfg) cfg.users req now
