-- ===== src/Auth/Access.antt =====
-- Who passes the authentication middleware, and as whom.
use openclaw_managed_agents.Prelude.{
  ℕ, String, ◌≡◌, refl, ◌≢◌, ◌↔◌, ◌⊎◌, inl, inr, false, Option, none, some, arith, eq_iff,
  Bool-cases,
}
use openclaw_managed_agents.Http.{Request}
use openclaw_managed_agents.Types.Vault.{User, UserTier}
use openclaw_managed_agents.Users.{UserStore}
use openclaw_managed_agents.Auth.{
  AuthConfig, nobody, admin, user, next, is_open, Offer, offered, refused, offer, has_expired,
  check_user, lookup_user, check_offer, expected_token, authorize, auth_middleware,
}

-- The request offers the configured token, on a path that asks for one.
pub record IsAdmin (cfg : AuthConfig) (req : Request) : Type 0 where
  pub expected : String
  pub configured : expected_token cfg ≡ some expected
  pub guarded : is_open req.path ≡ false
  pub same : offer req ≡ offered expected

-- The request offers the token of a user whose trial has not run out.
pub record IsUser (cfg : AuthConfig) (req : Request) (now : ℕ) (id : String) (tier : UserTier)
    : Type 0 where
  pub expected : String
  pub provided : String
  pub account : User
  pub configured : expected_token cfg ≡ some expected
  pub guarded : is_open req.path ≡ false
  pub sent : offer req ≡ offered provided
  pub other : provided ≢ expected
  pub found : lookup_user cfg.users provided ≡ some account
  pub live : has_expired account.expires_at now ≡ false
  pub account_id : account.user_id ≡ id
  pub account_tier : account.tier ≡ tier

check_offer-admin :
    (e : String) (users : Option UserStore) (now : ℕ) (o : Offer)
    → check_offer e users now o ≡ next admin
    → o ≡ offered e
check_offer-admin e users now (refused why) h = ground arith
check_offer-admin e users now (offered p) h = ground (arith, eq_iff p e)

admin_only :
    (cfg : AuthConfig) (req : Request) (now : ℕ) (o : Option String)
    → expected_token cfg ≡ o
    → authorize o cfg.users req now ≡ next admin
    → (expected_token cfg ≡ none) ⊎ IsAdmin cfg req
admin_only cfg req now none e h = inl e
admin_only cfg req now (some x) e h = elim (Bool-cases (is_open req.path)) [
  | inl y ↦ absurd (ground arith)
  | inr n ↦ inr (record {
    expected = x;
    configured = e;
    guarded = n;
    same = check_offer-admin x cfg.users now (offer req) (ground arith);
  })
]

admin_enough :
    (cfg : AuthConfig) (req : Request) (now : ℕ)
    → IsAdmin cfg req
    → auth_middleware cfg req now ≡ next admin
unfolding auth_middleware
admin_enough cfg req now a =
    rw (a.configured, a.guarded, a.same) (ground (arith, eq_iff a.expected a.expected))

-- A request passes as the administrator exactly if no token is configured, or it is for a guarded path
-- and offers the configured token.
pub auth_middleware-admin :
    (cfg : AuthConfig) (req : Request) (now : ℕ)
    → (auth_middleware cfg req now ≡ next admin) ↔ ((expected_token cfg ≡ none) ⊎ IsAdmin cfg req)
unfolding auth_middleware
auth_middleware-admin cfg req now = (
  admin_only cfg req now (expected_token cfg) refl,
  elim [ inl e ↦ rw e | inr a ↦ admin_enough cfg req now a ],
)

check_user-user :
    (o : Option User) (now : ℕ) (id : String) (tier : UserTier)
    → check_user o now ≡ next (user id tier)
    → (u : User) × (o ≡ some u)
      × (has_expired u.expires_at now ≡ false)
      × (u.user_id ≡ id)
      × (u.tier ≡ tier)
check_user-user none now id tier h = ground arith
check_user-user (some u) now id tier h = (u, refl, ground arith, ground arith, ground arith)

check_offer-user :
    (e : String) (users : Option UserStore) (now : ℕ) (o : Offer) (id : String) (tier : UserTier)
    → check_offer e users now o ≡ next (user id tier)
    → (p : String) × (o ≡ offered p)
      × (p ≢ e)
      × (check_user (lookup_user users p) now ≡ next (user id tier))
check_offer-user e users now (refused why) id tier h = ground arith
check_offer-user e users now (offered p) id tier h =
    (p, refl, ground (arith, eq_iff p e), ground (arith, eq_iff p e))

user_only :
    (cfg : AuthConfig) (req : Request) (now : ℕ) (id : String) (tier : UserTier) (o : Option String)
    → expected_token cfg ≡ o
    → authorize o cfg.users req now ≡ next (user id tier)
    → IsUser cfg req now id tier
user_only cfg req now id tier none e h = absurd (ground arith)
user_only cfg req now id tier (some x) e h = elim (Bool-cases (is_open req.path)) [
  | inl y ↦ absurd (ground arith)
  | inr n ↦
      let (p, sent, other, c) =
        check_offer-user x cfg.users now (offer req) id tier (ground arith) in
      let (u, found, live, same_id, same_tier) =
        check_user-user (lookup_user cfg.users p) now id tier c in
      record {
        expected = x;
        provided = p;
        account = u;
        configured = e;
        guarded = n;
        sent = sent;
        other = other;
        found = found;
        live = live;
        account_id = same_id;
        account_tier = same_tier;
      }
]

user_enough :
    (cfg : AuthConfig) (req : Request) (now : ℕ) (id : String) (tier : UserTier)
    → IsUser cfg req now id tier
    → auth_middleware cfg req now ≡ next (user id tier)
unfolding auth_middleware
user_enough cfg req now id tier a =
    rw (a.configured, a.guarded, a.sent) (ground (arith, eq_iff a.provided a.expected))

-- A request passes as a user exactly if a token is configured, the path is guarded, and it offers a
-- token other than the configured one that belongs to that user and whose trial has not run out.
pub auth_middleware-user :
    (cfg : AuthConfig) (req : Request) (now : ℕ) (id : String) (tier : UserTier)
    → (auth_middleware cfg req now ≡ next (user id tier)) ↔ IsUser cfg req now id tier
unfolding auth_middleware
auth_middleware-user cfg req now id tier =
    (user_only cfg req now id tier (expected_token cfg) refl, user_enough cfg req now id tier)

-- No request for a guarded path passes without an identity.
pub guarded_needs_identity :
    (cfg : AuthConfig) (req : Request) (now : ℕ)
    → is_open req.path ≡ false
    → auth_middleware cfg req now ≢ next nobody
unfolding auth_middleware
guarded_needs_identity cfg req now h = ground arith
