-- ===== src/Users.antt =====
-- src/store/memory.ts, `InMemoryUserStore`. A method takes the time and what `nanoid()` draws.
pub mod Expiry
use openclaw_managed_agents.Prelude.{
  ℕ, suc, ◌+◌, String, Bool, false, not, ◌&&◌, Option, none, some, [], ◌∷◌, ltb, nat_eq, str_eq,
  if◌then◌else◌, find,
}
use openclaw_managed_agents.JsMap
use openclaw_managed_agents.JsMap.{JsMap}
use openclaw_managed_agents.Types.Vault.{User, UserTier, anonymous, github}

abbrev pub UserStore : Type 0
UserStore = JsMap User

pub record CreateUser : Type 0 where
  pub tier : UserTier
  pub github_id : Option ℕ
  pub github_username : Option String
  pub avatar_url : Option String

-- 24 * 60 * 60 * 1000
abbrev pub trial_ms : ℕ
trial_ms = 86400000

abbrev pub trial_end : UserTier → ℕ → Option ℕ
trial_end anonymous now = some (now + trial_ms)
trial_end github now = none

unfoldable pub create : UserStore → CreateUser → String → String → ℕ → User × UserStore
create m args user_id api_token now =
    let user : User = record {
      user_id = user_id;
      github_id = args.github_id;
      github_username = args.github_username;
      avatar_url = args.avatar_url;
      api_token = api_token;
      tier = args.tier;
      created_at = now;
      expires_at = trial_end args.tier now;
    } in
    (user, JsMap.set m user_id user)

unfoldable pub get_by_token : UserStore → String → Option User
get_by_token m token = find (λ u. str_eq u.api_token token) (JsMap.values m)

abbrev has_github_id : ℕ → Option ℕ → Bool
has_github_id id none = false
has_github_id id (some i) = nat_eq i id

unfoldable pub get_by_github_id : UserStore → ℕ → Option User
get_by_github_id m github_id = find (λ u. has_github_id github_id u.github_id) (JsMap.values m)

unfoldable pub get : UserStore → String → Option User
get m user_id = JsMap.get m user_id

-- `u.tier === "anonymous" && u.expiresAt && u.expiresAt < now`; an expiry of 0 counts as none.
abbrev pub expired_by : ℕ → UserTier → Option ℕ → Bool
expired_by now anonymous (some t) = not (nat_eq t 0) && ltb t now
expired_by now _ _ = false

abbrev pub is_expired : ℕ → User → Bool
is_expired now u = expired_by now u.tier u.expires_at

unfoldable pub delete_expired : UserStore → ℕ → ℕ × UserStore
delete_expired [] now = (0, [])
delete_expired ((id, u) ∷ m) now =
    let (count, rest) = delete_expired m now in
    if is_expired now u then (suc count, rest) else (count, (id, u) ∷ rest)

abbrev pub linked : User → ℕ → String → String → User
linked u github_id github_username avatar_url = record u {
  github_id = some github_id;
  github_username = some github_username;
  avatar_url = some avatar_url;
  tier = github;
  expires_at = none;
}

abbrev pub link : UserStore → String → ℕ → String → String → Option User → Option User × UserStore
link m id github_id github_username avatar_url none = (none, m)
link m id github_id github_username avatar_url (some u) =
    let v = linked u github_id github_username avatar_url in (some v, JsMap.set m id v)

unfoldable pub update_github : UserStore → String → ℕ → String → String → Option User × UserStore
update_github m user_id github_id github_username avatar_url =
    link m user_id github_id github_username avatar_url (JsMap.get m user_id)
