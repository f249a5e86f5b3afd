-- ===== src/Tests/Access.antt =====
-- The rate limiter and the bearer-token middleware at concrete requests.
use openclaw_managed_agents.Prelude.{
  ◌+◌, ◌-◌, ◌*◌, ◌≤◌, String, ◌≡◌, refl, ◌↔◌, ◌⊎◌, Option, none, some, List, [], ◌∷◌, arith,
}
use openclaw_managed_agents.JsMap
use openclaw_managed_agents.Http.{Request}
use openclaw_managed_agents.Types.Vault.{github}
use openclaw_managed_agents.Auth.{AuthConfig, admin, user, next, auth_middleware, expected_token}
use openclaw_managed_agents.Auth.Access.{
  IsAdmin, IsUser, auth_middleware-admin, auth_middleware-user,
}
use openclaw_managed_agents.RateLimit.{RateLimiter, gc, token}
use openclaw_managed_agents.RateLimit.Level.{level, level-gc}
use openclaw_managed_agents.RateLimit.Quota.{
  Event, request, sweep, admitted, end_of, admitted_bound,
}

abbrev get_agents : Option String → Request
get_agents header = record {
  path = "/v1/agents";
  authorization = header;
  query_token = none;
  x_forwarded_for = some "10.0.0.1, 10.0.0.2";
  x_real_ip = none;
  remote_address = none;
}

abbrev config : AuthConfig
config = record {
  token = some "secret";
  users = some (
      (
        "u1",
        record {
          user_id = "u1";
          github_id = some 7;
          github_username = some "octo";
          avatar_url = none;
          api_token = "mine";
          tier = github;
          created_at = 0;
          expires_at = none;
        },
      )
      ∷ []);
}

auth_middleware-admin_example :
    (auth_middleware config (get_agents (some "Bearer secret")) 5 ≡ next admin)
    ↔ ((expected_token config ≡ none) ⊎ IsAdmin config (get_agents (some "Bearer secret")))
auth_middleware-admin_example = auth_middleware-admin config (get_agents (some "Bearer secret")) 5

auth_middleware-user_example :
    (auth_middleware config (get_agents (some "Bearer mine")) 5 ≡ next (user "u1" github))
    ↔ IsUser config (get_agents (some "Bearer mine")) 5 "u1" github
auth_middleware-user_example =
    auth_middleware-user config (get_agents (some "Bearer mine")) 5 "u1" github

abbrev limiter : RateLimiter
limiter = record { rpm = 1; buckets = ("k", record { tokens = 0; last_refill_ms = 1000 }) ∷ [] }

level-gc_example : level (gc limiter 2000) "k" 9000 ≡ level limiter "k" 9000
unfolding JsMap.get
level-gc_example = level-gc limiter "k" 2000 9000 (refl, tt) (ground arith)

abbrev traffic : List Event
traffic = request "k" 1000 ∷ sweep 30000 ∷ request "k" 61000 ∷ request "j" 61000 ∷ []

admitted_bound_example :
    token * admitted limiter "k" traffic ≤ 1 * token + (end_of 1000 traffic - 1000) * 1
unfolding JsMap.get
admitted_bound_example =
    admitted_bound limiter "k" 1000 traffic (ground arith) (refl, tt) (ground arith)
