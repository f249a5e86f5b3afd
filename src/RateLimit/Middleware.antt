-- ===== src/RateLimit/Middleware.antt =====
-- src/rate-limit.ts, `createRateLimitMiddleware` and the key of a request. `digest` is the first 16
-- hexadecimal digits of the SHA-256 of a token, which a library computes.
use Prim.Native.String.{◌++◌ as append}
use openclaw_managed_agents.Prelude.{
  ℕ, String, Bool, Option, none, some, List, [], ◌∷◌, nat_eq, str_eq, if◌then◌else◌, any,
}
use openclaw_managed_agents.Http.{Request, bearer_token, trim, first_segment, is_empty}
use openclaw_managed_agents.RateLimit.{RateLimiter, Decision, unlimited, allowed, denied, check}

pub data Key : Type 0 where
  by_token : String → Key
  by_ip : String → Key
  unknown : Key

abbrev pub bypass_paths : List String
bypass_paths = "/healthz" ∷ "/metrics" ∷ []

unfoldable pub is_bypassed : String → Bool
is_bypassed path = any (λ p. str_eq p path) bypass_paths

abbrev truthy : Option String → Option String
truthy none = none
truthy (some s) = if is_empty s then none else some s

abbrev or_else : Option String → Option String → Option String
or_else none b = b
or_else (some a) b = some a

abbrev forwarded : Option String → Option String
forwarded none = none
forwarded (some xff) = truthy (some (trim (first_segment xff)))

abbrev real_or : Option String → Option String → Option String
real_or none raw = raw
real_or (some real) raw = some (trim real)

unfoldable pub extract_ip : Request → Option String
extract_ip req =
    or_else (forwarded (truthy req.x_forwarded_for))
      (real_or (truthy req.x_real_ip) req.remote_address)

abbrev token_of : Option String → Option String
token_of none = none
token_of (some header) = elim (bearer_token header) [ none ↦ none | some t ↦ truthy (some t) ]

abbrev ip_key : Option String → Key
ip_key none = unknown
ip_key (some ip) = by_ip ip

abbrev key_of : (String → String) → Option String → Option String → Key
key_of digest none ip = ip_key (truthy ip)
key_of digest (some token) ip = by_token (digest token)

unfoldable pub extract_key : (String → String) → Request → Key
extract_key digest req = key_of digest (token_of req.authorization) (extract_ip req)

-- The request goes on, with the `X-RateLimit` headers that it got; or it is answered with 429.
pub data Reply : Type 0 where
  passed : Reply
  passed_with : ℕ → Option ℕ → Reply
  rejected : ℕ → ℕ → Reply

abbrev reply_of : Decision → Reply
reply_of unlimited = passed_with 0 none
reply_of (allowed remaining limit) = passed_with limit (some remaining)
reply_of (denied retry limit) = rejected retry limit

abbrev pub limited : RateLimiter → String → ℕ → Reply × RateLimiter
limited l key now = let (d, l') = check l key now in (reply_of d, l')

abbrev pub limit_key : RateLimiter → ℕ → Key → Reply × RateLimiter
limit_key l now unknown = (passed, l)
limit_key l now (by_token t) = limited l (append "t:" t) now
limit_key l now (by_ip ip) = limited l (append "i:" ip) now

unfoldable pub rate_limit_middleware :
    (String → String) → RateLimiter → Request → ℕ → Reply × RateLimiter
rate_limit_middleware digest l req now =
    if nat_eq l.rpm 0
    then (passed, l)
    else if is_bypassed req.path
    then (passed, l)
    else limit_key l now (extract_key digest req)
