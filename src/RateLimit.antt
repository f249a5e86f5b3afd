-- ===== src/RateLimit.antt =====
-- src/rate-limit.ts, `RateLimiter`: a token bucket for each caller. The source counts tokens as
-- floating-point numbers and adds `rpm / 60000` of one for each millisecond; here they are counted in
-- 60000ths of a token, which makes every sum exact. `rpm` is the configured rate, floored.
pub mod Level
pub mod Quota
pub mod Middleware
use Prim.Native.Nat.{min, max}
use openclaw_managed_agents.Prelude.{
  ℕ, ◌+◌, ◌-◌, ◌*◌, ◌/◌, String, not, Option, none, some, ltb, leb, nat_eq, if◌then◌else◌, length,
}
use openclaw_managed_agents.JsMap
use openclaw_managed_agents.JsMap.{JsMap}
use openclaw_managed_agents.JsMap.Distinct.{retain}

-- One token.
abbrev pub token : ℕ
token = 60000

-- 10 * 60_000
abbrev pub gc_after_ms : ℕ
gc_after_ms = 600000

pub record Bucket : Type 0 where
  pub tokens : ℕ
  pub last_refill_ms : ℕ

pub record RateLimiter : Type 0 where
  pub rpm : ℕ
  pub buckets : JsMap Bucket

-- `unlimited` is `remaining: Number.POSITIVE_INFINITY`.
pub data Decision : Type 0 where
  unlimited : Decision
  allowed : ℕ → ℕ → Decision
  denied : ℕ → ℕ → Decision

abbrev pub capacity : ℕ → ℕ
capacity rpm = rpm * token

-- The bucket after the refill since it was last touched. `now - last` stops at 0, as the source's
-- `Math.max(0, ...)` does.
abbrev pub refilled : ℕ → ℕ → Option Bucket → Bucket
refilled rpm now none = record { tokens = capacity rpm; last_refill_ms = now }
refilled rpm now (some b) = record {
  tokens = min (capacity rpm) (b.tokens + (now - b.last_refill_ms) * rpm);
  last_refill_ms = now;
}

-- `Math.ceil(a / b)` for a positive b.
abbrev pub ceil_div : ℕ → ℕ → ℕ
ceil_div a b = (a + (b - 1)) / b

-- `Math.max(1, Math.ceil(waitMs / 1000))`.
abbrev pub retry_after_sec : ℕ → ℕ → ℕ
retry_after_sec rpm tokens = max 1 (ceil_div (token - tokens) (rpm * 1000))

abbrev pub take_token : RateLimiter → String → Bucket → Decision × RateLimiter
take_token l key b =
    if leb token b.tokens
    then (
      allowed ((b.tokens - token) / token) l.rpm,
      record l { buckets = JsMap.set l.buckets key (record b { tokens = b.tokens - token }) },
    )
    else (
      denied (retry_after_sec l.rpm b.tokens) l.rpm,
      record l { buckets = JsMap.set l.buckets key b },
    )

unfoldable pub check : RateLimiter → String → ℕ → Decision × RateLimiter
check l key now =
    if nat_eq l.rpm 0
    then (unlimited, l)
    else take_token l key (refilled l.rpm now (JsMap.get l.buckets key))

unfoldable pub gc : RateLimiter → ℕ → RateLimiter
gc l now = record l {
  buckets = retain (λ b. not (ltb gc_after_ms (now - b.last_refill_ms))) l.buckets;
}

unfoldable pub size : RateLimiter → ℕ
size l = length l.buckets
