-- ===== src/RateLimit/Level.antt =====
-- The tokens that a caller has at a given time, and how the two operations change them.
use openclaw_managed_agents.Prelude.{
  ℕ, ◌+◌, ◌-◌, ◌*◌, ◌≤◌, ◌<◌, String, ◌≡◌, refl, Bool, true, false, not, Option, none, some, arith,
  eq_refl, ltb, leb, nat_eq, str_eq, if◌then◌else◌, if-cases,
}
use openclaw_managed_agents.JsMap
use openclaw_managed_agents.JsMap.{JsMap, get-set}
use openclaw_managed_agents.JsMap.Distinct.{
  get-retain, kept, IsDistinct, retain-IsDistinct, set-IsDistinct,
}
use openclaw_managed_agents.RateLimit.{
  RateLimiter, Bucket, token, capacity, refilled, take_token, Decision, denied, check, gc,
  gc_after_ms,
}

unfoldable pub tokens_at : ℕ → ℕ → Option Bucket → ℕ
tokens_at rpm now o = (refilled rpm now o).tokens

abbrev pub level : RateLimiter → String → ℕ → ℕ
level l key now = tokens_at l.rpm now (JsMap.get l.buckets key)

pub mul_mono : (a b c : ℕ) → a ≤ b → a * c ≤ b * c
mul_mono a b c h = grind arith

pub mul-add : (a b c : ℕ) → (a + b) * c ≡ a * c + b * c
mul-add a b c = omega arith

-- Refills add at most `rpm` a millisecond.
pub tokens_at-le :
    (rpm now later : ℕ) (o : Option Bucket)
    → now ≤ later
    → tokens_at rpm later o ≤ tokens_at rpm now o + (later - now) * rpm
unfolding tokens_at
tokens_at-le rpm now later none h = omega arith
tokens_at-le rpm now later (some b) h = omega (
  arith,
  mul_mono (later - b.last_refill_ms) (now - b.last_refill_ms + (later - now)) rpm (omega arith),
  mul-add (now - b.last_refill_ms) (later - now) rpm,
)

pub tokens_at-le-capacity : (rpm now : ℕ) (o : Option Bucket) → tokens_at rpm now o ≤ capacity rpm
unfolding tokens_at
tokens_at-le-capacity rpm now none = omega arith
tokens_at-le-capacity rpm now (some b) = omega arith

-- A bucket that the sweep drops would be full by then.
tokens_at-kept :
    (rpm now later : ℕ) (o : Option Bucket)
    → now ≤ later
    → tokens_at rpm later (kept (λ b. not (ltb gc_after_ms (now - b.last_refill_ms))) o)
      ≡ tokens_at rpm later o
unfolding tokens_at
tokens_at-kept rpm now later none h = refl
tokens_at-kept rpm now later (some b) h =
    ground (arith, mul_mono 600000 (later - b.last_refill_ms) rpm)

-- The sweep of idle buckets is not observable: at no later time does any caller have other tokens
-- than without it.
pub level-gc :
    (l : RateLimiter) (key : String) (now later : ℕ)
    → IsDistinct l.buckets
    → now ≤ later
    → level (gc l now) key later ≡ level l key later
unfolding gc
level-gc l key now later d h =
    rw get-retain (tokens_at-kept l.rpm now later (JsMap.get l.buckets key) h)

-- What is left of `b` after a request.
abbrev pub spent : Bucket → Bucket
spent b = if leb token b.tokens then record b { tokens = b.tokens - token } else b

get-take_token :
    (l : RateLimiter) (key j : String) (b : Bucket)
    → JsMap.get (take_token l key b).1.buckets j
      ≡ (if str_eq key j then some (spent b) else JsMap.get l.buckets j)
get-take_token l key j b = ground (
  arith,
  get-set l.buckets key j (record b { tokens = b.tokens - token }),
  get-set l.buckets key j b,
)

-- A request of one caller changes no other caller's bucket, and takes one token from its own if there
-- is one.
pub get-check :
    (l : RateLimiter) (key j : String) (now : ℕ)
    → 0 < l.rpm
    → JsMap.get (check l key now).1.buckets j ≡ (
        if str_eq key j
        then some (spent (refilled l.rpm now (JsMap.get l.buckets key)))
        else JsMap.get l.buckets j)
unfolding check
get-check l key j now h =
    let e : nat_eq l.rpm 0 ≡ false = ground arith in
    rw e (get-take_token l key j (refilled l.rpm now (JsMap.get l.buckets key)))

pub rpm-check : (l : RateLimiter) (key : String) (now : ℕ) → (check l key now).1.rpm ≡ l.rpm
unfolding check
rpm-check l key now = ground arith

unfoldable pub is_allowed : Decision → Bool
is_allowed (denied _ _) = false
is_allowed _ = true

-- A request passes exactly if its caller has a whole token.
pub check-allowed :
    (l : RateLimiter) (key : String) (now : ℕ)
    → 0 < l.rpm
    → is_allowed (check l key now).0 ≡ leb token (level l key now)
unfolding check is_allowed tokens_at
check-allowed l key now h = ground arith

tokens_at-spent :
    (rpm now : ℕ) (o : Option Bucket)
    → tokens_at rpm now (some (spent (refilled rpm now o))) ≡ (
        if leb token (tokens_at rpm now o)
        then tokens_at rpm now o - token
        else tokens_at rpm now o)
unfolding tokens_at
tokens_at-spent rpm now none = ground arith
tokens_at-spent rpm now (some b) = ground arith

-- What a request leaves its caller at the time of the request.
pub level-check_self :
    (l : RateLimiter) (key : String) (now : ℕ)
    → 0 < l.rpm
    → level (check l key now).1 key now
      ≡ (if leb token (level l key now) then level l key now - token else level l key now)
level-check_self l key now h =
    rw (rpm-check, get-check l key key now h, eq_refl)
      (tokens_at-spent l.rpm now (JsMap.get l.buckets key))

pub level-check_other :
    (l : RateLimiter) (key j : String) (now later : ℕ)
    → 0 < l.rpm
    → str_eq key j ≡ false
    → level (check l key now).1 j later ≡ level l j later
level-check_other l key j now later h n = rw (rpm-check, get-check l key j now h, n)

take_token-IsDistinct :
    (l : RateLimiter) (key : String) (b : Bucket)
    → IsDistinct l.buckets
    → IsDistinct (take_token l key b).1.buckets
take_token-IsDistinct l key b d =
    if-cases (λ (r : Decision × RateLimiter). IsDistinct r.1.buckets) (leb token b.tokens) _ _
      (λ _. set-IsDistinct l.buckets key _ d) (λ _. set-IsDistinct l.buckets key b d)

pub check-IsDistinct :
    (l : RateLimiter) (key : String) (now : ℕ)
    → IsDistinct l.buckets
    → IsDistinct (check l key now).1.buckets
unfolding check
check-IsDistinct l key now d =
    if-cases (λ (r : Decision × RateLimiter). IsDistinct r.1.buckets) (nat_eq l.rpm 0) _ _ (λ _. d)
      (λ _. take_token-IsDistinct l key (refilled l.rpm now (JsMap.get l.buckets key)) d)

pub gc-IsDistinct :
    (l : RateLimiter) (now : ℕ) → IsDistinct l.buckets → IsDistinct (gc l now).buckets
unfolding gc
gc-IsDistinct l now d = retain-IsDistinct _ l.buckets d
