-- ===== src/RateLimit/Quota.antt =====
-- How many requests of one caller pass in a stretch of time, whatever other callers do and whenever
-- the sweep runs.
use openclaw_managed_agents.Prelude.{
  ℕ, ◌+◌, ◌-◌, ◌*◌, ◌≤◌, ◌<◌, String, ◌≡◌, refl, ap, List, [], ◌∷◌, arith, eq_iff, str_eq,
  if◌then◌else◌,
}
use openclaw_managed_agents.JsMap
use openclaw_managed_agents.JsMap.Distinct.{IsDistinct}
use openclaw_managed_agents.RateLimit.{RateLimiter, token, check, gc}
use openclaw_managed_agents.RateLimit.Level.{
  level, tokens_at-le, tokens_at-le-capacity, level-gc, level-check_self, level-check_other,
  check-allowed, is_allowed, rpm-check, check-IsDistinct, gc-IsDistinct, mul-add,
}

pub data Event : Type 0 where
  request : String → ℕ → Event
  sweep : ℕ → Event

abbrev pub time_of : Event → ℕ
time_of (request key t) = t
time_of (sweep t) = t

unfoldable pub step : RateLimiter → Event → RateLimiter
step l (request key t) = (check l key t).1
step l (sweep t) = gc l t

abbrev pub passes : RateLimiter → String → Event → ℕ
passes l key (request j t) =
    if str_eq j key then (if is_allowed (check l j t).0 then 1 else 0) else 0
passes l key (sweep t) = 0

-- The requests of the caller that pass.
unfoldable pub admitted : RateLimiter → String → List Event → ℕ
admitted l key [] = 0
admitted l key (e ∷ es) = passes l key e + admitted (step l e) key es

-- The clock does not run backwards.
abbrev pub Chronological : ℕ → List Event → Type 0
Chronological start [] = Unit
Chronological start (e ∷ es) = (start ≤ time_of e) × Chronological (time_of e) es

abbrev pub end_of : ℕ → List Event → ℕ
end_of start [] = start
end_of start (e ∷ es) = end_of (time_of e) es

le-end_of : (start : ℕ) (es : List Event) → Chronological start es → start ≤ end_of start es
le-end_of start [] h = omega arith
le-end_of start (e ∷ es) h = omega (arith, le-end_of (time_of e) es h.1, h.0)

-- One event costs what it admits, and refills make up for no more than the time that has passed.
step_cost :
    (l : RateLimiter) (key : String) (start : ℕ) (e : Event)
    → 0 < l.rpm
    → IsDistinct l.buckets
    → start ≤ time_of e
    → token * passes l key e + level (step l e) key (time_of e)
      ≤ level l key start + (time_of e - start) * l.rpm
unfolding step
step_cost l key start (request j t) h d c = ground (
  arith,
  eq_iff j key,
  level-check_self l j t h,
  level-check_other l j key t t h,
  check-allowed l j t h,
  tokens_at-le l.rpm start t (JsMap.get l.buckets j) c,
  tokens_at-le l.rpm start t (JsMap.get l.buckets key) c,
)
step_cost l key start (sweep t) h d c = omega (
  arith,
  level-gc l key t t d (omega arith),
  tokens_at-le l.rpm start t (JsMap.get l.buckets key) c,
)

rpm-step : (l : RateLimiter) (e : Event) → (step l e).rpm ≡ l.rpm
unfolding step gc
rpm-step l (request key t) = rpm-check l key t
rpm-step l (sweep t) = refl

step-IsDistinct :
    (l : RateLimiter) (e : Event) → IsDistinct l.buckets → IsDistinct (step l e).buckets
unfolding step
step-IsDistinct l (request key t) d = check-IsDistinct l key t d
step-IsDistinct l (sweep t) d = gc-IsDistinct l t d

split_time : (a b c : ℕ) → a ≤ b → b ≤ c → c - a ≡ (b - a) + (c - b)
split_time a b c h k = omega arith

admitted_cost :
    (l : RateLimiter) (key : String) (start : ℕ) (es : List Event)
    → 0 < l.rpm
    → IsDistinct l.buckets
    → Chronological start es
    → token * admitted l key es ≤ level l key start + (end_of start es - start) * l.rpm
unfolding admitted
admitted_cost l key start [] h d c = omega arith
admitted_cost l key start (e ∷ es) h d c = omega (
  arith,
  step_cost l key start e h d c.0,
  admitted_cost (step l e) key (time_of e) es (rw rpm-step h) (step-IsDistinct l e d) c.1,
  ap (λ (r : ℕ). (end_of (time_of e) es - time_of e) * r) (rpm-step l e),
  le-end_of (time_of e) es c.1,
  c.0,
  ap (λ (t : ℕ). t * l.rpm)
      (split_time start (time_of e) (end_of (time_of e) es) c.0 (le-end_of (time_of e) es c.1)),
  mul-add (time_of e - start) (end_of (time_of e) es - time_of e) l.rpm,
)

-- In any stretch of time, over any interleaving with other callers and with sweeps, a caller gets at
-- most one full bucket of requests through and what is refilled meanwhile: `rpm` requests and
-- another `rpm` for each minute that passes.
pub admitted_bound :
    (l : RateLimiter) (key : String) (start : ℕ) (es : List Event)
    → 0 < l.rpm
    → IsDistinct l.buckets
    → Chronological start es
    → token * admitted l key es ≤ l.rpm * token + (end_of start es - start) * l.rpm
admitted_bound l key start es h d c = omega (
  arith,
  admitted_cost l key start es h d c,
  tokens_at-le-capacity l.rpm start (JsMap.get l.buckets key),
)
