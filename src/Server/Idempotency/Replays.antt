-- ===== src/Server/Idempotency/Replays.antt =====
-- A reply is replayed while it is kept.
use openclaw_managed_agents.Prelude.{
  ℕ, ◌+◌, ◌<◌, String, ◌≡◌, refl, sym, ap, ◌∙◌, inl, inr, Bool, true, false, not, Option, none,
  some, List, [], ◌∷◌, ◌++◌, arith, eq_iff, eq_refl, ltb, leb, str_eq, if◌then◌else◌, Bool-cases,
  if-cases, filter, any,
}
use mathlib.Core.Path.{subst}
use openclaw_managed_agents.JsMap
use openclaw_managed_agents.JsMap.{JsMap, get-set}
use openclaw_managed_agents.Server.Idempotency.{
  JsonReply, CachedReply, EventReplies, event_idempotency_ttl_ms, is_kept,
  reap_expired_event_replies, is_inflight, Answer, replays, joins, executes, answer, post_event,
  keep, end_execution, Action, posts, ends, step, run,
}

-- Nothing is posted at or after the time; executions may end at any.
abbrev pub IsBefore : ℕ → List Action → Type 0
IsBefore t [] = Unit
IsBefore t (posts key now ∷ as') = now < t × IsBefore t as'
IsBefore t (ends key reply now ∷ as') = IsBefore t as'

-- The reply is kept, and no execution for the key is under way.
record Holds (s : EventReplies) (key : String) (c : CachedReply) : Type 0 where
  kept : JsMap.get s.cache key ≡ some c
  idle : is_inflight s key ≡ false

get-kept :
    (m : JsMap CachedReply) (key : String) (c : CachedReply) (now : ℕ)
    → JsMap.get m key ≡ some c
    → now < c.expires_at
    → JsMap.get (filter (is_kept now) m) key ≡ some c
unfolding JsMap.get
get-kept [] key c now h l = absurd (ground arith)
get-kept ((j, d) ∷ m) key c now h l = elim (Bool-cases (str_eq j key)) [
  | inl y ↦ rw (live (same y), y) (ap some (same y))
  | inr n ↦ behind n (is_kept now (j, d)) (get-kept m key c now (rw n at h) l)
]
  where
    same : str_eq j key ≡ true → d ≡ c
    same y = ground (arith, rw y at h)

    live : d ≡ c → is_kept now (j, d) ≡ true
    live e = subst (λ (x : CachedReply). not (leb x.expires_at now) ≡ true) (sym e) (ground arith)

    behind :
        str_eq j key ≡ false
        → (b : Bool) → JsMap.get (filter (is_kept now) m) key ≡ some c
        → JsMap.get (if b then (j, d) ∷ filter (is_kept now) m else filter (is_kept now) m) key
          ≡ some c
    behind n true ih = rw n ih
    behind n false ih = ih

inflight-without :
    (ks : List String) (k key : String)
    → any (λ j. str_eq j key) (filter (λ j. not (str_eq j k)) ks)
      ≡ (if str_eq k key then false else any (λ j. str_eq j key) ks)
inflight-without [] k key = ground arith
inflight-without (j ∷ ks) k key =
    ground (arith, eq_iff j k, eq_iff j key, eq_iff k key, inflight-without ks k key)

inflight-snoc :
    (ks : List String) (k key : String)
    → any (λ j. str_eq j key) (ks ++ k ∷ [])
      ≡ (if str_eq k key then true else any (λ j. str_eq j key) ks)
inflight-snoc [] k key = ground arith
inflight-snoc (j ∷ ks) k key = ground (arith, inflight-snoc ks k key)

reap-Holds :
    (s : EventReplies) (key : String) (c : CachedReply) (now : ℕ)
    → now < c.expires_at
    → Holds s key c
    → Holds (reap_expired_event_replies s now) key c
unfolding reap_expired_event_replies
reap-Holds s key c now l h = record { kept = get-kept s.cache key c now h.kept l; idle = h.idle }

none_kept : (c : CachedReply) → ◌≡◌ {A = Option CachedReply} none (some c) → ⊥
none_kept c p = ground arith

both_ways : (b : Bool) → b ≡ true → b ≡ false → ⊥
both_ways b p q = ground arith

answer-Holds :
    (q : EventReplies) (key k : String) (c : CachedReply) (o : Option CachedReply)
    → JsMap.get q.cache k ≡ o
    → Holds q key c
    → Holds (answer q k o).1 key c
answer-Holds q key k c (some d) e h = h
answer-Holds q key k c none e h =
    if-cases (λ (r : Answer × EventReplies). Holds r.1 key c) (is_inflight q k) (joins, q)
      (executes, record q { inflight = q.inflight ++ k ∷ []; started = q.started ++ k ∷ [] })
      (λ _. h)
      (λ _. record {
        kept = h.kept;
        idle = inflight-snoc q.inflight k key ∙ rw (other, h.idle) refl;
      })
  where
    other : str_eq k key ≡ false
    other = elim (Bool-cases (str_eq k key)) [
      | inr n ↦ n
      | inl y ↦
          absurd
            (none_kept c (sym e ∙ (ap (JsMap.get q.cache) (ground (arith, eq_iff k key)) ∙ h.kept)))
    ]

keep-inflight :
    (s : EventReplies) (k : String) (reply : JsonReply) (now : ℕ)
    → (keep s k reply now).inflight ≡ s.inflight
keep-inflight s k reply now =
    if-cases (λ (q : EventReplies). q.inflight ≡ s.inflight) (ltb reply.status 500) _ s (λ _. refl)
      (λ _. refl)

keep-other :
    (s : EventReplies) (k key : String) (reply : JsonReply) (now : ℕ)
    → str_eq k key ≡ false
    → JsMap.get (keep s k reply now).cache key ≡ JsMap.get s.cache key
keep-other s k key reply now n =
    if-cases (λ (q : EventReplies). JsMap.get q.cache key ≡ JsMap.get s.cache key)
      (ltb reply.status 500) _ s
      (λ _.
        get-set s.cache k key
          (record { reply = reply; expires_at = now + event_idempotency_ttl_ms })
        ∙ rw n refl)
      (λ _. refl)

end-idle :
    (s : EventReplies) (k key : String) (reply : JsonReply) (now : ℕ)
    → is_inflight s key ≡ false
    → any (λ j. str_eq j key) (filter (λ j. not (str_eq j k)) (keep s k reply now).inflight) ≡ false
end-idle s k key reply now h =
    inflight-without (keep s k reply now).inflight k key
    ∙ (ap (λ l. if str_eq k key then false else any (λ j. str_eq j key) l)
          (keep-inflight s k reply now)
        ∙ either (str_eq k key))
  where
    either : (b : Bool) → (if b then false else is_inflight s key) ≡ false
    either true = refl
    either false = h

end-Holds :
    (s : EventReplies) (key k : String) (c : CachedReply) (reply : JsonReply) (now : ℕ)
    → Holds s key c
    → Holds (end_execution s k reply now) key c
unfolding end_execution
end-Holds s key k c reply now h =
    if-cases (λ q. Holds q key c) (is_inflight s k) _ s
      (λ y. record {
        kept = keep-other s k key reply now (other y) ∙ h.kept;
        idle = end-idle s k key reply now h.idle;
      })
      (λ _. h)
  where
    other : is_inflight s k ≡ true → str_eq k key ≡ false
    other y = elim (Bool-cases (str_eq k key)) [
      | inr n ↦ n
      | inl e ↦ absurd (
          both_ways (is_inflight s key)
            (ap (is_inflight s) (sym (ground (arith, eq_iff k key))) ∙ y) h.idle)
    ]

run-Holds :
    (s : EventReplies) (key : String) (c : CachedReply) (as' : List Action)
    → IsBefore c.expires_at as'
    → Holds s key c
    → Holds (run s as') key c
unfolding run step post_event
run-Holds s key c [] b h = h
run-Holds s key c (posts k now ∷ as') b h =
    let q = reap_expired_event_replies s now in
    run-Holds (answer q k (JsMap.get q.cache k)).1 key c as' b.1
      (answer-Holds q key k c (JsMap.get q.cache k) refl (reap-Holds s key c now b.0 h))
run-Holds s key c (ends k reply now ∷ as') b h =
    run-Holds (end_execution s k reply now) key c as' b (end-Holds s key k c reply now h)

first-Holds :
    (s : EventReplies) (key : String) (reply : JsonReply) (t : ℕ)
    → is_inflight s key ≡ true
    → ltb reply.status 500 ≡ true
    → Holds
        (end_execution s key reply t)
        key
        (record { reply = reply; expires_at = t + event_idempotency_ttl_ms })
unfolding end_execution
first-Holds s key reply t i l =
    rw (i, l)
      (record {
        kept =
            get-set s.cache key key
              (record { reply = reply; expires_at = t + event_idempotency_ttl_ms })
            ∙ rw (eq_refl key) refl;
        idle = inflight-without s.inflight key key ∙ rw (eq_refl key) refl;
      })

-- When an execution has ended with a status below 500, every request with its key within the time to live gets that very reply,
-- whatever else is posted and ends in between; none is executed again.
pub post_event-replays :
    (s : EventReplies) (key : String) (reply : JsonReply) (t : ℕ) (as' : List Action) (now : ℕ)
    → is_inflight s key ≡ true
    → ltb reply.status 500 ≡ true
    → IsBefore (t + event_idempotency_ttl_ms) as'
    → now < t + event_idempotency_ttl_ms
    → (post_event (run (end_execution s key reply t) as') key now).0 ≡ replays reply
unfolding post_event
post_event-replays s key reply t as' now i l b n =
    let c : CachedReply = record { reply = reply; expires_at = t + event_idempotency_ttl_ms } in
    let q = run (end_execution s key reply t) as' in
    ap (λ o. (answer (reap_expired_event_replies q now) key o).0)
      (reap-Holds q key c now n
        (run-Holds (end_execution s key reply t) key c as' b (first-Holds s key reply t i l))).kept
