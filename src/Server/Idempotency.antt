-- ===== src/Server/Idempotency.antt =====
-- POST /v1/sessions/:sessionId/events of src/orchestrator/server.ts with an `Idempotency-Key`: the replies that are kept
-- and the executions under way. A key stands for the session's id and the header's value together. What an execution does is
-- the router's; here it only starts and ends with a reply.
pub mod Replays
use openclaw_managed_agents.Prelude.{
  ℕ, ◌+◌, ◌*◌, String, Bool, not, Option, none, some, List, [], ◌∷◌, ◌++◌, ltb, leb, str_eq,
  if◌then◌else◌, filter, any,
}
use openclaw_managed_agents.JsMap
use openclaw_managed_agents.JsMap.{JsMap}

pub record JsonReply : Type 0 where
  pub status : ℕ
  pub body : String

pub record CachedReply : Type 0 where
  pub reply : JsonReply
  pub expires_at : ℕ

pub record EventReplies : Type 0 where
  pub cache : JsMap CachedReply
  pub inflight : List String
  pub started : List String

abbrev pub event_idempotency_ttl_ms : ℕ
event_idempotency_ttl_ms = 5 * 60000

abbrev pub is_kept : ℕ → String × CachedReply → Bool
is_kept now e = not (leb e.1.expires_at now)

unfoldable pub reap_expired_event_replies : EventReplies → ℕ → EventReplies
reap_expired_event_replies s now = record s { cache = filter (is_kept now) s.cache }

abbrev pub is_inflight : EventReplies → String → Bool
is_inflight s key = any (λ k. str_eq k key) s.inflight

-- What a request with a key gets: a reply that was kept, the reply of the execution under way, or an execution of its own.
pub data Answer : Type 0 where
  replays : JsonReply → Answer
  joins executes : Answer

abbrev pub answer : EventReplies → String → Option CachedReply → Answer × EventReplies
answer s key (some c) = (replays c.reply, s)
answer s key none =
    if is_inflight s key
    then (joins, s)
    else (executes, record s { inflight = s.inflight ++ key ∷ []; started = s.started ++ key ∷ [] })

unfoldable pub post_event : EventReplies → String → ℕ → Answer × EventReplies
post_event s key now =
    let q = reap_expired_event_replies s now in answer q key (JsMap.get q.cache key)

abbrev pub keep : EventReplies → String → JsonReply → ℕ → EventReplies
keep s key reply now =
    if ltb reply.status 500
    then record s {
      cache =
          JsMap.set s.cache key
            (record { reply = reply; expires_at = now + event_idempotency_ttl_ms });
    }
    else s

-- The end of an execution that is under way.
unfoldable pub end_execution : EventReplies → String → JsonReply → ℕ → EventReplies
end_execution s key reply now =
    if is_inflight s key
    then (let q = keep s key reply now in
        record q { inflight = filter (λ k. not (str_eq k key)) q.inflight })
    else s

pub data Action : Type 0 where
  posts : String → ℕ → Action
  ends : String → JsonReply → ℕ → Action

unfoldable pub step : EventReplies → Action → EventReplies
step s (posts key now) = (post_event s key now).1
step s (ends key reply now) = end_execution s key reply now

unfoldable pub run : EventReplies → List Action → EventReplies
run s [] = s
run s (a ∷ as') = run (step s a) as'
