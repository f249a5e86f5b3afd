-- ===== src/Gateway/Once.antt =====
-- The answers that requests get, over any history of calls, frames, timers and socket events.
use openclaw_managed_agents.Prelude.{
  ℕ, suc, ◌+◌, ◌≤◌, ◌<◌, String, ◌≡◌, refl, ap, ◌∙◌, Bool, true, false, not, ◌&&◌, Option, none,
  some, List, [], ◌∷◌, ◌++◌, map, arith, ltb, nat_eq, if◌then◌else◌, if-cases, get_or,
}
use openclaw_managed_agents.Gateway.{
  Client, Frame, Settled, Outcome, resolved, rejected, response_ok, response_error,
  response_without_error, lose_if_waiting, event, other, waits, drop, settle, settle_if_waiting,
  reject_all, send_request, request, request_timeout, handle_message, handle_socket_error,
  handle_socket_close, close, on_event, off_event, deliver, without, Requested, refused, sent,
}
use openclaw_managed_agents.Gateway.Handshake.{
  Report, Progress, waiting, stuck, ready, failed_with, opened, connect, handshake,
}
use openclaw_managed_agents.JsMap

pub data Action : Type 0 where
  connects : List Report → Action
  requests : Bool → Action
  times_out : ℕ → Action
  receives : Frame → Action
  socket_errors socket_closes closes : Action
  subscribes : String → ℕ → Action
  unsubscribes : String → ℕ → Action

unfoldable pub step : Client → Action → Client
step c (connects rs) = (connect c rs).1
step c (requests sends) = (request c sends).1
step c (times_out id) = request_timeout c id
step c (receives f) = handle_message c f
step c socket_errors = handle_socket_error c
step c socket_closes = handle_socket_close c
step c closes = close c
step c (subscribes name h) = on_event c name h
step c (unsubscribes name h) = off_event c name h

unfoldable pub run : Client → List Action → Client
run c [] = c
run c (a ∷ as') = run (step c a) as'

-- How often a number stands in a list.
unfoldable pub times : ℕ → List ℕ → ℕ
times id [] = 0
times id (j ∷ js) = (if nat_eq j id then 1 else 0) + times id js

abbrev pub answered : List Settled → List ℕ
answered = map (λ s. s.id)

-- An identifier that was given out either waits, has been answered or was lost, once; no other one does.
abbrev pub IsAnsweredOnce : Client → Type 0
IsAnsweredOnce c =
    (id : ℕ)
    → times id c.pending + times id (answered c.settled) + times id c.lost
      ≡ (if ltb id c.next_request_id && ltb 0 id then 1 else 0)

times-append : (id : ℕ) (xs ys : List ℕ) → times id (xs ++ ys) ≡ times id xs + times id ys
unfolding times
times-append id [] ys = ground arith
times-append id (x ∷ xs) ys = ground (arith, times-append id xs ys)

answered-append : (xs ys : List Settled) → answered (xs ++ ys) ≡ answered xs ++ answered ys
answered-append [] ys = refl
answered-append (x ∷ xs) ys = ap (λ l. x.id ∷ l) (answered-append xs ys)

times-drop :
    (id k : ℕ) (xs : List ℕ) → times id (drop xs k) ≡ (if nat_eq k id then 0 else times id xs)
unfolding times
times-drop id k [] = ground arith
times-drop id k (x ∷ xs) = ground (arith, times-drop id k xs)

times_waits : (k : ℕ) (xs : List ℕ) → waits xs k ≡ true → 1 ≤ times k xs
unfolding times
times_waits k [] h = ground arith
times_waits k (x ∷ xs) h = ground (arith, times_waits k xs)

answered-reject :
    (code : String) (ids : List ℕ)
    → answered (map (λ id. record { id = id; outcome = rejected code }) ids) ≡ ids
answered-reject code [] = refl
answered-reject code (i ∷ is) = ap (λ l. i ∷ l) (answered-reject code is)

-- An answer to a request that waits moves its identifier from one list to the other.
times-settle :
    (c : Client) (k : ℕ) (o : Outcome) (id : ℕ)
    → IsAnsweredOnce c
    → waits c.pending k ≡ true
    → times id (settle c k o).pending + times id (answered (settle c k o).settled)
      ≡ times id c.pending + times id (answered c.settled)
unfolding times
times-settle c k o id h w = ground (
  arith,
  h k,
  h id,
  times-drop id k c.pending,
  times_waits k c.pending w,
  answered-append c.settled (record { id = k; outcome = o } ∷ []),
  times-append id (answered c.settled) (k ∷ []),
)

-- Identifiers are positive; the first is 1.
abbrev pub IsLive : Client → Type 0
IsLive c = (0 < c.next_request_id) × IsAnsweredOnce c

settle-IsLive :
    (c : Client) (k : ℕ) (o : Outcome) → IsLive c → waits c.pending k ≡ true → IsLive (settle c k o)
settle-IsLive c k o h w =
    (h.0, λ id. ap (λ n. n + times id c.lost) (times-settle c k o id h.1 w) ∙ h.1 id)

lose-IsAnsweredOnce :
    (c : Client) (k : ℕ)
    → IsAnsweredOnce c
    → waits c.pending k ≡ true
    → IsAnsweredOnce (record c { pending = drop c.pending k; lost = c.lost ++ k ∷ [] })
unfolding times
lose-IsAnsweredOnce c k h w id = ground (
  arith,
  h k,
  h id,
  times-drop id k c.pending,
  times_waits k c.pending w,
  times-append id c.lost (k ∷ []),
)

lose_if_waiting-IsLive : (c : Client) (k : ℕ) → IsLive c → IsLive (lose_if_waiting c k)
lose_if_waiting-IsLive c k h =
    if-cases IsLive (waits c.pending k)
      (record c { pending = drop c.pending k; lost = c.lost ++ k ∷ [] }) c
      (λ w. (h.0, lose-IsAnsweredOnce c k h.1 w)) (λ n. h)

settle_if_waiting-IsLive :
    (c : Client) (k : ℕ) (o : Outcome) → IsLive c → IsLive (settle_if_waiting c k o)
settle_if_waiting-IsLive c k o h =
    if-cases IsLive (waits c.pending k) (settle c k o) c (settle-IsLive c k o h) (λ n. h)

reject_all-IsAnsweredOnce :
    (c : Client) (code : String) → IsAnsweredOnce c → IsAnsweredOnce (reject_all c code)
unfolding times
reject_all-IsAnsweredOnce c code h id = ground (
  arith,
  h id,
  answered-append c.settled (map (λ (i : ℕ). record { id = i; outcome = rejected code }) c.pending),
  answered-reject code c.pending,
  times-append id (answered c.settled) c.pending,
)

-- A request that is sent takes the next identifier.
give : Client → Client
give c = record c {
  pending = c.pending ++ c.next_request_id ∷ [];
  next_request_id = suc c.next_request_id;
}

give-IsAnsweredOnce :
    (c : Client) → 0 < c.next_request_id → IsAnsweredOnce c → IsAnsweredOnce (give c)
unfolding times give
give-IsAnsweredOnce c p h id =
    ground (arith, h id, times-append id c.pending (c.next_request_id ∷ []))

give-waits : (c : Client) → waits (give c).pending c.next_request_id ≡ true
unfolding give
give-waits c = go c.pending
  where
    go : (xs : List ℕ) → waits (xs ++ c.next_request_id ∷ []) c.next_request_id ≡ true
    go [] = ground arith
    go (x ∷ xs) = ground (arith, go xs)

give-IsLive : (c : Client) → IsLive c → IsLive (give c)
unfolding give
give-IsLive c h = (omega arith, give-IsAnsweredOnce c h.0 h.1)

request-IsLive : (c : Client) (sends : Bool) → IsLive c → IsLive (request c sends).1
unfolding request give
request-IsLive c sends h =
    if-cases Keeps c.closed (refused "closed", c) _ (λ _. h)
      λ _.
        if-cases Keeps (not c.connected) (refused "not_connected", c) (send_request c sends)
          (λ _. h)
          λ _.
            if-cases Keeps sends (sent c.next_request_id, give c)
              (sent c.next_request_id, settle (give c) c.next_request_id (rejected "send_failed"))
              (λ _. give-IsLive c h)
              (λ _.
                settle-IsLive (give c) c.next_request_id (rejected "send_failed") (give-IsLive c h)
                  (give-waits c))
  where
    Keeps : Requested × Client → Type 0
    Keeps x = IsLive x.1

deliver-IsLive :
    (c : Client) (payload : String) (o : Option (List ℕ)) → IsLive c → IsLive (deliver c payload o)
deliver-IsLive c payload none h = h
deliver-IsLive c payload (some hs) h = h

without-IsLive : (c : Client) (name : String) (hs : List ℕ) → IsLive c → IsLive (without c name hs)
without-IsLive c name [] h = h
without-IsLive c name (k ∷ ks) h = h

opened-IsLive : (c : Client) (p : Progress) → IsLive c → IsLive (opened c p)
opened-IsLive c waiting h = h
opened-IsLive c stuck h = h
opened-IsLive c ready h = h
opened-IsLive c (failed_with code) h = h

connect-IsLive : (c : Client) (rs : List Report) → IsLive c → IsLive (connect c rs).1
unfolding connect
connect-IsLive c rs h =
    if-cases Keeps c.connected (ready, c) _ (λ _. h)
      λ _.
        if-cases Keeps c.closed (failed_with "closed", c)
          (handshake waiting rs, opened c (handshake waiting rs)) (λ _. h)
          λ _. opened-IsLive c (handshake waiting rs) h
  where
    Keeps : Progress × Client → Type 0
    Keeps x = IsLive x.1

handle_message-IsLive : (c : Client) (f : Frame) → IsLive c → IsLive (handle_message c f)
unfolding handle_message
handle_message-IsLive c (event name payload) h =
    deliver-IsLive c payload (JsMap.get c.listeners name) h
handle_message-IsLive c (response_ok id payload) h =
    settle_if_waiting-IsLive c id (resolved payload) h
handle_message-IsLive c (response_error id code) h = settle_if_waiting-IsLive c id (rejected code) h
handle_message-IsLive c (response_without_error id) h = lose_if_waiting-IsLive c id h
handle_message-IsLive c other h = h

step-IsLive : (c : Client) (a : Action) → IsLive c → IsLive (step c a)
unfolding step request_timeout handle_socket_error handle_socket_close close on_event off_event
step-IsLive c (connects rs) h = connect-IsLive c rs h
step-IsLive c (requests sends) h = request-IsLive c sends h
step-IsLive c (times_out id) h = settle_if_waiting-IsLive c id (rejected "request_timeout") h
step-IsLive c (receives f) h = handle_message-IsLive c f h
step-IsLive c socket_errors h = (h.0, reject_all-IsAnsweredOnce c "socket_error" h.1)
step-IsLive c socket_closes h = (h.0, reject_all-IsAnsweredOnce c "socket_closed" h.1)
step-IsLive c closes h =
    if-cases IsLive c.closed c (record (reject_all c "closed") { closed = true; connected = false })
      (λ _. h) (λ _. (h.0, reject_all-IsAnsweredOnce c "closed" h.1))
step-IsLive c (subscribes name k) h = h
step-IsLive c (unsubscribes name k) h =
    without-IsLive c name (drop (get_or (JsMap.get c.listeners name) []) k) h

-- From a client that has sent no request: whatever is called and whatever the gateway, the timers and the socket do, in
-- any order, every request that was given an identifier still waits, or has been answered exactly once, or was
-- lost to a failed response without an error, and only one of these; nothing else is ever answered.
pub run-IsLive : (c : Client) (as' : List Action) → IsLive c → IsLive (run c as')
unfolding run
run-IsLive c [] h = h
run-IsLive c (a ∷ as') h = run-IsLive (step c a) as' (step-IsLive c a h)
