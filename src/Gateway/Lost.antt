-- ===== src/Gateway/Lost.antt =====
-- The requests of a connection that is gone.
use openclaw_managed_agents.Prelude.{
  ℕ, suc, ◌+◌, String, ◌≡◌, refl, Bool, true, false, not, ◌&&◌, Option, none, some, List, [], ◌∷◌,
  ◌++◌, arith, ltb, if◌then◌else◌, if-cases, get_or,
}
use openclaw_managed_agents.Gateway.{
  Client, Frame, Outcome, resolved, rejected, response_ok, response_error, response_without_error,
  lose_if_waiting, event, other, waits, drop, settle, settle_if_waiting, reject_all, send_request,
  request, request_timeout, handle_message, handle_socket_error, handle_socket_close, close,
  on_event, off_event, deliver, without, Requested, sent, refused,
}
use openclaw_managed_agents.Gateway.Handshake.{
  Report, Progress, waiting, stuck, ready, failed_with, opened, connect, handshake,
}
use openclaw_managed_agents.Gateway.Once.{
  Action, connects, requests, times_out, receives, socket_errors, socket_closes, closes, subscribes,
  unsubscribes, step, run, times, answered, IsLive, run-IsLive,
}
use openclaw_managed_agents.JsMap

abbrev pub HasNone : Bool → List ℕ → Type 0
HasNone true ids = Unit
HasNone false ids = ids ≡ []

abbrev pub IsSettled : Client → Type 0
IsSettled c = HasNone c.connected c.pending

drop-HasNone : (b : Bool) (ids : List ℕ) (k : ℕ) → HasNone b ids → HasNone b (drop ids k)
drop-HasNone true ids k h = tt
drop-HasNone false ids k h = rw h refl

settle_if_waiting-IsSettled :
    (c : Client) (k : ℕ) (o : Outcome) → IsSettled c → IsSettled (settle_if_waiting c k o)
settle_if_waiting-IsSettled c k o h =
    if-cases IsSettled (waits c.pending k) (settle c k o) c
      (λ _. drop-HasNone c.connected c.pending k h) (λ _. h)

lose_if_waiting-IsSettled : (c : Client) (k : ℕ) → IsSettled c → IsSettled (lose_if_waiting c k)
lose_if_waiting-IsSettled c k h =
    if-cases IsSettled (waits c.pending k)
      (record c { pending = drop c.pending k; lost = c.lost ++ k ∷ [] }) c
      (λ _. drop-HasNone c.connected c.pending k h) (λ _. h)

on : (b : Bool) (ids : List ℕ) → not b ≡ false → HasNone b ids
on true ids e = tt
on false ids e = ground arith

request-IsSettled : (c : Client) (sends : Bool) → IsSettled c → IsSettled (request c sends).1
unfolding request
request-IsSettled c sends h =
    if-cases Keeps c.closed (refused "closed", c) _ (λ _. h)
      λ _.
        if-cases Keeps (not c.connected) (refused "not_connected", c) (send_request c sends)
          (λ _. h)
          λ n.
            if-cases Keeps sends (sent c.next_request_id, given)
              (sent c.next_request_id, settle given c.next_request_id (rejected "send_failed"))
              (λ _. on c.connected given.pending n)
              (λ _. on c.connected (drop given.pending c.next_request_id) n)
  where
    given : Client
    given = record c {
      pending = c.pending ++ c.next_request_id ∷ [];
      next_request_id = suc c.next_request_id;
    }

    Keeps : Requested × Client → Type 0
    Keeps x = IsSettled x.1

deliver-IsSettled :
    (c : Client) (payload : String) (o : Option (List ℕ))
    → IsSettled c
    → IsSettled (deliver c payload o)
deliver-IsSettled c payload none h = h
deliver-IsSettled c payload (some hs) h = h

without-IsSettled :
    (c : Client) (name : String) (hs : List ℕ) → IsSettled c → IsSettled (without c name hs)
without-IsSettled c name [] h = h
without-IsSettled c name (k ∷ ks) h = h

opened-IsSettled : (c : Client) (p : Progress) → IsSettled c → IsSettled (opened c p)
opened-IsSettled c waiting h = h
opened-IsSettled c stuck h = h
opened-IsSettled c ready h = tt
opened-IsSettled c (failed_with code) h = h

connect-IsSettled : (c : Client) (rs : List Report) → IsSettled c → IsSettled (connect c rs).1
unfolding connect
connect-IsSettled c rs h =
    if-cases Keeps c.connected (ready, c) _ (λ _. h)
      λ _.
        if-cases Keeps c.closed (failed_with "closed", c)
          (handshake waiting rs, opened c (handshake waiting rs)) (λ _. h)
          λ _. opened-IsSettled c (handshake waiting rs) h
  where
    Keeps : Progress × Client → Type 0
    Keeps x = IsSettled x.1

handle_message-IsSettled : (c : Client) (f : Frame) → IsSettled c → IsSettled (handle_message c f)
unfolding handle_message
handle_message-IsSettled c (event name payload) h =
    deliver-IsSettled c payload (JsMap.get c.listeners name) h
handle_message-IsSettled c (response_ok id payload) h =
    settle_if_waiting-IsSettled c id (resolved payload) h
handle_message-IsSettled c (response_error id code) h =
    settle_if_waiting-IsSettled c id (rejected code) h
handle_message-IsSettled c (response_without_error id) h = lose_if_waiting-IsSettled c id h
handle_message-IsSettled c other h = h

step-IsSettled : (c : Client) (a : Action) → IsSettled c → IsSettled (step c a)
unfolding step request_timeout handle_socket_error handle_socket_close close on_event off_event
step-IsSettled c (connects rs) h = connect-IsSettled c rs h
step-IsSettled c (requests sends) h = request-IsSettled c sends h
step-IsSettled c (times_out id) h = settle_if_waiting-IsSettled c id (rejected "request_timeout") h
step-IsSettled c (receives f) h = handle_message-IsSettled c f h
step-IsSettled c socket_errors h = refl
step-IsSettled c socket_closes h = refl
step-IsSettled c closes h =
    if-cases IsSettled c.closed c
      (record (reject_all c "closed") { closed = true; connected = false }) (λ _. h) (λ _. refl)
step-IsSettled c (subscribes name k) h = h
step-IsSettled c (unsubscribes name k) h =
    without-IsSettled c name (drop (get_or (JsMap.get c.listeners name) []) k) h

run-IsSettled : (c : Client) (as' : List Action) → IsSettled c → IsSettled (run c as')
unfolding run
run-IsSettled c [] h = h
run-IsSettled c (a ∷ as') h = run-IsSettled (step c a) as' (step-IsSettled c a h)

-- From a client without requests, over any history: while the connection is gone, because the socket failed or
-- closed or the client was closed, no request waits: each that was given an identifier either has been answered
-- exactly once or was lost to a failed response without an error, and nothing else has been answered.
pub run_disconnected :
    (c : Client) (as' : List Action) (id : ℕ)
    → IsLive c
    → IsSettled c
    → (run c as').connected ≡ false
    → times id (answered (run c as').settled) + times id (run c as').lost
      ≡ (if ltb id (run c as').next_request_id && ltb 0 id then 1 else 0)
unfolding times
run_disconnected c as' id live settled gone =
    answered_all (run c as') gone (run-IsSettled c as' settled) ((run-IsLive c as' live).1 id)
  where
    answered_all :
        (d : Client)
        → d.connected ≡ false
        → IsSettled d
        → times id d.pending + times id (answered d.settled) + times id d.lost
          ≡ (if ltb id d.next_request_id && ltb 0 id then 1 else 0)
        → times id (answered d.settled) + times id d.lost
          ≡ (if ltb id d.next_request_id && ltb 0 id then 1 else 0)
    answered_all d g h e = ground (arith, rw g at h)
