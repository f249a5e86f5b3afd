-- ===== src/Gateway.antt =====
-- src/runtime/gateway-ws.ts, `GatewayWebSocketClient`: the requests that wait for a response, and the
-- listeners of broadcasts. A request's identifier `String(n)` is the number n; a frame carries the number
-- that its identifier is the decimal text of. The answer to each request is recorded in `settled`, where
-- the source settles a promise; a timer that was cleared never fires. A response that says neither that it succeeded nor
-- what failed takes its request out of the table before it throws; such a request is recorded in `lost`.
pub mod Handshake
pub mod Once
pub mod Lost
use openclaw_managed_agents.Prelude.{
  ℕ, suc, String, Bool, true, false, not, ◌&&◌, Option, none, some, List, [], ◌∷◌, ◌++◌, map,
  nat_eq, if◌then◌else◌, get_or, filter, any,
}
use openclaw_managed_agents.JsMap
use openclaw_managed_agents.JsMap.{JsMap}

pub data Outcome : Type 0 where
  resolved : String → Outcome
  rejected : String → Outcome

pub record Settled : Type 0 where
  pub id : ℕ
  pub outcome : Outcome

pub record Client : Type 0 where
  pub pending : List ℕ
  pub listeners : JsMap (List ℕ)
  pub next_request_id : ℕ
  pub connected : Bool
  pub closed : Bool
  pub settled : List Settled
  pub lost : List ℕ
  pub delivered : List (ℕ × String)

-- A frame that parses: a response with its payload, with its error's code, or failed without an error; or an
-- event.
pub data Frame : Type 0 where
  response_ok : ℕ → String → Frame
  response_error : ℕ → String → Frame
  response_without_error : ℕ → Frame
  event : String → String → Frame
  other : Frame

abbrev pub waits : List ℕ → ℕ → Bool
waits ids id = any (λ j. nat_eq j id) ids

abbrev pub drop : List ℕ → ℕ → List ℕ
drop ids id = filter (λ j. not (nat_eq j id)) ids

abbrev pub settle : Client → ℕ → Outcome → Client
settle c id outcome = record c {
  pending = drop c.pending id;
  settled = c.settled ++ record { id = id; outcome = outcome } ∷ [];
}

abbrev pub settle_if_waiting : Client → ℕ → Outcome → Client
settle_if_waiting c id outcome = if waits c.pending id then settle c id outcome else c

-- `frame.error.code` throws on the request that was just taken out.
abbrev pub lose_if_waiting : Client → ℕ → Client
lose_if_waiting c id =
    if waits c.pending id
    then record c { pending = drop c.pending id; lost = c.lost ++ id ∷ [] }
    else c

-- Every request that waits is rejected.
abbrev pub reject_all : Client → String → Client
reject_all c code = record c {
  pending = [];
  settled = c.settled ++ map (λ id. record { id = id; outcome = rejected code }) c.pending;
}

unfoldable pub is_connected : Client → Bool
is_connected c = c.connected && not c.closed

-- What a call of `request` gives at once: an error, or the identifier that it waits under.
pub data Requested : Type 0 where
  refused : String → Requested
  sent : ℕ → Requested

-- `sends` is whether `ws.send` returns.
abbrev pub send_request : Client → Bool → Requested × Client
send_request c sends =
    let id = c.next_request_id in
    let c' = record c { pending = c.pending ++ id ∷ []; next_request_id = suc id } in
    if sends then (sent id, c') else (sent id, settle c' id (rejected "send_failed"))

unfoldable pub request : Client → Bool → Requested × Client
request c sends =
    if c.closed
    then (refused "closed", c)
    else if not c.connected
    then (refused "not_connected", c)
    else send_request c sends

unfoldable pub request_timeout : Client → ℕ → Client
request_timeout c id = settle_if_waiting c id (rejected "request_timeout")

abbrev pub deliver : Client → String → Option (List ℕ) → Client
deliver c payload none = c
deliver c payload (some handlers) = record c {
  delivered = c.delivered ++ map (λ h. (h, payload)) handlers;
}

unfoldable pub handle_message : Client → Frame → Client
handle_message c (event name payload) = deliver c payload (JsMap.get c.listeners name)
handle_message c (response_ok id payload) = settle_if_waiting c id (resolved payload)
handle_message c (response_error id code) = settle_if_waiting c id (rejected code)
handle_message c (response_without_error id) = lose_if_waiting c id
handle_message c other = c

unfoldable pub handle_socket_error : Client → Client
handle_socket_error c = record (reject_all c "socket_error") { connected = false }

unfoldable pub handle_socket_close : Client → Client
handle_socket_close c = record (reject_all c "socket_closed") { connected = false }

unfoldable pub close : Client → Client
close c =
    if c.closed then c else record (reject_all c "closed") { closed = true; connected = false }

-- `handler` stands for the function that is added; the `Set` holds it once.
unfoldable pub on_event : Client → String → ℕ → Client
on_event c name handler =
    let handlers = get_or (JsMap.get c.listeners name) [] in
    record c {
      listeners =
          JsMap.set c.listeners name
            (if waits handlers handler then handlers else handlers ++ handler ∷ []);
    }

abbrev pub without : Client → String → List ℕ → Client
without c name [] = record c { listeners = JsMap.delete c.listeners name }
without c name (h ∷ hs) = record c { listeners = JsMap.set c.listeners name (h ∷ hs) }

-- The function that `onEvent` returns.
unfoldable pub off_event : Client → String → ℕ → Client
off_event c name handler = without c name (drop (get_or (JsMap.get c.listeners name) []) handler)
