-- ===== src/Gateway/Handshake.antt =====
-- `connect` of src/runtime/gateway-ws.ts: what the socket reports until the handshake is settled.
use openclaw_managed_agents.Prelude.{String, true, List, [], ◌∷◌, if◌then◌else◌}
use openclaw_managed_agents.Gateway.{
  Client, Frame, response_ok, response_error, response_without_error,
}

-- Reports of the socket and of the timer, and a frame of which the flag says whether it answers the
-- handshake's own request.
pub data Report : Type 0 where
  times_out errors closes send_fails : Report
  answers : Frame → Report
  says : Frame → Report

-- `stuck` is a handshake that was settled by a failed response without an error, which throws: its promise stays
-- pending.
pub data Progress : Type 0 where
  waiting stuck : Progress
  ready : Progress
  failed_with : String → Progress

abbrev pub answer : Frame → Progress
answer (response_ok id payload) = ready
answer (response_error id code) = failed_with code
answer (response_without_error id) = stuck
answer _ = waiting

-- Each listener first looks at `settled`.
unfoldable pub listen : Progress → Report → Progress
listen waiting times_out = failed_with "handshake_timeout"
listen waiting errors = failed_with "ws_connect_failed"
listen waiting closes = failed_with "ws_closed"
listen waiting send_fails = failed_with "send_failed"
listen waiting (answers f) = answer f
listen waiting (says f) = waiting
listen ready r = ready
listen stuck r = stuck
listen (failed_with code) r = failed_with code

unfoldable pub handshake : Progress → List Report → Progress
handshake p [] = p
handshake p (r ∷ rs) = handshake (listen p r) rs

abbrev pub opened : Client → Progress → Client
opened c ready = record c { connected = true }
opened c _ = c

-- A client that is connected already resolves at once, and a closed one refuses.
unfoldable pub connect : Client → List Report → Progress × Client
connect c rs =
    if c.connected
    then (ready, c)
    else if c.closed
    then (failed_with "closed", c)
    else (let p = handshake waiting rs in (p, opened c p))
