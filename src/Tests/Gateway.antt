-- ===== src/Tests/Gateway.antt =====
-- The gateway's client at concrete histories.
use openclaw_managed_agents.Prelude.{◌+◌, ◌≡◌, refl, true, false, List, [], ◌∷◌, arith}
use openclaw_managed_agents.Gateway.{
  Client, response_ok, handle_socket_close, request, request_timeout, handle_message,
}
use openclaw_managed_agents.Gateway.Once.{
  Action, requests, times_out, receives, socket_closes, step, run, times, answered, IsLive,
  run-IsLive,
}
use openclaw_managed_agents.Gateway.Lost.{run_disconnected}

abbrev fresh : Client
fresh = record {
  pending = [];
  listeners = [];
  next_request_id = 1;
  connected = true;
  closed = false;
  settled = [];
  lost = [];
  delivered = [];
}

abbrev history : List Action
history =
    requests true
    ∷ requests true
    ∷ receives (response_ok 1 "done")
    ∷ times_out 1
    ∷ requests false
    ∷ socket_closes
    ∷ []

fresh-IsLive : IsLive fresh
unfolding times
fresh-IsLive = (omega arith, λ id. ground arith)

run-IsLive_example : IsLive (run fresh history)
run-IsLive_example = run-IsLive fresh history fresh-IsLive

run_disconnected_example :
    times 2 (answered (run fresh history).settled) + times 2 (run fresh history).lost ≡ 1
unfolding run step handle_socket_close request request_timeout handle_message
run_disconnected_example = run_disconnected fresh history 2 fresh-IsLive tt refl
