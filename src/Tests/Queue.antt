-- ===== src/Tests/Queue.antt =====
-- The event queue at concrete calls.
use openclaw_managed_agents.Prelude.{String, ◌≡◌, none, List, [], ◌∷◌}
use openclaw_managed_agents.Types.{QueuedEvent}
use openclaw_managed_agents.Queue.{QueueStore, queue_of}
use openclaw_managed_agents.Queue.Fifo.{
  Call, enqueues, shifts, peeks, sizes, run, spec_run, run-spec_run,
}

abbrev event_of : String → QueuedEvent
event_of c = record { content = c; model = none; thinking_level = none; enqueued_at = 5 }

abbrev two_waiting : QueueStore
two_waiting = ("s1", event_of "a" ∷ event_of "b" ∷ []) ∷ []

abbrev calls : List Call
calls =
    enqueues "s2" (event_of "c")
    ∷ shifts "s1"
    ∷ peeks "s1"
    ∷ shifts "s1"
    ∷ shifts "s1"
    ∷ sizes "s2"
    ∷ []

run-spec_run_example : run two_waiting calls ≡ spec_run (queue_of two_waiting) calls
run-spec_run_example = run-spec_run two_waiting calls
