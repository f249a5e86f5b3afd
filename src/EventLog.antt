-- ===== src/EventLog.antt =====
-- src/store/pi-jsonl.ts, `PiJsonlEventReader`: how a client follows the events of a session. The log that each poll
-- reads is an argument, and so are the clock, the busy check and the moment of an abort.
pub mod Reads
pub mod Cursor
pub mod Lines
pub mod Events
use openclaw_managed_agents.Prelude.{
  ℕ, ◌+◌, String, Bool, true, false, not, ◌&&◌, ◌||◌, Option, none, some, List, [], ◌∷◌, ◌++◌, ltb,
  str_eq, if◌then◌else◌, length, take, filter, any,
}

pub record Event : Type 0 where
  pub event_id : String
  pub session_id : String
  pub event_type : String
  pub content : String
  pub created_at : ℕ
  pub tokens_in : Option ℕ
  pub tokens_out : Option ℕ
  pub cost_usd : Option ℕ
  pub model : Option String
  pub tool_name : Option String
  pub tool_call_id : Option String
  pub tool_arguments : Option String
  pub is_error : Option Bool

abbrev last_of : (Event → Bool) → List Event → Option Event
last_of p [] = none
last_of p (e ∷ es) =
    let later = last_of p es in elim later [ none ↦ if p e then some e else none | some d ↦ some d ]

unfoldable pub latest_agent_message : List Event → Option Event
latest_agent_message events = last_of (λ e. str_eq e.event_type "agent.message") events

unfoldable pub latest_agent_outcome : List Event → Option Event
latest_agent_outcome events =
    last_of (λ e. str_eq e.event_type "agent.message" || str_eq e.event_type "agent.tool_result")
      events

unfoldable pub count_user_turns : List Event → ℕ
count_user_turns events = length (filter (λ e. str_eq e.event_type "user.message") events)

-- The ids that were seen, and the events that were yielded.
pub record Follow : Type 0 where
  pub seen : List String
  pub yielded : List Event
  pub last_yield_at : ℕ
  pub ended : Bool

abbrev pub has_id : Event → String → Bool
has_id e id = str_eq e.event_id id

abbrev pub is_seen : List String → String → Bool
is_seen seen id = any (λ j. str_eq j id) seen

abbrev pub see : List String → String → List String
see seen id = if is_seen seen id then seen else seen ++ id ∷ []

abbrev pub is_after : Option String → Event → Bool
is_after none e = true
is_after (some id) e = has_id e id

-- The loop of the first phase: `cursor_seen` is whether the cursor is behind it.
unfoldable pub catch_up_from : Option String → Bool → Follow → List Event → Follow
catch_up_from after cursor_seen f [] = f
catch_up_from after cursor_seen f (e ∷ es) =
    if cursor_seen
    then catch_up_from after true
        (record f { seen = see f.seen e.event_id; yielded = f.yielded ++ e ∷ [] }) es
    else catch_up_from after (is_after after e) (record f { seen = see f.seen e.event_id }) es

abbrev pub starts_behind : Option String → List Event → Bool
starts_behind none events = true
starts_behind (some id) events = not (any (λ e. has_id e id) events)

-- The clock stands at `now` behind the first phase.
unfoldable pub catch_up : Option String → List Event → ℕ → Follow
catch_up after events now =
    record (catch_up_from after (starts_behind after events)
      (record { seen = []; yielded = []; last_yield_at = 0; ended = false }) events) {
        last_yield_at = now;
      }

-- One event of a poll.
abbrev pub poll_event : ℕ → Follow → Event → Follow
poll_event now f e = if is_seen f.seen e.event_id then f else record f {
  seen = see f.seen e.event_id;
  yielded = f.yielded ++ e ∷ [];
  last_yield_at = now;
}

unfoldable pub poll_events : ℕ → Follow → List Event → Follow
poll_events now f [] = f
poll_events now f (e ∷ es) = poll_events now (poll_event now f e) es

-- What a poll finds: an abort before it, the log, the place in the log where an abort is noticed, the clock, and
-- whether the session runs, where the caller asks that.
pub record Poll : Type 0 where
  pub aborted : Bool
  pub log : List Event
  pub aborted_at : Option ℕ
  pub now : ℕ
  pub is_session_running : Option Bool

abbrev pub stops_running : Option Bool → Bool
stops_running none = false
stops_running (some b) = not b

abbrev pub finish_poll : ℕ → Poll → Follow → Follow
finish_poll idle_timeout_ms p f = record f {
  ended = stops_running p.is_session_running && ltb (f.last_yield_at + idle_timeout_ms) p.now;
}

abbrev pub read_log : ℕ → Poll → Follow → Option ℕ → Follow
read_log idle_timeout_ms p f none = finish_poll idle_timeout_ms p (poll_events p.now f p.log)
read_log idle_timeout_ms p f (some n) = record (poll_events p.now f (take n p.log)) { ended = true }

unfoldable pub poll : ℕ → Follow → Poll → Follow
poll idle_timeout_ms f p =
    if f.ended
    then f
    else if p.aborted
    then record f { ended = true }
    else read_log idle_timeout_ms p f p.aborted_at

unfoldable pub polls : ℕ → Follow → List Poll → Follow
polls idle_timeout_ms f [] = f
polls idle_timeout_ms f (p ∷ ps) = polls idle_timeout_ms (poll idle_timeout_ms f p) ps

unfoldable pub follow : ℕ → Option String → List Event → ℕ → List Poll → Follow
follow idle_timeout_ms after events now ps = polls idle_timeout_ms (catch_up after events now) ps
