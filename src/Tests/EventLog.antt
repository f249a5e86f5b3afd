-- ===== src/Tests/EventLog.antt =====
-- The event log at a concrete log.
use openclaw_managed_agents.Prelude.{
  String, ◌≡◌, refl, true, false, none, some, List, [], ◌∷◌, length, filter,
}
use openclaw_managed_agents.EventLog.{Event, Poll, count_user_turns, catch_up, follow}
use openclaw_managed_agents.EventLog.Cursor.{IsDelivered, IsGrowing, log_read, follow-IsDelivered}
use openclaw_managed_agents.EventLog.Lines.{PiLine, plain, event_of}
use openclaw_managed_agents.EventLog.Events.{list_by_session}
use openclaw_managed_agents.EventLog.Events.Turns.{is_user_turn, count_user_turns-list_by_session}

abbrev said : String → Event
said id = event_of id "s1" 5 "user.message" "hello"

abbrev first_log : List Event
first_log = said "e1" ∷ said "e2" ∷ []

abbrev second_log : List Event
second_log = said "e1" ∷ said "e2" ∷ said "e3" ∷ []

abbrev one_poll : List Poll
one_poll =
    record {
      aborted = false;
      log = second_log;
      aborted_at = none;
      now = 9;
      is_session_running = some true;
    }
    ∷ []

one_poll-IsGrowing : IsGrowing first_log one_poll
one_poll-IsGrowing = ((said "e3" ∷ [], refl), ((refl, (refl, (refl, tt))), (refl, (refl, tt))))

follow_example :
    IsDelivered
      (said "e2" ∷ [])
      first_log
      (log_read 30 (catch_up (some "e1") first_log 7) first_log one_poll)
      (follow 30 (some "e1") first_log 7 one_poll).yielded
follow_example =
    follow-IsDelivered 30 (some "e1") first_log 7 one_poll (refl, (refl, tt)) one_poll-IsGrowing

abbrev line : PiLine
line = record {
  line_type = "message";
  id = some "e1";
  timestamp = none;
  message = some (record {
    role = some "user";
    content = plain "hello";
    text = none;
    usage = none;
    model = none;
    provider = none;
    tool_call_id = none;
    tool_name = none;
    is_error = none;
  });
  provider = none;
  model_id = none;
  thinking_level = none;
  summary = none;
}

count_user_turns_example :
    count_user_turns (list_by_session (λ s. none) (λ s. 0) (some line ∷ none ∷ []) "s1" 5)
    ≡ length (filter is_user_turn (some line ∷ none ∷ []))
count_user_turns_example =
    count_user_turns-list_by_session (λ s. none) (λ s. 0) (some line ∷ none ∷ []) "s1" 5
