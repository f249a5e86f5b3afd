-- ===== src/EventLog/Events.antt =====
-- `mapLineToEvents` of src/store/pi-jsonl.ts, and the loop of `listBySession` over the lines that parse.
pub mod Turns
use openclaw_managed_agents.Prelude.{
  ℕ, suc, String, Bool, false, Option, none, some, List, [], ◌∷◌, ◌++◌, str_eq, if◌then◌else◌,
  get_or,
}
use openclaw_managed_agents.EventLog.{Event}
use openclaw_managed_agents.EventLog.Lines.{
  PiContentBlock, PiMessage, PiLine, truthy, join, decimal, combine_model, content_blocks,
  extract_text, normalize_usage, is_runtime_notice, extract_thinking_block_text, event_of,
  extract_assistant_text,
}

-- Where a line's events belong: their id, their session and their time.
pub record Place : Type 0 where
  pub event_id : String
  pub session_id : String
  pub created_at : ℕ

abbrev pub event_at : Place → String → String → Event
event_at at event_type content = event_of at.event_id at.session_id at.created_at event_type content

abbrev pub thinking_event : Place → ℕ → String → Event
thinking_event at i thinking = record (event_at at "agent.thinking" thinking) {
  event_id = join (at.event_id ∷ ":thinking:" ∷ decimal i ∷ []);
}

-- The loop over the blocks, from the i-th thinking block on.
unfoldable pub thinking_events : Place → ℕ → List PiContentBlock → List Event
thinking_events at i [] = []
thinking_events at i (b ∷ bs) = elim (extract_thinking_block_text b) [
  | none ↦ thinking_events at i bs
  | some t ↦ thinking_event at i t ∷ thinking_events at (suc i) bs
]

abbrev pub tool_name_of : PiContentBlock → Option String
tool_name_of b = if str_eq b.block_type "toolCall" then truthy b.name else none

abbrev pub tool_event : Place → ℕ → PiContentBlock → String → Event
tool_event at i b name = record (event_at at "agent.tool_use" name) {
  event_id = join (at.event_id ∷ ":tool:" ∷ get_or b.id (decimal i) ∷ []);
  tool_name = some name;
  tool_call_id = b.id;
  tool_arguments = b.arguments;
}

unfoldable pub tool_events : Place → ℕ → List PiContentBlock → List Event
tool_events at i [] = []
tool_events at i (b ∷ bs) = elim (tool_name_of b) [
  | none ↦ tool_events at i bs
  | some n ↦ tool_event at i b n ∷ tool_events at (suc i) bs
]

abbrev pub message_event : Place → PiMessage → String → Event
message_event at msg text =
    let usage = normalize_usage msg.usage in
    record (event_at at "agent.message" text) {
      tokens_in = usage.0;
      tokens_out = usage.1.0;
      cost_usd = usage.1.1;
      model = combine_model msg.provider msg.model;
    }

abbrev pub message_events : Place → PiMessage → Option String → List Event
message_events at msg none = []
message_events at msg (some t) = message_event at msg t ∷ []

abbrev pub user_events : Place → Option String → List Event
user_events at none = []
user_events at (some t) =
    event_at at (if is_runtime_notice t then "session.runtime_notice" else "user.message") t ∷ []

abbrev pub tool_result : Place → PiMessage → Event
tool_result at msg =
    record (event_at at "agent.tool_result"
      (get_or (truthy (some (extract_text msg.content))) "(no output)")) {
        tool_name = msg.tool_name;
        tool_call_id = msg.tool_call_id;
        is_error = msg.is_error;
      }

abbrev pub model_events : Place → Option String → List Event
model_events at none = []
model_events at (some m) = record (event_at at "session.model_change" m) { model = some m } ∷ []

abbrev pub role_is : PiMessage → String → Bool
role_is msg r = elim msg.role [ none ↦ false | some q ↦ str_eq q r ]

module _ (parse_phase : String → Option String) (date_parse : String → ℕ) where
  unfoldable pub assistant_events : Place → PiMessage → List Event
  assistant_events at msg =
      thinking_events at 0 (content_blocks msg.content)
      ++ tool_events at 0 (content_blocks msg.content)
      ++ message_events at msg (truthy (some (extract_assistant_text parse_phase msg)))

  unfoldable pub conversation_events : Place → PiMessage → List Event
  conversation_events at msg =
      if role_is msg "user"
      then user_events at (truthy (some (extract_text msg.content)))
      else if role_is msg "assistant"
      then assistant_events at msg
      else if role_is msg "toolResult"
      then tool_result at msg ∷ []
      else []

  abbrev pub place_of : PiLine → String → ℕ → Place
  place_of line session_id now = record {
    event_id = get_or line.id "";
    session_id = session_id;
    created_at = elim (truthy line.timestamp) [ none ↦ now | some t ↦ date_parse t ];
  }

  unfoldable pub map_line_to_events : PiLine → String → ℕ → List Event
  map_line_to_events line session_id now =
      let at = place_of line session_id now in
      if str_eq line.line_type "model_change"
      then model_events at (combine_model line.provider line.model_id)
      else if str_eq line.line_type "thinking_level_change"
      then event_at at "session.thinking_level_change" (get_or line.thinking_level "unknown") ∷ []
      else if str_eq line.line_type "compaction"
      then event_at at "session.compaction" (get_or line.summary "(compacted)") ∷ []
      else if str_eq line.line_type "message"
      then elim line.message [ none ↦ [] | some msg ↦ conversation_events at msg ]
      else []

  -- A line is none where it is blank or does not parse.
  unfoldable pub list_by_session : List (Option PiLine) → String → ℕ → List Event
  list_by_session [] session_id now = []
  list_by_session (none ∷ ls) session_id now = list_by_session ls session_id now
  list_by_session (some l ∷ ls) session_id now =
      map_line_to_events l session_id now ++ list_by_session ls session_id now
