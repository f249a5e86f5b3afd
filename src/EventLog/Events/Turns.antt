-- ===== src/EventLog/Events/Turns.antt =====
-- The turns of a session are the lines in which a user speaks.
use openclaw_managed_agents.Prelude.{
  ℕ, suc, ◌+◌, String, ◌≡◌, refl, ◌∙◌, inl, inr, Bool, true, false, not, ◌&&◌, Option, none, some,
  List, [], ◌∷◌, ◌++◌, arith, eq_iff, str_eq, if◌then◌else◌, Bool-cases, if-cases, get_or, length,
  filter,
}
use openclaw_managed_agents.EventLog.{Event, count_user_turns}
use openclaw_managed_agents.EventLog.Lines.{
  PiContentBlock, PiMessage, PiLine, truthy, combine_model, content_blocks, extract_text,
  is_runtime_notice, extract_thinking_block_text, extract_assistant_text,
}
use openclaw_managed_agents.EventLog.Events.{
  Place, thinking_event, thinking_events, tool_name_of, tool_event, tool_events, message_events,
  user_events, tool_result, model_events, event_at, assistant_events, role_is, conversation_events,
  place_of, map_line_to_events, list_by_session,
}

abbrev pub is_spoken : Option String → Bool
is_spoken none = false
is_spoken (some t) = not (is_runtime_notice t)

other_text : (t s u : String) → str_eq s u ≡ false → str_eq t s ≡ true → str_eq t u ≡ false
other_text t s u n y = ground (arith, eq_iff t s, eq_iff s u, eq_iff t u)

count-append :
    (es ds : List Event) → count_user_turns (es ++ ds) ≡ count_user_turns es + count_user_turns ds
unfolding count_user_turns
count-append [] ds = omega arith
count-append (e ∷ es) ds = ground (arith, count-append es ds)

count-thinking :
    (at : Place) (i : ℕ) (bs : List PiContentBlock) → count_user_turns (thinking_events at i bs) ≡ 0
unfolding thinking_events count_user_turns
count-thinking at i [] = refl
count-thinking at i (b ∷ bs) =
    by_text (extract_thinking_block_text b) (count-thinking at i bs) (count-thinking at (suc i) bs)
  where
    by_text :
        (o : Option String)
        → count_user_turns (thinking_events at i bs) ≡ 0
        → count_user_turns (thinking_events at (suc i) bs) ≡ 0
        → count_user_turns (elim o [
          | none ↦ thinking_events at i bs
          | some t ↦ thinking_event at i t ∷ thinking_events at (suc i) bs
        ])
          ≡ 0
    by_text none h k = h
    by_text (some t) h k = k

count-tool :
    (at : Place) (i : ℕ) (bs : List PiContentBlock) → count_user_turns (tool_events at i bs) ≡ 0
unfolding tool_events count_user_turns
count-tool at i [] = refl
count-tool at i (b ∷ bs) = by_name (tool_name_of b) (count-tool at i bs) (count-tool at (suc i) bs)
  where
    by_name :
        (o : Option String)
        → count_user_turns (tool_events at i bs) ≡ 0
        → count_user_turns (tool_events at (suc i) bs) ≡ 0
        → count_user_turns (elim o [
          | none ↦ tool_events at i bs
          | some n ↦ tool_event at i b n ∷ tool_events at (suc i) bs
        ])
          ≡ 0
    by_name none h k = h
    by_name (some n) h k = k

count-message :
    (at : Place) (msg : PiMessage) (o : Option String)
    → count_user_turns (message_events at msg o) ≡ 0
unfolding count_user_turns
count-message at msg none = refl
count-message at msg (some t) = refl

count-user :
    (at : Place) (o : Option String)
    → count_user_turns (user_events at o) ≡ (if is_spoken o then 1 else 0)
unfolding count_user_turns
count-user at none = refl
count-user at (some t) = by_notice (is_runtime_notice t)
  where
    by_notice :
        (b : Bool)
        → count_user_turns
            (event_at at (if b then "session.runtime_notice" else "user.message") t ∷ [])
          ≡ (if not b then 1 else 0)
    by_notice true = refl
    by_notice false = refl

count-model : (at : Place) (o : Option String) → count_user_turns (model_events at o) ≡ 0
unfolding count_user_turns
count-model at none = refl
count-model at (some m) = refl

count-single :
    (at : Place) (k content : String)
    → str_eq k "user.message" ≡ false
    → count_user_turns (event_at at k content ∷ []) ≡ 0
unfolding count_user_turns
count-single at k content h = rw h refl

count-result : (at : Place) (msg : PiMessage) → count_user_turns (tool_result at msg ∷ []) ≡ 0
unfolding count_user_turns
count-result at msg = refl

-- A message of a user, with a text that is no notice of the runtime.
abbrev pub is_turn : PiMessage → Bool
is_turn msg = role_is msg "user" && is_spoken (truthy (some (extract_text msg.content)))

abbrev pub is_turn_of : Option PiMessage → Bool
is_turn_of none = false
is_turn_of (some msg) = is_turn msg

abbrev pub is_user_turn : Option PiLine → Bool
is_user_turn none = false
is_user_turn (some line) = str_eq line.line_type "message" && is_turn_of line.message

count-nothing : count_user_turns [] ≡ 0
unfolding count_user_turns
count-nothing = refl

module _ (parse_phase : String → Option String) (date_parse : String → ℕ) where
  count-assistant :
      (at : Place) (msg : PiMessage)
      → count_user_turns (assistant_events parse_phase date_parse at msg) ≡ 0
  unfolding assistant_events
  count-assistant at msg =
      let bs = content_blocks msg.content in
      let o = truthy (some (extract_assistant_text parse_phase msg)) in
      omega (
        arith,
        count-append (thinking_events at 0 bs ++ tool_events at 0 bs) (message_events at msg o),
        count-append (thinking_events at 0 bs) (tool_events at 0 bs),
        count-thinking at 0 bs,
        count-tool at 0 bs,
        count-message at msg o,
      )

  count-conversation :
      (at : Place) (msg : PiMessage)
      → count_user_turns (conversation_events parse_phase date_parse at msg)
        ≡ (if is_turn msg then 1 else 0)
  unfolding conversation_events
  count-conversation at msg = elim (Bool-cases (role_is msg "user")) [
    | inl y ↦ rw y (count-user at (truthy (some (extract_text msg.content))))
    | inr n ↦ rw n (
        if-cases (λ es. count_user_turns es ≡ 0) (role_is msg "assistant")
          (assistant_events parse_phase date_parse at msg) _ (λ _. count-assistant at msg)
          (λ _.
            if-cases (λ es. count_user_turns es ≡ 0) (role_is msg "toolResult")
              (tool_result at msg ∷ []) [] (λ _. count-result at msg) (λ _. count-nothing)))
  ]

  count-line :
      (line : PiLine) (session_id : String) (now : ℕ)
      → count_user_turns (map_line_to_events parse_phase date_parse line session_id now)
        ≡ (if is_user_turn (some line) then 1 else 0)
  unfolding map_line_to_events
  count-line line session_id now = elim (Bool-cases (str_eq line.line_type "message")) [
    | inl y ↦
        rw
          (
            y,
            other_text line.line_type "message" "model_change" refl y,
            other_text line.line_type "message" "thinking_level_change" refl y,
            other_text line.line_type "message" "compaction" refl y,
          )
          (by_message line.message)
    | inr n ↦ rw n (
        if-cases IsSilent (str_eq line.line_type "model_change")
          (model_events at (combine_model line.provider line.model_id)) _
          (λ _. count-model at (combine_model line.provider line.model_id))
          (λ _.
            if-cases IsSilent (str_eq line.line_type "thinking_level_change")
              (event_at at "session.thinking_level_change" (get_or line.thinking_level "unknown")
                ∷ [])
              _
              (λ _.
                count-single at "session.thinking_level_change"
                  (get_or line.thinking_level "unknown") refl)
              (λ _.
                if-cases IsSilent (str_eq line.line_type "compaction")
                  (event_at at "session.compaction" (get_or line.summary "(compacted)") ∷ []) []
                  (λ _.
                    count-single at "session.compaction" (get_or line.summary "(compacted)") refl)
                  (λ _. count-nothing))))
  ]
    where
      at : Place
      at = place_of parse_phase date_parse line session_id now

      IsSilent : List Event → Type 0
      IsSilent es = count_user_turns es ≡ 0

      by_message :
          (o : Option PiMessage)
          → count_user_turns
              (elim o [ none ↦ [] | some msg ↦ conversation_events parse_phase date_parse at msg ])
            ≡ (if is_turn_of o then 1 else 0)
      by_message none = count-nothing
      by_message (some msg) = count-conversation at msg

  -- The turns that are counted in a session's events are the lines that parse to a message of a user with a text of its own.
  pub count_user_turns-list_by_session :
      (lines : List (Option PiLine)) (session_id : String) (now : ℕ)
      → count_user_turns (list_by_session parse_phase date_parse lines session_id now)
        ≡ length (filter is_user_turn lines)
  unfolding list_by_session
  count_user_turns-list_by_session [] session_id now = count-nothing
  count_user_turns-list_by_session (none ∷ ls) session_id now =
      count_user_turns-list_by_session ls session_id now
  count_user_turns-list_by_session (some l ∷ ls) session_id now =
      count-append (map_line_to_events parse_phase date_parse l session_id now)
        (list_by_session parse_phase date_parse ls session_id now)
      ∙ (rw (count-line l session_id now, count_user_turns-list_by_session ls session_id now)
          (ground arith))
