-- ===== src/EventLog/Lines.antt =====
-- `mapLineToEvents` of src/store/pi-jsonl.ts: the events of a line of a session's log, from the value that `JSON.parse`
-- gives. `Date.parse` and the phase in a text signature, which is JSON of its own, are arguments. Amounts are whole numbers.
use openclaw_managed_agents.Prelude.{
  ℕ, zero, suc, ◌/◌, ◌%◌, String, Bool, true, false, not, ◌&&◌, ◌||◌, Option, none, some, List, [],
  ◌∷◌, ltb, nat_eq, str_eq, if◌then◌else◌, is_some,
}
use Prim.Native.Char.{code}
use Prim.Native.String
use openclaw_managed_agents.Http.{is_empty, trim, strip}
use openclaw_managed_agents.EventLog.{Event}

pub record PiContentBlock : Type 0 where
  pub block_type : String
  pub text : Option String
  pub thinking : Option String
  pub text_signature : Option String
  pub phase : Option String
  pub id : Option String
  pub name : Option String
  pub arguments : Option String

pub data Content : Type 0 where
  nothing : Content
  plain : String → Content
  blocks : List PiContentBlock → Content

pub data Cost : Type 0 where
  number : ℕ → Cost
  total : Option ℕ → Cost

pub record Usage : Type 0 where
  pub input : Option ℕ
  pub input_tokens : Option ℕ
  pub prompt_tokens : Option ℕ
  pub input_tokens_camel : Option ℕ
  pub prompt_tokens_camel : Option ℕ
  pub output : Option ℕ
  pub output_tokens : Option ℕ
  pub completion_tokens : Option ℕ
  pub output_tokens_camel : Option ℕ
  pub completion_tokens_camel : Option ℕ
  pub cost : Cost

pub record PiMessage : Type 0 where
  pub role : Option String
  pub content : Content
  pub text : Option String
  pub usage : Option Usage
  pub model : Option String
  pub provider : Option String
  pub tool_call_id : Option String
  pub tool_name : Option String
  pub is_error : Option Bool

pub record PiLine : Type 0 where
  pub line_type : String
  pub id : Option String
  pub timestamp : Option String
  pub message : Option PiMessage
  pub provider : Option String
  pub model_id : Option String
  pub thinking_level : Option String
  pub summary : Option String

-- A text that is there and not empty.
abbrev pub truthy : Option String → Option String
truthy none = none
truthy (some s) = if is_empty s then none else some s

abbrev pub or_else {ℓ} : {A : Type ℓ} → Option A → Option A → Option A
or_else none o = o
or_else (some a) o = some a

abbrev pub join : List String → String
join [] = ""
join (s ∷ ss) = String.◌++◌ s (join ss)

abbrev pub codes : String → List ℕ
codes String.[] = []
codes (String.◌∷◌ c s) = code c ∷ codes s

abbrev pub starts_with : List ℕ → List ℕ → Bool
starts_with [] s = true
starts_with (p ∷ ps) [] = false
starts_with (p ∷ ps) (c ∷ s) = nat_eq p c && starts_with ps s

abbrev pub includes : List ℕ → List ℕ → Bool
includes p [] = starts_with p []
includes p (c ∷ s) = starts_with p (c ∷ s) || includes p s

abbrev pub digit : ℕ → String
digit n =
    if nat_eq n 0
    then "0"
    else if nat_eq n 1
    then "1"
    else if nat_eq n 2
    then "2"
    else if nat_eq n 3
    then "3"
    else if nat_eq n 4
    then "4"
    else if nat_eq n 5
    then "5"
    else if nat_eq n 6
    then "6"
    else if nat_eq n 7
    then "7"
    else if nat_eq n 8
    then "8"
    else "9"

unfoldable pub decimal_from : ℕ → ℕ → String
decimal_from zero n = ""
decimal_from (suc k) n =
    let front = decimal_from k (n / 10) in
    if ltb n 10 then digit n else String.◌++◌ front (digit (n % 10))

abbrev pub decimal : ℕ → String
decimal n = decimal_from (suc n) n

unfoldable pub combine_model : Option String → Option String → Option String
combine_model provider model = elim (truthy model) [
  | none ↦ none
  | some m ↦ elim (truthy provider) [ none ↦ some m | some p ↦ some (join (p ∷ "/" ∷ m ∷ [])) ]
]

abbrev pub content_blocks : Content → List PiContentBlock
content_blocks nothing = []
content_blocks (plain s) = []
content_blocks (blocks bs) = bs

abbrev pub text_of : PiContentBlock → Option String
text_of b = if str_eq b.block_type "text" then b.text else none

abbrev pub texts : (PiContentBlock → Bool) → List PiContentBlock → List String
texts p [] = []
texts p (b ∷ bs) = elim (text_of b) [
  | none ↦ texts p bs
  | some t ↦ if p b then t ∷ texts p bs else texts p bs
]

unfoldable pub extract_text : Content → String
extract_text nothing = ""
extract_text (plain s) = s
extract_text (blocks bs) = join (texts (λ b. true) bs)

abbrev pub normalize_usage : Option Usage → Option ℕ × (Option ℕ × Option ℕ)
normalize_usage none = (none, (none, none))
normalize_usage (some u) = (
  or_else u.input (
      or_else u.input_tokens
        (or_else u.prompt_tokens (or_else u.input_tokens_camel u.prompt_tokens_camel))),
  (
    or_else u.output (
        or_else u.output_tokens
          (or_else u.completion_tokens (or_else u.output_tokens_camel u.completion_tokens_camel))),
    elim u.cost [ number n ↦ some n | total o ↦ o ],
  ),
)

-- `/^System \((?:untrusted|trusted)\):/i`, or one of two sentences.
unfoldable pub is_runtime_notice : String → Bool
is_runtime_notice text =
    let trimmed = trim text in
    not (is_empty trimmed)
    && (is_some (strip (codes "system (untrusted):") trimmed)
        || (is_some (strip (codes "system (trusted):") trimmed)
            || (includes (codes "An async command you ran earlier has completed.") (codes trimmed)
                || includes (codes "Handle the result internally. Do not relay it to the user")
                    (codes trimmed))))

abbrev pub extract_thinking_block_text : PiContentBlock → Option String
extract_thinking_block_text b =
    truthy (if str_eq b.block_type "thinking" then or_else b.thinking b.text else none)

abbrev pub event_of : String → String → ℕ → String → String → Event
event_of event_id session_id created_at event_type content = record {
  event_id = event_id;
  session_id = session_id;
  event_type = event_type;
  content = content;
  created_at = created_at;
  tokens_in = none;
  tokens_out = none;
  cost_usd = none;
  model = none;
  tool_name = none;
  tool_call_id = none;
  tool_arguments = none;
  is_error = none;
}

module _ (parse_phase : String → Option String) where
  abbrev pub resolve_text_block_phase : PiContentBlock → Option String
  resolve_text_block_phase b = elim (truthy b.phase) [
    | some p ↦ some p
    | none ↦ elim b.text_signature [
      | none ↦ none
      | some t ↦ if is_empty (trim t) then none else truthy (parse_phase t)
    ]
  ]

  abbrev pub has_phase : Option String → PiContentBlock → Bool
  has_phase none b = not (is_some (resolve_text_block_phase b))
  has_phase (some p) b = elim (resolve_text_block_phase b) [ none ↦ false | some q ↦ str_eq q p ]

  unfoldable pub extract_text_for_phase : List PiContentBlock → Option String → String
  extract_text_for_phase bs requested = join (texts (has_phase requested) bs)

  abbrev pub has_text : String → Bool
  has_text s = not (is_empty (trim s))

  abbrev pub fallback_text : PiMessage → String
  fallback_text msg = elim msg.text [
    | some t ↦ t
    | none ↦ elim msg.content [ plain s ↦ s | nothing ↦ "" | blocks bs ↦ "" ]
  ]

  abbrev pub text_of_blocks : PiMessage → List PiContentBlock → String
  text_of_blocks msg [] = fallback_text msg
  text_of_blocks msg (b ∷ bs) =
      let answer = extract_text_for_phase (b ∷ bs) (some "final_answer") in
      let unphased = extract_text_for_phase (b ∷ bs) none in
      let all_text = extract_text msg.content in
      if has_text answer
      then answer
      else if has_text unphased
      then unphased
      else if has_text all_text
      then all_text
      else fallback_text msg

  unfoldable pub extract_assistant_text : PiMessage → String
  extract_assistant_text msg = text_of_blocks msg (content_blocks msg.content)
