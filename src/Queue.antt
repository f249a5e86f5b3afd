-- ===== src/Queue.antt =====
-- src/store/memory.ts, `InMemoryQueueStore`: the pending events of each session, oldest first. A
-- method that writes returns the new map, behind its result where it has one.
pub mod Fifo
pub mod Drained
use openclaw_managed_agents.Prelude.{
  ℕ, String, Option, none, some, List, [], ◌∷◌, ◌++◌, if◌then◌else◌, get_or, length,
}
use Prim.Native.String.{compare}
use text.Mathlib.Text.{is_le}
use openclaw_managed_agents.JsMap
use openclaw_managed_agents.JsMap.{JsMap}
use openclaw_managed_agents.Types.{QueuedEvent}

abbrev pub QueueStore : Type 0
QueueStore = JsMap (List QueuedEvent)

abbrev pub enqueue_onto : QueueStore → String → QueuedEvent → Option (List QueuedEvent) → QueueStore
enqueue_onto m session_id event (some existing) = JsMap.set m session_id (existing ++ event ∷ [])
enqueue_onto m session_id event none = JsMap.set m session_id (event ∷ [])

unfoldable pub enqueue : QueueStore → String → QueuedEvent → QueueStore
enqueue m session_id event = enqueue_onto m session_id event (JsMap.get m session_id)

-- `xs[0]`.
abbrev pub first : List QueuedEvent → Option QueuedEvent
first [] = none
first (e ∷ es) = some e

abbrev pub queue_of : QueueStore → String → List QueuedEvent
queue_of m session_id = get_or (JsMap.get m session_id) []

unfoldable pub peek : QueueStore → String → Option QueuedEvent
peek m session_id = elim (JsMap.get m session_id) [ none ↦ none | some queue ↦ first queue ]

-- `queue.shift()`, and the entry dropped when it has emptied.
abbrev pub shift_queue :
    QueueStore → String → Option (List QueuedEvent) → Option QueuedEvent × QueueStore
shift_queue m session_id none = (none, m)
shift_queue m session_id (some []) = (none, m)
shift_queue m session_id (some (next ∷ [])) = (some next, JsMap.delete m session_id)
shift_queue m session_id (some (next ∷ e ∷ es)) = (some next, JsMap.set m session_id (e ∷ es))

unfoldable pub shift : QueueStore → String → Option QueuedEvent × QueueStore
shift m session_id = shift_queue m session_id (JsMap.get m session_id)

unfoldable pub size : QueueStore → String → ℕ
size m session_id = elim (JsMap.get m session_id) [ none ↦ 0 | some queue ↦ length queue ]

unfoldable pub clear : QueueStore → String → ℕ × QueueStore
clear m session_id = (
  elim (JsMap.get m session_id) [ none ↦ 0 | some queue ↦ length queue ],
  JsMap.delete m session_id,
)

-- `sort()` of strings; identifiers are ASCII, for which the order of bytes is that of code units.
abbrev pub insert_sorted : String → List String → List String
insert_sorted k [] = k ∷ []
insert_sorted k (j ∷ js) =
    let rest = insert_sorted k js in if is_le (compare k j) then k ∷ j ∷ js else j ∷ rest

abbrev pub sort : List String → List String
sort [] = []
sort (k ∷ ks) = insert_sorted k (sort ks)

unfoldable pub list_sessions_with_queued : QueueStore → List String
list_sessions_with_queued m = sort (JsMap.keys m)
