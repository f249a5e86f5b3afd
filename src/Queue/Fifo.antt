-- ===== src/Queue/Fifo.antt =====
-- The queue store against its specification: one first-in first-out list for each session.
use mathlib.Core.Path.{fun_ext, ap₂}
use openclaw_managed_agents.Prelude.{
  ℕ, String, ◌≡◌, refl, ap, ◌∙◌, Option, none, some, List, [], ◌∷◌, ◌++◌, arith, eq_iff, str_eq,
  if◌then◌else◌, get_or, length,
}
use openclaw_managed_agents.JsMap
use openclaw_managed_agents.JsMap.{JsMap, map_laws}
use openclaw_managed_agents.Types.{QueuedEvent}
use openclaw_managed_agents.Queue.{
  QueueStore, enqueue, enqueue_onto, first, queue_of, peek, shift_queue, shift, size, clear,
}

pub data Call : Type 0 where
  enqueues : String → QueuedEvent → Call
  peeks : String → Call
  shifts : String → Call
  sizes : String → Call
  clears : String → Call

pub data Reply : Type 0 where
  nothing : Reply
  event : Option QueuedEvent → Reply
  count : ℕ → Reply

unfoldable pub step : QueueStore → Call → Reply × QueueStore
step m (enqueues k e) = (nothing, enqueue m k e)
step m (peeks k) = (event (peek m k), m)
step m (shifts k) = (event (shift m k).0, (shift m k).1)
step m (sizes k) = (count (size m k), m)
step m (clears k) = (count (clear m k).0, (clear m k).1)

unfoldable pub run : QueueStore → List Call → List Reply
run m [] = []
run m (c ∷ cs) = (step m c).0 ∷ run (step m c).1 cs

-- The specification: a list of events at each session.
abbrev pub Queues : Type 0
Queues = String → List QueuedEvent

abbrev pub update : Queues → String → List QueuedEvent → Queues
update q k es j = if str_eq k j then es else q j

abbrev pub rest : List QueuedEvent → List QueuedEvent
rest [] = []
rest (e ∷ es) = es

unfoldable pub spec_step : Queues → Call → Reply × Queues
spec_step q (enqueues k e) = (nothing, update q k (q k ++ e ∷ []))
spec_step q (peeks k) = (event (first (q k)), q)
spec_step q (shifts k) = (event (first (q k)), update q k (rest (q k)))
spec_step q (sizes k) = (count (length (q k)), q)
spec_step q (clears k) = (count (length (q k)), update q k [])

unfoldable pub spec_run : Queues → List Call → List Reply
spec_run q [] = []
spec_run q (c ∷ cs) = (spec_step q c).0 ∷ spec_run (spec_step q c).1 cs

queue_of-enqueue_onto :
    (m : QueueStore) (k j : String) (e : QueuedEvent) (o : Option (List QueuedEvent))
    → JsMap.get m k ≡ o
    → queue_of (enqueue_onto m k e o) j ≡ update (queue_of m) k (get_or o [] ++ e ∷ []) j
queue_of-enqueue_onto m k j e none h = simp map_laws (ground (arith, eq_iff k j))
queue_of-enqueue_onto m k j e (some q) h = simp map_laws (ground (arith, eq_iff k j))

pub queue_of-clear :
    (m : QueueStore) (k j : String) → queue_of (clear m k).1 j ≡ update (queue_of m) k [] j
unfolding clear
queue_of-clear m k j = simp map_laws (ground (arith, eq_iff k j))

queue_of-shift_queue :
    (m : QueueStore) (k j : String) (o : Option (List QueuedEvent))
    → JsMap.get m k ≡ o
    → queue_of (shift_queue m k o).1 j ≡ update (queue_of m) k (rest (get_or o [])) j
queue_of-shift_queue m k j none h = ground (arith, eq_iff k j, h)
queue_of-shift_queue m k j (some []) h = ground (arith, eq_iff k j, h)
queue_of-shift_queue m k j (some (x ∷ [])) h = simp map_laws (ground (arith, eq_iff k j, h))
queue_of-shift_queue m k j (some (x ∷ y ∷ r)) h = simp map_laws (ground (arith, eq_iff k j, h))

pub queue_of-shift :
    (m : QueueStore) (k j : String)
    → queue_of (shift m k).1 j ≡ update (queue_of m) k (rest (queue_of m k)) j
unfolding shift
queue_of-shift m k j = queue_of-shift_queue m k j (JsMap.get m k) refl

pub queue_of-enqueue :
    (m : QueueStore) (k j : String) (e : QueuedEvent)
    → queue_of (enqueue m k e) j ≡ update (queue_of m) k (queue_of m k ++ e ∷ []) j
unfolding enqueue
queue_of-enqueue m k j e = queue_of-enqueue_onto m k j e (JsMap.get m k) refl

reply-shift_queue :
    (m : QueueStore) (k : String) (o : Option (List QueuedEvent))
    → (shift_queue m k o).0 ≡ first (get_or o [])
reply-shift_queue m k none = refl
reply-shift_queue m k (some []) = refl
reply-shift_queue m k (some (x ∷ [])) = refl
reply-shift_queue m k (some (x ∷ y ∷ r)) = refl

pub reply-shift : (m : QueueStore) (k : String) → (shift m k).0 ≡ first (queue_of m k)
unfolding shift
reply-shift m k = reply-shift_queue m k (JsMap.get m k)

pub queue_of-step :
    (m : QueueStore) (c : Call) → (λ j. queue_of (step m c).1 j) ≡ (spec_step (queue_of m) c).1
unfolding step spec_step enqueue
queue_of-step m (enqueues k e) = fun_ext λ j. queue_of-enqueue_onto m k j e (JsMap.get m k) refl
queue_of-step m (peeks k) = refl
queue_of-step m (shifts k) = fun_ext λ j. queue_of-shift m k j
queue_of-step m (sizes k) = refl
queue_of-step m (clears k) = fun_ext λ j. queue_of-clear m k j

reply-step : (m : QueueStore) (c : Call) → (step m c).0 ≡ (spec_step (queue_of m) c).0
unfolding step spec_step peek size clear shift
reply-step m (enqueues k e) = refl
reply-step m (peeks k) = ground arith
reply-step m (shifts k) = ap event (reply-shift_queue m k (JsMap.get m k))
reply-step m (sizes k) = ground arith
reply-step m (clears k) = ground arith

-- Whatever the calls, the store gives the replies of the specification: a session's events come out
-- in the order in which they went in, a peek takes nothing, and no session sees another's events.
pub run-spec_run : (m : QueueStore) (cs : List Call) → run m cs ≡ spec_run (queue_of m) cs
unfolding run spec_run
run-spec_run m [] = refl
run-spec_run m (c ∷ cs) =
    ap₂ ◌∷◌ (reply-step m c)
      (run-spec_run (step m c).1 cs ∙ ap (λ q. spec_run q cs) (queue_of-step m c))
