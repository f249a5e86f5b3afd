-- ===== src/Queue/Drained.antt =====
-- The entries of the queue store, and the sessions that it lists.
use openclaw_managed_agents.Prelude.{
  String, ◌≡◌, refl, ap, ◌∙◌, Bool, true, false, Option, none, some, List, [], ◌∷◌, ◌++◌, arith,
  ltb, str_eq, if◌then◌else◌, any, All,
}
use openclaw_managed_agents.JsMap
use openclaw_managed_agents.JsMap.{JsMap, values}
use openclaw_managed_agents.JsMap.Entries.{All-set, All-delete}
use openclaw_managed_agents.Types.{QueuedEvent}
use openclaw_managed_agents.Queue.{
  QueueStore, enqueue, enqueue_onto, shift_queue, shift, size, clear, list_sessions_with_queued,
  insert_sorted, sort,
}
use openclaw_managed_agents.Queue.Fifo.{Call, enqueues, shifts, clears, step}

abbrev non_empty : List QueuedEvent → Bool
non_empty [] = false
non_empty (e ∷ es) = true

-- No entry is left behind for a session whose queue has run empty.
abbrev pub IsTidy : QueueStore → Type 0
IsTidy m = All (λ q. non_empty q ≡ true) (values m)

non_empty-append : (q : List QueuedEvent) (e : QueuedEvent) → non_empty (q ++ e ∷ []) ≡ true
non_empty-append [] e = refl
non_empty-append (x ∷ q) e = refl

enqueue_onto-IsTidy :
    (m : QueueStore) (k : String) (e : QueuedEvent) (o : Option (List QueuedEvent))
    → IsTidy m
    → IsTidy (enqueue_onto m k e o)
enqueue_onto-IsTidy m k e none h = All-set _ m k (e ∷ []) h refl
enqueue_onto-IsTidy m k e (some q) h = All-set _ m k (q ++ e ∷ []) h (non_empty-append q e)

shift_queue-IsTidy :
    (m : QueueStore) (k : String) (o : Option (List QueuedEvent))
    → IsTidy m
    → IsTidy (shift_queue m k o).1
shift_queue-IsTidy m k none h = h
shift_queue-IsTidy m k (some []) h = h
shift_queue-IsTidy m k (some (x ∷ [])) h = All-delete _ m k h
shift_queue-IsTidy m k (some (x ∷ y ∷ r)) h = All-set _ m k (y ∷ r) h refl

-- Every call keeps the store free of empty entries.
pub step-IsTidy : (m : QueueStore) (c : Call) → IsTidy m → IsTidy (step m c).1
unfolding step enqueue shift clear
step-IsTidy m (enqueues k e) h = enqueue_onto-IsTidy m k e (JsMap.get m k) h
step-IsTidy m (shifts k) h = shift_queue-IsTidy m k (JsMap.get m k) h
step-IsTidy m (clears k) h = All-delete _ m k h
step-IsTidy m _ h = h

any-insert_sorted :
    (p : String → Bool) (k : String) (ks : List String)
    → any p (insert_sorted k ks) ≡ (if p k then true else any p ks)
any-insert_sorted p k [] = refl
any-insert_sorted p k (j ∷ js) = ground (arith, any-insert_sorted p k js)

any-sort : (p : String → Bool) (ks : List String) → any p (sort ks) ≡ any p ks
any-sort p [] = refl
any-sort p (k ∷ ks) =
    any-insert_sorted p k (sort ks) ∙ ap (λ b. if p k then true else b) (any-sort p ks)

any-keys :
    (m : QueueStore) (k : String)
    → IsTidy m
    → any (λ j. str_eq j k) (JsMap.keys m) ≡ ltb 0 (size m k)
unfolding size JsMap.get
any-keys [] k h = ground arith
any-keys ((j, []) ∷ m) k h = ground arith
any-keys ((j, e ∷ es) ∷ m) k h = ground (arith, any-keys m k h.1)

-- The sessions that are listed as having queued events are exactly those whose queue is not empty.
pub list_sessions_with_queued_lem :
    (m : QueueStore) (k : String)
    → IsTidy m
    → any (λ j. str_eq j k) (list_sessions_with_queued m) ≡ ltb 0 (size m k)
unfolding list_sessions_with_queued
list_sessions_with_queued_lem m k h = any-sort (λ j. str_eq j k) (JsMap.keys m) ∙ any-keys m k h
