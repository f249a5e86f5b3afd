-- ===== src/EventLog/Reads.antt =====
-- What a follower has seen of a log whose events have ids of their own.
use openclaw_managed_agents.Prelude.{
  ℕ, String, ◌≡◌, refl, sym, ap, ◌∙◌, true, false, List, [], ◌∷◌, ◌++◌, map, arith, eq_iff, eq_refl,
  any, All,
}
use mathlib.Core.List.{append_assoc, append-nil}
use openclaw_managed_agents.EventLog.{Event, Follow, has_id, is_seen, see, poll_event, poll_events}

abbrev pub IsDistinct : List Event → Type 0
IsDistinct [] = Unit
IsDistinct (e ∷ es) = (any (λ d. has_id d e.event_id) es ≡ false) × IsDistinct es

abbrev pub ids : List Event → List String
ids = map (λ e. e.event_id)

is_seen-ids : (id : String) (es : List Event) → is_seen (ids es) id ≡ any (λ e. has_id e id) es
is_seen-ids id [] = refl
is_seen-ids id (e ∷ es) = ground (arith, is_seen-ids id es)

fresh_in_middle :
    (pre : List Event) (e : Event) (es : List Event)
    → IsDistinct (pre ++ e ∷ es)
    → any (λ d. has_id d e.event_id) pre ≡ false
fresh_in_middle [] e es h = refl
fresh_in_middle (d ∷ pre) e es h = ground (
  arith,
  eq_iff d.event_id e.event_id,
  eq_iff e.event_id d.event_id,
  other pre h.0,
  fresh_in_middle pre e es h.1,
)
  where
    other :
        (pre : List Event)
        → any (λ c. has_id c d.event_id) (pre ++ e ∷ es) ≡ false
        → has_id e d.event_id ≡ false
    other [] k = ground arith
    other (c ∷ pre) k = other pre (ground arith)

ids-snoc : (pre : List Event) (e : Event) → ids (pre ++ e ∷ []) ≡ ids pre ++ e.event_id ∷ []
ids-snoc [] e = refl
ids-snoc (d ∷ pre) e = ap (λ l. d.event_id ∷ l) (ids-snoc pre e)

unseen :
    (seen : List String) (pre : List Event) (e : Event) (es : List Event)
    → seen ≡ ids pre
    → IsDistinct (pre ++ e ∷ es)
    → is_seen seen e.event_id ≡ false
unseen seen pre e es h d =
    ap (λ s. is_seen s e.event_id) h ∙ (is_seen-ids e.event_id pre ∙ fresh_in_middle pre e es d)

pub see-ids :
    (seen : List String) (pre : List Event) (e : Event) (es : List Event)
    → seen ≡ ids pre
    → IsDistinct (pre ++ e ∷ es)
    → see seen e.event_id ≡ ids (pre ++ e ∷ [])
see-ids seen pre e es h d =
    rw (unseen seen pre e es h d) (ap (λ s. s ++ e.event_id ∷ []) h ∙ sym (ids-snoc pre e))

-- What a follower has seen is the log, and what it has yielded is `out`.
pub record HasRead (f : Follow) (log out : List Event) : Type 0 where
  pub seen : f.seen ≡ ids log
  pub out_is : f.yielded ≡ out

pub move :
    (f : Follow) (pre : List Event) (e : Event) (es out : List Event)
    → HasRead f ((pre ++ e ∷ []) ++ es) out
    → HasRead f (pre ++ e ∷ es) out
move f pre e es out h = record {
  seen = h.seen ∙ ap ids (append_assoc pre (e ∷ []) es);
  out_is = h.out_is;
}

poll_event-HasRead :
    (now : ℕ) (f : Follow) (pre : List Event) (e : Event) (es out : List Event)
    → HasRead f pre out
    → IsDistinct (pre ++ e ∷ es)
    → HasRead (poll_event now f e) (pre ++ e ∷ []) (out ++ e ∷ [])
poll_event-HasRead now f pre e es out h d = rw (unseen f.seen pre e es h.seen d) (record {
  seen = ap (λ s. s ++ e.event_id ∷ []) h.seen ∙ sym (ids-snoc pre e);
  out_is = ap (λ o. o ++ e ∷ []) h.out_is;
})

pub regroup :
    (f : Follow) (pre : List Event) (e : Event) (es out : List Event)
    → HasRead f ((pre ++ e ∷ []) ++ es) ((out ++ e ∷ []) ++ es)
    → HasRead f (pre ++ e ∷ es) (out ++ e ∷ es)
regroup f pre e es out h = record {
  seen = h.seen ∙ ap ids (append_assoc pre (e ∷ []) es);
  out_is = h.out_is ∙ append_assoc out (e ∷ []) es;
}

pub IsDistinct-on :
    (pre : List Event) (e : Event) (es : List Event)
    → IsDistinct (pre ++ e ∷ es)
    → IsDistinct ((pre ++ e ∷ []) ++ es)
IsDistinct-on pre e es d = rw (append_assoc pre (e ∷ []) es) d

poll_events-HasRead :
    (now : ℕ) (f : Follow) (pre es out : List Event)
    → HasRead f pre out
    → IsDistinct (pre ++ es)
    → HasRead (poll_events now f es) (pre ++ es) (out ++ es)
unfolding poll_events
poll_events-HasRead now f pre [] out h d = record {
  seen = h.seen ∙ ap ids (sym (append-nil pre));
  out_is = h.out_is ∙ sym (append-nil out);
}
poll_events-HasRead now f pre (e ∷ es) out h d = regroup (poll_events now f (e ∷ es)) pre e es out (
    poll_events-HasRead now (poll_event now f e) (pre ++ e ∷ []) es (out ++ e ∷ [])
      (poll_event-HasRead now f pre e es out h d) (IsDistinct-on pre e es d))

-- The events that were seen before are passed over.
poll_events_seen :
    (now : ℕ) (f : Follow) (es : List Event)
    → All (λ e. is_seen f.seen e.event_id ≡ true) es
    → poll_events now f es ≡ f
unfolding poll_events
poll_events_seen now f [] h = refl
poll_events_seen now f (e ∷ es) h = rw h.0 (poll_events_seen now f es h.1)

poll_events-append :
    (now : ℕ) (f : Follow) (es ds : List Event)
    → poll_events now f (es ++ ds) ≡ poll_events now (poll_events now f es) ds
unfolding poll_events
poll_events-append now f [] ds = refl
poll_events-append now f (e ∷ es) ds = poll_events-append now (poll_event now f e) es ds

more_seen :
    (k : String) (seen : List String) (es : List Event)
    → All (λ e. is_seen seen e.event_id ≡ true) es
    → All (λ e. is_seen (k ∷ seen) e.event_id ≡ true) es
more_seen k seen [] h = tt
more_seen k seen (e ∷ es) h = (ground (arith, h.0), more_seen k seen es h.1)

all_seen : (es : List Event) → All (λ e. is_seen (ids es) e.event_id ≡ true) es
all_seen [] = tt
all_seen (e ∷ es) =
    (ground (arith, eq_refl e.event_id), more_seen e.event_id (ids es) es (all_seen es))

pub read_again :
    (now : ℕ) (f : Follow) (log new out : List Event)
    → HasRead f log out
    → IsDistinct (log ++ new)
    → HasRead (poll_events now f (log ++ new)) (log ++ new) (out ++ new)
read_again now f log new out h d =
    rw (poll_events-append now f log new, poll_events_seen now f log (rw h.seen (all_seen log)))
      (poll_events-HasRead now f log new out h d)
