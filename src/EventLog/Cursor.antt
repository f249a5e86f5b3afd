-- ===== src/EventLog/Cursor.antt =====
-- A client that follows a log that only grows.
use openclaw_managed_agents.Prelude.{
  ℕ, String, ◌≡◌, refl, sym, ap, ◌∙◌, inl, inr, Bool, true, false, Option, none, List, [], ◌∷◌,
  ◌++◌, arith, if◌then◌else◌, Bool-cases, if-cases,
}
use mathlib.Core.List.{append_assoc, append-nil}
use openclaw_managed_agents.EventLog.{
  Event, Follow, see, is_after, catch_up_from, starts_behind, catch_up, poll_events, Poll,
  finish_poll, poll, polls, follow,
}
use openclaw_managed_agents.EventLog.Reads.{
  IsDistinct, ids, see-ids, HasRead, move, regroup, IsDistinct-on, read_again,
}

-- The events behind the cursor.
abbrev pub behind : Option String → List Event → List Event
behind after [] = []
behind after (e ∷ es) = if is_after after e then es else behind after es

-- All of them without a cursor, or with one that is not there.
abbrev pub resumed : Option String → List Event → List Event
resumed after es = if starts_behind after es then es else behind after es

-- No poll is aborted, and each log goes on from the one before.
abbrev pub IsGrowing : List Event → List Poll → Type 0
IsGrowing log [] = Unit
IsGrowing log (p ∷ ps) =
    ((new : List Event) × (p.log ≡ log ++ new))
    × (IsDistinct p.log × ((p.aborted ≡ false) × ((p.aborted_at ≡ none) × IsGrowing p.log ps)))

-- The log that was read last.
pub log_read : ℕ → Follow → List Event → List Poll → List Event
log_read t f log [] = log
log_read t f log (p ∷ ps) = if f.ended then log else log_read t (poll t f p) p.log ps

-- The first phase, with the cursor behind it or still ahead.
catch_up_from-HasRead :
    (after : Option String) (c : Bool) (f : Follow) (pre es out : List Event)
    → HasRead f pre out
    → IsDistinct (pre ++ es)
    → HasRead (catch_up_from after c f es) (pre ++ es) (out ++ (if c then es else behind after es))
unfolding catch_up_from
catch_up_from-HasRead after true f pre [] out h d = record {
  seen = h.seen ∙ ap ids (sym (append-nil pre));
  out_is = h.out_is ∙ sym (append-nil out);
}
catch_up_from-HasRead after false f pre [] out h d = record {
  seen = h.seen ∙ ap ids (sym (append-nil pre));
  out_is = h.out_is ∙ sym (append-nil out);
}
catch_up_from-HasRead after true f pre (e ∷ es) out h d =
    regroup (catch_up_from after true f (e ∷ es)) pre e es out (
      catch_up_from-HasRead after true
        (record f { seen = see f.seen e.event_id; yielded = f.yielded ++ e ∷ [] }) (pre ++ e ∷ [])
        es (out ++ e ∷ [])
        (record {
          seen = see-ids f.seen pre e es h.seen d;
          out_is = ap (λ o. o ++ e ∷ []) h.out_is;
        })
        (IsDistinct-on pre e es d))
catch_up_from-HasRead after false f pre (e ∷ es) out h d =
    move (catch_up_from after false f (e ∷ es)) pre e es _ (
      catch_up_from-HasRead after (is_after after e) (record f { seen = see f.seen e.event_id })
        (pre ++ e ∷ []) es out
        (record { seen = see-ids f.seen pre e es h.seen d; out_is = h.out_is })
        (IsDistinct-on pre e es d))

-- What was read last goes on from the first log, and that much was yielded behind the cursor.
abbrev pub IsDelivered : List Event → List Event → List Event → List Event → Type 0
IsDelivered start log log' out = (new : List Event) × ((log' ≡ log ++ new) × (out ≡ start ++ new))

poll_ended : (t : ℕ) (f : Follow) (p : Poll) → f.ended ≡ true → poll t f p ≡ f
unfolding poll
poll_ended t f p y = if-cases (λ r. r ≡ f) f.ended f _ (λ _. refl) (λ n. absurd (ground arith))

polls_ended : (t : ℕ) (f : Follow) (ps : List Poll) → f.ended ≡ true → polls t f ps ≡ f
unfolding polls
polls_ended t f [] y = refl
polls_ended t f (p ∷ ps) y = rw (poll_ended t f p y) (polls_ended t f ps y)

log_read_ended :
    (t : ℕ) (f : Follow) (log : List Event) (ps : List Poll)
    → f.ended ≡ true
    → log_read t f log ps ≡ log
unfolding log_read
log_read_ended t f log [] y = refl
log_read_ended t f log (p ∷ ps) y = rw y refl

log_read_on :
    (t : ℕ) (f : Follow) (log : List Event) (p : Poll) (ps : List Poll)
    → f.ended ≡ false
    → log_read t f log (p ∷ ps) ≡ log_read t (poll t f p) p.log ps
unfolding log_read
log_read_on t f log p ps n =
    if-cases (λ r. r ≡ log_read t (poll t f p) p.log ps) f.ended log _ (λ y. absurd (ground arith))
      (λ _. refl)

poll-calm :
    (t : ℕ) (f : Follow) (p : Poll)
    → f.ended ≡ false
    → p.aborted ≡ false
    → p.aborted_at ≡ none
    → poll t f p ≡ finish_poll t p (poll_events p.now f p.log)
unfolding poll
poll-calm t f p e a b = rw (e, a, b) refl

poll-HasRead :
    (t : ℕ) (f : Follow) (p : Poll) (log new out : List Event)
    → HasRead f log out
    → f.ended ≡ false
    → p.aborted ≡ false
    → p.aborted_at ≡ none
    → p.log ≡ log ++ new
    → IsDistinct p.log
    → HasRead (poll t f p) p.log (out ++ new)
poll-HasRead t f p log new out h e a b g d =
    let r = read_again p.now f log new out h (rw (sym g) d) in
    rw (poll-calm t f p e a b, g) (record { seen = r.seen; out_is = r.out_is })

polls-IsDelivered :
    (t : ℕ) (f : Follow) (log out : List Event) (ps : List Poll)
    → HasRead f log out
    → IsGrowing log ps
    → IsDelivered out log (log_read t f log ps) (polls t f ps).yielded
unfolding polls log_read
polls-IsDelivered t f log out [] h g = ([], (sym (append-nil log), h.out_is ∙ sym (append-nil out)))
polls-IsDelivered t f log out (p ∷ ps) h ((new, q), (d, (a, (b, g)))) = elim (Bool-cases f.ended) [
  | inl y ↦
      rw (log_read_ended t f log (p ∷ ps) y, polls_ended t f (p ∷ ps) y)
        ([], (sym (append-nil log), h.out_is ∙ sym (append-nil out)))
  | inr n ↦
      let r =
        polls-IsDelivered t (poll t f p) p.log (out ++ new) ps
          (poll-HasRead t f p log new out h n a b q d) g in
      rw (log_read_on t f log p ps n) (
        new ++ r.0,
        (
          r.1.0 ∙ (ap (λ l. l ++ r.0) q ∙ append_assoc log new r.0),
          r.1.1 ∙ append_assoc out new r.0,
        ),
      )
]

-- A client that follows a log that only grows, whose events have ids of their own, and does not go away, is given each event
-- behind its cursor once, in the log's order, up to the log that was read last; without a cursor, or with one that
-- the first log does not have, it is given all of them.
pub follow-IsDelivered :
    (t : ℕ) (after : Option String) (log : List Event) (now : ℕ) (ps : List Poll)
    → IsDistinct log
    → IsGrowing log ps
    → IsDelivered
        (resumed after log)
        log
        (log_read t (catch_up after log now) log ps)
        (follow t after log now ps).yielded
unfolding follow catch_up
follow-IsDelivered t after log now ps d g =
    let r =
      catch_up_from-HasRead after (starts_behind after log)
        (record { seen = []; yielded = []; last_yield_at = 0; ended = false }) [] log []
        (record { seen = refl; out_is = refl }) d in
    polls-IsDelivered t _ log (resumed after log) ps (record { seen = r.seen; out_is = r.out_is }) g
