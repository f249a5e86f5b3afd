-- ===== src/Sse/Ends.antt =====
-- The inner loop ends because there is no line left, and never for lack of fuel.
use openclaw_managed_agents.Prelude.{
  ℕ, zero, suc, ◌+◌, ◌-◌, ◌≤◌, ◌≡◌, refl, Option, none, some, List, [], ◌∷◌, ◌++◌, arith, length,
  take,
}
use openclaw_managed_agents.Sse.{
  Text, ServerSentEvent, Parser, index_of_line_end, drop, line_end_length, then_run, cut, drain,
  read,
}
use openclaw_managed_agents.Sse.Buffer.{on_line_keeps}

length-drop : (n : ℕ) (s : Text) → length (drop n s) ≤ length s - n
length-drop zero s = omega arith
length-drop (suc n) [] = omega arith
length-drop (suc n) (c ∷ s) = omega (arith, length-drop n s)

one_at_least : (s : Text) → 1 ≤ line_end_length s
one_at_least [] = omega arith
one_at_least (c ∷ []) = omega arith
one_at_least (c ∷ d ∷ s) = ground arith

shorter : (p : Parser) (i n : ℕ) → length p.buffer ≤ suc n → length (cut p i).0.buffer ≤ n
shorter p i n h =
    rw
      (on_line_keeps (record p { buffer = drop (i + line_end_length (drop i p.buffer)) p.buffer })
        (take i p.buffer))
      (omega (
        arith,
        length-drop (i + line_end_length (drop i p.buffer)) p.buffer,
        one_at_least (drop i p.buffer),
        h,
      ))

empty_end : (s : Text) → length s ≤ 0 → index_of_line_end s ≡ none
empty_end [] h = refl
empty_end (c ∷ s) h = absurd (omega (arith, h))

next_cut : ℕ → Parser → Option ℕ → Parser × List ServerSentEvent
next_cut n p none = (p, [])
next_cut n p (some i) = then_run (drain n) (cut p i)

drain-next_cut :
    (n : ℕ) (p : Parser) (o : Option ℕ)
    → index_of_line_end p.buffer ≡ o
    → drain (suc n) p ≡ next_cut n p o
unfolding drain next_cut
drain-next_cut n p none e = rw (e, drain) refl
drain-next_cut n p (some i) e = rw (e, drain) refl

drain_ends :
    (n : ℕ) (p : Parser) → length p.buffer ≤ n → index_of_line_end (drain n p).0.buffer ≡ none
unfolding drain next_cut
drain_ends zero p h = empty_end p.buffer h
drain_ends (suc n) p h = ends (index_of_line_end p.buffer) refl (λ q l. drain_ends n q l)
  where
    ends :
        (o : Option ℕ)
        → index_of_line_end p.buffer ≡ o
        → ((q : Parser) → length q.buffer ≤ n → index_of_line_end (drain n q).0.buffer ≡ none)
        → index_of_line_end (drain (suc n) p).0.buffer ≡ none
    ends none e ih = rw (drain-next_cut n p none e, next_cut) e
    ends (some i) e ih =
        rw (drain-next_cut n p (some i) e, next_cut) (ih (cut p i).0 (shorter p i n h))

-- A read takes every line out of the buffer, whatever the text is.
pub read_ends : (p : Parser) (chunk : Text) → index_of_line_end (read p chunk).0.buffer ≡ none
unfolding read
read_ends p chunk =
    drain_ends (length (p.buffer ++ chunk)) (record p { buffer = p.buffer ++ chunk }) (omega arith)
