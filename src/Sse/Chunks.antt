-- ===== src/Sse/Chunks.antt =====
-- The parser does not depend on how a text without carriage returns is cut into chunks.
use openclaw_managed_agents.Prelude.{
  ℕ, zero, suc, ◌≤◌, ◌≡◌, refl, sym, ap, ◌∙◌, inl, inr, false, ◌||◌, none, some, List, [], ◌∷◌,
  ◌++◌, arith, nat_eq, Bool-cases, if-cases, length, length-append, All-append,
}
use mathlib.Core.Path.{subst}
use mathlib.Core.List.{append_assoc, append-nil}
use openclaw_managed_agents.Sse.{
  Text, ServerSentEvent, Parser, start, lf, cr, index_of_line_end, line_end_length, dispatch,
  on_line, then_run, cut, drain, read, read_all, parse_sse,
}
use openclaw_managed_agents.Sse.Buffer.{
  HasNoCr, IsPlain, step, steps, steps-append, index_of-plain, index_of-cr, index_of-lf,
  HasNoCr-append, drop-front, drop-behind, take-front, with_buffer, both, on_line-buffer,
}

drain-none : (n : ℕ) (p : Parser) → index_of_line_end p.buffer ≡ none → drain n p ≡ (p, [])
unfolding drain
drain-none zero p e = refl
drain-none (suc n) p e = rw (e, drain) refl

drain-some :
    (n : ℕ) (p : Parser) (i : ℕ)
    → index_of_line_end p.buffer ≡ some i
    → drain (suc n) p ≡ then_run (drain n) (cut p i)
unfolding drain
drain-some n p i e = rw (e, drain) refl

length_of_lf : (cs : Text) → line_end_length (lf ∷ cs) ≡ 1
length_of_lf [] = refl
length_of_lf (d ∷ cs) = refl

end_of-plain : (b : Text) → IsPlain b → index_of_line_end b ≡ none
end_of-plain b h = rw ((index_of-plain b h).0, (index_of-plain b h).1) refl

end_of-lf :
    (b cs : Text) → IsPlain b → HasNoCr cs → index_of_line_end (b ++ lf ∷ cs) ≡ some (length b)
end_of-lf b cs h k =
    rw (index_of-lf b cs h, index_of-cr (b ++ lf ∷ cs) (HasNoCr-append b (lf ∷ cs) h (refl, k)))
      refl

cut-lf :
    (p : Parser) (b cs : Text)
    → cut (with_buffer (b ++ lf ∷ cs) p) (length b) ≡ both cs (on_line p b)
unfolding with_buffer
cut-lf p b cs =
    rw (drop-front b (lf ∷ cs), length_of_lf cs, drop-behind b cs lf, take-front b (lf ∷ cs))
      (on_line-buffer p b cs)

IsPlain-snoc :
    (b : Text) (c : ℕ)
    → IsPlain b
    → nat_eq c cr ≡ false
    → nat_eq c lf ≡ false
    → IsPlain (b ++ c ∷ [])
IsPlain-snoc b c h k l =
    All-append (λ c. nat_eq c cr || nat_eq c lf ≡ false) b (c ∷ []) h (rw (k, l) refl, tt)

step-lf : (p : Parser) (b : Text) → step (with_buffer b p) lf ≡ both [] (on_line p b)
unfolding step with_buffer
step-lf p b = on_line-buffer p b []

step_other :
    (p : Parser) (b : Text) (c : ℕ)
    → nat_eq c lf ≡ false
    → step (with_buffer b p) c ≡ (with_buffer (b ++ c ∷ []) p, [])
unfolding step with_buffer
step_other p b c e = rw e refl

-- With fuel for its text, the inner loop does what the characters do one by one.
drain-steps :
    (n : ℕ) (p : Parser) (b cs : Text)
    → length (b ++ cs) ≤ n
    → IsPlain b
    → HasNoCr cs
    → drain n (with_buffer (b ++ cs) p) ≡ steps (with_buffer b p) cs
unfolding steps with_buffer both on_line
drain-steps n p b [] m h k = rw (append-nil b) (drain-none n (with_buffer b p) (end_of-plain b h))
drain-steps n p b (c ∷ cs) m h k = elim (Bool-cases (nat_eq c lf)) [
  | inl y ↦
      subst
        (λ c.
          drain n (with_buffer (b ++ c ∷ cs) p)
          ≡ then_run (λ q. steps q cs) (step (with_buffer b p) c))
        (sym (ground arith)) (at_end n m (λ i q l. drain-steps i q [] cs l tt k.1))
  | inr l ↦
      rw (step_other p b c l, sym (append_assoc b (c ∷ []) cs))
        (drain-steps n p (b ++ c ∷ []) cs (rw (append_assoc b (c ∷ []) cs) m)
          (IsPlain-snoc b c h k.0 l) k.1)
]
  where
    at_end :
        (n : ℕ)
        → length (b ++ c ∷ cs) ≤ n
        → ((i : ℕ) (q : Parser)
            → length cs ≤ i
            → drain i (with_buffer cs q) ≡ steps (with_buffer [] q) cs)
        → drain n (with_buffer (b ++ lf ∷ cs) p)
          ≡ then_run (λ q. steps q cs) (step (with_buffer b p) lf)
    at_end zero m ih = absurd (omega (arith, length-append b (c ∷ cs), m))
    at_end (suc n) m ih =
        rw
          (
            drain-some n (with_buffer (b ++ lf ∷ cs) p) (length b) (end_of-lf b cs h k.1),
            cut-lf p b cs,
            step-lf p b,
          )
          (ap (λ r. (r.0, (on_line p b).1 ++ r.1))
            (ih n (on_line p b).0 (omega (arith, length-append b (c ∷ cs), m))))

-- The buffer holds no line end between two reads.
cleared :
    (p : Parser)
    → on_line (record p { buffer = [] }) p.buffer
      ≡ (record (on_line p p.buffer).0 { buffer = [] }, (on_line p p.buffer).1)
unfolding with_buffer both
cleared p = on_line-buffer p p.buffer []

IsPlain-step :
    (p : Parser) (c : ℕ) → IsPlain p.buffer → nat_eq c cr ≡ false → IsPlain (step p c).0.buffer
unfolding step
IsPlain-step p c h k =
    if-cases (λ (r : Parser × List ServerSentEvent). IsPlain r.0.buffer) (nat_eq c lf)
      (on_line (record p { buffer = [] }) p.buffer) (record p { buffer = p.buffer ++ c ∷ [] }, [])
      (λ y. subst (λ (r : Parser × List ServerSentEvent). IsPlain r.0.buffer) (sym (cleared p)) tt)
      (λ l. IsPlain-snoc p.buffer c h k l)

IsPlain-after :
    (cs : Text) (p : Parser) → IsPlain p.buffer → HasNoCr cs → IsPlain (steps p cs).0.buffer
unfolding steps
IsPlain-after [] p h k = h
IsPlain-after (c ∷ cs) p h k = IsPlain-after cs (step p c).0 (IsPlain-step p c h k.0) k.1

read-steps : (p : Parser) (cs : Text) → IsPlain p.buffer → HasNoCr cs → read p cs ≡ steps p cs
unfolding read with_buffer
read-steps p cs h k = drain-steps (length (p.buffer ++ cs)) p p.buffer cs (omega arith) h k

abbrev pub concat : List Text → Text
concat [] = []
concat (c ∷ cs) = c ++ concat cs

HasNoCr-split : (s t : Text) → HasNoCr (s ++ t) → HasNoCr s × HasNoCr t
HasNoCr-split [] t h = (tt, h)
HasNoCr-split (c ∷ s) t h = let r = HasNoCr-split s t h.1 in ((h.0, r.0), r.1)

read_all-steps :
    (cs : List Text) (p : Parser)
    → IsPlain p.buffer
    → HasNoCr (concat cs)
    → read_all p cs ≡ steps p (concat cs)
unfolding read_all steps
read_all-steps [] p h k = refl
read_all-steps (c ∷ cs) p h k =
    let parts = HasNoCr-split c (concat cs) k in
    rw (read-steps p c h parts.0) (
      ap (λ r. (r.0, (steps p c).1 ++ r.1))
        (read_all-steps cs (steps p c).0 (IsPlain-after c p h parts.0) parts.1)
      ∙ sym (steps-append c (concat cs) p))

-- The events do not depend on where a text without carriage returns was cut into chunks.
pub parse_sse-concat :
    (chunks : List Text)
    → HasNoCr (concat chunks)
    → parse_sse chunks ≡ parse_sse (concat chunks ∷ [])
unfolding parse_sse
parse_sse-concat chunks k =
    ap (λ r. (then_run dispatch r).1)
      (read_all-steps chunks start tt k
        ∙ sym (
            read_all-steps (concat chunks ∷ []) start tt (rw (append-nil (concat chunks)) k)
            ∙ ap (steps start) (append-nil (concat chunks))))
