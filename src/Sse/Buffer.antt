-- ===== src/Sse/Buffer.antt =====
-- The parser that reads one character after the other, and what the buffer has to do with a line.
use openclaw_managed_agents.Prelude.{
  ℕ, suc, ◌+◌, ◌≡◌, refl, sym, ap, ◌∙◌, Bool, true, false, not, ◌&&◌, ◌||◌, Option, none, some,
  List, [], ◌∷◌, ◌++◌, arith, nat_eq, if◌then◌else◌, get_or, is_some, length, take, All,
}
use mathlib.Core.Path.{fun_ext}
use mathlib.Core.List.{append_assoc}
use openclaw_managed_agents.Sse.{
  Text, ServerSentEvent, Parser, lf, cr, index_of, drop, dispatch, set_field, split_field, on_line,
  texts_eq, codes, without_space, join, then_run,
}

abbrev pub HasNoCr : Text → Type 0
HasNoCr = All (λ c. nat_eq c cr ≡ false)

abbrev pub IsPlain : Text → Type 0
IsPlain = All (λ c. nat_eq c cr || nat_eq c lf ≡ false)

-- The parser that reads one character after the other.
unfoldable pub step : Parser → ℕ → Parser × List ServerSentEvent
step p c =
    if nat_eq c lf
    then on_line (record p { buffer = [] }) p.buffer
    else (record p { buffer = p.buffer ++ c ∷ [] }, [])

unfoldable pub steps : Parser → Text → Parser × List ServerSentEvent
steps p [] = (p, [])
steps p (c ∷ cs) = then_run (λ q. steps q cs) (step p c)

then_run_then :
    (f g : Parser → Parser × List ServerSentEvent) (r : Parser × List ServerSentEvent)
    → then_run g (then_run f r) ≡ then_run (λ q. then_run g (f q)) r
then_run_then f g r = ap (λ es. ((g (f r.0).0).0, es)) (append_assoc r.1 (f r.0).1 (g (f r.0).0).1)

pub steps-append :
    (s t : Text) (p : Parser) → steps p (s ++ t) ≡ then_run (λ q. steps q t) (steps p s)
unfolding steps
steps-append [] t p = refl
steps-append (c ∷ s) t p =
    ap (λ (f : Parser → Parser × List ServerSentEvent). then_run f (step p c))
      (fun_ext (steps-append s t))
    ∙ sym (then_run_then (λ q. steps q s) (λ q. steps q t) (step p c))

pub index_of-plain : (b : Text) → IsPlain b → (index_of lf b ≡ none) × (index_of cr b ≡ none)
index_of-plain [] h = (refl, refl)
index_of-plain (c ∷ b) h = ground (arith, h.0, index_of-plain b h.1)

pub index_of-cr : (s : Text) → HasNoCr s → index_of cr s ≡ none
index_of-cr [] h = refl
index_of-cr (c ∷ s) h = ground (arith, h.0, index_of-cr s h.1)

pub index_of-lf : (b cs : Text) → IsPlain b → index_of lf (b ++ lf ∷ cs) ≡ some (length b)
index_of-lf [] cs h = refl
index_of-lf (c ∷ b) cs h = ground (arith, h.0, index_of-lf b cs h.1)

pub HasNoCr-append : (b cs : Text) → IsPlain b → HasNoCr cs → HasNoCr (b ++ cs)
HasNoCr-append [] cs h k = k
HasNoCr-append (c ∷ b) cs h k = (ground (arith, h.0), HasNoCr-append b cs h.1 k)

pub drop-front : (s m : Text) → drop (length s) (s ++ m) ≡ m
drop-front [] m = refl
drop-front (c ∷ s) m = drop-front s m

pub drop-behind : (s m : Text) (d : ℕ) → drop (length s + 1) (s ++ d ∷ m) ≡ m
drop-behind s m d = ap (λ n. drop n (s ++ d ∷ m)) (next (length s)) ∙ after s
  where
    next : (n : ℕ) → n + 1 ≡ suc n
    next n = omega arith

    after : (s : Text) → drop (suc (length s)) (s ++ d ∷ m) ≡ m
    after [] = refl
    after (c ∷ s) = after s

pub take-front : (s m : Text) → take (length s) (s ++ m) ≡ s
take-front [] m = refl
take-front (c ∷ s) m = ap (λ r. c ∷ r) (take-front s m)

if_map {ℓ κ} :
    {A : Type ℓ} {B : Type κ} (f : A → B) (c : Bool) (x y : A) (x' y' : B)
    → x' ≡ f x
    → y' ≡ f y
    → (if c then x' else y') ≡ f (if c then x else y)
if_map f true x y x' y' p q = p
if_map f false x y x' y' p q = q

-- What stands in the buffer is only what is not cut yet: no line reads or changes it.
unfoldable pub with_buffer : Text → Parser → Parser
with_buffer b p = record p { buffer = b }

unfoldable pub both : Text → Parser × List ServerSentEvent → Parser × List ServerSentEvent
both b r = (with_buffer b r.0, r.1)

set_field-buffer :
    (p : Parser) (f v b : Text) → set_field (with_buffer b p) f v ≡ with_buffer b (set_field p f v)
unfolding with_buffer
set_field-buffer p f v b =
    if_map (with_buffer b) (texts_eq f (codes "event")) (record p { event = some v }) _ _ _ refl
      (if_map (with_buffer b) (texts_eq f (codes "data"))
        (record p { data_lines = p.data_lines ++ v ∷ [] }) _ _ _ refl
        (if_map (with_buffer b) (texts_eq f (codes "id")) (record p { id = some v }) p _ _ refl
          refl))

split_field-buffer :
    (p : Parser) (l b : Text) (o : Option ℕ)
    → split_field (with_buffer b p) l o ≡ with_buffer b (split_field p l o)
split_field-buffer p l b none = set_field-buffer p l [] b
split_field-buffer p l b (some i) = set_field-buffer p (take i l) (without_space (drop (suc i) l)) b

pub on_line-buffer : (p : Parser) (l b : Text) → on_line (with_buffer b p) l ≡ both b (on_line p l)
unfolding on_line dispatch with_buffer both
on_line-buffer p [] b =
    if_map (both b) (nat_eq (length p.data_lines) 0 && not (is_some p.event)) (p, [])
      (
        record p { event = none; data_lines = [] },
        record {
          event = get_or p.event (codes "message");
          data_text = join p.data_lines;
          id = p.id;
        }
            ∷ [],
      )
      _ _ refl refl
on_line-buffer p (c ∷ l) b =
    if_map (both b) (nat_eq c b':') (p, []) (split_field p (c ∷ l) (index_of b':' (c ∷ l)), []) _ _
      refl (ap (λ q. (q, [])) (split_field-buffer p (c ∷ l) b (index_of b':' (c ∷ l))))

pub on_line_keeps : (p : Parser) (l : Text) → (on_line p l).0.buffer ≡ p.buffer
unfolding with_buffer both
on_line_keeps p l =
    ap (λ (r : Parser × List ServerSentEvent). r.0.buffer) (on_line-buffer p l p.buffer)
