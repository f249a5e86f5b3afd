-- ===== src/Pool/Victim.antt =====
-- Which container is given up when a slot is needed.
use openclaw_managed_agents.Prelude.{
  ◌<◌, String, ◌≡◌, refl, sym, ◌⊎◌, inl, inr, Bool, true, false, ◌||◌, Option, none, some, List, [],
  ◌∷◌, ◌++◌, arith, ltb, leb, if◌then◌else◌, if-cases, All, All-append,
}
use mathlib.Core.List.{append_assoc, append-nil}
use openclaw_managed_agents.JsMap
use openclaw_managed_agents.Pool.{Pool, ActiveContainer}
use openclaw_managed_agents.Pool.Active.{older, is_skipped, pick_from, pick_capacity_victim}

abbrev pub Among : ActiveContainer → List ActiveContainer → Type 0
Among c [] = ⊥
Among c (x ∷ xs) = (c ≡ x) ⊎ Among c xs

Among-snoc :
    (c e : ActiveContainer) (xs : List ActiveContainer) → Among c xs → Among c (xs ++ e ∷ [])
Among-snoc c e [] h = elim h [ ]
Among-snoc c e (x ∷ xs) (inl p) = inl p
Among-snoc c e (x ∷ xs) (inr h) = inr (Among-snoc c e xs h)

Among-last : (e : ActiveContainer) (xs : List ActiveContainer) → Among e (xs ++ e ∷ [])
Among-last e [] = inl refl
Among-last e (x ∷ xs) = inr (Among-last e xs)

module _ (is_busy : String → Bool) (exclude : String) where
  -- All are passed over; or this one is not, and none that is not was used before it.
  abbrev pub IsVictim : List ActiveContainer → Option ActiveContainer → Type 0
  IsVictim es none = All (λ e. is_skipped is_busy exclude e ≡ true) es
  IsVictim es (some v) =
      Among v es
      × is_skipped is_busy exclude v ≡ false
      × All (λ e. is_skipped is_busy exclude e || leb v.last_used_at e.last_used_at ≡ true) es

  next : Option ActiveContainer → ActiveContainer → Option ActiveContainer
  next o e = if is_skipped is_busy exclude e then o else older o e

  from_none :
      (e : ActiveContainer) (es : List ActiveContainer)
      → All (λ d. is_skipped is_busy exclude d ≡ true) es
      → All (λ d. is_skipped is_busy exclude d || leb e.last_used_at d.last_used_at ≡ true) es
  from_none e [] h = tt
  from_none e (d ∷ ds) h = (rw h.0 refl, from_none e ds h.1)

  from_some :
      (v e : ActiveContainer) (es : List ActiveContainer)
      → e.last_used_at < v.last_used_at
      → All (λ d. is_skipped is_busy exclude d || leb v.last_used_at d.last_used_at ≡ true) es
      → All (λ d. is_skipped is_busy exclude d || leb e.last_used_at d.last_used_at ≡ true) es
  from_some v e [] l h = tt
  from_some v e (d ∷ ds) l h = (over (is_skipped is_busy exclude d) h.0, from_some v e ds l h.1)
    where
      over :
          (b : Bool)
          → b || leb v.last_used_at d.last_used_at ≡ true
          → b || leb e.last_used_at d.last_used_at ≡ true
      over b p = ground arith

  pass :
      (es : List ActiveContainer) (e : ActiveContainer) (o : Option ActiveContainer)
      → IsVictim es o
      → is_skipped is_busy exclude e ≡ true
      → IsVictim (es ++ e ∷ []) o
  pass es e none h s = All-append (λ d. is_skipped is_busy exclude d ≡ true) es (e ∷ []) h (s, tt)
  pass es e (some v) h s = (
    Among-snoc v e es h.0,
    h.1,
    All-append (λ d. is_skipped is_busy exclude d || leb v.last_used_at d.last_used_at ≡ true) es
        (e ∷ []) h.2 (rw s refl, tt),
  )

  take_up :
      (es : List ActiveContainer) (e : ActiveContainer) (o : Option ActiveContainer)
      → IsVictim es o
      → is_skipped is_busy exclude e ≡ false
      → IsVictim (es ++ e ∷ []) (older o e)
  take_up es e none h s = (
    Among-last e es,
    s,
    All-append (λ d. is_skipped is_busy exclude d || leb e.last_used_at d.last_used_at ≡ true) es
        (e ∷ []) (from_none e es h) (own (is_skipped is_busy exclude e), tt),
  )
    where
      own : (b : Bool) → b || leb e.last_used_at e.last_used_at ≡ true
      own b = ground arith
  take_up es e (some v) h s =
      if-cases (IsVictim (es ++ e ∷ [])) (ltb e.last_used_at v.last_used_at) (some e) (some v)
        (λ y. (
          Among-last e es,
          s,
          All-append (λ d. is_skipped is_busy exclude d || leb e.last_used_at d.last_used_at ≡ true)
              es (e ∷ []) (from_some v e es (below y) h.2) (own (is_skipped is_busy exclude e), tt),
        ))
        (λ n. (
          Among-snoc v e es h.0,
          h.1,
          All-append (λ d. is_skipped is_busy exclude d || leb v.last_used_at d.last_used_at ≡ true)
              es (e ∷ []) h.2 (later (is_skipped is_busy exclude e) n, tt),
        ))
    where
      own : (b : Bool) → b || leb e.last_used_at e.last_used_at ≡ true
      own b = ground arith

      below : ltb e.last_used_at v.last_used_at ≡ true → e.last_used_at < v.last_used_at
      below y = ground arith

      later :
          (b : Bool)
          → ltb e.last_used_at v.last_used_at ≡ false
          → b || leb v.last_used_at e.last_used_at ≡ true
      later b n = ground arith

  next-IsVictim :
      (es : List ActiveContainer) (e : ActiveContainer) (o : Option ActiveContainer)
      → IsVictim es o
      → IsVictim (es ++ e ∷ []) (next o e)
  unfolding next
  next-IsVictim es e o h =
      if-cases (IsVictim (es ++ e ∷ [])) (is_skipped is_busy exclude e) o (older o e)
        (pass es e o h) (take_up es e o h)

  pick_from-IsVictim :
      (seen es : List ActiveContainer) (o : Option ActiveContainer)
      → IsVictim seen o
      → IsVictim (seen ++ es) (pick_from is_busy exclude o es)
  unfolding pick_from next
  pick_from-IsVictim seen [] o h = rw (append-nil seen) h
  pick_from-IsVictim seen (e ∷ es) o h =
      rw (sym (append_assoc seen (e ∷ []) es))
        (pick_from-IsVictim (seen ++ e ∷ []) es (next o e) (next-IsVictim seen e o h))

  -- The victim is a container of another session without a run in flight, and none such was used earlier; there is none only
  -- if every other session has a run in flight.
  pub pick_capacity_victim-IsVictim :
      (p : Pool) → IsVictim (JsMap.values p.active) (pick_capacity_victim p is_busy exclude)
  unfolding pick_capacity_victim
  pick_capacity_victim-IsVictim p = pick_from-IsVictim [] (JsMap.values p.active) none tt
