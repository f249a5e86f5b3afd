-- ===== src/Pricing/Tier.antt =====
-- Which tier's price is taken.
use openclaw_managed_agents.Prelude.{
  ℕ, String, ◌≡◌, refl, sym, ◌⊎◌, inl, inr, Bool, true, false, not, ◌&&◌, ◌||◌, Option, none, some,
  List, [], ◌∷◌, arith, leb, if-cases, All,
}
use mathlib.Core.List.{Mem, mem-cons_self, mem-cons_of_mem}
use mathlib.Core.List.Perm
use mathlib.Core.Path.{subst}
use openclaw_managed_agents.Prelude.Sort.{insert, sort, sort-perm, sort-IsSorted, IsSorted}
use openclaw_managed_agents.JsMap.{JsMap}
use openclaw_managed_agents.Pricing.{
  ZenMuxPricingEntry, pricing_threshold_tokens, matching_usd_entries, is_before, choose,
  choose_first, pick_entry,
}

module _ {V : Type 0} where
  module _ (tokens : ℕ) where
    abbrev is_below : ZenMuxPricingEntry V → ZenMuxPricingEntry V → Bool
    is_below r e =
        not (leb (pricing_threshold_tokens e) tokens)
        || leb (pricing_threshold_tokens e) (pricing_threshold_tokens r)

    abbrev is_above : ZenMuxPricingEntry V → ZenMuxPricingEntry V → Bool
    is_above r e =
        not (leb (pricing_threshold_tokens e) tokens)
        && leb (pricing_threshold_tokens r) (pricing_threshold_tokens e)

    -- The highest threshold that the tokens reach; or the lowest where they reach none.
    abbrev pub IsTier : List (ZenMuxPricingEntry V) → Option (ZenMuxPricingEntry V) → Type 0
    IsTier es none = es ≡ []
    IsTier es (some r) =
        Mem r es
        × (((leb (pricing_threshold_tokens r) tokens ≡ true) × All (λ e. is_below r e ≡ true) es)
            ⊎ All (λ e. is_above r e ≡ true) es)

    above-All :
        (c e : ZenMuxPricingEntry V) (es : List (ZenMuxPricingEntry V))
        → IsSorted is_before (e ∷ es)
        → leb (pricing_threshold_tokens e) tokens ≡ false
        → is_before c e ≡ true
        → All (λ d. is_above c d ≡ true) (e ∷ es)
    above-All c e [] s n b = (ground arith, tt)
    above-All c e (d ∷ ds) s n b =
        (ground arith, above-All c d ds s.1 (ground (arith, s.0)) (ground (arith, s.0)))

    choose-All_above :
        (r c : ZenMuxPricingEntry V) (es : List (ZenMuxPricingEntry V))
        → All (λ d. is_above r d ≡ true) es
        → choose tokens c es ≡ c
    unfolding choose
    choose-All_above r c [] h = refl
    choose-All_above r c (e ∷ es) h = rw (the_test e h.0) (choose-All_above r c es h.1)
      where
        the_test :
            (e : ZenMuxPricingEntry V)
            → is_above r e ≡ true
            → leb (pricing_threshold_tokens e) tokens ≡ false
        the_test e h = ground arith

    below_of-above :
        (r c : ZenMuxPricingEntry V) (es : List (ZenMuxPricingEntry V))
        → All (λ d. is_above c d ≡ true) es
        → All (λ d. is_below r d ≡ true) es
    below_of-above r c [] h = tt
    below_of-above r c (e ∷ es) h = (ground (arith, h.0), below_of-above r c es h.1)

    abbrev IsReached : List (ZenMuxPricingEntry V) → ZenMuxPricingEntry V → Type 0
    IsReached es r =
        Mem r es
        × ((leb (pricing_threshold_tokens r) tokens ≡ true) × All (λ e. is_below r e ≡ true) es)

    below_self : (c : ZenMuxPricingEntry V) → is_below c c ≡ true
    below_self c = ground arith

    below_before :
        (c e r : ZenMuxPricingEntry V)
        → leb (pricing_threshold_tokens e) tokens ≡ true
        → is_before c e ≡ true
        → is_below r e ≡ true
        → is_below r c ≡ true
    below_before c e r y b h = ground arith

    -- The rest of the loop, from an entry that the tokens reach.
    choose-IsReached :
        (c : ZenMuxPricingEntry V) (es : List (ZenMuxPricingEntry V))
        → IsSorted is_before (c ∷ es)
        → leb (pricing_threshold_tokens c) tokens ≡ true
        → IsReached (c ∷ es) (choose tokens c es)
    unfolding choose
    choose-IsReached c [] s h = (mem-cons_self, (h, (below_self c, tt)))
    choose-IsReached c (e ∷ es) s h =
        if-cases (λ x. IsReached (c ∷ e ∷ es) (choose tokens x es))
          (leb (pricing_threshold_tokens e) tokens) e c
          (λ y.
            let r = choose-IsReached e es s.1 y in
            (
              mem-cons_of_mem c r.0,
              (r.1.0, (below_before c e (choose tokens e es) y s.0 r.1.1.0, r.1.1)),
            ))
          (λ n.
            let above = above-All c e es s.1 n s.0 in
            subst (IsReached (c ∷ e ∷ es)) (sym (choose-All_above c c es above.1))
              (mem-cons_self, (h, (below_self c, below_of-above c c (e ∷ es) above))))

    choose_first-IsTier :
        (es : List (ZenMuxPricingEntry V))
        → IsSorted is_before es
        → IsTier es (choose_first tokens es)
    unfolding choose
    choose_first-IsTier [] s = refl
    choose_first-IsTier (e ∷ es) s =
        if-cases (λ x. IsTier (e ∷ es) (some (choose tokens x es)))
          (leb (pricing_threshold_tokens e) tokens) e e
          (λ y. let r = choose-IsReached e es s y in (r.0, inl r.1))
          (λ n.
            let above = above-All e e es s n (self e) in
            subst (λ r. IsTier (e ∷ es) (some r)) (sym (choose-All_above e e es above.1))
              (mem-cons_self, inr above))
      where
        self : (c : ZenMuxPricingEntry V) → is_before c c ≡ true
        self c = ground arith

  All-of_insert :
      (P : ZenMuxPricingEntry V → Type 0) (a : ZenMuxPricingEntry V)
      (xs : List (ZenMuxPricingEntry V))
      → All P (insert is_before a xs)
      → All P (a ∷ xs)
  All-of_insert P a [] h = h
  All-of_insert P a (x ∷ xs) h =
      if-cases (λ l. All P l → All P (a ∷ x ∷ xs)) (is_before a x) (a ∷ x ∷ xs)
        (x ∷ insert is_before a xs) (λ y k. k)
        (λ n k. let r = All-of_insert P a xs k.1 in (r.0, (k.0, r.1))) h

  All-of_sort :
      (P : ZenMuxPricingEntry V → Type 0) (xs : List (ZenMuxPricingEntry V))
      → All P (sort is_before xs)
      → All P xs
  All-of_sort P [] h = tt
  All-of_sort P (x ∷ xs) h =
      let r = All-of_insert P x (sort is_before xs) h in (r.0, All-of_sort P xs r.1)

  sort-nil : (xs : List (ZenMuxPricingEntry V)) → sort is_before xs ≡ [] → xs ≡ []
  sort-nil [] e = refl
  sort-nil (x ∷ xs) e = absurd (All-of_sort (λ d. ⊥) (x ∷ xs) (subst (All (λ d. ⊥)) (sym e) tt)).0

  IsTier-of_sort :
      (tokens : ℕ) (xs : List (ZenMuxPricingEntry V)) (o : Option (ZenMuxPricingEntry V))
      → IsTier tokens (sort is_before xs) o
      → IsTier tokens xs o
  IsTier-of_sort tokens xs none h = sort-nil xs h
  IsTier-of_sort tokens xs (some r) (m, inl h) = (
    (Perm.mem_iff (sort-perm is_before xs)).0 m,
    inl (h.0, All-of_sort (λ e. is_below tokens r e ≡ true) xs h.1),
  )
  IsTier-of_sort tokens xs (some r) (m, inr h) = (
    (Perm.mem_iff (sort-perm is_before xs)).0 m,
    inr (All-of_sort (λ e. is_above tokens r e ≡ true) xs h),
  )

  -- The price of a million tokens is that of a US-dollar entry whose threshold is the highest that the tokens reach, or the
  -- lowest if they reach none; there is none only where the catalog has no such entry.
  pub pick_entry-IsTier :
      (pricings : JsMap (List (ZenMuxPricingEntry V))) (key : String) (tokens : ℕ)
      → IsTier tokens
          (matching_usd_entries pricings key "perMTokens")
          (pick_entry pricings key tokens)
  unfolding pick_entry
  pick_entry-IsTier pricings key tokens =
      let es = matching_usd_entries pricings key "perMTokens" in
      IsTier-of_sort tokens es (choose_first tokens (sort is_before es)) (
        choose_first-IsTier tokens (sort is_before es)
          (sort-IsSorted is_before (λ a b h. ground arith) es))
