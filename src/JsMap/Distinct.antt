-- ===== src/JsMap/Distinct.antt =====
-- Maps whose keys are distinct, as those of every `Map` are, and the loop that deletes the entries
-- that fail a test while it walks the map.
use openclaw_managed_agents.Prelude.{
  String, ◌≡◌, refl, inl, inr, Bool, false, Option, none, some, [], ◌∷◌, arith, eq_iff, str_eq,
  if◌then◌else◌, Bool-cases, if-cases,
}
use openclaw_managed_agents.JsMap.{JsMap, get, set}

module _ {ℓ} {V : Type ℓ} where
  abbrev pub IsDistinct : JsMap V → Type ℓ
  IsDistinct [] = Unit
  IsDistinct ((k, v) ∷ m) = (get m k ≡ none) × IsDistinct m

  get-set_other :
      (m : JsMap V) (k j : String) (v : V)
      → str_eq k j ≡ false
      → get m j ≡ none
      → get (set m k v) j ≡ none
  unfolding get set
  get-set_other [] k j v n h = ground arith
  get-set_other ((i, w) ∷ m) k j v n h =
      ground (arith, get-set_other m k j v n, eq_iff i k, eq_iff i j, eq_iff k j)

  pub set-IsDistinct : (m : JsMap V) (k : String) (v : V) → IsDistinct m → IsDistinct (set m k v)
  unfolding set get
  set-IsDistinct [] k v h = (refl, tt)
  set-IsDistinct ((i, w) ∷ m) k v h = elim (Bool-cases (str_eq i k)) [
    | inl y ↦ rw y h
    | inr n ↦ rw n (
      get-set_other m k i v (ground (arith, eq_iff i k, eq_iff k i)) h.0,
      set-IsDistinct m k v h.1,
    )
  ]

  -- `for (const [k, v] of m) if (!keep(v)) m.delete(k)`.
  unfoldable pub retain : (V → Bool) → JsMap V → JsMap V
  retain keep [] = []
  retain keep ((k, v) ∷ m) = let rest = retain keep m in if keep v then (k, v) ∷ rest else rest

  abbrev pub kept : (V → Bool) → Option V → Option V
  kept keep none = none
  kept keep (some v) = if keep v then some v else none

  pub get-retain :
      (keep : V → Bool) (m : JsMap V) (k : String)
      → IsDistinct m
      → get (retain keep m) k ≡ kept keep (get m k)
  unfolding retain get
  get-retain keep [] k h = refl
  get-retain keep ((j, v) ∷ m) k h = ground (arith, get-retain keep m k h.1, eq_iff j k)

  get-retain-none :
      (keep : V → Bool) (m : JsMap V) (k : String) → get m k ≡ none → get (retain keep m) k ≡ none
  unfolding retain get
  get-retain-none keep [] k h = refl
  get-retain-none keep ((j, v) ∷ m) k h = ground (arith, get-retain-none keep m k)

  pub retain-IsDistinct :
      (keep : V → Bool) (m : JsMap V) → IsDistinct m → IsDistinct (retain keep m)
  unfolding retain
  retain-IsDistinct keep [] h = tt
  retain-IsDistinct keep ((k, v) ∷ m) h =
      if-cases IsDistinct (keep v) _ _
        (λ _. (get-retain-none keep m k h.0, retain-IsDistinct keep m h.1))
        (λ _. retain-IsDistinct keep m h.1)
