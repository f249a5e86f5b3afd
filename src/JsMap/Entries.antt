-- ===== src/JsMap/Entries.antt =====
-- What holds of every value of a `Map` through its operations.
use openclaw_managed_agents.Prelude.{String, ◌≡◌, some, [], ◌∷◌, arith, All}
use openclaw_managed_agents.JsMap.{JsMap, get, set, delete, values}

module _ {ℓ κ} {V : Type ℓ} (P : V → Type κ) where
  pub All-set :
      (m : JsMap V) (k : String) (v : V) → All P (values m) → P v → All P (values (set m k v))
  unfolding set
  All-set [] k v h p = (p, tt)
  All-set ((j, w) ∷ m) k v h p = ground (arith, All-set m k v h.1 p, h.0)

  pub All-delete : (m : JsMap V) (k : String) → All P (values m) → All P (values (delete m k))
  unfolding delete
  All-delete [] k h = h
  All-delete ((j, w) ∷ m) k h = ground (arith, All-delete m k h.1, h.0)

  pub All-get : (m : JsMap V) (k : String) (v : V) → All P (values m) → get m k ≡ some v → P v
  unfolding get
  All-get [] k v h e = ground arith
  All-get ((j, w) ∷ m) k v h e = ground (arith, All-get m k v h.1, h.0)
