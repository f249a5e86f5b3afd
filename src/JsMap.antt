-- ===== src/JsMap.antt =====
-- JavaScript's `Map` with string keys, as the entries in insertion order: a `set` of a key that is
-- there keeps its place, and one of a new key goes to the end.
pub mod Entries
pub mod Distinct
use openclaw_managed_agents.Prelude.{
  String, ◌≡◌, Option, none, some, List, [], ◌∷◌, map, arith, eq_iff, str_eq, is_some,
  if◌then◌else◌, Bool, refl,
}

abbrev pub JsMap {ℓ} : Type ℓ → Type ℓ
JsMap V = List (String × V)

module _ {ℓ} {V : Type ℓ} where
  abbrev pub empty : JsMap V
  empty = []

  unfoldable pub get : JsMap V → String → Option V
  get [] k = none
  get ((j, v) ∷ m) k = if str_eq j k then some v else get m k

  unfoldable pub set : JsMap V → String → V → JsMap V
  set [] k v = (k, v) ∷ []
  set ((j, w) ∷ m) k v = let rest = set m k v in if str_eq j k then (j, v) ∷ m else (j, w) ∷ rest

  unfoldable pub delete : JsMap V → String → JsMap V
  delete [] k = []
  delete ((j, w) ∷ m) k = let rest = delete m k in if str_eq j k then rest else (j, w) ∷ rest

  abbrev pub has : JsMap V → String → Bool
  has m k = is_some (get m k)

  abbrev pub values : JsMap V → List V
  values = map (λ e. e.1)

  abbrev pub keys : JsMap V → List String
  keys = map (λ e. e.0)

  pub get-set :
      (m : JsMap V) (k j : String) (v : V)
      → get (set m k v) j ≡ (if str_eq k j then some v else get m j)
  unfolding get set
  get-set [] k j v = refl
  get-set ((i, w) ∷ m) k j v = ground (arith, eq_iff k j, eq_iff i k, eq_iff i j, get-set m k j v)

  pub get-delete :
      (m : JsMap V) (k j : String) → get (delete m k) j ≡ (if str_eq k j then none else get m j)
  unfolding get delete
  get-delete [] k j = ground arith
  get-delete ((i, w) ∷ m) k j = ground (arith, eq_iff k j, eq_iff i k, eq_iff i j, get-delete m k j)

pub ruleset map_laws = (get-set, get-delete)
