-- ===== src/Http/Bearer.antt =====
-- The bearer token that is read, against the one that was sent.
use openclaw_managed_agents.Prelude.{
  String, ◌≡◌, refl, sym, ap, ◌∙◌, inl, inr, true, false, some, Bool-cases,
}
use openclaw_managed_agents.Http.{
  strip, bearer, bearer_token, trim, trim_start, trim_end, is_empty, is_space,
}

empty_eq : (s : String) → is_empty s ≡ true → s ≡ ""
empty_eq String.[] h = refl
empty_eq (String.◌∷◌ c s) h = cc

not-empty-trim_start :
    (t : String) → trim t ≡ t → is_empty t ≡ false → is_empty (trim_start t) ≡ false
unfolding trim trim_end
not-empty-trim_start t h n = elim (Bool-cases (is_empty (trim_start t))) [
  | inl y ↦ absurd (absurd_empty (empty_eq (trim_start t) y))
  | inr m ↦ m
]
  where
    absurd_empty : trim_start t ≡ "" → ⊥
    absurd_empty e = cc (ap is_empty (sym h ∙ ap trim_end e), n)

-- Whatever the case of the scheme, a token without white space at its ends comes out as it was sent.
pub bearer_token_lem :
    (header token : String)
    → strip bearer header ≡ some (String.◌∷◌ " " token)
    → trim token ≡ token
    → is_empty token ≡ false
    → bearer_token header ≡ some token
unfolding bearer_token is_space
bearer_token_lem header token s h n = rw s (rw (not-empty-trim_start token h n) (ap some h))
