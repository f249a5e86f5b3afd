-- ===== src/Audit/Like.antt =====
-- The pattern matcher of the audit log against a relation on texts.
use mathlib.Core.Path.{subst}
use openclaw_managed_agents.Prelude.{
  Bool, map, some, if◌then◌else◌, ℕ, ◌≡◌, refl, ◌≢◌, ◌↔◌, inl, inr, true, false, List, [], ◌∷◌,
  ◌++◌, arith, nat_eq, nat_eq_iff, Bool-cases, All,
}
use openclaw_managed_agents.Audit.{
  like, is_line_end, Item, any_run, literal, accepts, parse, plain, escape, replace_percent,
}

-- A run of characters that `.*` may take.
abbrev pub IsLine : List ℕ → Type 0
IsLine = All (λ c. is_line_end c ≡ false)

-- The pattern `ps` stands for the text.
pub data Like : List ℕ → List ℕ → Type 0 where
  end : Like [] []
  itself : {ps text : List ℕ} (c : ℕ) → c ≢ b'%' → Like ps text → Like (c ∷ ps) (c ∷ text)
  percent :
      {ps text : List ℕ} (run : List ℕ) → IsLine run → Like ps text → Like (b'%' ∷ ps) (run ++ text)

prepend :
    (c : ℕ) (ps : List ℕ) (text : List ℕ)
    → is_line_end c ≡ false
    → Like (b'%' ∷ ps) text
    → Like (b'%' ∷ ps) (c ∷ text)
prepend c ps text h (percent run l k) = percent (c ∷ run) (h, l) k
prepend c ps text h (itself d n k) = absurd (n refl)

-- The items of a pattern, and their matching read off the pattern.
abbrev item : ℕ → Item
item c = if nat_eq c b'%' then any_run else literal c

unfoldable matches : List ℕ → List ℕ → Bool
matches [] [] = true
matches [] (c ∷ text) = false
matches (p ∷ ps) [] = if nat_eq p b'%' then matches ps [] else false
matches (p ∷ ps) (c ∷ text) =
    let skip = matches ps (c ∷ text) in
    let eat = matches (p ∷ ps) text in
    let here = matches ps text in
    if nat_eq p b'%'
    then (if skip then true else if is_line_end c then false else eat)
    else if nat_eq p c
    then here
    else false

matches_sound : (ps text : List ℕ) → matches ps text ≡ true → Like ps text
unfolding matches
matches_sound [] [] h = end
matches_sound [] (c ∷ text) h = cc
matches_sound (p ∷ ps) [] h = elim (Bool-cases (nat_eq p b'%')) [
  | inl y ↦ rw ((nat_eq_iff p b'%').0 y) (percent [] tt (matches_sound ps [] (ground arith)))
  | inr n ↦ absurd (ground arith)
]
matches_sound (p ∷ ps) (c ∷ text) h = elim (Bool-cases (nat_eq p b'%')) [
  | inl y ↦ elim (Bool-cases (matches ps (c ∷ text))) [
    | inl skip ↦ rw ((nat_eq_iff p b'%').0 y) (percent [] tt (matches_sound ps (c ∷ text) skip))
    | inr eat ↦ rw ((nat_eq_iff p b'%').0 y) (
        prepend c ps text (ground arith) (
          subst (λ q. Like (q ∷ ps) text) ((nat_eq_iff p b'%').0 y)
            (matches_sound (p ∷ ps) text (ground arith))))
  ]
  | inr n ↦
      subst (λ d. Like (p ∷ ps) (d ∷ text)) (ground arith)
        (itself p (ground arith) (matches_sound ps text (ground arith)))
]

matches-percent :
    (ps run text : List ℕ)
    → IsLine run
    → matches ps text ≡ true
    → matches (b'%' ∷ ps) (run ++ text) ≡ true
unfolding matches
matches-percent ps [] [] l h = h
matches-percent ps [] (c ∷ text) l h = rw h
matches-percent ps (c ∷ run) text l h = ground (arith, matches-percent ps run text l.1 h, l.0)

matches_complete : (ps text : List ℕ) → Like ps text → matches ps text ≡ true
unfolding matches
matches_complete _ _ end = refl
matches_complete _ _ (itself {ps} {text} c n k) = ground (arith, matches_complete ps text k)
matches_complete _ _ (percent {ps} {text} run l k) =
    matches-percent ps run text l (matches_complete ps text k)

item-percent : (p : ℕ) → nat_eq p b'%' ≡ true → item p ≡ any_run
item-percent p y = rw y refl

accepts-items : (ps text : List ℕ) → accepts (map item ps) text ≡ matches ps text
unfolding accepts matches
accepts-items [] [] = refl
accepts-items [] (c ∷ text) = refl
accepts-items (p ∷ ps) [] = elim (Bool-cases (nat_eq p b'%')) [
  | inl y ↦ rw y (accepts-items ps [])
  | inr n ↦ rw n refl
]
accepts-items (p ∷ ps) (c ∷ text) = elim (Bool-cases (nat_eq p b'%')) [
  | inl y ↦
      let tail : accepts (any_run ∷ map item ps) text ≡ matches (p ∷ ps) text =
        subst (λ i. accepts (i ∷ map item ps) text ≡ matches (p ∷ ps) text) (item-percent p y)
          (accepts-items (p ∷ ps) text) in
      rw y (rw (accepts-items ps (c ∷ text), tail) refl)
  | inr n ↦ rw n (rw (accepts-items ps text) refl)
]

-- The reader takes the escaping and the replacement back, character by character.
parse-expression :
    (ps : List ℕ) → parse plain (replace_percent (escape ps) ++ b'$' ∷ []) ≡ some (map item ps)
unfolding parse escape replace_percent
parse-expression [] = refl
parse-expression (p ∷ ps) = ground (arith, parse-expression ps)

like-matches : (ps text : List ℕ) → like ps text ≡ matches ps text
unfolding like
like-matches ps text = rw (parse-expression ps) (accepts-items ps text)

-- The expression that the source makes of a pattern accepts a text exactly when the text is the
-- pattern with each `%` replaced by a run of characters without a line end.
pub like_iff : (ps text : List ℕ) → (like ps text ≡ true) ↔ Like ps text
like_iff ps text = rw (like-matches ps text) (matches_sound ps text, matches_complete ps text)
