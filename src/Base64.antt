-- ===== src/Base64.antt =====
-- The base64url that src/runtime/parent-token.ts and src/crypto/vault-crypto.ts each write out, over Node's base64, and the
-- text operations that they share. Text is the list of its characters' codes and a `Buffer` is the list of its bytes.
pub mod Inverse
use openclaw_managed_agents.Prelude.{
  ℕ, zero, suc, ◌-◌, ◌%◌, Bool, true, false, ◌&&◌, Option, none, some, List, [], ◌∷◌, ◌++◌, map,
  nat_eq, if◌then◌else◌, length,
}

abbrev pub Text : Type 0
Text = List ℕ

pub record Codec : Type 0 where
  pub base64 : List ℕ → Text
  pub from_base64 : Text → List ℕ

abbrev pub replace : ℕ → ℕ → Text → Text
replace a b = map (λ c. if nat_eq c a then b else c)

-- `.replace(/=+$/, "")`.
abbrev pub cons_kept : ℕ → Text → Text
cons_kept c [] = if nat_eq c b'=' then [] else c ∷ []
cons_kept c (d ∷ s) = c ∷ d ∷ s

abbrev pub strip_padding : Text → Text
strip_padding [] = []
strip_padding (c ∷ s) = cons_kept c (strip_padding s)

abbrev pub repeat : ℕ → Text
repeat zero = []
repeat (suc n) = b'=' ∷ repeat n

abbrev pub index_of : ℕ → Text → Option ℕ
index_of k [] = none
index_of k (c ∷ s) =
    let rest = index_of k s in
    if nat_eq c k then some 0 else elim rest [ none ↦ none | some i ↦ some (suc i) ]

abbrev pub drop : ℕ → Text → Text
drop zero s = s
drop (suc n) [] = []
drop (suc n) (c ∷ s) = drop n s

abbrev pub texts_eq : Text → Text → Bool
texts_eq [] [] = true
texts_eq [] (d ∷ t) = false
texts_eq (c ∷ s) [] = false
texts_eq (c ∷ s) (d ∷ t) = nat_eq c d && texts_eq s t

module _ (codec : Codec) where
  unfoldable pub base64url_encode : List ℕ → Text
  base64url_encode buf = strip_padding (replace b'/' b'_' (replace b'+' b'-' (codec.base64 buf)))

  abbrev pub pad_len : Text → ℕ
  pad_len str = (4 - length str % 4) % 4

  unfoldable pub base64url_decode : Text → List ℕ
  base64url_decode str =
      codec.from_base64 (replace b'_' b'/' (replace b'-' b'+' str) ++ repeat (pad_len str))
