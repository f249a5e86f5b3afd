-- ===== src/VaultCrypto.antt =====
-- src/crypto/vault-crypto.ts: the envelope in which a credential is stored. Node's AES-256-GCM, its base64 and its UTF-8 are
-- arguments, and so is the random nonce.
pub mod RoundTrip
use openclaw_managed_agents.Prelude.{
  ℕ, ◌+◌, ◌-◌, Bool, not, Option, none, some, List, [], ◌∷◌, ◌++◌, ltb, nat_eq, if◌then◌else◌,
  length, take,
}
use openclaw_managed_agents.Base64.{Text, Codec, drop, texts_eq, base64url_encode, base64url_decode}

pub record Cipher : Type 0 where
  pub codec : Codec
  -- The key, the nonce and the bytes; the ciphertext and its tag.
  pub seal : List ℕ → List ℕ → List ℕ → List ℕ × List ℕ
  pub unseal : List ℕ → List ℕ → List ℕ → List ℕ → Option (List ℕ)
  pub utf8 : Text → List ℕ
  pub from_utf8 : List ℕ → Text

abbrev pub version : Text
version = b'v' ∷ b'1' ∷ []

abbrev pub key_len : ℕ
key_len = 32

abbrev pub nonce_len : ℕ
nonce_len = 12

abbrev pub tag_len : ℕ
tag_len = 16

unfoldable pub constructor : List ℕ → Option (List ℕ)
constructor key = if nat_eq (length key) key_len then some key else none

-- `text.split(":")`.
abbrev pub cons_head : ℕ → List Text → List Text
cons_head c [] = (c ∷ []) ∷ []
cons_head c (p ∷ ps) = (c ∷ p) ∷ ps

unfoldable pub split : Text → List Text
split [] = [] ∷ []
split (c ∷ s) = let parts = split s in if nat_eq c b':' then [] ∷ parts else cons_head c parts

-- What `decrypt` gives, or the error that it throws.
pub data Decrypted : Type 0 where
  unrecognized bad_nonce too_short refused : Decrypted
  plain : Text → Decrypted

module _ (node : Cipher) where
  unfoldable pub encrypt : List ℕ → List ℕ → Text → Text
  encrypt key nonce plaintext =
      let sealed = node.seal key nonce (node.utf8 plaintext) in
      version
      ++ b':'
        ∷ (base64url_encode node.codec nonce
            ++ b':' ∷ base64url_encode node.codec (sealed.0 ++ sealed.1))

  abbrev pub opened : Option (List ℕ) → Decrypted
  opened none = refused
  opened (some dec) = plain (node.from_utf8 dec)

  abbrev pub decrypt_bytes : List ℕ → List ℕ → List ℕ → Decrypted
  decrypt_bytes key nonce enc =
      if not (nat_eq (length nonce) nonce_len)
      then bad_nonce
      else if ltb (length enc) (tag_len + 1)
      then too_short
      else opened (
          node.unseal key nonce (take (length enc - tag_len) enc) (drop (length enc - tag_len) enc))

  abbrev pub decrypt_parts : List ℕ → List Text → Decrypted
  decrypt_parts key (v ∷ nonce ∷ enc ∷ []) =
      if texts_eq v version
      then decrypt_bytes key (base64url_decode node.codec nonce) (base64url_decode node.codec enc)
      else unrecognized
  decrypt_parts key [] = unrecognized
  decrypt_parts key (v ∷ []) = unrecognized
  decrypt_parts key (v ∷ nonce ∷ []) = unrecognized
  decrypt_parts key (v ∷ nonce ∷ enc ∷ more ∷ rest) = unrecognized

  unfoldable pub decrypt : List ℕ → Text → Decrypted
  decrypt key ciphertext = decrypt_parts key (split ciphertext)

-- `value.startsWith("v1:")`.
unfoldable pub is_ciphertext : Text → Bool
is_ciphertext value = texts_eq (take 3 value) (version ++ b':' ∷ [])
