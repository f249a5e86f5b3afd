-- ===== src/VaultCrypto/RoundTrip.antt =====
-- What was encrypted is decrypted, unless it is empty.
use openclaw_managed_agents.Prelude.{
  ℕ, ◌+◌, ◌-◌, ◌≡◌, refl, ap, ◌∙◌, Bool, true, false, not, ◌&&◌, leb, ◌||◌, some, List, [], ◌∷◌,
  ◌++◌, arith, ltb, nat_eq, if◌then◌else◌, length, length-append,
}
use openclaw_managed_agents.Base64.{Text, drop, base64url_encode}
use openclaw_managed_agents.Base64.Inverse.{
  IsCodec, IsBare, decode-encode, encode-IsBare, take-front,
}
use openclaw_managed_agents.VaultCrypto.{
  Cipher, version, nonce_len, tag_len, split, too_short, plain, encrypt, decrypt_bytes,
  decrypt_parts, decrypt,
}

-- What Node documents of AES-GCM and UTF-8: deciphering with the same key and nonce undoes enciphering, the ciphertext is as long
-- as the plaintext and the tag has sixteen bytes; encoding a well-formed text is undone by decoding, and encoding gives no
-- bytes for no text only.
abbrev is_between : ℕ → ℕ → ℕ → Bool
is_between low high c = leb low c && leb c high

-- `text.isWellFormed()`: the text's UTF-16 code units have no surrogate without its partner. The first argument is
-- whether the low half of a pair must come next.
unfoldable pub is_well_formed_from : Bool → Text → Bool
is_well_formed_from low [] = not low
is_well_formed_from low (c ∷ s) =
    let rest = is_well_formed_from (is_between 0xD800 0xDBFF c) s in
    if low then is_between 0xDC00 0xDFFF c && rest else not (is_between 0xDC00 0xDFFF c) && rest

abbrev pub is_well_formed : Text → Bool
is_well_formed = is_well_formed_from false

pub record IsCipher (node : Cipher) : Type 0 where
  pub codec_is : IsCodec node.codec
  pub unseals : (k n b : List ℕ) → node.unseal k n (node.seal k n b).0 (node.seal k n b).1 ≡ some b
  pub as_long : (k n b : List ℕ) → length (node.seal k n b).0 ≡ length b
  pub tagged : (k n b : List ℕ) → length (node.seal k n b).1 ≡ tag_len
  pub decodes : (t : Text) → is_well_formed t ≡ true → node.from_utf8 (node.utf8 t) ≡ t
  pub empty_only : (t : Text) → nat_eq (length (node.utf8 t)) 0 ≡ nat_eq (length t) 0

split-bare : (s : Text) → IsBare s → split s ≡ s ∷ []
unfolding split
split-bare [] h = refl
split-bare (c ∷ s) h = rw (split-bare s h.1, no_colon c h.0) refl
  where
    no_colon : (c : ℕ) → nat_eq c b'.' || nat_eq c b':' ≡ false → nat_eq c b':' ≡ false
    no_colon c h = ground arith

split-colon : (s m : Text) → IsBare s → split (s ++ b':' ∷ m) ≡ s ∷ split m
unfolding split
split-colon [] m h = refl
split-colon (c ∷ s) m h = rw (split-colon s m h.1, no_colon c h.0) refl
  where
    no_colon : (c : ℕ) → nat_eq c b'.' || nat_eq c b':' ≡ false → nat_eq c b':' ≡ false
    no_colon c h = ground arith

ciphertext_length : (c t : List ℕ) → length t ≡ tag_len → length (c ++ t) - tag_len ≡ length c
ciphertext_length c t h = omega (arith, length-append c t, h)

drop-all : (s m : Text) → drop (length s) (s ++ m) ≡ m
drop-all [] m = refl
drop-all (c ∷ s) m = drop-all s m

-- No more than the tag is there only for no bytes.
short_only :
    (c t b : List ℕ)
    → length t ≡ tag_len
    → length c ≡ length b
    → ltb (length (c ++ t)) (tag_len + 1) ≡ nat_eq (length b) 0
short_only c t b h k = ground (arith, length-append c t, h, k)

module _ (node : Cipher) (laws : IsCipher node) where
  split-encrypt :
      (n e : List ℕ)
      → split (
          version ++ b':' ∷ (base64url_encode node.codec n ++ b':' ∷ base64url_encode node.codec e))
        ≡ version ∷ base64url_encode node.codec n ∷ base64url_encode node.codec e ∷ []
  split-encrypt n e =
      let n' = base64url_encode node.codec n in
      let e' = base64url_encode node.codec e in
      split-colon version (n' ++ b':' ∷ e') (refl, (refl, tt))
      ∙ ap (λ ps. version ∷ ps)
          (split-colon n' e' (encode-IsBare node.codec laws.codec_is n)
            ∙ ap (λ ps. n' ∷ ps) (split-bare e' (encode-IsBare node.codec laws.codec_is e)))

  open_sealed :
      (key nonce : List ℕ) (plaintext : Text) (c t : List ℕ)
      → length nonce ≡ nonce_len
      → is_well_formed plaintext ≡ true
      → node.unseal key nonce c t ≡ some (node.utf8 plaintext)
      → length c ≡ length (node.utf8 plaintext)
      → length t ≡ tag_len
      → decrypt_bytes node key nonce (c ++ t)
        ≡ (if nat_eq (length plaintext) 0 then too_short else plain plaintext)
  open_sealed key nonce plaintext c t h w u l g =
      rw
        (
          h,
          short_only c t (node.utf8 plaintext) g l,
          laws.empty_only plaintext,
          ciphertext_length c t g,
          take-front c t,
          drop-all c t,
          u,
          laws.decodes plaintext w,
        )
        refl

  -- Decrypted with its key, an encrypted text without lone surrogates is given back; an empty text is refused as too short for its tag.
  pub decrypt-encrypt :
      (key nonce : List ℕ) (plaintext : Text)
      → length nonce ≡ nonce_len
      → is_well_formed plaintext ≡ true
      → decrypt node key (encrypt node key nonce plaintext)
        ≡ (if nat_eq (length plaintext) 0 then too_short else plain plaintext)
  unfolding decrypt encrypt
  decrypt-encrypt key nonce plaintext h w =
      let b = node.utf8 plaintext in
      let sealed = node.seal key nonce b in
      ap (decrypt_parts node key) (split-encrypt nonce (sealed.0 ++ sealed.1))
      ∙ rw
          (
            decode-encode node.codec laws.codec_is nonce,
            decode-encode node.codec laws.codec_is (sealed.0 ++ sealed.1),
          )
          (open_sealed key nonce plaintext sealed.0 sealed.1 h w (laws.unseals key nonce b)
            (laws.as_long key nonce b) (laws.tagged key nonce b))
