-- ===== src/Tests/Tokens.antt =====
-- The signed tokens and the envelopes of credentials at concrete calls, with a base64, a JSON, an HMAC and a cipher that are
-- simple enough to compute.
use openclaw_managed_agents.Prelude.{
  ℕ, zero, suc, ◌+◌, ◌%◌, ◌<◌, ◌≡◌, refl, sym, ap, ◌∙◌, true, Option, none, some, List, [], ◌∷◌,
  ◌++◌, arith, nat_eq, if◌then◌else◌, length, take, All,
}
use mathlib.Core.List.{append-nil}
use openclaw_managed_agents.Base64.{Text, Codec, drop, texts_eq}
use openclaw_managed_agents.Base64.Inverse.{IsCodec, is_digit}
use openclaw_managed_agents.ParentToken.{
  ParentTokenPayload, MintInput, Json, value, valid, Node, payload_of, mint, verify,
}
use openclaw_managed_agents.ParentToken.Signed.{
  IsNode, IsGenuine, json_of, verify-mint, verify_valid,
}
use openclaw_managed_agents.VaultCrypto.{Cipher, plain, encrypt, decrypt}
use openclaw_managed_agents.VaultCrypto.RoundTrip.{is_well_formed_from, IsCipher, decrypt-encrypt}

-- A number in fours of A, ended by four B.
four : ℕ → Text → Text
four d t = d ∷ d ∷ d ∷ d ∷ t

unit : ℕ → Text → Text
unit zero t = four b'B' t
unit (suc n) t = four b'A' (unit n t)

unfoldable pub encode : List ℕ → Text
unfolding unit four
encode [] = []
encode (n ∷ b) = unit n (encode b)

unfoldable pub decode_from : ℕ → Text → List ℕ
decode_from n (a ∷ b ∷ c ∷ d ∷ s) =
    let more = decode_from (suc n) s in
    let next = decode_from 0 s in if nat_eq a b'A' then more else n ∷ next
decode_from n (a ∷ b ∷ c ∷ []) = []
decode_from n (a ∷ b ∷ []) = []
decode_from n (a ∷ []) = []
decode_from n [] = []

decode-unit : (n k : ℕ) (t : Text) → decode_from k (unit n t) ≡ (k + n) ∷ decode_from 0 t
unfolding unit four decode_from
decode-unit zero k t = ap (λ i. i ∷ decode_from 0 t) (omega arith)
decode-unit (suc n) k t = decode-unit n (suc k) t ∙ ap (λ i. i ∷ decode_from 0 t) (omega arith)

decode-encode_all : (b : List ℕ) → decode_from 0 (encode b) ≡ b
unfolding encode decode_from
decode-encode_all [] = refl
decode-encode_all (n ∷ b) =
    decode-unit n 0 (encode b) ∙ rw (decode-encode_all b) (ap (λ i. i ∷ b) (omega arith))

unit-whole : (n : ℕ) (t : Text) → length t % 4 ≡ 0 → length (unit n t) % 4 ≡ 0
unfolding unit four
unit-whole zero t h = omega (arith, h)
unit-whole (suc n) t h = omega (arith, unit-whole n t h)

encode-whole : (b : List ℕ) → length (encode b) % 4 ≡ 0
unfolding encode
encode-whole [] = refl
encode-whole (n ∷ b) = unit-whole n (encode b) (encode-whole b)

unit-digits :
    (n : ℕ) (t : Text) → All (λ c. is_digit c ≡ true) t → All (λ c. is_digit c ≡ true) (unit n t)
unfolding unit four
unit-digits zero t h = (refl, (refl, (refl, (refl, h))))
unit-digits (suc n) t h = (refl, (refl, (refl, (refl, unit-digits n t h))))

encode-digits : (b : List ℕ) → All (λ c. is_digit c ≡ true) (encode b)
unfolding encode
encode-digits [] = tt
encode-digits (n ∷ b) = unit-digits n (encode b) (encode-digits b)

-- A text after its length.
abbrev pack : Text → List ℕ → List ℕ
pack s r = length s ∷ s ++ r

abbrev pack_all : List Text → List ℕ
pack_all [] = []
pack_all (s ∷ ss) = pack s (pack_all ss)

unfoldable pub stringify : ParentTokenPayload → List ℕ
stringify p =
    p.remaining_depth
    ∷ p.expires_at
    ∷ length p.allowlist
    ∷ pack p.parent_session_id (pack p.parent_agent_id (pack_all p.allowlist))

abbrev unpack : List ℕ → Text × List ℕ
unpack [] = ([], [])
unpack (n ∷ r) = (take n r, drop n r)

abbrev unpack_all : ℕ → List ℕ → List Text
unpack_all zero r = []
unpack_all (suc n) r = let u = unpack r in u.0 ∷ unpack_all n u.1

unfoldable pub parse : List ℕ → Option Json
parse (d ∷ e ∷ n ∷ r) =
    let s = unpack r in
    let a = unpack s.1 in
    some (value (some s.0) (some a.0) (some (unpack_all n a.1)) (some d) (some e))
parse (d ∷ e ∷ []) = none
parse (d ∷ []) = none
parse [] = none

take-front : (s r : Text) → take (length s) (s ++ r) ≡ s
take-front [] r = refl
take-front (c ∷ s) r = ap (λ t. c ∷ t) (take-front s r)

drop-front : (s r : Text) → drop (length s) (s ++ r) ≡ r
drop-front [] r = refl
drop-front (c ∷ s) r = drop-front s r

unpack_all-pack_all : (ss : List Text) → unpack_all (length ss) (pack_all ss) ≡ ss
unpack_all-pack_all [] = refl
unpack_all-pack_all (s ∷ ss) =
    rw (take-front s (pack_all ss), drop-front s (pack_all ss), unpack_all-pack_all ss) refl

parse-stringify : (p : ParentTokenPayload) → parse (stringify p) ≡ some (json_of p)
unfolding parse stringify
parse-stringify p =
    rw
      (
        take-front p.parent_session_id (pack p.parent_agent_id (pack_all p.allowlist)),
        drop-front p.parent_session_id (pack p.parent_agent_id (pack_all p.allowlist)),
        take-front p.parent_agent_id (pack_all p.allowlist),
        drop-front p.parent_agent_id (pack_all p.allowlist),
        unpack_all-pack_all p.allowlist,
      )
      refl

abbrev pub codec : Codec
codec = record { base64 = encode; from_base64 = decode_from 0 }

codec-IsCodec : IsCodec codec
unfolding decode_from
codec-IsCodec = record {
  decode = decode-encode_all;
  nothing = refl;
  body = encode;
  pads = λ b. 0;
  shape = λ b. sym (append-nil (encode b));
  few = λ b. omega arith;
  whole = λ b. omega (arith, encode-whole b);
  digits = encode-digits;
}

abbrev pub node : Node
node = record {
  hmac = λ s t. (length s + length t) ∷ [];
  codec = codec;
  stringify = stringify;
  parse = parse;
}

pub node-IsNode : IsNode node
unfolding stringify
node-IsNode = record {
  codec_is = codec-IsCodec;
  parses = parse-stringify;
  written = λ p e. ground arith;
  digested = λ s t e. ground arith;
}

abbrev pub secret : List ℕ
secret = 1 ∷ 2 ∷ 3 ∷ []

abbrev input : MintInput
input = record {
  parent_session_id = 1 ∷ [];
  parent_agent_id = 2 ∷ [];
  allowlist = (2 ∷ []) ∷ [];
  remaining_depth = 3;
  ttl_ms = some 4;
}

verify-mint_example :
    verify node secret (mint node secret input 1) 2 ≡ valid (payload_of node input 1)
verify-mint_example = verify-mint node node-IsNode secret input 1 2

verify_valid_example :
    IsGenuine node secret (mint node secret input 1) (payload_of node input 1) × 2 < 5
verify_valid_example =
    verify_valid node secret (mint node secret input 1) 2 (payload_of node input 1)
      verify-mint_example

abbrev tag : List ℕ
tag = 7 ∷ 7 ∷ 7 ∷ 7 ∷ 7 ∷ 7 ∷ 7 ∷ 7 ∷ 7 ∷ 7 ∷ 7 ∷ 7 ∷ 7 ∷ 7 ∷ 7 ∷ 7 ∷ []

abbrev cipher : Cipher
cipher = record {
  codec = codec;
  seal = λ k n b. (b, tag);
  unseal = λ k n c t. if texts_eq t tag then some c else none;
  utf8 = λ t. t;
  from_utf8 = λ b. b;
}

cipher-IsCipher : IsCipher cipher
cipher-IsCipher = record {
  codec_is = codec-IsCodec;
  unseals = λ k n b. refl;
  as_long = λ k n b. refl;
  tagged = λ k n b. refl;
  decodes = λ t w. refl;
  empty_only = λ t. refl;
}

abbrev nonce : List ℕ
nonce = 1 ∷ 2 ∷ 3 ∷ 4 ∷ 5 ∷ 6 ∷ 7 ∷ 8 ∷ 9 ∷ 10 ∷ 11 ∷ 12 ∷ []

decrypt-encrypt_example :
    decrypt cipher secret (encrypt cipher secret nonce (5 ∷ 6 ∷ [])) ≡ plain (5 ∷ 6 ∷ [])
unfolding is_well_formed_from
decrypt-encrypt_example = decrypt-encrypt cipher cipher-IsCipher secret nonce (5 ∷ 6 ∷ []) refl refl
