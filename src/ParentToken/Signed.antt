-- ===== src/ParentToken/Signed.antt =====
-- Which tokens `verify` takes: those that `mint` has signed.
use openclaw_managed_agents.Prelude.{
  ℕ, zero, suc, ◌<◌, ◌≡◌, refl, ap, ◌∙◌, ◌≢◌, inl, inr, true, false, ◌||◌, Option, none, some, List,
  [], ◌∷◌, ◌++◌, arith, leb, nat_eq, if◌then◌else◌, Bool-cases, length, take, length-append,
}
use mathlib.Core.Path.{subst}
use openclaw_managed_agents.Base64.{
  Text, index_of, drop, texts_eq, base64url_encode, base64url_decode,
}
use openclaw_managed_agents.Base64.Inverse.{
  IsCodec, decode-encode, encode_not_empty, encode-IsBare, index_of-dot, take-front, drop-front,
  texts_eq_refl, texts_eq_sound,
}
use openclaw_managed_agents.ParentToken.{
  ParentTokenPayload, MintInput, Json, null, value, invalid, valid, Node, payload_of, mint,
  check_payload, check_parts, split_at, verify,
}

abbrev pub json_of : ParentTokenPayload → Json
json_of p =
    value (some p.parent_session_id) (some p.parent_agent_id) (some p.allowlist)
      (some p.remaining_depth) (some p.expires_at)

-- What Node documents of base64, of JSON and of an HMAC: a digest or the JSON of an object is not empty.
pub record IsNode (node : Node) : Type 0 where
  pub codec_is : IsCodec node.codec
  pub parses : (p : ParentTokenPayload) → node.parse (node.stringify p) ≡ some (json_of p)
  pub written : (p : ParentTokenPayload) → node.stringify p ≢ []
  pub digested : (s : List ℕ) (t : Text) → node.hmac s t ≢ []

here : (c k : ℕ) (s : Text) → nat_eq c k ≡ true → c ∷ s ≡ k ∷ s
here c k s e = ap (λ x. x ∷ s) (ground arith)

index_from :
    (k c : ℕ) (s : Text) (o : Option ℕ) (i : ℕ)
    → ((j : ℕ) → o ≡ some j → s ≡ take j s ++ k ∷ drop (suc j) s)
    → (if nat_eq c k then some 0 else elim o [ none ↦ none | some j ↦ some (suc j) ]) ≡ some i
    → c ∷ s ≡ take i (c ∷ s) ++ k ∷ drop (suc i) (c ∷ s)
index_from k c s none zero f h = here c k s (ground arith)
index_from k c s none (suc i) f h = absurd (ground arith)
index_from k c s (some j) zero f h = here c k s (ground arith)
index_from k c s (some j) (suc i) f h = ap (λ r. c ∷ r) (f i (ground arith))

index_of_sound :
    (k : ℕ) (s : Text) (i : ℕ) → index_of k s ≡ some i → s ≡ take i s ++ k ∷ drop (suc i) s
index_of_sound k [] i h = absurd (ground arith)
index_of_sound k (c ∷ s) i h = index_from k c s (index_of k s) i (index_of_sound k s) h

module _ (node : Node) (laws : IsNode node) where
  encode-dot :
      (b : List ℕ) (m : Text)
      → index_of b'.' (base64url_encode node.codec b ++ b'.' ∷ m)
        ≡ some (length (base64url_encode node.codec b))
  encode-dot b m =
      index_of-dot (base64url_encode node.codec b) m (encode-IsBare node.codec laws.codec_is b)

  inside :
      (s m : Text)
      → length s ≢ 0
      → length m ≢ 0
      → nat_eq (length s) 0 || nat_eq (suc (length s)) (length (s ++ b'.' ∷ m)) ≡ false
  inside s m n k = ground (arith, length-append s (b'.' ∷ m), n, k)

  split_found :
      (secret : List ℕ) (later : ℕ) (s m : Text)
      → index_of b'.' (s ++ b'.' ∷ m) ≡ some (length s)
      → length s ≢ 0
      → length m ≢ 0
      → verify node secret (s ++ b'.' ∷ m) later ≡ check_parts node secret later s m
  unfolding verify
  split_found secret later s m e n k =
      rw (e, inside s m n k, take-front s (b'.' ∷ m), drop-front s b'.' m) refl

  check_signed :
      (secret : List ℕ) (later : ℕ) (p : ParentTokenPayload) (s : Text)
      → s ≡ base64url_encode node.codec (node.stringify p)
      → check_parts node secret later s (base64url_encode node.codec (node.hmac secret s))
        ≡ (if leb p.expires_at later then invalid else valid p)
  check_signed secret later p s e =
      rw
        (
          decode-encode node.codec laws.codec_is (node.hmac secret s),
          texts_eq_refl (node.hmac secret s),
          ap (base64url_decode node.codec) e
              ∙ decode-encode node.codec laws.codec_is (node.stringify p),
          laws.parses p,
        )
        refl

  -- Verified with the secret that signed it, a minted token gives its payload until it expires, and none from then on.
  pub verify-mint :
      (secret : List ℕ) (input : MintInput) (now later : ℕ)
      → verify node secret (mint node secret input now) later ≡ (
          if leb (payload_of node input now).expires_at later
          then invalid
          else valid (payload_of node input now))
  unfolding mint
  verify-mint secret input now later =
      let p = payload_of node input now in
      let s = base64url_encode node.codec (node.stringify p) in
      split_found secret later s (base64url_encode node.codec (node.hmac secret s))
        (encode-dot (node.stringify p) (base64url_encode node.codec (node.hmac secret s)))
        (encode_not_empty node.codec laws.codec_is (node.stringify p) (laws.written p))
        (encode_not_empty node.codec laws.codec_is (node.hmac secret s) (laws.digested secret s))
      ∙ check_signed secret later p s refl

module _ (node : Node) where
  -- A token of two parts, of which the second is the digest of the first under the secret and the first decodes to the payload.
  pub record IsGenuine (secret : List ℕ) (token : Text) (p : ParentTokenPayload) : Type 0 where
    pub front : Text
    pub back : Text
    pub parts : token ≡ front ++ b'.' ∷ back
    pub signed : base64url_decode node.codec back ≡ node.hmac secret front
    pub reads : node.parse (base64url_decode node.codec front) ≡ some (json_of p)

  payload_checked :
      (now : ℕ) (o : Option Json) (p : ParentTokenPayload)
      → check_payload node now o ≡ valid p
      → (o ≡ some (json_of p)) × now < p.expires_at
  payload_checked now none p h = absurd (ground arith)
  payload_checked now (some null) p h = absurd (ground arith)
  payload_checked now (some (value none a l d e)) p h = absurd (ground arith)
  payload_checked now (some (value (some s) none l d e)) p h = absurd (ground arith)
  payload_checked now (some (value (some s) (some a) none d e)) p h = absurd (ground arith)
  payload_checked now (some (value (some s) (some a) (some l) none e)) p h = absurd (ground arith)
  payload_checked now (some (value (some s) (some a) (some l) (some d) none)) p h =
      absurd (ground arith)
  payload_checked now (some (value (some s) (some a) (some l) (some d) (some e))) p h =
      elim (Bool-cases (leb e now)) [
        | inl y ↦ absurd (ground arith)
        | inr n ↦
            same
              (record {
                parent_session_id = s;
                parent_agent_id = a;
                allowlist = l;
                remaining_depth = d;
                expires_at = e;
              })
              (ground arith) n
      ]
    where
      same :
          (q : ParentTokenPayload)
          → q ≡ p
          → leb q.expires_at now ≡ false
          → (some (json_of q) ≡ some (json_of p)) × now < p.expires_at
      same q e n = (ap (λ x. some (json_of x)) e, subst (λ x. now < x.expires_at) e (ground arith))

  parts_checked :
      (secret : List ℕ) (now : ℕ) (token s m : Text) (p : ParentTokenPayload)
      → token ≡ s ++ b'.' ∷ m
      → check_parts node secret now s m ≡ valid p
      → IsGenuine secret token p × now < p.expires_at
  parts_checked secret now token s m p e h =
      elim (Bool-cases (texts_eq (base64url_decode node.codec m) (node.hmac secret s))) [
        | inl y ↦
            let c =
              payload_checked now (node.parse (base64url_decode node.codec s)) p (ground arith) in
            (
              record {
                front = s;
                back = m;
                parts = e;
                signed = texts_eq_sound (base64url_decode node.codec m) (node.hmac secret s) y;
                reads = c.0;
              },
              c.1,
            )
        | inr n ↦ absurd (ground arith)
      ]

  split_checked :
      (secret : List ℕ) (token : Text) (now : ℕ) (p : ParentTokenPayload) (o : Option ℕ)
      → index_of b'.' token ≡ o
      → split_at node secret now token o ≡ valid p
      → IsGenuine secret token p × now < p.expires_at
  split_checked secret token now p none e h = absurd (ground arith)
  split_checked secret token now p (some i) e h =
      elim (Bool-cases (nat_eq i 0 || nat_eq (suc i) (length token))) [
        | inl y ↦ absurd (ground arith)
        | inr n ↦
            parts_checked secret now token (take i token) (drop (suc i) token) p
              (index_of_sound b'.' token i e) (ground arith)
      ]

  -- A token that is taken is signed with this secret, and its payload has not expired.
  pub verify_valid :
      (secret : List ℕ) (token : Text) (now : ℕ) (p : ParentTokenPayload)
      → verify node secret token now ≡ valid p
      → IsGenuine secret token p × now < p.expires_at
  unfolding verify
  verify_valid secret token now p h = split_checked secret token now p (index_of b'.' token) refl h
