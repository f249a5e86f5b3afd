-- ===== src/Base64/Inverse.antt =====
-- Decoding undoes encoding, and what an encoding is made of.
use openclaw_managed_agents.Prelude.{
  ℕ, zero, suc, ◌+◌, ◌-◌, ◌%◌, ◌<◌, ◌≡◌, refl, sym, ap, ◌∙◌, ◌≢◌, Bool, true, false, not, ◌||◌,
  some, List, [], ◌∷◌, ◌++◌, arith, nat_eq, if◌then◌else◌, length, take, All,
}
use openclaw_managed_agents.Base64.{
  Text, Codec, replace, cons_kept, strip_padding, repeat, index_of, drop, texts_eq,
  base64url_encode, base64url_decode,
}

abbrev pub is_digit : ℕ → Bool
is_digit c =
    not (nat_eq c b'=' || (nat_eq c b'-' || (nat_eq c b'_' || (nat_eq c b'.' || nat_eq c b':'))))

-- What Node documents of base64: decoding undoes encoding, and an encoding is a multiple of four characters of the alphabet
-- with fewer than four `=` at its end.
pub record IsCodec (codec : Codec) : Type 0 where
  pub decode : (b : List ℕ) → codec.from_base64 (codec.base64 b) ≡ b
  pub nothing : codec.from_base64 [] ≡ []
  pub body : List ℕ → Text
  pub pads : List ℕ → ℕ
  pub shape : (b : List ℕ) → codec.base64 b ≡ body b ++ repeat (pads b)
  pub few : (b : List ℕ) → pads b < 4
  pub whole : (b : List ℕ) → (length (body b) + pads b) % 4 ≡ 0
  pub digits : (b : List ℕ) → All (λ c. is_digit c ≡ true) (body b)

abbrev url : Text → Text
url s = replace b'/' b'_' (replace b'+' b'-' s)

replace-append : (a b : ℕ) (s t : Text) → replace a b (s ++ t) ≡ replace a b s ++ replace a b t
replace-append a b [] t = refl
replace-append a b (c ∷ s) t = ap (λ r. (if nat_eq c a then b else c) ∷ r) (replace-append a b s t)

url-repeat : (n : ℕ) → url (repeat n) ≡ repeat n
url-repeat zero = refl
url-repeat (suc n) = ap (λ r. b'=' ∷ r) (url-repeat n)

strip-repeat : (n : ℕ) → strip_padding (repeat n) ≡ []
strip-repeat zero = refl
strip-repeat (suc n) = rw (strip-repeat n) refl

strip-body :
    (s : Text) (n : ℕ) → All (λ c. is_digit c ≡ true) s → strip_padding (url s ++ repeat n) ≡ url s
strip-body [] n h = strip-repeat n
strip-body (c ∷ s) n h = rw (strip-body s n h.1) (kept c (url s) h.0)
  where
    kept :
        (c : ℕ) (t : Text)
        → is_digit c ≡ true
        → cons_kept
            (if nat_eq (if nat_eq c b'+' then b'-' else c) b'/'
              then b'_'
              else (if nat_eq c b'+' then b'-' else c))
            t
          ≡ (if nat_eq (if nat_eq c b'+' then b'-' else c) b'/'
              then b'_'
              else (if nat_eq c b'+' then b'-' else c))
            ∷ t
    kept c [] d = ground arith
    kept c (x ∷ t) d = refl

un_url :
    (s : Text) → All (λ c. is_digit c ≡ true) s → replace b'_' b'/' (replace b'-' b'+' (url s)) ≡ s
un_url [] h = refl
un_url (c ∷ s) h = rw (un_url s h.1) (ground arith)

length-url : (s : Text) → length (url s) ≡ length s
length-url [] = refl
length-url (c ∷ s) = ap suc (length-url s)

-- Neither separator stands in an encoding.
abbrev pub IsBare : Text → Type 0
IsBare = All (λ c. nat_eq c b'.' || nat_eq c b':' ≡ false)

url-IsBare : (s : Text) → All (λ c. is_digit c ≡ true) s → IsBare (url s)
url-IsBare [] h = tt
url-IsBare (c ∷ s) h = (bare_char c h.0, url-IsBare s h.1)
  where
    bare_char :
        (c : ℕ)
        → is_digit c ≡ true
        → nat_eq
              (if nat_eq (if nat_eq c b'+' then b'-' else c) b'/'
                then b'_'
                else (if nat_eq c b'+' then b'-' else c))
              b'.'
            || nat_eq
                (if nat_eq (if nat_eq c b'+' then b'-' else c) b'/'
                  then b'_'
                  else (if nat_eq c b'+' then b'-' else c))
                b':'
          ≡ false
    bare_char c h = ground arith

pub index_of-dot :
    (s : Text) (m : Text) → IsBare s → index_of b'.' (s ++ b'.' ∷ m) ≡ some (length s)
index_of-dot [] m h = refl
index_of-dot (c ∷ s) m h = rw (index_of-dot s m h.1) (ground (arith, h.0))

pub take-front : (s m : Text) → take (length s) (s ++ m) ≡ s
take-front [] m = refl
take-front (c ∷ s) m = ap (λ r. c ∷ r) (take-front s m)

pub drop-front : (s : Text) (d : ℕ) (m : Text) → drop (suc (length s)) (s ++ d ∷ m) ≡ m
drop-front [] d m = refl
drop-front (c ∷ s) d m = drop-front s d m

pub texts_eq_refl : (s : Text) → texts_eq s s ≡ true
texts_eq_refl [] = refl
texts_eq_refl (c ∷ s) = ground (arith, texts_eq_refl s)

pub texts_eq_sound : (s t : Text) → texts_eq s t ≡ true → s ≡ t
texts_eq_sound [] [] h = refl
texts_eq_sound [] (d ∷ t) h = absurd (ground arith)
texts_eq_sound (c ∷ s) [] h = absurd (ground arith)
texts_eq_sound (c ∷ s) (d ∷ t) h = ground (arith, texts_eq_sound s t)

pads_back : (l n : ℕ) → (l + n) % 4 ≡ 0 → n < 4 → (4 - l % 4) % 4 ≡ n
pads_back l n h k = omega arith

module _ (codec : Codec) (laws : IsCodec codec) where
  encode_body : (b : List ℕ) → base64url_encode codec b ≡ url (laws.body b)
  unfolding base64url_encode
  encode_body b = rw (laws.shape b) (
      rw (replace-append b'+' b'-' (laws.body b) (repeat (laws.pads b))) (
        rw
          (replace-append b'/' b'_' (replace b'+' b'-' (laws.body b))
            (replace b'+' b'-' (repeat (laws.pads b))))
          (rw (url-repeat (laws.pads b)) (strip-body (laws.body b) (laws.pads b) (laws.digits b)))))

  pub decode-encode : (b : List ℕ) → base64url_decode codec (base64url_encode codec b) ≡ b
  unfolding base64url_decode
  decode-encode b =
      rw (encode_body b, base64url_decode)
        (rw (un_url (laws.body b) (laws.digits b)) (
          rw (length-url (laws.body b)) (
            rw (pads_back (length (laws.body b)) (laws.pads b) (laws.whole b) (laws.few b))
              (rw (sym (laws.shape b)) (laws.decode b)))))

  not_empty : (b : List ℕ) → b ≢ [] → length (laws.body b) ≢ 0
  not_empty b n e = n (
      sym (laws.decode b)
      ∙ (ap codec.from_base64
            (laws.shape b ∙ bare (laws.body b) (laws.pads b) e (laws.whole b) (laws.few b))
          ∙ laws.nothing))
    where
      bare : (s : Text) (k : ℕ) → length s ≡ 0 → (length s + k) % 4 ≡ 0 → k < 4 → s ++ repeat k ≡ []
      bare [] zero e w f = refl
      bare [] (suc k) e w f = absurd (omega (arith, w, f))
      bare (c ∷ s) k e w f = absurd (omega (arith, e))

  pub encode_not_empty : (b : List ℕ) → b ≢ [] → length (base64url_encode codec b) ≢ 0
  encode_not_empty b n = rw (encode_body b, length-url (laws.body b)) (not_empty b n)

  pub encode-IsBare : (b : List ℕ) → IsBare (base64url_encode codec b)
  encode-IsBare b = rw (encode_body b) (url-IsBare (laws.body b) (laws.digits b))
