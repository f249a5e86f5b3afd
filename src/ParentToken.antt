-- ===== src/ParentToken.antt =====
-- src/runtime/parent-token.ts: the signed token of the in-container `call_agent` tool. Node's HMAC,
-- its base64 and its JSON are arguments.
pub mod Signed
use openclaw_managed_agents.Prelude.{
  ℕ, suc, ◌+◌, ◌*◌, ◌||◌, Option, none, some, List, ◌∷◌, ◌++◌, ltb, leb, nat_eq, if◌then◌else◌,
  get_or, length, take,
}
use openclaw_managed_agents.Base64.{
  Text, Codec, index_of, drop, texts_eq, base64url_encode, base64url_decode,
}

pub record ParentTokenPayload : Type 0 where
  pub parent_session_id : Text
  pub parent_agent_id : Text
  pub allowlist : List Text
  pub remaining_depth : ℕ
  pub expires_at : ℕ

pub record MintInput : Type 0 where
  pub parent_session_id : Text
  pub parent_agent_id : Text
  pub allowlist : List Text
  pub remaining_depth : ℕ
  pub ttl_ms : Option ℕ

-- What `JSON.parse` gives: `null`, or a value with each field where it has the type that is asked for.
pub data Json : Type 0 where
  null : Json
  value : Option Text → Option Text → Option (List Text) → Option ℕ → Option ℕ → Json

-- `verify` throws where it reads a field of `null`.
pub data Verified : Type 0 where
  invalid throws : Verified
  valid : ParentTokenPayload → Verified

pub record Node : Type 0 where
  pub hmac : List ℕ → Text → List ℕ
  pub codec : Codec
  pub stringify : ParentTokenPayload → List ℕ
  pub parse : List ℕ → Option Json

abbrev default_ttl_ms : ℕ
default_ttl_ms = 24 * 60 * 60 * 1000

-- The constructor's check of a secret that is supplied.
unfoldable pub constructor : List ℕ → Option (List ℕ)
constructor secret = if ltb (length secret) 16 then none else some secret

module _ (node : Node) where
  abbrev pub payload_of : MintInput → ℕ → ParentTokenPayload
  payload_of input now = record {
    parent_session_id = input.parent_session_id;
    parent_agent_id = input.parent_agent_id;
    allowlist = input.allowlist;
    remaining_depth = input.remaining_depth;
    expires_at = now + get_or input.ttl_ms default_ttl_ms;
  }

  unfoldable pub mint : List ℕ → MintInput → ℕ → Text
  mint secret input now =
      let payload_b64 = base64url_encode node.codec (node.stringify (payload_of input now)) in
      payload_b64 ++ b'.' ∷ base64url_encode node.codec (node.hmac secret payload_b64)

  abbrev pub check_payload : ℕ → Option Json → Verified
  check_payload now none = invalid
  check_payload now (some null) = throws
  check_payload now (some (value (some s) (some a) (some l) (some d) (some e))) =
      if leb e now
      then invalid
      else valid (record {
        parent_session_id = s;
        parent_agent_id = a;
        allowlist = l;
        remaining_depth = d;
        expires_at = e;
      })
  check_payload now (some (value none a l d e)) = invalid
  check_payload now (some (value (some s) none l d e)) = invalid
  check_payload now (some (value (some s) (some a) none d e)) = invalid
  check_payload now (some (value (some s) (some a) (some l) none e)) = invalid
  check_payload now (some (value (some s) (some a) (some l) (some d) none)) = invalid

  abbrev pub check_parts : List ℕ → ℕ → Text → Text → Verified
  check_parts secret now payload_b64 mac_b64 =
      if texts_eq (base64url_decode node.codec mac_b64) (node.hmac secret payload_b64)
      then check_payload now (node.parse (base64url_decode node.codec payload_b64))
      else invalid

  abbrev pub split_at : List ℕ → ℕ → Text → Option ℕ → Verified
  split_at secret now token none = invalid
  split_at secret now token (some dot) =
      if nat_eq dot 0 || nat_eq (suc dot) (length token)
      then invalid
      else check_parts secret now (take dot token) (drop (suc dot) token)

  unfoldable pub verify : List ℕ → Text → ℕ → Verified
  verify secret token now = split_at secret now token (index_of b'.' token)
