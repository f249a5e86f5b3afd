-- ===== src/Http.antt =====
-- What the two middlewares read of a request, and the match of `/^bearer\s+(.+)$/i` with the trim of
-- its group, which src/auth.ts and src/rate-limit.ts share. A header value holds no line end.
pub mod Bearer
use Prim.Native.Char.{code}
use openclaw_managed_agents.Prelude.{
  ℕ, ◌+◌, String, Bool, true, false, ◌&&◌, ◌||◌, Option, none, some, List, [], ◌∷◌, leb, nat_eq,
  if◌then◌else◌,
}

-- Hono finds a header under any case, so the source's second lookup adds nothing.
pub record Request : Type 0 where
  pub path : String
  pub authorization : Option String
  pub query_token : Option String
  pub x_forwarded_for : Option String
  pub x_real_ip : Option String
  pub remote_address : Option String

-- The characters of `\s`, which are those that `trim` takes off.
unfoldable pub is_space : ℕ → Bool
is_space c =
    (leb 9 c && leb c 13)
    || (nat_eq c 32
        || (nat_eq c 160
            || (nat_eq c 0x1680
                || ((leb 0x2000 c && leb c 0x200a)
                    || (nat_eq c 0x2028
                        || (nat_eq c 0x2029
                            || (nat_eq c 0x202f
                                || (nat_eq c 0x205f || (nat_eq c 0x3000 || nat_eq c 0xfeff)))))))))

unfoldable pub trim_start : String → String
trim_start String.[] = String.[]
trim_start (String.◌∷◌ c s) =
    let rest = trim_start s in if is_space (code c) then rest else String.◌∷◌ c s

abbrev pub is_empty : String → Bool
is_empty String.[] = true
is_empty (String.◌∷◌ c s) = false

unfoldable pub trim_end : String → String
trim_end String.[] = String.[]
trim_end (String.◌∷◌ c s) =
    let rest = trim_end s in
    if is_space (code c) && is_empty rest then String.[] else String.◌∷◌ c rest

unfoldable pub trim : String → String
trim s = trim_end (trim_start s)

abbrev pub lower : ℕ → ℕ
lower c = if leb b'A' c && leb c b'Z' then c + 32 else c

-- The text behind a prefix that is given in lower case.
unfoldable pub strip : List ℕ → String → Option String
strip [] s = some s
strip (p ∷ ps) String.[] = none
strip (p ∷ ps) (String.◌∷◌ c s) =
    let rest = strip ps s in if nat_eq (lower (code c)) p then rest else none

abbrev pub bearer : List ℕ
bearer = b'b' ∷ b'e' ∷ b'a' ∷ b'r' ∷ b'e' ∷ b'r' ∷ []

-- Behind the scheme: `\s+` takes all white space, but for one character where nothing else is left.
abbrev pub group : String → Option String
group String.[] = none
group (String.◌∷◌ c s) =
    if is_space (code c)
    then (if is_empty (trim_start s) then (if is_empty s then none else some "") else some (trim s))
    else none

abbrev pub group_of : Option String → Option String
group_of none = none
group_of (some s) = group s

-- `header.match(...)?.[1]?.trim()`: none if the header does not match.
unfoldable pub bearer_token : String → Option String
bearer_token header = group_of (strip bearer header)

-- What is in front of the first comma.
unfoldable pub first_segment : String → String
first_segment String.[] = String.[]
first_segment (String.◌∷◌ c s) =
    let rest = first_segment s in if nat_eq (code c) b',' then String.[] else String.◌∷◌ c rest
