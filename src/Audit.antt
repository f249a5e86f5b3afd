-- ===== src/Audit.antt =====
-- src/store/memory.ts, `InMemoryAuditStore`. The `action` filter with a `%` goes through the regular
-- expression that the source builds: the two replacements give its text, and of JavaScript's regular expressions the
-- model has what such a text uses.
pub mod Like
pub mod Listing
pub mod Ids
use Prim.Native.Char.{code}
use Prim.Native.Nat.{min, max}
use openclaw_managed_agents.Prelude.{
  ℕ, ◌+◌, ◌-◌, String, Bool, true, false, not, ◌||◌, Option, none, some, List, [], ◌∷◌, ◌++◌, ltb,
  leb, nat_eq, str_eq, if◌then◌else◌, get_or, length, take, filter, any, every,
}
use openclaw_managed_agents.Prelude.Sort
use openclaw_managed_agents.Types.Vault.{AuditRecord}

pub record AuditStore : Type 0 where
  pub events : List AuditRecord
  pub next_id : ℕ

unfoldable pub record_event : AuditStore → AuditRecord → AuditStore
record_event s event = record {
  events = s.events ++ record event { id = s.next_id } ∷ [];
  next_id = s.next_id + 1;
}

abbrev pub backslash : ℕ
backslash = 92

abbrev pub codes : String → List ℕ
codes String.[] = []
codes (String.◌∷◌ c s) = code c ∷ codes s

-- What `.` does not match: LF, CR, U+2028, U+2029.
abbrev pub is_line_end : ℕ → Bool
is_line_end c = nat_eq c 10 || (nat_eq c 13 || (nat_eq c 0x2028 || nat_eq c 0x2029))

-- The class of the first replacement: `[.+*?^${}()|[\]\\]`.
abbrev pub is_special : ℕ → Bool
is_special c =
    any (λ s. nat_eq c s)
      (b'.' ∷ b'+' ∷ b'*' ∷ b'?' ∷ b'^' ∷ b'$' ∷ b'{' ∷ b'}' ∷ b'(' ∷ b')' ∷ b'|' ∷ b'[' ∷ b']'
        ∷ backslash ∷ [])

-- `replace(/[.+*?^${}()|[\]\\]/g, "\\$&")`.
unfoldable pub escape : List ℕ → List ℕ
escape [] = []
escape (c ∷ cs) = let rest = escape cs in if is_special c then backslash ∷ c ∷ rest else c ∷ rest

-- `replace(/%/g, ".*")`.
unfoldable pub replace_percent : List ℕ → List ℕ
replace_percent [] = []
replace_percent (c ∷ cs) =
    let rest = replace_percent cs in if nat_eq c b'%' then b'.' ∷ b'*' ∷ rest else c ∷ rest

-- The text that is given to `new RegExp`.
abbrev pub expression : List ℕ → List ℕ
expression p = b'^' ∷ (replace_percent (escape p) ++ b'$' ∷ [])

-- The regular expressions that are used: between the anchors, characters that stand for themselves, escaped
-- or not, and `.*`. Any other expression is read as none, and accepts nothing here.
pub data Item : Type 0 where
  literal : ℕ → Item
  any_run : Item

-- Where the reader stands: outside, behind a backslash, or behind a dot.
pub data Mode : Type 0 where
  plain escaped dot : Mode

abbrev pub push : Item → Option (List Item) → Option (List Item)
push i none = none
push i (some items) = some (i ∷ items)

abbrev pub ended : List ℕ → Option (List Item)
ended [] = some []
ended (c ∷ cs) = none

unfoldable pub parse : Mode → List ℕ → Option (List Item)
parse plain [] = none
parse plain (c ∷ cs) =
    let after_backslash = parse escaped cs in
    let after_dot = parse dot cs in
    let rest = parse plain cs in
    if nat_eq c backslash
    then after_backslash
    else if nat_eq c b'.'
    then after_dot
    else if nat_eq c b'$'
    then ended cs
    else if is_special c
    then none
    else push (literal c) rest
parse escaped [] = none
parse escaped (c ∷ cs) =
    let rest = parse plain cs in if is_special c then push (literal c) rest else none
parse dot [] = none
parse dot (c ∷ cs) = let rest = parse plain cs in if nat_eq c b'*' then push any_run rest else none

abbrev pub parse_expression : List ℕ → Option (List Item)
parse_expression [] = none
parse_expression (c ∷ cs) = if nat_eq c b'^' then parse plain cs else none

unfoldable pub accepts : List Item → List ℕ → Bool
accepts [] [] = true
accepts [] (c ∷ text) = false
accepts (literal p ∷ ps) [] = false
accepts (literal p ∷ ps) (c ∷ text) =
    let rest = accepts ps text in if nat_eq p c then rest else false
accepts (any_run ∷ ps) [] = accepts ps []
accepts (any_run ∷ ps) (c ∷ text) =
    let skip = accepts ps (c ∷ text) in
    let eat = accepts (any_run ∷ ps) text in
    if skip then true else if is_line_end c then false else eat

abbrev pub accepted : Option (List Item) → List ℕ → Bool
accepted none text = false
accepted (some items) text = accepts items text

-- `re.test(text)` for the expression made of the pattern.
unfoldable pub like : List ℕ → List ℕ → Bool
like p text = accepted (parse_expression (expression p)) text

pub record Filters : Type 0 where
  pub since : Option ℕ
  pub until : Option ℕ
  pub action : Option String
  pub target : Option String
  pub limit : Option ℕ

abbrev has_percent : List ℕ → Bool
has_percent = any (λ c. nat_eq c b'%')

abbrev pub action_matches : Option String → String → Bool
action_matches none action = true
action_matches (some p) action =
    if has_percent (codes p) then like (codes p) (codes action) else str_eq action p

abbrev pub since_matches : Option ℕ → ℕ → Bool
since_matches none ts = true
since_matches (some t) ts = not (ltb ts t)

abbrev pub until_matches : Option ℕ → ℕ → Bool
until_matches none ts = true
until_matches (some t) ts = not (ltb t ts)

abbrev pub target_matches : Option String → Option String → Bool
target_matches none target = true
target_matches (some t) none = false
target_matches (some t) (some u) = str_eq u t

-- The loop's body: what no `continue` skips.
unfoldable pub selects : Filters → AuditRecord → Bool
selects f e = every (
    since_matches f.since e.ts
    ∷ until_matches f.until e.ts
    ∷ action_matches f.action e.action
    ∷ target_matches f.target e.target
    ∷ [])

-- `b.ts - a.ts || b.id - a.id`: whether `a` may stand before `b`.
abbrev pub newest_first : AuditRecord → AuditRecord → Bool
newest_first a b = if nat_eq a.ts b.ts then leb b.id a.id else ltb b.ts a.ts

-- `Math.min(Math.max(limit ?? 100, 1), 1000)`.
abbrev pub page_size : Option ℕ → ℕ
page_size limit = min (max (get_or limit 100) 1) 1000

unfoldable pub list : AuditStore → Filters → List AuditRecord
list s f = take (page_size f.limit) (Sort.sort newest_first (filter (selects f) s.events))

unfoldable pub delete_older : List AuditRecord → ℕ → List AuditRecord
delete_older [] ts = []
delete_older (e ∷ es) ts = let rest = delete_older es ts in if ltb e.ts ts then rest else e ∷ rest

unfoldable pub delete_older_than : AuditStore → ℕ → ℕ × AuditStore
delete_older_than s ts =
    let kept = delete_older s.events ts in
    (length s.events - length kept, record s { events = kept })
