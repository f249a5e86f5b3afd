-- ===== src/Sse.antt =====
-- sdk/typescript/src/sse.ts: the parser of an event stream. Text is the list of its characters' codes, and the
-- chunks are those that the decoder gives. A `while` over the buffer runs on fuel: the buffer's length is enough.
pub mod Buffer
pub mod Chunks
pub mod Ends
use openclaw_managed_agents.Prelude.{
  ℕ, zero, suc, ◌+◌, String, Bool, true, false, not, ◌&&◌, Option, none, some, List, [], ◌∷◌, ◌++◌,
  ltb, nat_eq, if◌then◌else◌, get_or, is_some, length, take,
}
use Prim.Native.Char.{code}

abbrev pub Text : Type 0
Text = List ℕ

pub record ServerSentEvent : Type 0 where
  pub event : Text
  pub data_text : Text
  pub id : Option Text

pub record Parser : Type 0 where
  pub buffer : Text
  pub event : Option Text
  pub id : Option Text
  pub data_lines : List Text

abbrev pub start : Parser
start = record { buffer = []; event = none; id = none; data_lines = [] }

abbrev pub lf : ℕ
lf = 10

abbrev pub cr : ℕ
cr = 13

abbrev pub codes : String → Text
codes String.[] = []
codes (String.◌∷◌ c s) = code c ∷ codes s

abbrev pub index_of : ℕ → Text → Option ℕ
index_of k [] = none
index_of k (c ∷ s) =
    let rest = index_of k s in
    if nat_eq c k then some 0 else elim rest [ none ↦ none | some i ↦ some (suc i) ]

abbrev pub nearer : Option ℕ → Option ℕ → Option ℕ
nearer none r = r
nearer (some l) none = some l
nearer (some l) (some r) = some (if ltb l r then l else r)

abbrev pub index_of_line_end : Text → Option ℕ
index_of_line_end s = nearer (index_of lf s) (index_of cr s)

abbrev pub drop : ℕ → Text → Text
drop zero s = s
drop (suc n) [] = []
drop (suc n) (c ∷ s) = drop n s

-- Of the text from the line end on.
abbrev pub line_end_length : Text → ℕ
line_end_length [] = 1
line_end_length (c ∷ []) = 1
line_end_length (c ∷ d ∷ s) = if nat_eq c cr && nat_eq d lf then 2 else 1

abbrev pub join : List Text → Text
join [] = []
join (l ∷ []) = l
join (l ∷ m ∷ ls) = l ++ lf ∷ join (m ∷ ls)

unfoldable pub dispatch : Parser → Parser × List ServerSentEvent
dispatch p = if nat_eq (length p.data_lines) 0 && not (is_some p.event) then (p, []) else (
  record p { event = none; data_lines = [] },
  record { event = get_or p.event (codes "message"); data_text = join p.data_lines; id = p.id }
      ∷ [],
)

abbrev pub texts_eq : Text → Text → Bool
texts_eq [] [] = true
texts_eq [] (d ∷ t) = false
texts_eq (c ∷ s) [] = false
texts_eq (c ∷ s) (d ∷ t) = nat_eq c d && texts_eq s t

abbrev pub without_space : Text → Text
without_space [] = []
without_space (c ∷ s) = if nat_eq c b' ' then s else c ∷ s

abbrev pub set_field : Parser → Text → Text → Parser
set_field p field value =
    if texts_eq field (codes "event")
    then record p { event = some value }
    else if texts_eq field (codes "data")
    then record p { data_lines = p.data_lines ++ value ∷ [] }
    else if texts_eq field (codes "id")
    then record p { id = some value }
    else p

abbrev pub split_field : Parser → Text → Option ℕ → Parser
split_field p line none = set_field p line []
split_field p line (some sep) = set_field p (take sep line) (without_space (drop (suc sep) line))

-- The body of the inner loop behind the cut of the buffer.
unfoldable pub on_line : Parser → Text → Parser × List ServerSentEvent
on_line p [] = dispatch p
on_line p (c ∷ s) =
    if nat_eq c b':' then (p, []) else (split_field p (c ∷ s) (index_of b':' (c ∷ s)), [])

abbrev pub then_run :
    (Parser → Parser × List ServerSentEvent)
    → Parser × List ServerSentEvent
    → Parser × List ServerSentEvent
then_run f r = let q = f r.0 in (q.0, r.1 ++ q.1)

-- The inner loop.
abbrev pub cut : Parser → ℕ → Parser × List ServerSentEvent
cut p i =
    on_line (record p { buffer = drop (i + line_end_length (drop i p.buffer)) p.buffer })
      (take i p.buffer)

unfoldable pub drain : ℕ → Parser → Parser × List ServerSentEvent
drain zero p = (p, [])
drain (suc n) p = elim (index_of_line_end p.buffer) [
  | none ↦ (p, [])
  | some i ↦ then_run (drain n) (cut p i)
]

unfoldable pub read : Parser → Text → Parser × List ServerSentEvent
read p chunk = let q = record p { buffer = p.buffer ++ chunk } in drain (length q.buffer) q

unfoldable pub read_all : Parser → List Text → Parser × List ServerSentEvent
read_all p [] = (p, [])
read_all p (c ∷ cs) = then_run (λ q. read_all q cs) (read p c)

unfoldable pub parse_sse : List Text → List ServerSentEvent
parse_sse chunks = (then_run dispatch (read_all start chunks)).1
