-- ===== src/Router/Workspace.antt =====
-- `resolveWorkspacePath` of src/orchestrator/router.ts: the confinement of a path that a client gives. The
-- split at runs of separators is made at each separator, which adds empty segments only, and those are
-- dropped.
pub mod Confinement
use openclaw_managed_agents.Prelude.{
  ℕ, String, Bool, false, not, ◌&&◌, ◌||◌, List, [], ◌∷◌, nat_eq, str_eq, if◌then◌else◌, filter,
  any,
}
use Prim.Native.Char.{Char, code}
use Prim.Native.String
use Prim.Native.String.{◌++◌ as append}
use text.Mathlib.Text.{starts_with}
use openclaw_managed_agents.Router.State.{Result, ok, ◌>>=◌, ◌>>◌, throw_if, invalid_path}

abbrev pub is_separator : ℕ → Bool
is_separator c = nat_eq c b'/' || nat_eq c b'\\'

unfoldable pub has_code : (ℕ → Bool) → String → Bool
has_code p String.[] = false
has_code p (String.◌∷◌ c s) = p (code c) || has_code p s

unfoldable pub drop_slashes : String → String
drop_slashes String.[] = String.[]
drop_slashes (String.◌∷◌ c s) =
    let rest = drop_slashes s in if nat_eq (code c) b'/' then rest else String.◌∷◌ c s

abbrev pub cons_head : Char → List String → List String
cons_head c [] = String.◌∷◌ c String.[] ∷ []
cons_head c (x ∷ xs) = String.◌∷◌ c x ∷ xs

unfoldable pub split : String → List String
split String.[] = "" ∷ []
split (String.◌∷◌ c s) =
    let rest = split s in if is_separator (code c) then "" ∷ rest else cons_head c rest

abbrev pub is_named : String → Bool
is_named seg = not (str_eq seg "") && not (str_eq seg ".")

unfoldable pub cleaned : String → List String
cleaned path = filter is_named (split (drop_slashes path))

-- The two tests of the loop, which throw the same code.
abbrev pub is_refused : String → Bool
is_refused seg = str_eq seg ".." || has_code (λ c. nat_eq c 0) seg

unfoldable pub join : List String → String
join [] = ""
join (x ∷ []) = x
join (x ∷ y ∷ r) = append x (append "/" (join (y ∷ r)))

abbrev pub agent_root : String → String → String → String
agent_root root agent_id session_id =
    append root (append "/" (append agent_id (append "/sessions/" session_id)))

abbrev pub place : String → String → String
place base rel = if str_eq rel "" then base else append base (append "/" rel)

-- `{ fullPath, relNormalized }`.
abbrev pub resolved : String → String → String × String
resolved base path = (place base (join (cleaned path)), join (cleaned path))

unfoldable pub resolve_workspace_path : String → String → String → String → Result (String × String)
resolve_workspace_path root agent_id session_id path = do
  let base = agent_root root agent_id session_id
  throw_if (any is_refused (cleaned path)) invalid_path
  throw_if (not (starts_with (resolved base path).0 base)) invalid_path
  ok (resolved base path)
