-- ===== src/Router/Workspace/Confinement.antt =====
-- Which paths are let through, and where they lead.
use openclaw_managed_agents.Prelude.{
  String, ◌≡◌, refl, Bool, true, false, not, List, [], ◌∷◌, arith, eq_refl, nat_eq, str_eq,
  if◌then◌else◌, if-cases, filter, any, All,
}
use mathlib.Core.Path.{subst}
use Prim.Native.Char.{Char, code}
use Prim.Native.String.{◌++◌ as append}
use text.Mathlib.Text.{starts_with}
use text.Mathlib.TextPositions.{starts_with-append, slice_all}
use openclaw_managed_agents.Router.State.{ok, ◌>>◌, throw_if, ok_inj, invalid_path}
use openclaw_managed_agents.Router.Workspace.{
  is_separator, has_code, drop_slashes, cons_head, split, is_named, cleaned, is_refused, join,
  agent_root, place, resolved, resolve_workspace_path,
}

-- A name of an entry of a directory: no separator, no NUL, and none of the names with a meaning of their own.
abbrev pub IsPlain : String → Type 0
IsPlain seg =
    str_eq seg "" ≡ false
    × str_eq seg "." ≡ false
    × str_eq seg ".." ≡ false
    × has_code is_separator seg ≡ false
    × has_code (λ c. nat_eq c 0) seg ≡ false

abbrev pub IsOneSegment : String → Type 0
IsOneSegment seg = has_code is_separator seg ≡ false

cons_head-IsOneSegment :
    (c : Char) (xs : List String)
    → is_separator (code c) ≡ false
    → All IsOneSegment xs
    → All IsOneSegment (cons_head c xs)
unfolding has_code
cons_head-IsOneSegment c [] e h = (rw e refl, tt)
cons_head-IsOneSegment c (x ∷ xs) e h = (rw e h.0, h.1)

split-IsOneSegment : (s : String) → All IsOneSegment (split s)
unfolding split has_code
split-IsOneSegment String.[] = (refl, tt)
split-IsOneSegment (String.◌∷◌ c s) =
    if-cases (All IsOneSegment) (is_separator (code c)) ("" ∷ split s) (cons_head c (split s))
      (λ y. (refl, split-IsOneSegment s))
      (λ n. cons_head-IsOneSegment c (split s) n (split-IsOneSegment s))

IsPlain-one : (x : String) → IsOneSegment x → is_named x ≡ true → is_refused x ≡ false → IsPlain x
IsPlain-one x h y n = ground arith

plain :
    (segs : List String)
    → All IsOneSegment segs
    → any is_refused (filter is_named segs) ≡ false
    → All IsPlain (filter is_named segs)
plain [] h e = tt
plain (x ∷ xs) h e = go (is_named x) refl (plain xs h.1) e
  where
    go :
        (b : Bool)
        → is_named x ≡ b
        → (any is_refused (filter is_named xs) ≡ false → All IsPlain (filter is_named xs))
        → any is_refused (if b then x ∷ filter is_named xs else filter is_named xs) ≡ false
        → All IsPlain (if b then x ∷ filter is_named xs else filter is_named xs)
    go true y rest n = ground (arith, IsPlain-one x h.0 y)
    go false y rest n = rest n

not_refused : (segs : List String) → All IsPlain segs → any is_refused segs ≡ false
not_refused [] h = refl
not_refused (x ∷ xs) h = ground (arith, not_refused xs h.1)

place-starts_with : (base rel : String) → starts_with (place base rel) base ≡ true
place-starts_with base rel =
    if-cases (λ s. starts_with s base ≡ true) (str_eq rel "") base (append base (append "/" rel))
      (λ y. rw (slice_all base) (eq_refl base)) (λ n. starts_with-append base (append "/" rel))

-- What a path must be for a call to give it: where it leads, and under which name.
abbrev pub IsConfined : String → String → String → String → Type 0
IsConfined base path full rel =
    All IsPlain (cleaned path)
    × rel ≡ join (cleaned path)
    × full ≡ place base rel
    × starts_with full base ≡ true

confined :
    (base path : String) (refused : Bool) (full rel : String)
    → (throw_if refused invalid_path
        >> (throw_if (not (starts_with (resolved base path).0 base)) invalid_path
            >> ok (resolved base path)))
      ≡ ok (full, rel)
    → any is_refused (cleaned path) ≡ refused
    → IsConfined base path full rel
unfolding cleaned
confined base path true full rel e r = ground arith
confined base path false full rel e r =
    subst (λ (y : String × String). IsConfined base path y.0 y.1)
      (ok_inj (rw (place-starts_with base (join (cleaned path))) at e))
      (
        plain (split (drop_slashes path)) (split-IsOneSegment (drop_slashes path)) r,
        refl,
        refl,
        place-starts_with base (join (cleaned path)),
      )

-- A path that is let through is made of plain names only, none of them empty, `.` or `..` and none with a
-- separator or a NUL in it; it is given as these names with slashes between them, and leads below the session's own
-- directory.
pub resolve_workspace_path_lem :
    (root agent_id session_id path full rel : String)
    → resolve_workspace_path root agent_id session_id path ≡ ok (full, rel)
    → IsConfined (agent_root root agent_id session_id) path full rel
unfolding resolve_workspace_path
resolve_workspace_path_lem root agent_id session_id path full rel e =
    confined (agent_root root agent_id session_id) path (any is_refused (cleaned path)) full rel e
      refl

-- A path whose names are all plain is let through.
pub resolve_workspace_path-passes :
    (root agent_id session_id path : String)
    → All IsPlain (cleaned path)
    → resolve_workspace_path root agent_id session_id path
      ≡ ok (resolved (agent_root root agent_id session_id) path)
unfolding resolve_workspace_path
resolve_workspace_path-passes root agent_id session_id path h =
    rw (not_refused (cleaned path) h)
      (rw (place-starts_with (agent_root root agent_id session_id) (join (cleaned path))) refl)
