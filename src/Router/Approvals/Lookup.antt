-- ===== src/Router/Approvals/Lookup.antt =====
-- The approvals seen as a table from session and approval id to approval.
use openclaw_managed_agents.Prelude.{
  String, ◌≡◌, refl, sym, not, ◌&&◌, Option, none, some, List, [], ◌∷◌, arith, eq_iff, str_eq,
  if◌then◌else◌, filter, find,
}
use openclaw_managed_agents.JsMap
use openclaw_managed_agents.JsMap.{JsMap, get-set, get-delete}
use openclaw_managed_agents.Router.State.{PendingApproval}
use openclaw_managed_agents.Router.Approvals.{
  Pending, has_id, get_pending_approvals, dedup, replace_pending_approvals, put,
  upsert_pending_approval, store, remove_from, remove_pending_approval,
}

-- The approval that is waited for under a session and an id.
abbrev pub lookup : Pending → String → String → Option PendingApproval
lookup m session_id id = find (has_id id) (get_pending_approvals m session_id)

pub data Change : Type 0 where
  replaces : String → List PendingApproval → Change
  upserts : String → PendingApproval → Change
  removes : String → String → Change

unfoldable pub apply : Pending → Change → Pending
apply m (replaces s as') = replace_pending_approvals m s as'
apply m (upserts s a) = upsert_pending_approval m s a
apply m (removes s id) = remove_pending_approval m s id

unfoldable pub apply_all : Pending → List Change → Pending
apply_all m [] = m
apply_all m (c ∷ cs) = apply_all (apply m c) cs

-- The last of the approvals with this id.
abbrev pub latest : List PendingApproval → String → Option PendingApproval → Option PendingApproval
latest [] id o = o
latest (a ∷ as') id o = latest as' id (if has_id id a then some a else o)

-- What a change makes of one entry of the table.
unfoldable pub entry : Change → String → String → Option PendingApproval → Option PendingApproval
entry (replaces s as') session_id id o = if str_eq s session_id then latest as' id none else o
entry (upserts s a) session_id id o = if str_eq s session_id && has_id id a then some a else o
entry (removes s i) session_id id o = if str_eq s session_id && str_eq i id then none else o

unfoldable pub entries :
    List Change → String → String → Option PendingApproval → Option PendingApproval
entries [] session_id id o = o
entries (c ∷ cs) session_id id o = entries cs session_id id (entry c session_id id o)

find-put :
    (xs : List PendingApproval) (a : PendingApproval) (id : String)
    → find (has_id id) (put xs a) ≡ (if has_id id a then some a else find (has_id id) xs)
find-put [] a id = refl
find-put (x ∷ xs) a id = ground (
  arith,
  eq_iff x.approval_id a.approval_id,
  eq_iff x.approval_id id,
  eq_iff a.approval_id id,
  find-put xs a id,
)

find-drop :
    (xs : List PendingApproval) (i id : String)
    → find (has_id id) (filter (λ a. not (has_id i a)) xs)
      ≡ (if str_eq i id then none else find (has_id id) xs)
find-drop [] i id = ground arith
find-drop (x ∷ xs) i id =
    ground (arith, eq_iff x.approval_id i, eq_iff x.approval_id id, eq_iff i id, find-drop xs i id)

-- Each entry of the map stands under its approval's id.
IsKeyed : JsMap PendingApproval → Type 0
IsKeyed [] = Unit
IsKeyed ((k, a) ∷ m) = (k ≡ a.approval_id) × IsKeyed m

set-IsKeyed :
    (m : JsMap PendingApproval) (a : PendingApproval)
    → IsKeyed m
    → IsKeyed (JsMap.set m a.approval_id a)
unfolding JsMap.set IsKeyed
set-IsKeyed [] a h = (refl, tt)
set-IsKeyed ((k, b) ∷ m) a h = ground (arith, eq_iff k a.approval_id, set-IsKeyed m a h.1)

find-values :
    (m : JsMap PendingApproval) (id : String)
    → IsKeyed m
    → find (has_id id) (JsMap.values m) ≡ JsMap.get m id
unfolding JsMap.get IsKeyed
find-values [] id h = refl
find-values ((k, b) ∷ m) id h = rw h.0 (ground (arith, find-values m id h.1))

find-dedup :
    (as' : List PendingApproval) (m : JsMap PendingApproval) (id : String)
    → IsKeyed m
    → find (has_id id) (JsMap.values (dedup m as')) ≡ latest as' id (JsMap.get m id)
find-dedup [] m id h = find-values m id h
find-dedup (a ∷ as') m id h =
    rw (sym (get-set m a.approval_id id a))
      (find-dedup as' (JsMap.set m a.approval_id a) id (set-IsKeyed m a h))

lookup-set :
    (m : Pending) (s k id : String) (xs : List PendingApproval)
    → lookup (JsMap.set m s xs) k id ≡ (if str_eq s k then find (has_id id) xs else lookup m k id)
lookup-set m s k id xs = ground (arith, get-set m s k xs)

lookup-delete :
    (m : Pending) (s k id : String)
    → lookup (JsMap.delete m s) k id ≡ (if str_eq s k then none else lookup m k id)
lookup-delete m s k id = ground (arith, get-delete m s k)

lookup-store :
    (m : Pending) (s k id : String) (xs : List PendingApproval)
    → lookup (store m s xs) k id ≡ (if str_eq s k then find (has_id id) xs else lookup m k id)
lookup-store m s k id [] = lookup-delete m s k id
lookup-store m s k id (x ∷ xs) = lookup-set m s k id (x ∷ xs)

lookup-replace :
    (m : Pending) (s k id : String) (as' : List PendingApproval)
    → lookup (replace_pending_approvals m s as') k id
      ≡ (if str_eq s k then latest as' id none else lookup m k id)
unfolding replace_pending_approvals JsMap.get IsKeyed
lookup-replace m s k id [] = lookup-delete m s k id
lookup-replace m s k id (a ∷ as') =
    rw (sym (find-dedup (a ∷ as') [] id tt))
      (lookup-set m s k id (JsMap.values (dedup [] (a ∷ as'))))

lookup-remove :
    (m : Pending) (s i k id : String)
    → lookup (remove_pending_approval m s i) k id
      ≡ (if str_eq s k && str_eq i id then none else lookup m k id)
unfolding remove_pending_approval
lookup-remove m s i k id = go (JsMap.get m s) refl
  where
    go :
        (o : Option (List PendingApproval))
        → JsMap.get m s ≡ o
        → lookup (remove_from m s i o) k id
          ≡ (if str_eq s k && str_eq i id then none else lookup m k id)
    go none e = ground (arith, eq_iff s k)
    go (some xs) e = ground (
      arith,
      eq_iff s k,
      lookup-store m s k id (filter (λ a. not (has_id i a)) xs),
      find-drop xs i id,
    )

lookup-apply :
    (m : Pending) (c : Change) (k id : String)
    → lookup (apply m c) k id ≡ entry c k id (lookup m k id)
unfolding apply entry upsert_pending_approval
lookup-apply m (replaces s as') k id = lookup-replace m s k id as'
lookup-apply m (upserts s a) k id = ground (
  arith,
  eq_iff s k,
  lookup-set m s k id (put (get_pending_approvals m s) a),
  find-put (get_pending_approvals m s) a id,
)
lookup-apply m (removes s i) k id = lookup-remove m s i k id

-- After any changes to the pending approvals, what is pending under a session and an approval id is what the
-- changes of that session and that id say, one after the other: an upsert sets it, a removal takes it away, and a replacement
-- leaves the last one with this id of those that it was given.
pub lookup-apply_all :
    (m : Pending) (cs : List Change) (session_id id : String)
    → lookup (apply_all m cs) session_id id ≡ entries cs session_id id (lookup m session_id id)
unfolding apply_all entries
lookup-apply_all m [] k id = refl
lookup-apply_all m (c ∷ cs) k id =
    rw (sym (lookup-apply m c k id)) (lookup-apply_all (apply m c) cs k id)
