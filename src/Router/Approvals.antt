-- ===== src/Router/Approvals.antt =====
-- The tool approvals that a session waits for: `getPendingApprovals`, `replacePendingApprovals`,
-- `upsertPendingApproval` and `removePendingApproval` of src/orchestrator/router.ts, lists by session.
pub mod Lookup
use openclaw_managed_agents.Prelude.{
  String, Bool, true, false, not, Option, none, some, List, [], ◌∷◌, str_eq, if◌then◌else◌, get_or,
  filter,
}
use openclaw_managed_agents.JsMap
use openclaw_managed_agents.JsMap.{JsMap}
use openclaw_managed_agents.Router.State.{PendingApproval}

abbrev pub Pending : Type 0
Pending = JsMap (List PendingApproval)

abbrev pub has_id : String → PendingApproval → Bool
has_id id a = str_eq a.approval_id id

-- `length === 0`.
abbrev pub is_empty : List PendingApproval → Bool
is_empty [] = true
is_empty (a ∷ as') = false

abbrev pub get_pending_approvals : Pending → String → List PendingApproval
get_pending_approvals m session_id = get_or (JsMap.get m session_id) []

-- The `Map` that keeps the last approval of each id, where its first stood.
abbrev pub dedup : JsMap PendingApproval → List PendingApproval → JsMap PendingApproval
dedup m [] = m
dedup m (a ∷ as') = dedup (JsMap.set m a.approval_id a) as'

unfoldable pub replace_pending_approvals : Pending → String → List PendingApproval → Pending
replace_pending_approvals m session_id approvals =
    if is_empty approvals
    then JsMap.delete m session_id
    else JsMap.set m session_id (JsMap.values (dedup [] approvals))

-- At the index that `findIndex` finds, or else at the end.
abbrev pub put : List PendingApproval → PendingApproval → List PendingApproval
put [] a = a ∷ []
put (x ∷ xs) a = let rest = put xs a in if has_id a.approval_id x then a ∷ xs else x ∷ rest

unfoldable pub upsert_pending_approval : Pending → String → PendingApproval → Pending
upsert_pending_approval m session_id a =
    JsMap.set m session_id (put (get_pending_approvals m session_id) a)

abbrev pub store : Pending → String → List PendingApproval → Pending
store m session_id next =
    if is_empty next then JsMap.delete m session_id else JsMap.set m session_id next

abbrev pub remove_from : Pending → String → String → Option (List PendingApproval) → Pending
remove_from m session_id approval_id none = m
remove_from m session_id approval_id (some pending) =
    store m session_id (filter (λ a. not (has_id approval_id a)) pending)

unfoldable pub remove_pending_approval : Pending → String → String → Pending
remove_pending_approval m session_id approval_id =
    remove_from m session_id approval_id (JsMap.get m session_id)
