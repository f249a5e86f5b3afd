-- ===== src/Tests/Audit.antt =====
-- The audit log at concrete records.
use Prim.Native.Nat.{min, max}
use mathlib.Core.List.{Perm}
use openclaw_managed_agents.Prelude.{
  List, filter, ◌++◌, get_or, ℕ, String, ◌≡◌, ◌↔◌, true, none, some, [], ◌∷◌, length,
}
use openclaw_managed_agents.Prelude.Sort.{IsSorted}
use openclaw_managed_agents.Types.Vault.{AuditRecord}
use openclaw_managed_agents.Audit.{AuditStore, Filters, list, selects, newest_first, like}
use openclaw_managed_agents.Audit.Like.{Like, like_iff}
use openclaw_managed_agents.Audit.Listing.{list_lem}

abbrev entry : ℕ → ℕ → String → AuditRecord
entry id t action = record {
  id = id;
  ts = t;
  request_id = none;
  actor = "admin";
  action = action;
  target = none;
  outcome = "ok";
  metadata = none;
}

abbrev log : AuditStore
log = record {
  events = entry 1 10 "agent.create" ∷ entry 2 20 "session.cancel" ∷ entry 3 20 "agent.update" ∷ [];
  next_id = 4;
}

abbrev agent_actions : Filters
agent_actions = record {
  since = none;
  until = none;
  action = some "agent.%";
  target = none;
  limit = some 2;
}

list_example :
    (rest : List AuditRecord) × Perm
      (list log agent_actions ++ rest)
      (filter (selects agent_actions) log.events)
    × IsSorted newest_first (list log agent_actions ++ rest)
    × (length (list log agent_actions)
        ≡ min
            (min (max (get_or agent_actions.limit 100) 1) 1000)
            (length (filter (selects agent_actions) log.events)))
list_example = list_lem log agent_actions

like_iff_example :
    (like (b'a' ∷ b'.' ∷ b'%' ∷ []) (b'a' ∷ b'.' ∷ b'b' ∷ []) ≡ true)
    ↔ Like (b'a' ∷ b'.' ∷ b'%' ∷ []) (b'a' ∷ b'.' ∷ b'b' ∷ [])
like_iff_example = like_iff (b'a' ∷ b'.' ∷ b'%' ∷ []) (b'a' ∷ b'.' ∷ b'b' ∷ [])
