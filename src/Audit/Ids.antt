-- ===== src/Audit/Ids.antt =====
-- The identifiers of audit records along the log.
use openclaw_managed_agents.Prelude.{
  ℕ, suc, ◌+◌, ◌≤◌, ◌≡◌, refl, List, [], ◌∷◌, ◌++◌, arith, ltb, if-cases,
}
use openclaw_managed_agents.Types.Vault.{AuditRecord}
use openclaw_managed_agents.Audit.{AuditStore, record_event, delete_older, delete_older_than}

pub data Call : Type 0 where
  records : AuditRecord → Call
  deletes_older_than : ℕ → Call

unfoldable pub step : AuditStore → Call → AuditStore
step s (records e) = record_event s e
step s (deletes_older_than ts) = (delete_older_than s ts).1

unfoldable pub run : AuditStore → List Call → AuditStore
run s [] = s
run s (c ∷ cs) = run (step s c) cs

-- The identifiers rise from `low` on and stay below `high`.
abbrev pub Rising : ℕ → ℕ → List AuditRecord → Type 0
Rising low high [] = low ≤ high
Rising low high (e ∷ es) = (low ≤ e.id) × Rising (suc e.id) high es

abbrev pub HasRisingIds : AuditStore → Type 0
HasRisingIds s = Rising 0 s.next_id s.events

Rising-append :
    (low high : ℕ) (es : List AuditRecord) (e : AuditRecord)
    → Rising low high es
    → e.id ≡ high
    → Rising low (high + 1) (es ++ e ∷ [])
Rising-append low high [] e h p = (omega arith, omega arith)
Rising-append low high (x ∷ es) e h p = (h.0, Rising-append (suc x.id) high es e h.1 p)

Rising-weaken : (a b high : ℕ) (es : List AuditRecord) → a ≤ b → Rising b high es → Rising a high es
Rising-weaken a b high [] p h = omega arith
Rising-weaken a b high (e ∷ es) p h = (omega arith, h.1)

delete_older-Rising :
    (low high : ℕ) (es : List AuditRecord) (ts : ℕ)
    → Rising low high es
    → Rising low high (delete_older es ts)
unfolding delete_older
delete_older-Rising low high [] ts h = h
delete_older-Rising low high (e ∷ es) ts h =
    if-cases (Rising low high) (ltb e.ts ts) _ _
      (λ _.
        Rising-weaken low (suc e.id) high _ (omega arith)
          (delete_older-Rising (suc e.id) high es ts h.1))
      (λ _. (h.0, delete_older-Rising (suc e.id) high es ts h.1))

step-HasRisingIds : (s : AuditStore) (c : Call) → HasRisingIds s → HasRisingIds (step s c)
unfolding step record_event delete_older_than
step-HasRisingIds s (records e) h = Rising-append 0 s.next_id s.events _ h refl
step-HasRisingIds s (deletes_older_than ts) h = delete_older-Rising 0 s.next_id s.events ts h

-- After any recording and purging the identifiers rise strictly along the log and stay below the next
-- one, so none is given out twice.
pub run-HasRisingIds : (s : AuditStore) (cs : List Call) → HasRisingIds s → HasRisingIds (run s cs)
unfolding run
run-HasRisingIds s [] h = h
run-HasRisingIds s (c ∷ cs) h = run-HasRisingIds (step s c) cs (step-HasRisingIds s c h)
