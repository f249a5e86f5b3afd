-- ===== src/Agents/Versions.antt =====
-- The history of an agent: the numbers of its versions, its last entry, and its growth.
use mathlib.Core.Path.{subst}
use mathlib.Core.List.{append-nil, append_assoc}
use openclaw_managed_agents.Prelude.{
  ℕ, suc, ◌+◌, String, ◌≡◌, refl, sym, ◌∙◌, inl, inr, Bool, true, not, Option, none, some, List, [],
  ◌∷◌, ◌++◌, arith, eq_iff, str_eq, if◌then◌else◌, Bool-cases, length, All, length-append,
}
use openclaw_managed_agents.JsMap
use openclaw_managed_agents.JsMap.{map_laws}
use openclaw_managed_agents.Types.Agent.{AgentConfig, CreateAgentRequest, UpdateAgentRequest}
use openclaw_managed_agents.Agents.{
  AgentStore, create, delete, update, archive, archive_current, new_agent, list_versions,
}
use openclaw_managed_agents.Agents.Updates.{
  template, update-Outcome, Outcome, missing, stale, same, written,
}

pub data Call : Type 0 where
  creates : CreateAgentRequest → String → ℕ → Call
  updates : String → UpdateAgentRequest → ℕ → Call
  archives : String → ℕ → ℕ → Call
  deletes : String → Call

unfoldable pub step : AgentStore → Call → AgentStore
step s (creates req fresh now) = (create s req fresh now).1
step s (updates id req now) = (update s id req now).1
step s (archives id archived updated_at) = (archive s id archived updated_at).1
step s (deletes id) = (delete s id).1

unfoldable pub run : AgentStore → List Call → AgentStore
run s [] = s
run s (c ∷ cs) = run (step s c) cs

-- `version` counts up by one from `n`, and every entry belongs to the agent.
abbrev pub Numbered : String → ℕ → List AgentConfig → Type 0
Numbered id n [] = Unit
Numbered id n (a ∷ h) = (a.version ≡ n) × (a.agent_id ≡ id) × Numbered id (suc n) h

-- The last entry has the content of `a`.
abbrev pub EndsWith : AgentConfig → List AgentConfig → Type 0
EndsWith a [] = ⊥
EndsWith a (b ∷ []) = template b ≡ template a
EndsWith a (b ∷ c ∷ h) = EndsWith a (c ∷ h)

pub record IsHistory (id : String) (a : AgentConfig) (h : List AgentConfig) : Type 0 where
  pub owned : a.agent_id ≡ id
  pub numbered : Numbered id 1 h
  pub current : length h ≡ a.version
  pub last : EndsWith a h

abbrev pub HistoryAt : String → Option AgentConfig → Option (List AgentConfig) → Type 0
HistoryAt id none none = Unit
HistoryAt id (some a) (some h) = IsHistory id a h
HistoryAt id _ _ = ⊥

abbrev pub IsVersioned : AgentStore → Type 0
IsVersioned s = (id : String) → HistoryAt id (JsMap.get s.agents id) (JsMap.get s.versions id)

Numbered-append :
    (id : String) (n : ℕ) (h : List AgentConfig) (a : AgentConfig)
    → Numbered id n h
    → a.agent_id ≡ id
    → a.version ≡ n + length h
    → Numbered id n (h ++ a ∷ [])
Numbered-append id n [] a k o v = (omega arith, o, tt)
Numbered-append id n (b ∷ h) a k o v =
    (k.0, k.1, Numbered-append id (suc n) h a k.2 o (omega arith))

EndsWith-append :
    (a b : AgentConfig) (h : List AgentConfig) → template b ≡ template a → EndsWith a (h ++ b ∷ [])
EndsWith-append a b [] e = e
EndsWith-append a b (c ∷ []) e = e
EndsWith-append a b (c ∷ d ∷ h) e = EndsWith-append a b (d ∷ h) e

EndsWith-same :
    (a b : AgentConfig) (h : List AgentConfig)
    → template a ≡ template b
    → EndsWith a h
    → EndsWith b h
EndsWith-same a b [] e k = k
EndsWith-same a b (c ∷ []) e k = k ∙ e
EndsWith-same a b (c ∷ d ∷ h) e k = EndsWith-same a b (d ∷ h) e k

IsHistory-of :
    (id : String) (a : AgentConfig) (o : Option AgentConfig) (p : Option (List AgentConfig))
    → HistoryAt id o p
    → o ≡ some a
    → (h : List AgentConfig) × (p ≡ some h) × IsHistory id a h
IsHistory-of id a none p k e = cc
IsHistory-of id a (some b) none k e = absurd k
IsHistory-of id a (some b) (some h) k e = (h, refl, subst (λ c. IsHistory id c h) (ground arith) k)

-- A write at the key `k` of both maps.
HistoryAt-set :
    (k j : String) (o o' : Option AgentConfig) (p p' : Option (List AgentConfig))
    → HistoryAt j o p
    → HistoryAt k o' p'
    → HistoryAt j (if str_eq k j then o' else o) (if str_eq k j then p' else p)
HistoryAt-set k j o o' p p' old new = elim (Bool-cases (str_eq k j)) [
  | inl e ↦ rw e (subst (λ i. HistoryAt i o' p') ((eq_iff k j).0 e) new)
  | inr e ↦ rw e old
]

create-IsVersioned :
    (s : AgentStore) (req : CreateAgentRequest) (fresh : String) (now : ℕ)
    → IsVersioned s
    → IsVersioned (create s req fresh now).1
unfolding create
create-IsVersioned s req fresh now h j = simp map_laws (
    HistoryAt-set fresh j _ (some (new_agent req fresh now)) _ (some (new_agent req fresh now ∷ []))
      (h j) (record { owned = refl; numbered = (refl, refl, tt); current = refl; last = refl }))

delete-IsVersioned : (s : AgentStore) (id : String) → IsVersioned s → IsVersioned (delete s id).1
unfolding delete
delete-IsVersioned s id h j = simp map_laws (HistoryAt-set id j _ none _ none (h j) tt)

Outcome-IsVersioned :
    {s : AgentStore} {id : String} {req : UpdateAgentRequest} {now : ℕ}
    {r : Option AgentConfig × AgentStore}
    → Outcome s id req now r
    → IsVersioned s
    → IsVersioned r.1
Outcome-IsVersioned (missing e) h j = h j
Outcome-IsVersioned (stale a e v) h j = h j
Outcome-IsVersioned (same a _ e v _ t) h j = h j
Outcome-IsVersioned {s} {id} (written a b s' e v q t c) h j =
    let (old, at, k) = IsHistory-of id a _ _ (h id) e in
    rw (c.agents_are j, c.versions_are j, at)
      (HistoryAt-set id j _ (some b) _ (some (old ++ b ∷ [])) (h j) (record {
        owned = q.agent_id_is ∙ k.owned;
        numbered =
            Numbered-append id 1 old b k.numbered (q.agent_id_is ∙ k.owned)
              (omega (arith, k.current, q.version_is));
        current = omega (arith, q.version_is, length-append old (b ∷ []), k.current);
        last = EndsWith-append b b old refl;
      }))

archive_current-IsVersioned :
    (s : AgentStore) (id : String) (archived updated_at : ℕ) (o : Option AgentConfig)
    → JsMap.get s.agents id ≡ o
    → IsVersioned s
    → IsVersioned (archive_current s id archived updated_at o).1
archive_current-IsVersioned s id archived updated_at none e h j = h j
archive_current-IsVersioned s id archived updated_at (some a) e h j =
    simp map_laws (elim (Bool-cases (str_eq id j)) [
      | inr n ↦ rw n (h j)
      | inl y ↦
          rw y
            (subst (λ i. HistoryAt i (some a') (JsMap.get s.versions i)) ((eq_iff id j).0 y) here)
    ])
  where
    a' : AgentConfig
    a' = record a { archived_at = some archived; updated_at = updated_at }

    here : HistoryAt id (some a') (JsMap.get s.versions id)
    here =
        let (old, at, k) = IsHistory-of id a _ _ (h id) e in
        rw at (record {
          owned = k.owned;
          numbered = k.numbered;
          current = k.current;
          last = EndsWith-same a a' old refl k.last;
        })

step-IsVersioned : (s : AgentStore) (c : Call) → IsVersioned s → IsVersioned (step s c)
unfolding step update archive
step-IsVersioned s (creates req fresh now) h = create-IsVersioned s req fresh now h
step-IsVersioned s (updates id req now) h = Outcome-IsVersioned (update-Outcome s id req now) h
step-IsVersioned s (archives id archived updated_at) h =
    archive_current-IsVersioned s id archived updated_at (JsMap.get s.agents id) refl h
step-IsVersioned s (deletes id) h = delete-IsVersioned s id h

-- After any calls from a store in that state, each agent has its versions numbered from 1 to the
-- current one without a gap, all under its own identifier, the last with the current content.
pub run-IsVersioned : (s : AgentStore) (cs : List Call) → IsVersioned s → IsVersioned (run s cs)
unfolding run
run-IsVersioned s [] h = h
run-IsVersioned s (c ∷ cs) h = run-IsVersioned (step s c) cs (step-IsVersioned s c h)

-- The calls that neither delete the agent nor create it anew.
abbrev pub keeps : String → Call → Bool
keeps id (creates req fresh now) = not (str_eq fresh id)
keeps id (deletes k) = not (str_eq k id)
keeps id _ = true

-- `longer` is `shorter` with more entries at its end.
abbrev pub Extends : List AgentConfig → List AgentConfig → Type 0
Extends shorter longer = (more : List AgentConfig) × (longer ≡ shorter ++ more)

Extends-refl : (h : List AgentConfig) → Extends h h
Extends-refl h = ([], sym (append-nil h))

Extends-trans : (a b c : List AgentConfig) → Extends a b → Extends b c → Extends a c
Extends-trans a b c (x, p) (y, q) = (x ++ y, rw (q, p, append_assoc))

Outcome-Extends :
    {s : AgentStore} {id : String} {req : UpdateAgentRequest} {now : ℕ}
    {r : Option AgentConfig × AgentStore} (k : String)
    → Outcome s id req now r
    → Extends (list_versions s k) (list_versions r.1 k)
unfolding list_versions
Outcome-Extends k (missing e) = Extends-refl _
Outcome-Extends k (stale a e v) = Extends-refl _
Outcome-Extends k (same a _ e v _ t) = Extends-refl _
Outcome-Extends {s} {id} k (written a b s' e v q t c) = elim (Bool-cases (str_eq id k)) [
  | inl y ↦ (b ∷ [], rw (c.versions_are k) (ground (arith, eq_iff id k)))
  | inr n ↦ ([], rw (c.versions_are k, append-nil) (ground arith))
]

archive_current-versions :
    (s : AgentStore) (id : String) (archived updated_at : ℕ) (o : Option AgentConfig)
    → (archive_current s id archived updated_at o).1.versions ≡ s.versions
archive_current-versions s id archived updated_at none = refl
archive_current-versions s id archived updated_at (some a) = refl

step-Extends :
    (s : AgentStore) (c : Call) (id : String)
    → keeps id c ≡ true
    → Extends (list_versions s id) (list_versions (step s c) id)
unfolding step update list_versions create delete archive
step-Extends s (creates req fresh now) id h = ([], simp (map_laws, append-nil) (ground arith))
step-Extends s (updates k req now) id h = Outcome-Extends id (update-Outcome s k req now)
step-Extends s (archives k archived updated_at) id h = rw archive_current-versions (Extends-refl _)
step-Extends s (deletes k) id h = ([], simp (map_laws, append-nil) (ground arith))

-- The history of an agent only grows at its end: while the agent is neither deleted nor created anew,
-- no call changes or removes a version that was once listed.
pub run-Extends :
    (s : AgentStore) (cs : List Call) (id : String)
    → All (λ c. keeps id c ≡ true) cs
    → Extends (list_versions s id) (list_versions (run s cs) id)
unfolding run
run-Extends s [] id h = Extends-refl _
run-Extends s (c ∷ cs) id h =
    Extends-trans _ _ _ (step-Extends s c id h.0) (run-Extends (step s c) cs id h.1)
