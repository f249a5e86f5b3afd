-- ===== src/Sessions/Billing.antt =====
-- What the charges and the turns of one session add up to.
use openclaw_managed_agents.Prelude.{
  ℕ, ◌+◌, String, ◌≡◌, Bool, true, not, Option, none, some, List, [], ◌∷◌, arith, str_eq,
  if◌then◌else◌, get_or, All,
}
use openclaw_managed_agents.Types.{Session, RunUsage}
use openclaw_managed_agents.JsMap
use openclaw_managed_agents.Sessions.{SessionStore}
use openclaw_managed_agents.Sessions.History.{
  Call, creates, deletes, succeeds, adds_usage, bumps_turns, run, effect, effects, get-run,
}

-- The calls under which the session keeps its identity.
abbrev pub keeps : String → Call → Bool
keeps id (creates args fresh now) = not (str_eq (get_or args.session_id fresh) id)
keeps id (deletes k) = not (str_eq k id)
keeps id _ = true

abbrev no_usage : RunUsage
no_usage = record { tokens_in = 0; tokens_out = 0; cost_usd = 0 }

-- What a call charges the session.
abbrev pub usage_of : String → Call → RunUsage
usage_of id (succeeds k u now) = if str_eq k id then u else no_usage
usage_of id (adds_usage k u now) = if str_eq k id then u else no_usage
usage_of id _ = no_usage

abbrev plus : RunUsage → RunUsage → RunUsage
plus u v = record {
  tokens_in = u.tokens_in + v.tokens_in;
  tokens_out = u.tokens_out + v.tokens_out;
  cost_usd = u.cost_usd + v.cost_usd;
}

abbrev pub total : String → List Call → RunUsage
total id [] = no_usage
total id (c ∷ cs) = plus (usage_of id c) (total id cs)

abbrev bump_of : String → Call → ℕ
bump_of id (bumps_turns k now) = if str_eq k id then 1 else 0
bump_of id _ = 0

abbrev pub bumps : String → List Call → ℕ
bumps id [] = 0
bumps id (c ∷ cs) = bump_of id c + bumps id cs

-- `after` is `before` with `n` more turns and the charges `u`, and the same identity.
pub record Billed (u : RunUsage) (n : ℕ) (before after : Session) : Type 0 where
  pub tokens_in : after.tokens_in ≡ before.tokens_in + u.tokens_in
  pub tokens_out : after.tokens_out ≡ before.tokens_out + u.tokens_out
  pub cost_usd : after.cost_usd ≡ before.cost_usd + u.cost_usd
  pub turns : after.turns ≡ before.turns + n
  pub agent_id : after.agent_id ≡ before.agent_id
  pub created_at : after.created_at ≡ before.created_at
  pub vault_id : after.vault_id ≡ before.vault_id

abbrev pub BilledTo : RunUsage → ℕ → Session → Option Session → Type 0
BilledTo u n s none = ⊥
BilledTo u n s (some s') = Billed u n s s'

effect-Billed :
    (c : Call) (id : String) (s : Session)
    → keeps id c ≡ true
    → BilledTo (usage_of id c) (bump_of id c) s (effect c id (some s))
unfolding effect
effect-Billed (creates args fresh now) id s h = ground arith
effect-Billed _ id s h = ground arith

Billed-trans :
    (u v : RunUsage) (n k : ℕ) (s t : Session) (o : Option Session)
    → Billed u n s t
    → BilledTo v k t o
    → BilledTo (plus u v) (n + k) s o
Billed-trans u v n k s t none h j = j
Billed-trans u v n k s t (some r) h j = ground arith

effects-Billed :
    (cs : List Call) (id : String) (s : Session)
    → All (λ c. keeps id c ≡ true) cs
    → BilledTo (total id cs) (bumps id cs) s (effects cs id (some s))
unfolding effects
effects-Billed [] id s h = ground arith
effects-Billed (c ∷ cs) id s h =
    go (effect c id (some s)) (effect-Billed c id s h.0) (λ t. effects-Billed cs id t h.1)
  where
    go :
        (o : Option Session)
        → BilledTo (usage_of id c) (bump_of id c) s o
        → ((t : Session) → BilledTo (total id cs) (bumps id cs) t (effects cs id (some t)))
        → BilledTo (total id (c ∷ cs)) (bumps id (c ∷ cs)) s (effects cs id o)
    go none b ih = absurd b
    go (some t) b ih = Billed-trans _ _ _ _ s t (effects cs id (some t)) b (ih t)

-- Over any history that neither deletes a session nor creates it anew, its token and cost totals
-- grow by exactly the sum of the usage that its finished turns reported, its turn counter by the
-- number of turns, and its agent, creation time and vault stay.
pub run-Billed :
    (m : SessionStore) (cs : List Call) (id : String) (s : Session)
    → All (λ c. keeps id c ≡ true) cs
    → JsMap.get m id ≡ some s
    → BilledTo (total id cs) (bumps id cs) s (JsMap.get (run m cs) id)
run-Billed m cs id s h e = rw (get-run, e) (effects-Billed cs id s h)
