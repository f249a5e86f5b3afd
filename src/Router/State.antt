-- ===== src/Router/State.antt =====
-- The state of src/orchestrator/router.ts: the stores that it is given, its own tables, the background
-- tasks that are under way, and what it has asked of the container pool.
use openclaw_managed_agents.Prelude.{
  ◌≡◌, refl, arith, ℕ, String, Bool, true, false, not, Option, none, some, List, [], ◌∷◌, ◌++◌, map,
  nat_eq, str_eq, if◌then◌else◌, filter, find, any,
}
use openclaw_managed_agents.JsMap.{JsMap}
use openclaw_managed_agents.Types.Agent.{AgentConfig, EnvironmentConfig}
use openclaw_managed_agents.Agents.{AgentStore}
use openclaw_managed_agents.Sessions.{SessionStore}
use openclaw_managed_agents.Queue.{QueueStore}
use openclaw_managed_agents.Vaults.{VaultStore}

-- `RouterErrorCode`, with the kind of quota where the source counts it. Messages are not modelled.
pub data RouterError : Type 0 where
  agent_not_found agent_archived session_not_found session_busy session_not_running : RouterError
  capacity_exceeded no_active_container chat_completions_failed cancel_failed : RouterError
  compact_failed patch_failed confirm_tool_failed file_not_found invalid_path : RouterError
  vault_not_found credential_expired : RouterError
  quota_exceeded_cost quota_exceeded_tokens quota_exceeded_duration : RouterError

pub data Result {ℓ} (A : Type ℓ) : Type ℓ where
  ok : A → Result A
  err : RouterError → Result A

infixl 5 ◌>>=◌
abbrev pub ◌>>=◌ {ℓ} : {A : Type ℓ} {B : Type 0} → Result A → (A → Result B) → Result B
err why >>= next = err why
ok a >>= next = next a

-- `if (test) throw new RouterError(...)`.
abbrev pub throw_if : Bool → RouterError → Result (Unit {0})
throw_if true e = err e
throw_if false e = ok tt

-- A statement that may throw, and what comes after it.
infixl 5 ◌>>◌
abbrev pub ◌>>◌ : {B : Type 0} → Result (Unit {0}) → Result B → Result B
check >> after = check >>= λ _. after

abbrev pub found {ℓ} : {A : Type ℓ} → Option A → RouterError → Result A
found none e = err e
found (some a) e = ok a

pub record PendingApproval : Type 0 where
  pub approval_id : String
  pub session_id : String
  pub tool_name : String
  pub tool_call_id : Option String
  pub description : String
  pub arrived_at : ℕ

-- Where a background task or a stream stands: it waits for a container, or for the run to complete.
pub data Phase : Type 0 where
  acquiring invoking : Phase

pub record Task : Type 0 where
  pub task_id : ℕ
  pub session_id : String
  pub agent : AgentConfig
  pub content : String
  pub model : Option String
  pub thinking_level : Option String
  pub phase : Phase

pub record Router : Type 0 where
  pub agents : AgentStore
  pub environments : JsMap EnvironmentConfig
  pub sessions : SessionStore
  pub queue : QueueStore
  pub vaults : VaultStore
  pub pending_approvals : JsMap (List PendingApproval)
  pub cancelled_during_acquire : List String
  pub tasks : List Task
  pub next_task_id : ℕ
  pub evicted : List String

-- A `Set` of strings.
abbrev pub contains : List String → String → Bool
contains xs k = any (λ x. str_eq x k) xs

abbrev pub add : List String → String → List String
add xs k = if contains xs k then xs else xs ++ k ∷ []

abbrev pub remove : List String → String → List String
remove xs k = filter (λ x. not (str_eq x k)) xs

abbrev pub task_at : List Task → ℕ → Option Task
task_at ts i = find (λ t. nat_eq t.task_id i) ts

abbrev pub without_task : List Task → ℕ → List Task
without_task ts i = filter (λ t. not (nat_eq t.task_id i)) ts

abbrev pub advance_task : List Task → ℕ → List Task
advance_task ts i = map (λ t. if nat_eq t.task_id i then record t { phase = invoking } else t) ts

-- What a chain returns, it returns from the last step that it gets to.
pub bind_ok {ℓ} :
    {A : Type 0} {B : Type 0} (P : B → Type ℓ) (m : Result A) (f : A → Result B)
    → ((a : A) → m ≡ ok a → (b : B) → f a ≡ ok b → P b)
    → (b : B) → (m >>= f) ≡ ok b
    → P b
bind_ok P (ok a) f k b e = k a refl b e
bind_ok P (err x) f k b e = ground arith

pub ok_inj : {A : Type 0} {a b : A} → ok a ≡ ok b → a ≡ b
ok_inj e = ground arith
