-- ===== src/Router/Runs/Schedule.antt =====
-- The event loop: the calls of clients and the resumptions of background tasks, in any order.
use openclaw_managed_agents.Prelude.{ℕ, String, ◌≡◌, refl, Option, none, some, List, [], ◌∷◌}
use openclaw_managed_agents.Types.{RunUsage}
use openclaw_managed_agents.Router.Sessions.{CreateOptions, create_session}
use openclaw_managed_agents.Router.State.{
  ◌>>=◌, Router, Task, Phase, acquiring, invoking, Result, ok, err, task_at,
}
use openclaw_managed_agents.Router.Runs.{
  RunEventArgs, run_event, after_acquire, after_turn, handle_background_failure, AbortResult,
  cancel, cancelled_session, dispose_session_runtime, delete_row,
}

-- `deletes` is the end of the deletion of a session, after `disposes` and the await of its eviction. `ends_cancel` is the rest of a `cancel` whose abort has taken its time, which does not look at the session
-- again.
pub data Action : Type 0 where
  posts : RunEventArgs → ℕ → Action
  acquires : ℕ → ℕ → Action
  completes : ℕ → RunUsage → ℕ → Action
  fails : ℕ → String → ℕ → Action
  cancels : String → AbortResult → ℕ → Action
  ends_cancel : String → ℕ → Action
  disposes : String → Action
  deletes : String → Action
  creates : String → CreateOptions → String → ℕ → Action

-- A call that throws leaves the router as it was.
abbrev pub settle {ℓ} : {A : Type ℓ} → Router → Result (A × Router) → Router
settle r (ok (a, r')) = r'
settle r (err e) = r

abbrev pub acquire_task : Router → ℕ → Task → Phase → Router
acquire_task r now t acquiring = after_acquire r t now
acquire_task r now t invoking = r

abbrev pub complete_task : Router → RunUsage → ℕ → Task → Phase → Router
complete_task r usage now t acquiring = r
complete_task r usage now t invoking = after_turn r t usage now

-- A task that is not there, or stands elsewhere, cannot go on in this way.
abbrev pub acquire_at : Router → ℕ → Option Task → Router
acquire_at r now none = r
acquire_at r now (some t) = acquire_task r now t t.phase

abbrev pub complete_at : Router → RunUsage → ℕ → Option Task → Router
complete_at r usage now none = r
complete_at r usage now (some t) = complete_task r usage now t t.phase

abbrev pub fail_at : Router → String → ℕ → Option Task → Router
fail_at r message now none = r
fail_at r message now (some t) = handle_background_failure r t message now

unfoldable pub step : Router → Action → Router
step r (posts args now) = settle r (run_event r args now)
step r (acquires i now) = acquire_at r now (task_at r.tasks i)
step r (completes i usage now) = complete_at r usage now (task_at r.tasks i)
step r (fails i message now) = fail_at r message now (task_at r.tasks i)
step r (cancels id ws now) = settle r (cancel r id ws now)
step r (ends_cancel id now) = (cancelled_session r id now).1
step r (disposes id) = dispose_session_runtime r id
step r (deletes id) = delete_row r id
step r (creates agent_id opts fresh now) = settle r (create_session r agent_id opts fresh now)

unfoldable pub run : Router → List Action → Router
run r [] = r
run r (a ∷ as') = run (step r a) as'

-- What holds of the router holds after a call that throws; so it is kept by a chain of steps if it is
-- kept wherever the chain gets to its end.
pub settle-bind {ℓ κ} :
    {A : Type ℓ} {B : Type 0} (P : Router → Type κ) (r : Router) (m : Result A)
    (f : A → Result (B × Router))
    → P r
    → ((a : A) → m ≡ ok a → P (settle r (f a)))
    → P (settle r (m >>= f))
settle-bind P r (ok a) f h k = k a refl
settle-bind P r (err e) f h k = h
