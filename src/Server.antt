-- ===== src/Server.antt =====
-- src/orchestrator/server.ts: what the session routes allow, on top of the router. A request has passed the middlewares
-- and its body has been validated; `who` is the identity that the authentication gave it. Audit records and the warm-up in the
-- background are left out.
pub mod Subagents
pub mod Scopes
pub mod Idempotency
use openclaw_managed_agents.Prelude.{
  ℕ, ◌-◌, String, Bool, true, false, not, ◌&&◌, ◌||◌, Option, none, some, List, [], ◌∷◌, nat_eq,
  str_eq, if◌then◌else◌, is_some, filter, any,
}
use Prim.Native.Char.{code}
use Prim.Native.String
use openclaw_managed_agents.JsMap
use openclaw_managed_agents.Types.{Session}
use openclaw_managed_agents.Environments
use openclaw_managed_agents.Sessions
use openclaw_managed_agents.Auth.{Identity, nobody, admin, user}
use openclaw_managed_agents.Base64.{Text, texts_eq}
use openclaw_managed_agents.ParentToken.{
  ParentTokenPayload, Node, Verified, invalid, throws, valid, verify,
}
use openclaw_managed_agents.Router.State.{Router, RouterError, Result, ok, err}
use openclaw_managed_agents.Router.Sessions.{CreateOptions, create_session}
use openclaw_managed_agents.Router.Runs.{dispose_session_runtime, delete_row}

abbrev pub codes : String → Text
codes String.[] = []
codes (String.◌∷◌ c s) = code c ∷ codes s

unfoldable pub get_user_id : Identity → Option String
get_user_id nobody = none
get_user_id admin = none
get_user_id (user id tier) = some id

abbrev pub is_owned_by : String → Session → Bool
is_owned_by user_id s = elim s.user_id [ none ↦ false | some o ↦ str_eq o user_id ]

-- An empty user id counts as none.
abbrev pub may_see : Option String → Session → Bool
may_see none s = true
may_see (some u) s = str_eq u "" || is_owned_by u s

abbrev pub scoped : Option String → Option Session → Option Session
scoped u none = none
scoped u (some s) = if may_see u s then some s else none

unfoldable pub get_scoped_session : Router → Identity → String → Option Session
get_scoped_session r who session_id = scoped (get_user_id who) (Sessions.get r.sessions session_id)

-- GET /v1/sessions.
unfoldable pub list_sessions : Router → Identity → List Session
list_sessions r who = filter (may_see (get_user_id who)) (Sessions.list r.sessions)

-- DELETE /v1/sessions/:sessionId, where the runtime is torn down without an error; false for 404. Nothing else runs
-- here between the two stretches of a deletion; Router/Runs/Schedule has them as two actions.
abbrev pub delete_scoped : Router → String → Option Session → Bool × Router
delete_scoped r session_id none = (false, r)
delete_scoped r session_id (some s) =
    (true, delete_row (dispose_session_runtime r session_id) session_id)

unfoldable pub delete_session : Router → Identity → String → Bool × Router
delete_session r who session_id = delete_scoped r session_id (get_scoped_session r who session_id)

pub record CreateSessionRequest : Type 0 where
  pub agent_id : String
  pub environment_id : Option String
  pub vault_id : Option String

pub data Forbidden : Type 0 where
  invalid_parent_token agent_not_in_allowlist max_subagent_depth_reached : Forbidden

-- What the header says: no parent, a parent, or the answer to give at once.
pub data Grant : Type 0 where
  top_level : Grant
  child_of : ParentTokenPayload → Grant
  forbidden : Forbidden → Grant
  crashes : Grant

abbrev pub permits : ParentTokenPayload → String → Bool
permits p agent_id = any (λ a. texts_eq a (codes agent_id)) p.allowlist

abbrev pub grant_of : String → Verified → Grant
grant_of agent_id invalid = forbidden invalid_parent_token
grant_of agent_id throws = crashes
grant_of agent_id (valid p) =
    if not (permits p agent_id)
    then forbidden agent_not_in_allowlist
    else if nat_eq p.remaining_depth 0
    then forbidden max_subagent_depth_reached
    else child_of p

-- What the route answers with.
pub data Reply : Type 0 where
  created : Session → Reply
  denied : Forbidden → Reply
  environment_not_found crashed : Reply
  failed : RouterError → Reply

abbrev pub lacks_environment : Router → Option String → Bool
lacks_environment r none = false
lacks_environment r (some e) =
    not (str_eq e "") && not (is_some (Environments.get r.environments e))

abbrev pub reply_of : Router → Result (Session × Router) → Reply × Router
reply_of r (ok x) = (created x.0, x.1)
reply_of r (err e) = (failed e, r)

-- `read` is the string that a text is.
module _ (node : Node) (read : Text → String) where
  -- The header `x-openclaw-parent-token`; an empty one counts as none.
  unfoldable pub parent_grant : List ℕ → String → Option Text → ℕ → Grant
  parent_grant secret agent_id none now = top_level
  parent_grant secret agent_id (some []) now = top_level
  parent_grant secret agent_id (some (c ∷ t)) now =
      grant_of agent_id (verify node secret (c ∷ t) now)

  abbrev pub options : CreateSessionRequest → Identity → Option ParentTokenPayload → CreateOptions
  options body who parent = record {
    environment_id = body.environment_id;
    remaining_subagent_depth = elim parent [ none ↦ none | some p ↦ some (p.remaining_depth - 1) ];
    vault_id = body.vault_id;
    parent_session_id = elim parent [ none ↦ none | some p ↦ some (read p.parent_session_id) ];
    user_id = get_user_id who;
  }

  abbrev pub create_for :
      Router
      → CreateSessionRequest
      → Identity
      → Option ParentTokenPayload
      → String
      → ℕ
      → Reply × Router
  create_for r body who parent fresh now =
      if lacks_environment r body.environment_id
      then (environment_not_found, r)
      else reply_of r (create_session r body.agent_id (options body who parent) fresh now)

  abbrev pub answer_grant :
      Router → CreateSessionRequest → Identity → Grant → String → ℕ → Reply × Router
  answer_grant r body who top_level fresh now = create_for r body who none fresh now
  answer_grant r body who (child_of p) fresh now = create_for r body who (some p) fresh now
  answer_grant r body who (forbidden f) fresh now = (denied f, r)
  answer_grant r body who crashes fresh now = (crashed, r)

  -- POST /v1/sessions.
  unfoldable pub post_session :
      Router → List ℕ → CreateSessionRequest → Identity → Option Text → String → ℕ → Reply × Router
  post_session r secret body who header fresh now =
      answer_grant r body who (parent_grant secret body.agent_id header now) fresh now
