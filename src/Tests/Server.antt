-- ===== src/Tests/Server.antt =====
-- The session routes at concrete requests.
use openclaw_managed_agents.Prelude.{
  String, ◌≡◌, refl, sym, ap, ◌∙◌, ◌≢◌, false, none, some, [], ◌∷◌, arith,
}
use openclaw_managed_agents.JsMap
use openclaw_managed_agents.Types.{Session, idle}
use openclaw_managed_agents.Agents
use openclaw_managed_agents.Sessions
use openclaw_managed_agents.Auth.{Identity, nobody, user}
use openclaw_managed_agents.Types.Vault.{anonymous}
use openclaw_managed_agents.Base64.{Text}
use openclaw_managed_agents.ParentToken.{
  MintInput, ParentTokenPayload, payload_of, mint, verify, Verified, valid, invalid,
}
use openclaw_managed_agents.ParentToken.Signed.{verify-mint}
use openclaw_managed_agents.Router.State.{Router}
use openclaw_managed_agents.Router.Sessions.{create_session}
use openclaw_managed_agents.Server.{
  CreateSessionRequest, codes, created, grant_of, answer_grant, post_session, get_user_id,
  get_scoped_session, list_sessions, delete_session,
}
use openclaw_managed_agents.Server.Subagents.{IsChild, parent_grant-verify, post_session-IsChild}
use openclaw_managed_agents.Server.Scopes.{view, answers-view}
use openclaw_managed_agents.Server.Idempotency.{
  JsonReply, EventReplies, replays, post_event, end_execution, posts, ends, run,
}
use openclaw_managed_agents.Server.Idempotency.Replays.{post_event-replays}
use openclaw_managed_agents.Tests.Router.{router}
use openclaw_managed_agents.Tests.Tokens.{node, node-IsNode, secret}

abbrev input : MintInput
input = record {
  parent_session_id = codes "s1";
  parent_agent_id = codes "a0";
  allowlist = codes "a1" ∷ [];
  remaining_depth = 2;
  ttl_ms = some 9;
}

-- A header of text that is read as one session's id.
abbrev read : Text → String
read t = "s1"

abbrev header : Text
header = mint node secret input 1

abbrev body : CreateSessionRequest
body = record { agent_id = "a1"; environment_id = none; vault_id = none }

verified : verify node secret header 5 ≡ valid (payload_of node input 1)
verified = verify-mint node node-IsNode secret input 1 5

not_empty : header ≢ []
unfolding verify
not_empty e = differ (payload_of node input 1) (sym verified ∙ ap (λ t. verify node secret t 5) e)
  where
    differ : (p : ParentTokenPayload) → ◌≡◌ {A = Verified} (valid p) invalid → ⊥
    differ p h = ground arith

abbrev child : Session
child = record {
  session_id = "s2";
  agent_id = "a1";
  environment_id = none;
  status = idle;
  ephemeral = false;
  remaining_subagent_depth = 1;
  turns = 0;
  tokens_in = 0;
  tokens_out = 0;
  cost_usd = 0;
  error = none;
  created_at = 5;
  last_event_at = none;
  vault_id = none;
  parent_session_id = some "s1";
  user_id = none;
}

abbrev after : Router
after = record (router idle) { sessions = JsMap.set (router idle).sessions "s2" child }

answered :
    post_session node read (router idle) secret body nobody (some header) "s2" 5
    ≡ (created child, after)
unfolding post_session create_session Sessions.create Agents.get JsMap.get get_user_id
answered =
    ap (λ g. answer_grant node read (router idle) body nobody g "s2" 5)
      (parent_grant-verify node read secret "a1" header 5 not_empty ∙ ap (grant_of "a1") verified)

post_session_example : IsChild node read secret header body nobody 5 child
post_session_example =
    post_session-IsChild node read (router idle) secret body nobody header "s2" 5 child after
      not_empty answered

abbrev stranger : Identity
stranger = user "u2" anonymous

answers-view_example :
    (get_scoped_session (view (router idle) stranger) stranger "s1"
      ≡ get_scoped_session (router idle) stranger "s1")
    × ((list_sessions (view (router idle) stranger) stranger ≡ list_sessions (router idle) stranger)
        × ((delete_session (view (router idle) stranger) stranger "s1").0
            ≡ (delete_session (router idle) stranger "s1").0))
unfolding JsMap.get
answers-view_example = answers-view (router idle) stranger "s1" (refl, tt)

abbrev replies : EventReplies
replies = record { cache = []; inflight = "s1:k1" ∷ []; started = "s1:k1" ∷ [] }

abbrev accepted : JsonReply
accepted = record { status = 200; body = "queued" }

post_event_example :
    (post_event
      (run
        (end_execution replies "s1:k1" accepted 10)
        (posts "s1:k2" 20 ∷ ends "s1:k2" accepted 30 ∷ []))
      "s1:k1"
      300009).0
    ≡ replays accepted
post_event_example =
    post_event-replays replies "s1:k1" accepted 10
      (posts "s1:k2" 20 ∷ ends "s1:k2" accepted 30 ∷ []) 300009 refl refl (omega arith, tt)
      (omega arith)
