-- ===== src/Server/Subagents.antt =====
-- A session that an agent in a container creates.
use openclaw_managed_agents.Prelude.{
  ℕ, suc, ◌-◌, ◌<◌, String, ◌≡◌, refl, sym, ap, ◌∙◌, ◌≢◌, inl, inr, true, false, Option, none, some,
  List, [], ◌∷◌, arith, nat_eq, Bool-cases,
}
use openclaw_managed_agents.Types.{Session}
use openclaw_managed_agents.Types.Agent.{AgentConfig}
use openclaw_managed_agents.Agents
use openclaw_managed_agents.Auth.{Identity}
use openclaw_managed_agents.Base64.{Text}
use openclaw_managed_agents.ParentToken.{
  ParentTokenPayload, Node, Verified, invalid, throws, valid, verify,
}
use openclaw_managed_agents.ParentToken.Signed.{IsGenuine, verify_valid}
use openclaw_managed_agents.Router.State.{Router, Result, ok, err}
use openclaw_managed_agents.Router.Sessions.{create_session}
use openclaw_managed_agents.Router.Sessions.Quotas.{IsAllowed, create_session_lem}
use openclaw_managed_agents.Server.{
  CreateSessionRequest, permits, grant_of, created, lacks_environment, reply_of, parent_grant,
  options, create_for, answer_grant, post_session, get_user_id,
}

module _ (node : Node) (read : Text → String) where
  -- The session is a child that a parent's token allows.
  pub record IsChild (secret : List ℕ) (header : Text) (body : CreateSessionRequest)
      (who : Identity) (now : ℕ) (s : Session) : Type 0 where
    pub parent : ParentTokenPayload
    pub genuine : IsGenuine node secret header parent
    pub live : now < parent.expires_at
    pub permitted : permits parent body.agent_id ≡ true
    pub depth : suc s.remaining_subagent_depth ≡ parent.remaining_depth
    pub agent : s.agent_id ≡ body.agent_id
    pub parent_is : s.parent_session_id ≡ some (read parent.parent_session_id)
    pub owner : s.user_id ≡ get_user_id who

  reply_ok :
      (r : Router) (x : Result (Session × Router)) (s : Session) (r' : Router)
      → reply_of r x ≡ (created s, r')
      → x ≡ ok (s, r')
  reply_ok r (ok x) s r' e = ground arith
  reply_ok r (err w) s r' e = absurd (ground arith)

  module _ (r : Router) (secret : List ℕ) (body : CreateSessionRequest) (who : Identity)
      (header : Text) (fresh : String) (now : ℕ) (s : Session) (r' : Router) where
    created_by :
        (p : ParentTokenPayload)
        → create_for node read r body who (some p) fresh now ≡ (created s, r')
        → create_session r body.agent_id (options node read body who (some p)) fresh now
          ≡ ok (s, r')
    created_by p e = elim (Bool-cases (lacks_environment r body.environment_id)) [
      | inl y ↦ absurd (ground arith)
      | inr n ↦
          reply_ok r
            (create_session r body.agent_id (options node read body who (some p)) fresh now) s r'
            (ground arith)
    ]

    one_less : (d n : ℕ) → nat_eq n 0 ≡ false → d ≡ n - 1 → suc d ≡ n
    one_less d n h e = ground (arith, h, e)

    depth_of :
        (p : ParentTokenPayload) (o : Option AgentConfig)
        → nat_eq p.remaining_depth 0 ≡ false
        → IsAllowed o s r (options node read body who (some p))
        → suc s.remaining_subagent_depth ≡ p.remaining_depth
    depth_of p none h a = absurd a
    depth_of p (some agent) h a = one_less s.remaining_subagent_depth p.remaining_depth h a.2

    child :
        (p : ParentTokenPayload)
        → verify node secret header now ≡ valid p
        → permits p body.agent_id ≡ true
        → nat_eq p.remaining_depth 0 ≡ false
        → create_for node read r body who (some p) fresh now ≡ (created s, r')
        → IsChild secret header body who now s
    child p v m d e =
        let g = verify_valid node secret header now p v in
        let b =
          create_session_lem r body.agent_id (options node read body who (some p)) fresh now s r'
            (created_by p e) in
        record {
          parent = p;
          genuine = g.0;
          live = g.1;
          permitted = m;
          depth = depth_of p (Agents.get r.agents body.agent_id) d b.1;
          agent = b.0.0;
          parent_is = b.0.1;
          owner = b.0.2;
        }

    granted :
        (v : Verified)
        → verify node secret header now ≡ v
        → answer_grant node read r body who (grant_of body.agent_id v) fresh now ≡ (created s, r')
        → IsChild secret header body who now s
    granted invalid e h = absurd (ground arith)
    granted throws e h = absurd (ground arith)
    granted (valid p) e h = elim (Bool-cases (permits p body.agent_id)) [
      | inr n ↦ absurd (ground arith)
      | inl y ↦ elim (Bool-cases (nat_eq p.remaining_depth 0)) [
        | inl z ↦ absurd (ground arith)
        | inr d ↦ child p e y d (ground arith)
      ]
    ]

  -- A header that is not empty is verified.
  pub parent_grant-verify :
      (secret : List ℕ) (agent_id : String) (header : Text) (now : ℕ)
      → header ≢ []
      → parent_grant node read secret agent_id (some header) now
        ≡ grant_of agent_id (verify node secret header now)
  unfolding parent_grant
  parent_grant-verify secret agent_id [] now n = absurd (n refl)
  parent_grant-verify secret agent_id (c ∷ t) now n = refl

  -- A session that is created with a parent's token was allowed by it: the token was signed here and has not expired, the agent is
  -- on its list, and the session may nest one level less than the token; it is the child of the token's session.
  pub post_session-IsChild :
      (r : Router) (secret : List ℕ) (body : CreateSessionRequest) (who : Identity) (header : Text)
      (fresh : String) (now : ℕ) (s : Session) (r' : Router)
      → header ≢ []
      → post_session node read r secret body who (some header) fresh now ≡ (created s, r')
      → IsChild secret header body who now s
  unfolding post_session
  post_session-IsChild r secret body who header fresh now s r' n h =
      granted r secret body who header fresh now s r' (verify node secret header now) refl (
        ap (λ g. answer_grant node read r body who g fresh now)
          (sym (parent_grant-verify secret body.agent_id header now n))
        ∙ h)
