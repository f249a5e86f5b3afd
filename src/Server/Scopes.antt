-- ===== src/Server/Scopes.antt =====
-- What a user finds out about the sessions of others.
use openclaw_managed_agents.Prelude.{
  String, ◌≡◌, refl, sym, ap, ◌∙◌, inl, inr, Bool, true, false, Option, none, some, [], ◌∷◌, arith,
  eq_iff, str_eq, if◌then◌else◌, Bool-cases, filter,
}
use openclaw_managed_agents.JsMap
use openclaw_managed_agents.JsMap.{JsMap}
use openclaw_managed_agents.JsMap.Distinct.{IsDistinct}
use openclaw_managed_agents.Types.{Session}
use openclaw_managed_agents.Auth.{Identity}
use openclaw_managed_agents.Sessions
use openclaw_managed_agents.Router.State.{Router}
use openclaw_managed_agents.Server.{
  get_user_id, may_see, scoped, get_scoped_session, list_sessions, delete_scoped, delete_session,
}

-- A router with only the sessions that an identity may see.
abbrev pub view : Router → Identity → Router
view r who = record r { sessions = filter (λ e. may_see (get_user_id who) e.1) r.sessions }

get-filter :
    (u : Option String) (m : JsMap Session) (k : String)
    → IsDistinct m
    → JsMap.get (filter (λ e. may_see u e.1) m) k ≡ scoped u (JsMap.get m k)
unfolding JsMap.get
get-filter u [] k h = refl
get-filter u ((j, s) ∷ m) k h = by_test (may_see u s) (str_eq j k) refl refl (get-filter u m k h.1)
  where
    by_test :
        (b c : Bool)
        → may_see u s ≡ b
        → str_eq j k ≡ c
        → JsMap.get (filter (λ e. may_see u e.1) m) k ≡ scoped u (JsMap.get m k)
        → JsMap.get
            (if b then (j, s) ∷ filter (λ e. may_see u e.1) m else filter (λ e. may_see u e.1) m)
            k
          ≡ scoped u (if c then some s else JsMap.get m k)
    by_test true true e d ih = rw (d, e) refl
    by_test true false e d ih = rw d ih
    by_test false false e d ih = ih
    by_test false true e d ih =
        rw e (ih ∙ ap (scoped u) (ap (JsMap.get m) (sym (ground (arith, eq_iff j k))) ∙ h.0))

scoped_twice : (u : Option String) (o : Option Session) → scoped u (scoped u o) ≡ scoped u o
scoped_twice u none = refl
scoped_twice u (some s) = elim (Bool-cases (may_see u s)) [
  | inl y ↦ rw (y, y) refl
  | inr n ↦ rw n refl
]

filter-values :
    (u : Option String) (m : JsMap Session)
    → filter (may_see u) (JsMap.values (filter (λ e. may_see u e.1) m))
      ≡ filter (may_see u) (JsMap.values m)
filter-values u [] = refl
filter-values u ((j, s) ∷ m) = elim (Bool-cases (may_see u s)) [
  | inl y ↦ rw (y, y) (ap (λ ss. s ∷ ss) (filter-values u m))
  | inr n ↦ rw n (filter-values u m)
]

get_scoped-view :
    (r : Router) (who : Identity) (session_id : String)
    → IsDistinct r.sessions
    → get_scoped_session (view r who) who session_id ≡ get_scoped_session r who session_id
unfolding get_scoped_session Sessions.get
get_scoped-view r who session_id h =
    let u = get_user_id who in
    ap (scoped u) (get-filter u r.sessions session_id h)
    ∙ scoped_twice u (JsMap.get r.sessions session_id)

found_same :
    (r q : Router) (session_id : String) (o : Option Session)
    → (delete_scoped q session_id o).0 ≡ (delete_scoped r session_id o).0
found_same r q session_id none = refl
found_same r q session_id (some s) = refl

-- What a caller is answered depends on no session that it may not see: a lookup, the list and a deletion give the same as if
-- the others' sessions did not exist.
pub answers-view :
    (r : Router) (who : Identity) (session_id : String)
    → IsDistinct r.sessions
    → (get_scoped_session (view r who) who session_id ≡ get_scoped_session r who session_id)
      × ((list_sessions (view r who) who ≡ list_sessions r who)
          × ((delete_session (view r who) who session_id).0 ≡ (delete_session r who session_id).0))
unfolding list_sessions delete_session Sessions.list
answers-view r who session_id h =
    let g = get_scoped-view r who session_id h in
    (
      g,
      (
        filter-values (get_user_id who) r.sessions,
        ap (λ o. (delete_scoped (view r who) session_id o).0) g
            ∙ found_same r (view r who) session_id (get_scoped_session r who session_id),
      ),
    )
