-- ===== src/Users/Expiry.antt =====
-- The sweep of expired trials.
use openclaw_managed_agents.Prelude.{
  ℕ, ◌+◌, ◌≤◌, String, ◌≡◌, refl, ◌⊎◌, false, not, Option, none, some, [], ◌∷◌, arith, eq_refl,
  length, filter,
}
use openclaw_managed_agents.JsMap
use openclaw_managed_agents.JsMap.{JsMap, map_laws, values}
use openclaw_managed_agents.Types.Vault.{User, UserTier, anonymous, github}
use openclaw_managed_agents.Users.{
  UserStore, CreateUser, create, get, is_expired, trial_ms, delete_expired, linked, link,
  update_github, expired_by, trial_end,
}

-- A sweep keeps exactly the users whose trial has not run out, in their order, and reports how many
-- it removed.
pub delete_expired_lem :
    (m : UserStore) (now : ℕ)
    → (values (delete_expired m now).1 ≡ filter (λ u. not (is_expired now u)) (values m))
      × ((delete_expired m now).0 + length (delete_expired m now).1 ≡ length m)
unfolding delete_expired
delete_expired_lem [] now = (refl, refl)
delete_expired_lem ((id, u) ∷ m) now = ground (arith, delete_expired_lem m now)

survives :
    (m : UserStore) (now : ℕ) (id : String) (u : User)
    → JsMap.get m id ≡ some u
    → is_expired now u ≡ false
    → JsMap.get (delete_expired m now).1 id ≡ some u
unfolding delete_expired JsMap.get
survives [] now id u e h = ground arith
survives ((j, v) ∷ m) now id u e h = ground (arith, survives m now id u)

-- A user who is created at one time survives every sweep up to the end of the 24-hour trial, and one
-- who does not start a trial survives every sweep.
pub create-survives :
    (m : UserStore) (args : CreateUser) (id token : String) (now later : ℕ)
    → (args.tier ≡ github) ⊎ (later ≤ now + trial_ms)
    → get (delete_expired (create m args id token now).1 later).1 id
      ≡ some (create m args id token now).0
unfolding create get
create-survives m args id token now later h =
    survives _ later id _ (simp (map_laws, eq_refl)) (kept args.tier h)
  where
    kept :
        (t : UserTier)
        → (t ≡ github) ⊎ (later ≤ now + trial_ms)
        → expired_by later t (trial_end t now) ≡ false
    kept anonymous h = ground arith
    kept github h = ground arith

link-survives :
    (m : UserStore) (id : String) (github_id : ℕ) (name url : String) (u : User) (o : Option User)
    (later : ℕ)
    → o ≡ some u
    → JsMap.get (delete_expired (link m id github_id name url o).1 later).1 id
      ≡ some (linked u github_id name url)
link-survives m id github_id name url u none later e = cc
link-survives m id github_id name url u (some v) later e =
    survives _ later id _ (simp (map_laws, eq_refl) (ground arith)) refl

-- Once a user has signed in with GitHub, no later sweep removes the account, however old its trial is.
pub update_github-survives :
    (m : UserStore) (id : String) (github_id : ℕ) (name url : String) (u : User) (later : ℕ)
    → get m id ≡ some u
    → get (delete_expired (update_github m id github_id name url).1 later).1 id
      ≡ some (linked u github_id name url)
unfolding get update_github
update_github-survives m id github_id name url u later e =
    link-survives m id github_id name url u (JsMap.get m id) later e
