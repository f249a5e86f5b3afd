-- ===== src/Tests/Users.antt =====
-- The user store at concrete users.
use openclaw_managed_agents.Prelude.{ℕ, String, none, some, [], ◌∷◌}
use openclaw_managed_agents.Types.Vault.{User, anonymous}
use openclaw_managed_agents.Users.{UserStore, CreateUser}

abbrev visitor : String → ℕ → User
visitor id t = record {
  user_id = id;
  github_id = none;
  github_username = none;
  avatar_url = none;
  api_token = "t";
  tier = anonymous;
  created_at = 0;
  expires_at = some t;
}

abbrev users : UserStore
users = ("u1", visitor "u1" 100) ∷ ("u2", visitor "u2" 900) ∷ []

abbrev trial : CreateUser
trial = record { tier = anonymous; github_id = none; github_username = none; avatar_url = none }
