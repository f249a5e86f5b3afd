-- ===== src/Tests/Workspace.antt =====
-- Workspace paths at a concrete request.
use openclaw_managed_agents.Prelude.{String, refl}
use openclaw_managed_agents.Router.Workspace.{
  resolve_workspace_path, resolved, agent_root, cleaned, split, drop_slashes, has_code, join,
}
use openclaw_managed_agents.Router.Workspace.Confinement.{IsConfined, resolve_workspace_path_lem}

abbrev home : String
home = agent_root "/state" "a1" "s1"

resolve_workspace_path_example :
    IsConfined home "/notes/./today.md"
      (resolved home "/notes/./today.md").0
      (resolved home "/notes/./today.md").1
unfolding resolve_workspace_path cleaned split drop_slashes has_code join
resolve_workspace_path_example =
    resolve_workspace_path_lem "/state" "a1" "s1" "/notes/./today.md"
      (resolved home "/notes/./today.md").0 (resolved home "/notes/./today.md").1 refl
