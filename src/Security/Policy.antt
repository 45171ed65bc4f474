-- ===== src/Security/Policy.antt =====
-- src/security/policy.cpp: the commands that may run and the paths that may be touched. The file
-- system is not modelled: `canonical` is `weakly_canonical`, with the message of its error,
-- `expand` is `expand_path` behind the conversion to a path, and paths are lists of components.
pub mod Paths
use ghostclaw.Base.{
  Bool, true, false, ◌&&◌, ◌||◌, not, List, [], ◌∷◌, ◌++◌, Option, none, some, if◌then◌else◌, null,
  take, reverse, ℕ, map,
}
use ghostclaw.Base.Text.{Bytes, codes, equal, mem, index_of, has_byte}
use ghostclaw.Common.{Result, ok, err, ◌>>=◌, ◌>>◌, guard, is_ok}
use ghostclaw.Common.Fs.{FilePath, trim, to_lower, is_subpath}
use ghostclaw.Security.ActionTracker.{ActionTracker, new_tracker}

pub data AutonomyLevel : Type 0 where
  read_only supervised full : AutonomyLevel

unfoldable pub autonomy_level_from_string : Bytes → Result AutonomyLevel
autonomy_level_from_string value =
    let normalized = to_lower (trim value) in
    if equal normalized (codes "readonly")
    then ok read_only
    else if equal normalized (codes "supervised")
    then ok supervised
    else if equal normalized (codes "full")
    then ok full
    else err (codes "Invalid autonomy level: " ++ value)

abbrev pub system_forbidden_paths : List Bytes
system_forbidden_paths =
    codes "/etc"
    ∷ codes "/var"
    ∷ codes "/root"
    ∷ codes "/proc"
    ∷ codes "/sys"
    ∷ codes "/dev"
    ∷ codes "~/.ssh"
    ∷ codes "~/.gnupg"
    ∷ codes "~/.aws"
    ∷ codes "~/.config/ghostclaw/secrets.key"
    ∷ []

pub record SecurityPolicy : Type 0 where
  pub autonomy : AutonomyLevel
  pub workspace_dir : FilePath
  pub workspace_only : Bool
  pub allowed_commands : List Bytes
  pub forbidden_paths : List Bytes
  pub max_actions_per_hour : ℕ
  pub max_cost_per_day_cents : ℕ
  pub tracker : ActionTracker

-- The section `autonomy` of the configuration.
pub record AutonomyConfig : Type 0 where
  pub level : Bytes
  pub workspace_only : Bool
  pub allowed_commands : List Bytes
  pub forbidden_paths : List Bytes
  pub max_actions_per_hour : ℕ
  pub max_cost_per_day_cents : ℕ

-- The system's paths are added where the configuration lacks them.
unfoldable pub add_system_paths : List Bytes → List Bytes → List Bytes
unfolding mem
add_system_paths paths [] = paths
add_system_paths paths (system_path ∷ rest) =
    add_system_paths (if mem system_path paths then paths else paths ++ system_path ∷ []) rest

unfoldable pub from_config : Result FilePath → AutonomyConfig → Result SecurityPolicy
unfolding add_system_paths
from_config workspace config = do
  level ← autonomy_level_from_string config.level
  workspace_dir ← workspace
  ok (record {
    autonomy = level;
    workspace_dir = workspace_dir;
    workspace_only = config.workspace_only;
    allowed_commands = config.allowed_commands;
    forbidden_paths = add_system_paths config.forbidden_paths system_forbidden_paths;
    max_actions_per_hour = config.max_actions_per_hour;
    max_cost_per_day_cents = config.max_cost_per_day_cents;
    tracker = new_tracker config.max_actions_per_hour;
  })

unfoldable pub base_command : Bytes → Bytes
base_command command =
    let trimmed = trim command in
    if null trimmed
    then []
    else let first : Bytes = elim (index_of (codes " ") trimmed) [
      | none ↦ trimmed
      | some space ↦ take space trimmed
    ] in
      elim (index_of (codes "/") (reverse first)) [
        | none ↦ first
        | some i ↦ reverse (take i (reverse first))
      ]

unfoldable pub is_command_allowed : SecurityPolicy → Bytes → Bool
is_command_allowed policy cmd =
    if null (trim cmd)
    then false
    else let base = base_command cmd in
      if null base then false else mem base policy.allowed_commands

module _ (canonical : FilePath → Result FilePath) (expand : Bytes → FilePath) where
  -- An error leaves the path as it was expanded.
  unfoldable pub forbidden_path : Bytes → FilePath
  forbidden_path entry =
      let expanded = expand entry in elim (canonical expanded) [ err _ ↦ expanded | ok path ↦ path ]

  unfoldable pub path_matches_forbidden : FilePath → List Bytes → Bool
  unfolding forbidden_path is_subpath
  path_matches_forbidden candidate [] = false
  path_matches_forbidden candidate (entry ∷ forbidden_paths) =
      let rest = path_matches_forbidden candidate forbidden_paths in
      if is_subpath candidate (forbidden_path entry) then true else rest

  -- The file system's part: an absolute path starts with the component `/`.
  unfoldable pub is_relative : FilePath → Bool
  unfolding equal
  is_relative [] = true
  is_relative (c ∷ path) = not (equal c (codes "/"))

  unfoldable pub candidate_path : SecurityPolicy → Bytes → FilePath
  unfolding is_relative
  candidate_path policy path =
      let expanded = (if null (expand path) then codes "." ∷ [] else expand path) in
      if is_relative expanded then policy.workspace_dir ++ expanded else expanded

  -- The tests behind the two canonical paths.
  unfoldable pub check_inside : SecurityPolicy → FilePath → FilePath → Result FilePath
  unfolding path_matches_forbidden
  check_inside policy canonical_candidate canonical_workspace =
      let inside_workspace = is_subpath canonical_candidate canonical_workspace in
      if policy.workspace_only && not inside_workspace
      then err (codes "Path escapes workspace")
      else if not inside_workspace
          && path_matches_forbidden canonical_candidate policy.forbidden_paths
      then err (codes "Path is forbidden by policy")
      else if not inside_workspace && policy.workspace_only
      then err (codes "Symlink escape detected")
      else ok canonical_candidate

  abbrev pub explain {ℓ} : {A : Type ℓ} → Bytes → Result A → Result A
  explain message (ok a) = ok a
  explain message (err e) = err (message ++ e)

  unfoldable pub validate_path : SecurityPolicy → Bytes → Result FilePath
  unfolding candidate_path check_inside
  validate_path policy path = do
    guard (not (has_byte 0 path)) (codes "Path contains null byte")
    canonical_candidate ←
        explain (codes "Path canonicalization failed: ") (canonical (candidate_path policy path))
    canonical_workspace ←
        explain (codes "Workspace canonicalization failed: ") (canonical policy.workspace_dir)
    check_inside policy canonical_candidate canonical_workspace

  unfoldable pub is_path_allowed : SecurityPolicy → Bytes → Bool
  is_path_allowed policy path = if has_byte 0 path then false else is_ok (validate_path policy path)
