-- ===== src/Tests/Placed.antt =====
-- Paths at concrete inputs, in a file system without links where every path is canonical.
use ghostclaw.Base.{◌≡◌, ◌≢◌, refl, true, false, Bool, List, [], ◌∷◌, ◌++◌, inl, inr}
use ghostclaw.Base.Text.{Bytes, codes, equal, has_byte}
use ghostclaw.Common.{Result, ok}
use ghostclaw.Common.Fs.{FilePath, is_space, lower_byte, trim, to_lower}
use ghostclaw.Security.ActionTracker.{new_tracker}
use ghostclaw.Security.Policy.{
  supervised, SecurityPolicy, AutonomyConfig, system_forbidden_paths, add_system_paths,
  candidate_path, from_config, autonomy_level_from_string, is_relative, validate_path,
}
use ghostclaw.Security.Policy.Paths.{validate_path_iff}

abbrev home : FilePath
home = codes "/" ∷ codes "home" ∷ []

abbrev config : AutonomyConfig
config = record {
  level = codes "supervised";
  workspace_only = true;
  allowed_commands = codes "ls" ∷ [];
  forbidden_paths = codes "/srv" ∷ codes "/etc" ∷ [];
  max_actions_per_hour = 20;
  max_cost_per_day_cents = 500;
}

abbrev policy : SecurityPolicy
policy = record {
  autonomy = supervised;
  workspace_dir = home;
  workspace_only = true;
  allowed_commands = codes "ls" ∷ [];
  forbidden_paths = add_system_paths config.forbidden_paths system_forbidden_paths;
  max_actions_per_hour = 20;
  max_cost_per_day_cents = 500;
  tracker = new_tracker 20;
}

configured : from_config (ok home) config ≡ ok policy
unfolding from_config autonomy_level_from_string trim to_lower is_space lower_byte equal
configured = refl

abbrev as_it_is : FilePath → Result FilePath
as_it_is path = ok path

-- a text is one component
abbrev one_component : Bytes → FilePath
one_component text = text ∷ []

no_null_byte : has_byte 0 (codes "a.txt") ≡ false
unfolding has_byte
no_null_byte = refl

candidate :
    candidate_path as_it_is one_component policy (codes "a.txt") ≡ home ++ codes "a.txt" ∷ []
unfolding candidate_path is_relative equal
candidate = refl

validate_path_iff_example :
    validate_path as_it_is one_component policy (codes "a.txt") ≡ ok (home ++ codes "a.txt" ∷ [])
validate_path_iff_example =
    (validate_path_iff as_it_is one_component policy (codes "a.txt") (home ++ codes "a.txt" ∷ [])).1
      (home, no_null_byte, ghostclaw.Base.ap ok candidate, refl, inl (codes "a.txt" ∷ [], refl))
