-- ===== src/Tests/Allowed.antt =====
-- Tool policies and globs at concrete inputs.
use ghostclaw.Base.{◌≡◌, ◌≢◌, ◌↔◌, refl, true, [], ◌∷◌}
use ghostclaw.Base.Text.{codes, equal}
use ghostclaw.Common.Fs.{is_space, lower_byte, trim, to_lower}
use ghostclaw.Security.Glob.{glob_to_regex, regex_match}
use ghostclaw.Security.Glob.Matches.{
  GlobMatches, done, same, star_more, star_end, regex_match-GlobMatches,
}
use ghostclaw.Security.ToolPolicy.{
  ToolPolicyPipeline, new_pipeline, evaluate_tool, build_default_pipeline_steps,
}
use ghostclaw.Security.ToolPolicy.Setters.{set_global_policy}
use ghostclaw.Security.ToolPolicy.Names.{normalize_tool_name, normalize_key, aliased, lookup}
use ghostclaw.Security.ToolPolicy.Decide.{PassesAll, evaluate_tool_iff}
use ghostclaw.Security.ToolPolicy.Profiles.{minimal_request}

-- A pipeline whose global layer denies every browser tool.
abbrev pipeline : ToolPolicyPipeline
pipeline = set_global_policy new_pipeline (record { allow = []; deny = codes "browser*" ∷ [] })

evaluate_tool_iff_example :
    ((evaluate_tool pipeline (codes "Shell") (minimal_request (codes "Shell"))).allowed ≡ true) ↔ (
      (normalize_tool_name (codes "Shell") ≢ [])
      × PassesAll
          (normalize_tool_name (codes "Shell"))
          (build_default_pipeline_steps pipeline (minimal_request (codes "Shell"))))
evaluate_tool_iff_example =
    evaluate_tool_iff pipeline (codes "Shell") (minimal_request (codes "Shell"))

reads : normalize_tool_name (codes " File_Read ") ≡ codes "read"
unfolding normalize_tool_name normalize_key aliased lookup trim to_lower is_space lower_byte equal
reads = refl

any_g : GlobMatches (codes "g*") (codes "go")
any_g = same (λ e. cc) (λ e. cc) (star_more refl (λ e. cc, λ e. cc) (star_end refl done))

regex_match-GlobMatches_example : regex_match (codes "go") (glob_to_regex (codes "g*")) ≡ true
regex_match-GlobMatches_example = (regex_match-GlobMatches (codes "g*") (codes "go")).1 any_g
