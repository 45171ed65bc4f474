-- ===== src/Security/ToolPolicy.antt =====
-- src/security/tool_policy_pipeline.cpp: the seven layers of policies that a tool must pass.
-- A hash map is a function from its keys; a map of maps is one function of both keys.
pub mod Names
pub mod Setters
pub mod Decide
pub mod Profiles
use ghostclaw.Base.{
  Bool, true, false, ◌&&◌, ◌||◌, not, List, [], ◌∷◌, ◌++◌, map, Option, none, some, if◌then◌else◌,
  null, any,
}
use ghostclaw.Base.Text.{Bytes, codes, equal, mem}
use ghostclaw.Common.Fs.{trim}
use ghostclaw.Security.ToolPolicy.Names.{
  ToolProfile, minimal, coding, messaging, full, normalize_key, normalize_tool_name,
  normalize_pattern, expand_group, matches_pattern, make_group_key, profile_to_string,
}

pub record ToolPolicy : Type 0 where
  pub allow : List Bytes
  pub deny : List Bytes

pub record ToolPolicyPipelineStep : Type 0 where
  pub policy : Option ToolPolicy
  pub label : Bytes

pub record ToolPolicyRequest : Type 0 where
  pub tool_name : Bytes
  pub profile : ToolProfile
  pub provider : Bytes
  pub agent_id : Bytes
  pub channel_id : Bytes
  pub group_id : Bytes

pub record ToolPolicyDecision : Type 0 where
  pub allowed : Bool
  pub blocked_by : Bytes
  pub reason : Bytes
  pub trace : List Bytes

pub record ToolPolicyPipeline : Type 0 where
  pub profile_policies : ToolProfile → Option ToolPolicy
  pub provider_profile_policies : Bytes → ToolProfile → Option ToolPolicy
  pub global_policy : Option ToolPolicy
  pub global_provider_policies : Bytes → Option ToolPolicy
  pub agent_policies : Bytes → Option ToolPolicy
  pub agent_provider_policies : Bytes → Bytes → Option ToolPolicy
  pub group_policies : Bytes → Option ToolPolicy

unfoldable pub default_profile_policy : ToolProfile → ToolPolicy
default_profile_policy minimal = record { allow = codes "read" ∷ []; deny = [] }
default_profile_policy coding = record {
  allow =
      codes "group:fs" ∷ codes "group:runtime" ∷ codes "group:sessions" ∷ codes "group:web" ∷ [];
  deny = [];
}
default_profile_policy messaging = record {
  allow = codes "group:messaging" ∷ codes "group:sessions" ∷ codes "group:web" ∷ [];
  deny = [];
}
default_profile_policy full = record { allow = []; deny = [] }

unfoldable pub new_pipeline : ToolPolicyPipeline
unfolding default_profile_policy
new_pipeline = record {
  profile_policies = λ p. some (default_profile_policy p);
  provider_profile_policies = λ k p. none;
  global_policy = none;
  global_provider_policies = λ k. none;
  agent_policies = λ k. none;
  agent_provider_policies = λ a k. none;
  group_policies = λ k. none;
}

-- The names that a list of entries stands for: groups expanded, patterns normalized, each once.
unfoldable pub add_names : List Bytes → List Bytes → List Bytes
add_names expanded [] = expanded
add_names expanded (name ∷ names) =
    add_names (if mem name expanded then expanded else expanded ++ name ∷ []) names

unfoldable pub expand_entry : List Bytes → Bytes → List Bytes
unfolding add_names
expand_entry expanded raw =
    let trimmed = trim raw in
    if null trimmed
    then expanded
    else let group = expand_group trimmed in
      if not (null group)
      then add_names expanded group
      else let pattern = normalize_pattern trimmed in
        if null pattern then expanded else add_names expanded (pattern ∷ [])

unfoldable pub expand_loop : List Bytes → List Bytes → List Bytes
unfolding expand_entry
expand_loop expanded [] = expanded
expand_loop expanded (raw ∷ entries) = expand_loop (expand_entry expanded raw) entries

unfoldable pub expand_entries : List Bytes → List Bytes
unfolding expand_loop
expand_entries entries = expand_loop [] entries

-- A policy that is found under a key that is not empty.
abbrev at_key : Bytes → (Bytes → Option ToolPolicy) → Option ToolPolicy
at_key key m = if null key then none else m key

abbrev in_parentheses : Bytes → Bytes
in_parentheses s = codes " (" ++ (s ++ codes ")")

unfoldable pub build_default_pipeline_steps :
    ToolPolicyPipeline → ToolPolicyRequest → List ToolPolicyPipelineStep
build_default_pipeline_steps p r =
    let provider = normalize_key r.provider in
    let agent_id = normalize_key r.agent_id in
    let group_key = make_group_key r.channel_id r.group_id in
    record {
      policy = p.profile_policies r.profile;
      label = codes "tools.profile" ++ in_parentheses (profile_to_string r.profile);
    }
    ∷ record {
      policy = at_key provider (λ k. p.provider_profile_policies k r.profile);
      label =
          if null provider
          then codes "tools.byProvider.profile"
          else codes "tools.byProvider.profile"
            ++ in_parentheses (provider ++ (codes ", " ++ profile_to_string r.profile));
    }
    ∷ record { policy = p.global_policy; label = codes "tools.allow" }
    ∷ record {
      policy = at_key provider p.global_provider_policies;
      label =
          if null provider
          then codes "tools.byProvider.allow"
          else codes "tools.byProvider.allow" ++ in_parentheses provider;
    }
    ∷ record {
      policy = at_key agent_id p.agent_policies;
      label =
          if null agent_id
          then codes "agents.{id}.tools.allow"
          else codes "agents." ++ (agent_id ++ codes ".tools.allow");
    }
    ∷ record {
      policy = at_key agent_id (λ a. at_key provider (p.agent_provider_policies a));
      label =
          if null agent_id
          then codes "agents.{id}.tools.byProvider.allow"
          else codes "agents." ++ (agent_id ++ codes ".tools.byProvider.allow");
    }
    ∷ record {
      policy = at_key group_key p.group_policies;
      label =
          if not (null r.channel_id) || not (null r.group_id)
          then codes "group/channel tools.allow"
            ++ in_parentheses
                (normalize_key r.channel_id ++ (codes "/" ++ normalize_key r.group_id))
          else codes "group/channel tools.allow";
    }
    ∷ []

unfoldable pub blocked : Bytes → Bytes → List Bytes → ToolPolicyDecision
blocked label reason trace = record {
  allowed = false;
  blocked_by = label;
  reason = reason;
  trace = trace ++ (label ++ (codes ": denied (" ++ (reason ++ codes ")"))) ∷ [];
}

-- The first entry that matches.
unfoldable pub first_match : Bytes → List Bytes → Option Bytes
first_match tool [] = none
first_match tool (entry ∷ entries) =
    if matches_pattern tool entry then some entry else first_match tool entries

unfoldable pub deny_reason : Option Bytes → Option Bytes
deny_reason none = none
deny_reason (some entry) = some (codes "matched deny entry: " ++ entry)

-- An allowlist that is not empty stops what it does not match.
unfoldable pub allow_reason : Bytes → List Bytes → Option Bytes
allow_reason tool allow =
    if not (null allow) && not (any (λ entry. matches_pattern tool entry) allow)
    then some (codes "not matched by allowlist")
    else none

abbrev pub or_else : Option Bytes → Option Bytes → Option Bytes
or_else (some reason) other = some reason
or_else none other = other

-- Why a step stops a tool, if it does: the deny entries come first.
unfoldable pub refusal : Bytes → Option ToolPolicy → Option Bytes
unfolding first_match deny_reason allow_reason
refusal tool none = none
refusal tool (some policy) =
    or_else (deny_reason (first_match tool (expand_entries policy.deny)))
      (allow_reason tool (expand_entries policy.allow))

-- A step with no policy leaves no trace.
unfoldable pub passed : ToolPolicyPipelineStep → Option ToolPolicy → List Bytes
passed step none = []
passed step (some _) = (step.label ++ codes ": allow") ∷ []

unfoldable pub run_steps : Bytes → List Bytes → List ToolPolicyPipelineStep → ToolPolicyDecision
unfolding blocked passed
run_steps tool trace [] = record {
  allowed = true;
  blocked_by = [];
  reason = [];
  trace = trace ++ codes "decision: allow" ∷ [];
}
run_steps tool trace (step ∷ steps) = elim (refusal tool step.policy) [
  | some reason ↦ blocked step.label reason trace
  | none ↦ run_steps tool (trace ++ passed step step.policy) steps
]

unfoldable pub evaluate_tool : ToolPolicyPipeline → Bytes → ToolPolicyRequest → ToolPolicyDecision
unfolding blocked
evaluate_tool p tool_name r =
    let normalized_tool = normalize_tool_name tool_name in
    if null normalized_tool
    then blocked (codes "tools.profile") (codes "empty tool name") []
    else run_steps normalized_tool [] (build_default_pipeline_steps p r)

unfoldable pub filter_tools : ToolPolicyPipeline → List Bytes → ToolPolicyRequest → List Bytes
filter_tools p [] r = []
filter_tools p (name ∷ names) r =
    let rest = filter_tools p names r in
    if (evaluate_tool p name (record r { tool_name = name })).allowed then name ∷ rest else rest
