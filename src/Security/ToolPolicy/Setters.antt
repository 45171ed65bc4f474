-- ===== src/Security/ToolPolicy/Setters.antt =====
-- The setters of `ToolPolicyPipeline` (src/security/tool_policy_pipeline.cpp). A key that is empty
-- sets nothing.
use ghostclaw.Base.{Bool, true, false, ◌||◌, none, some, if◌then◌else◌, null}
use ghostclaw.Base.Text.{Bytes, equal}
use ghostclaw.Security.ToolPolicy.Names.{
  ToolProfile, minimal, coding, messaging, full, normalize_key, make_group_key,
}
use ghostclaw.Security.ToolPolicy.{ToolPolicy, ToolPolicyPipeline}

abbrev same_profile : ToolProfile → ToolProfile → Bool
same_profile minimal minimal = true
same_profile coding coding = true
same_profile messaging messaging = true
same_profile full full = true
same_profile _ _ = false

-- m[key] = value
abbrev update {ℓ} : {V : Type ℓ} → (Bytes → V) → Bytes → V → Bytes → V
update m key v k = if equal k key then v else m k

abbrev update_profile {ℓ} : {V : Type ℓ} → (ToolProfile → V) → ToolProfile → V → ToolProfile → V
update_profile m profile v p = if same_profile p profile then v else m p

unfoldable pub set_profile_policy :
    ToolPolicyPipeline → ToolProfile → ToolPolicy → ToolPolicyPipeline
set_profile_policy p profile policy = record p {
  profile_policies = update_profile p.profile_policies profile (some policy);
}

unfoldable pub set_provider_profile_policy :
    ToolPolicyPipeline → Bytes → ToolProfile → ToolPolicy → ToolPolicyPipeline
set_provider_profile_policy p provider profile policy =
    let key = normalize_key provider in
    if null key then p else record p {
      provider_profile_policies =
          update p.provider_profile_policies key
            (update_profile (p.provider_profile_policies key) profile (some policy));
    }

unfoldable pub set_global_policy : ToolPolicyPipeline → ToolPolicy → ToolPolicyPipeline
set_global_policy p policy = record p { global_policy = some policy }

unfoldable pub clear_global_policy : ToolPolicyPipeline → ToolPolicyPipeline
clear_global_policy p = record p { global_policy = none }

unfoldable pub set_global_provider_policy :
    ToolPolicyPipeline → Bytes → ToolPolicy → ToolPolicyPipeline
set_global_provider_policy p provider policy =
    let key = normalize_key provider in
    if null key
    then p
    else record p { global_provider_policies = update p.global_provider_policies key (some policy) }

unfoldable pub set_agent_policy : ToolPolicyPipeline → Bytes → ToolPolicy → ToolPolicyPipeline
set_agent_policy p agent_id policy =
    let key = normalize_key agent_id in
    if null key then p else record p { agent_policies = update p.agent_policies key (some policy) }

unfoldable pub set_agent_provider_policy :
    ToolPolicyPipeline → Bytes → Bytes → ToolPolicy → ToolPolicyPipeline
set_agent_provider_policy p agent_id provider policy =
    let agent_key = normalize_key agent_id in
    let provider_key = normalize_key provider in
    if null agent_key || null provider_key then p else record p {
      agent_provider_policies =
          update p.agent_provider_policies agent_key
            (update (p.agent_provider_policies agent_key) provider_key (some policy));
    }

unfoldable pub set_group_policy :
    ToolPolicyPipeline → Bytes → Bytes → ToolPolicy → ToolPolicyPipeline
set_group_policy p channel_id group_id policy =
    let key = make_group_key channel_id group_id in
    if null key then p else record p { group_policies = update p.group_policies key (some policy) }
