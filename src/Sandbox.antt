-- ===== src/Sandbox.antt =====
-- src/sandbox/sandbox.cpp: which sessions run in a container, under which names, and how the container
-- is brought up. `W` is the state of everything outside; docker, the creation of directories and
-- `std::hash` are arguments, and `create_args` stands for build_docker_create_args, whose texts
-- of floating point numbers are not modelled. A path is the list of its components.
pub mod Runtime
use ghostclaw.Base.{
  ℕ, Bool, true, false, ◌&&◌, ◌||◌, not, List, [], ◌∷◌, ◌++◌, Option, none, some, leb, ltb, ◌==◌,
  if◌then◌else◌, null, length, take, map, reverse, drop_while,
}
use ghostclaw.Base.Text.{Bytes, codes, equal, index_of}
use ghostclaw.Common.{Result, ok, err, if_ok}
use ghostclaw.Common.Fs.{trim, to_lower}
use ghostclaw.Security.ToolPolicy.{ToolPolicyPipeline, new_pipeline, evaluate_tool}
use ghostclaw.Security.ToolPolicy.Names.{full}
use ghostclaw.Security.ToolPolicy.Setters.{set_global_policy}

pub data Mode : Type 0 where
  off non_main all : Mode

pub data Scope : Type 0 where
  session agent shared : Scope

pub data WorkspaceAccess : Type 0 where
  no_access read_only read_write : WorkspaceAccess

-- The parts of the configuration that are read here.
pub record SandboxConfig : Type 0 where
  pub mode : Mode
  pub scope : Scope
  pub workspace_access : WorkspaceAccess
  pub container_prefix : Bytes
  pub workdir : Bytes
  pub tool_allow : List Bytes
  pub tool_deny : List Bytes

pub record SandboxRequest : Type 0 where
  pub session_id : Bytes
  pub agent_id : Bytes
  pub main_session_id : Bytes
  pub workspace_dir : List Bytes
  pub agent_workspace_dir : List Bytes

pub record SandboxRuntime : Type 0 where
  pub enabled : Bool
  pub scope_key : Bytes
  pub container_name : Bytes
  pub mounted_workspace_dir : List Bytes
  pub container_workdir : Bytes

unfoldable pub normalize_key : Bytes → Bytes
normalize_key value = to_lower (trim value)

unfoldable pub is_slug_byte : ℕ → Bool
is_slug_byte c =
    (leb b'a' c && leb c b'z')
    || ((leb b'0' c && leb c b'9') || (c == b'.' || (c == b'_' || c == b'-')))

abbrev pub is_dash : ℕ → Bool
is_dash c = c == b'-'

unfoldable pub strip_dashes : Bytes → Bytes
strip_dashes out = reverse (drop_while is_dash (reverse (drop_while is_dash out)))

unfoldable pub slugify : Bytes → Bytes
unfolding normalize_key is_slug_byte strip_dashes
slugify input =
    let normalized = normalize_key input in
    if null normalized
    then codes "session"
    else let out = strip_dashes (map (λ c. if is_slug_byte c then c else b'-') normalized) in
      take 36 (if null out then codes "session" else out)

unfoldable pub resolve_sandbox_scope_key : SandboxConfig → SandboxRequest → Bytes
unfolding normalize_key
resolve_sandbox_scope_key config request =
    let session_id = normalize_key request.session_id in
    let agent_id = normalize_key request.agent_id in
    elim config.scope [
      | shared ↦ codes "shared"
      | agent ↦ codes "agent:" ++ (if null agent_id then codes "main" else agent_id)
      | session ↦ if null session_id then codes "session:main" else session_id
    ]

unfoldable pub should_sandbox : SandboxConfig → SandboxRequest → Bool
unfolding normalize_key
should_sandbox config request =
    let session = normalize_key request.session_id in
    let main_session = normalize_key request.main_session_id in
    elim config.mode [
      | off ↦ false
      | all ↦ true
      | non_main ↦
          if null session
          then false
          else if null main_session
          then true
          else not (equal session main_session)
    ]

unfoldable pub is_tool_allowed : SandboxConfig → Bytes → Bool
unfolding set_global_policy
is_tool_allowed config tool_name =
    (evaluate_tool
      (set_global_policy new_pipeline
        (record { allow = config.tool_allow; deny = config.tool_deny }))
      tool_name
      (record {
        tool_name = tool_name;
        profile = full;
        provider = [];
        agent_id = [];
        channel_id = [];
        group_id = [];
      })).allowed

module _ (short_hash_hex : Bytes → Bytes) where
  unfoldable pub resolve_sandbox_container_name : SandboxConfig → SandboxRequest → Bytes
  unfolding resolve_sandbox_scope_key slugify
  resolve_sandbox_container_name config request =
      let scope_key = resolve_sandbox_scope_key config request in
      take 63 (config.container_prefix ++ (slugify scope_key ++ (b'-' ∷ short_hash_hex scope_key)))

  unfoldable pub resolve_runtime : SandboxConfig → SandboxRequest → SandboxRuntime
  unfolding should_sandbox resolve_sandbox_container_name
  resolve_runtime config request =
      let scope_key = resolve_sandbox_scope_key config request in
      let base =
        (if null request.workspace_dir
          then request.agent_workspace_dir
          else request.workspace_dir) in
      record {
        enabled = should_sandbox config request;
        scope_key = scope_key;
        container_name = resolve_sandbox_container_name config request;
        container_workdir = config.workdir;
        mounted_workspace_dir = elim config.workspace_access [
          | read_write ↦
              if null request.agent_workspace_dir
              then request.workspace_dir
              else request.agent_workspace_dir
          | _ ↦ base ++ codes ".ghostclaw-sandbox" ∷ slugify scope_key ∷ []
        ];
      }
