-- ===== src/Sandbox/Runtime.antt =====
-- How a container is brought up, stopped and removed (src/sandbox/sandbox.cpp).
use ghostclaw.Base.{
  ℕ, Bool, true, false, not, List, [], ◌∷◌, ◌++◌, Option, none, some, ◌==◌, if◌then◌else◌,
}
use ghostclaw.Base.Text.{Bytes, codes, index_of}
use ghostclaw.Common.{Result, ok, err, if_ok}
use ghostclaw.Sandbox.{
  SandboxConfig, SandboxRequest, SandboxRuntime, no_access, normalize_key, resolve_runtime,
}

pub record DockerProcessResult : Type 0 where
  pub exit_code : ℕ
  pub stdout_text : Bytes
  pub stderr_text : Bytes

pub record ContainerState : Type 0 where
  pub exists : Bool
  pub running : Bool

-- A call of docker: its arguments, and whether an exit code other than 0 is no failure.
abbrev pub DockerRunner : Type 0 → Type 0
DockerRunner W = List Bytes → Bool → W → Result DockerProcessResult × W

pub record SandboxManager (W : Type 0) : Type 0 where
  pub config : SandboxConfig
  pub docker_runner : Option (DockerRunner W)

-- What the code reads of the world besides docker.
pub record Host (W : Type 0) : Type 0 where
  pub short_hash_hex : Bytes → Bytes
  pub create_directories : List Bytes → W → Result (Unit {0}) × W
  pub create_args : SandboxConfig → SandboxRuntime → SandboxRequest → List Bytes

abbrev pub contains_true : Bytes → Bool
contains_true state = elim (index_of (codes "true") state) [ none ↦ false | some _ ↦ true ]

unfoldable pub container_state : DockerProcessResult → ContainerState
unfolding normalize_key
container_state inspect =
    if not (inspect.exit_code == 0)
    then record { exists = false; running = false }
    else record { exists = true; running = contains_true (normalize_key inspect.stdout_text) }

module _ {W : Type 0} where
  unfoldable pub inspect_container_state : DockerRunner W → Bytes → W → Result ContainerState × W
  unfolding container_state
  inspect_container_state docker container_name w =
      if_ok
        (docker (codes "inspect" ∷ codes "-f" ∷ codes "{{.State.Running}}" ∷ container_name ∷ [])
          true w)
        (λ inspect w'. (ok (container_state inspect), w'))

  abbrev pub start_container : DockerRunner W → SandboxRuntime → W → Result SandboxRuntime × W
  start_container docker runtime w =
      if_ok (docker (codes "start" ∷ runtime.container_name ∷ []) false w)
        (λ _ w'. (ok runtime, w'))

  -- From the state of the container on.
  unfoldable pub bring_up :
      Host W
      → SandboxConfig
      → DockerRunner W
      → SandboxRequest
      → SandboxRuntime
      → ContainerState
      → W
      → Result SandboxRuntime × W
  bring_up host config docker request runtime state w =
      if not state.exists
      then if_ok (docker (host.create_args config runtime request) false w)
          (λ _ w'. start_container docker runtime w')
      else if not state.running
      then start_container docker runtime w
      else (ok runtime, w)

  abbrev pub make_workspace : Host W → SandboxConfig → SandboxRuntime → W → Result (Unit {0}) × W
  make_workspace host config runtime w = elim config.workspace_access [
    | no_access ↦ (ok tt, w)
    | _ ↦ host.create_directories runtime.mounted_workspace_dir w
  ]

  abbrev pub runtime_of : Host W → SandboxManager W → SandboxRequest → SandboxRuntime
  runtime_of host m request = resolve_runtime host.short_hash_hex m.config request

  unfoldable pub ensure_runtime :
      Host W → SandboxManager W → SandboxRequest → W → Result SandboxRuntime × W
  unfolding inspect_container_state bring_up
  ensure_runtime host m request w =
      let runtime = runtime_of host m request in
      if not runtime.enabled
      then (ok runtime, w)
      else if_ok (make_workspace host m.config runtime w) λ _ w1. elim m.docker_runner [
        | none ↦ (err (codes "docker runner unavailable"), w1)
        | some docker ↦
            if_ok (inspect_container_state docker runtime.container_name w1)
              (λ state w2. bring_up host m.config docker request runtime state w2)
      ]

  -- `stop_runtime` and `remove_runtime` differ in the command only.
  abbrev run_on :
      List Bytes → Host W → SandboxManager W → SandboxRequest → W → Result (Unit {0}) × W
  run_on command host m request w =
      let runtime = runtime_of host m request in
      elim m.docker_runner [
        | none ↦ (ok tt, w)
        | some docker ↦
            if not runtime.enabled
            then (ok tt, w)
            else if_ok (docker (command ++ runtime.container_name ∷ []) true w)
                (λ _ w'. (ok tt, w'))
      ]

  unfoldable pub stop_runtime :
      Host W → SandboxManager W → SandboxRequest → W → Result (Unit {0}) × W
  stop_runtime host m request w = run_on (codes "stop" ∷ []) host m request w

  unfoldable pub remove_runtime :
      Host W → SandboxManager W → SandboxRequest → W → Result (Unit {0}) × W
  remove_runtime host m request w = run_on (codes "rm" ∷ codes "-f" ∷ []) host m request w
