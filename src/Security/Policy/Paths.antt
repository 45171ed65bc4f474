-- ===== src/Security/Policy/Paths.antt =====
-- The paths that `validate_path` lets through (src/security/policy.cpp).
use mathlib.Core.Bool.{false≢true}
use ghostclaw.Base.{
  subst, ◌≡◌, ◌≢◌, ◌↔◌, ◌⊎◌, refl, ap, sym, ◌∙◌, true, false, List, [], ◌∷◌, ◌++◌, arith,
  if◌then◌else◌, inl, inr, Bool-cases, any-append,
}
use ghostclaw.Base.Text.{Bytes, has_byte, mem, equal, equal_refl}
use ghostclaw.Common.{Result, ok, err, Result-cases}
use ghostclaw.Common.Fs.{FilePath, is_subpath}
use ghostclaw.Common.Fs.Subpath.{IsBelow, is_subpath_iff}
use ghostclaw.Security.Policy.{
  SecurityPolicy, AutonomyConfig, system_forbidden_paths, add_system_paths, from_config,
  forbidden_path, path_matches_forbidden, candidate_path, check_inside, validate_path,
}

module _ (canonical : FilePath → Result FilePath) (expand : Bytes → FilePath) where
  -- The path lies below none of the forbidden ones.
  abbrev pub IsClear : FilePath → List Bytes → Type 0
  IsClear path [] = Unit
  IsClear path (entry ∷ forbidden) =
      (¬ IsBelow path (forbidden_path canonical expand entry)) × IsClear path forbidden

  path_matches_forbidden_iff :
      (path : FilePath) (forbidden : List Bytes)
      → (path_matches_forbidden canonical expand path forbidden ≡ false) ↔ IsClear path forbidden
  unfolding path_matches_forbidden
  path_matches_forbidden_iff path [] = (λ h. tt, λ h. refl)
  path_matches_forbidden_iff path (entry ∷ forbidden) =
      let later = path_matches_forbidden_iff path forbidden in
      let below = is_subpath_iff path (forbidden_path canonical expand entry) in
      elim (Bool-cases (is_subpath path (forbidden_path canonical expand entry))) [
        | inl inside ↦ rw inside (λ h. cc, λ (h, _). absurd (h (below.0 inside)))
        | inr outside ↦
            rw outside
              (λ h. (λ b. false≢true (sym outside ∙ below.1 b), later.0 h), λ (_, h). later.1 h)
      ]

  -- Inside the workspace, or, where the policy does not hold the agent to it, below no forbidden
  -- path.
  abbrev pub IsPermitted : SecurityPolicy → FilePath → FilePath → Type 0
  IsPermitted policy workspace path =
      IsBelow path workspace
      ⊎ ((policy.workspace_only ≡ false) × IsClear path policy.forbidden_paths)

  check_inside_iff :
      (policy : SecurityPolicy) (path workspace q : FilePath)
      → (check_inside canonical expand policy path workspace ≡ ok q)
        ↔ ((path ≡ q) × IsPermitted policy workspace path)
  unfolding check_inside
  check_inside_iff policy path workspace q =
      let below = is_subpath_iff path workspace in
      let clear = path_matches_forbidden_iff path policy.forbidden_paths in
      elim (Bool-cases (is_subpath path workspace)) [
        | inl inside ↦ (
          λ h. (ground (arith, inside, h), inl (below.0 inside)),
          λ (e, _). ground (arith, inside, e),
        )
        | inr outside ↦ (
          λ h. (
            ground (arith, outside, h),
            inr (ground (arith, outside, h), clear.0 (ground (arith, outside, h))),
          ),
          λ (e, p). elim p [
            | inl b ↦ absurd (false≢true (sym outside ∙ below.1 b))
            | inr (free, c) ↦
                let none_match = clear.1 c in ground (arith, outside, free, none_match, e)
          ],
        )
      ]

  checked :
      (policy : SecurityPolicy) (path : Bytes) (q w : FilePath)
      → has_byte 0 path ≡ false
      → canonical (candidate_path canonical expand policy path) ≡ ok q
      → canonical policy.workspace_dir ≡ ok w
      → validate_path canonical expand policy path ≡ check_inside canonical expand policy q w
  unfolding validate_path
  checked policy path q w clean is_path is_workspace = ground (arith, clean, is_path, is_workspace)

  null_byte :
      (policy : SecurityPolicy) (path : Bytes) (q : FilePath)
      → has_byte 0 path ≡ true
      → validate_path canonical expand policy path ≢ ok q
  unfolding validate_path
  null_byte policy path q h e = ground (arith, h, e)

  no_path :
      (policy : SecurityPolicy) (path : Bytes) (q : FilePath) {why : Bytes}
      → has_byte 0 path ≡ false
      → canonical (candidate_path canonical expand policy path) ≡ err why
      → validate_path canonical expand policy path ≢ ok q
  unfolding validate_path
  no_path policy path q c h e = ground (arith, c, h, e)

  no_workspace :
      (policy : SecurityPolicy) (path : Bytes) (q r : FilePath) {why : Bytes}
      → has_byte 0 path ≡ false
      → canonical (candidate_path canonical expand policy path) ≡ ok r
      → canonical policy.workspace_dir ≡ err why
      → validate_path canonical expand policy path ≢ ok q
  unfolding validate_path
  no_workspace policy path q r c h k e = ground (arith, c, h, k, e)

  -- A path is let through, as its canonical form, exactly when it holds no null byte, it and the
  -- workspace can be made canonical, and its canonical form is permitted.
  pub validate_path_iff :
      (policy : SecurityPolicy) (path : Bytes) (q : FilePath)
      → (validate_path canonical expand policy path ≡ ok q) ↔ (
          (workspace : FilePath) × (has_byte 0 path ≡ false)
          × (canonical (candidate_path canonical expand policy path) ≡ ok q)
          × (canonical policy.workspace_dir ≡ ok workspace)
          × IsPermitted policy workspace q)
  validate_path_iff policy path q = (
    λ h. elim (Bool-cases (has_byte 0 path)) [
      | inl null_inside ↦ absurd (null_byte policy path q null_inside h)
      | inr clean ↦ elim (Result-cases (canonical (candidate_path canonical expand policy path))) [
        | inr (why, e) ↦ absurd (no_path policy path q clean e h)
        | inl (r, e) ↦ elim (Result-cases (canonical policy.workspace_dir)) [
          | inr (why, f) ↦ absurd (no_workspace policy path q r clean e f h)
          | inl (w, f) ↦
              let (same, permitted) =
                (check_inside_iff policy r w q).0 (sym (checked policy path r w clean e f) ∙ h) in
              (w, clean, e ∙ ap ok same, f, subst (IsPermitted policy w) same permitted)
        ]
      ]
    ],
    λ (w, clean, e, f, permitted).
        checked policy path q w clean e f ∙ (check_inside_iff policy q w q).1 (refl, permitted),
  )

mem-concat : (x y : Bytes) (xs : List Bytes) → mem x xs ≡ true → mem x (xs ++ y ∷ []) ≡ true
unfolding mem
mem-concat x y xs h = any-append (λ z. equal z x) xs (y ∷ []) ∙ rw h

mem-concat_self : (x : Bytes) (xs : List Bytes) → mem x (xs ++ x ∷ []) ≡ true
unfolding mem
mem-concat_self x xs = any-append (λ z. equal z x) xs (x ∷ []) ∙ ground (arith, equal_refl x)

mem-add_system_paths :
    (x : Bytes) (paths rest : List Bytes)
    → mem x paths ≡ true
    → mem x (add_system_paths paths rest) ≡ true
unfolding add_system_paths
mem-add_system_paths x paths [] h = h
mem-add_system_paths x paths (y ∷ rest) h =
    mem-add_system_paths x (if mem y paths then paths else paths ++ y ∷ []) rest
      (elim (Bool-cases (mem y paths)) [
        | inl old ↦ rw old h
        | inr new ↦ rw new (mem-concat x y paths h)
      ])

-- every text of the second list is in the first one
abbrev pub HoldsAll : List Bytes → List Bytes → Type 0
HoldsAll paths [] = Unit
HoldsAll paths (x ∷ xs) = (mem x paths ≡ true) × HoldsAll paths xs

HoldsAll-add : (paths rest : List Bytes) → HoldsAll (add_system_paths paths rest) rest
unfolding add_system_paths
HoldsAll-add paths [] = tt
HoldsAll-add paths (y ∷ rest) =
    let next = (if mem y paths then paths else paths ++ y ∷ []) in
    (
      mem-add_system_paths y next rest (elim (Bool-cases (mem y paths)) [
        | inl old ↦ rw old old
        | inr new ↦ rw new (mem-concat_self y paths)
      ]),
      HoldsAll-add next rest,
    )

-- A policy read from any configuration forbids every system path, and keeps each path that the
-- configuration forbids.
pub from_config_forbids :
    (workspace : Result FilePath) (config : AutonomyConfig) (policy : SecurityPolicy) (x : Bytes)
    → from_config workspace config ≡ ok policy
    → HoldsAll policy.forbidden_paths system_forbidden_paths
      × (mem x config.forbidden_paths ≡ true → mem x policy.forbidden_paths ≡ true)
unfolding from_config
from_config_forbids workspace config policy x h =
    let paths : policy.forbidden_paths
        ≡ add_system_paths config.forbidden_paths system_forbidden_paths =
      ground arith in
    rw paths (
      HoldsAll-add config.forbidden_paths system_forbidden_paths,
      mem-add_system_paths x config.forbidden_paths system_forbidden_paths,
    )
