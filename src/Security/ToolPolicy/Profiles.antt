-- ===== src/Security/ToolPolicy/Profiles.antt =====
-- The default profiles, and the normal form of a tool's name (src/security/tool_policy_pipeline.cpp).
use ghostclaw.Base.{
  ◌≡◌, ◌≢◌, ◌↔◌, refl, ap, ◌∙◌, sym, true, false, List, [], ◌∷◌, Option, none, some, arith,
  if◌then◌else◌, inl, inr, Bool-cases, Option-cases, null,
}
use ghostclaw.Base.Text.{Bytes, codes, equal, equal_iff, equal_refl, mem}
use ghostclaw.Common.Fs.{trim, to_lower}
use ghostclaw.Common.Fs.Trim.{normalize_idem}
use ghostclaw.Security.Glob.{has_glob_chars}
use ghostclaw.Security.ToolPolicy.Names.{
  minimal, normalize_key, lookup, tool_aliases, aliased, normalize_tool_name, normalize_pattern,
  matches_pattern, make_group_key, expand_group, make_group_key,
}
use ghostclaw.Security.ToolPolicy.{
  ToolPolicyRequest, default_profile_policy, new_pipeline, expand_entries,
  build_default_pipeline_steps, evaluate_tool,
}
use ghostclaw.Security.ToolPolicy.Decide.{Listed, Passes, PassesAll, evaluate_tool_iff}

-- every name of a list of aliases is a normal form
abbrev TargetsNormal : List (Bytes × Bytes) → Type 0
TargetsNormal [] = Unit
TargetsNormal ((a, b) ∷ m) = (normalize_tool_name b ≡ b) × TargetsNormal m

lookup-Normal :
    (m : List (Bytes × Bytes)) (k v : Bytes)
    → TargetsNormal m
    → lookup k m ≡ some v
    → normalize_tool_name v ≡ v
unfolding lookup
lookup-Normal [] k v h e = cc
lookup-Normal ((a, b) ∷ m) k v (n, h) e = elim (Bool-cases (equal a k)) [
  | inl here ↦
      let same : b ≡ v = ground (arith, here) in ap normalize_tool_name (sym same) ∙ n ∙ same
  | inr there ↦ lookup-Normal m k v h (ground (arith, there))
]

targets_normal : TargetsNormal tool_aliases
unfolding normalize_tool_name trim to_lower equal aliased lookup
targets_normal = (
  refl,
  (
    refl,
    (
      refl,
      (
        refl,
        (
          refl,
          (
            refl,
            (
              refl,
              (
                refl,
                (refl, (refl, (refl, (refl, (refl, (refl, (refl, (refl, (refl, (refl, tt)))))))))),
              ),
            ),
          ),
        ),
      ),
    ),
  ),
)

normalize_key_idem : (s : Bytes) → normalize_key (normalize_key s) ≡ normalize_key s
unfolding normalize_key
normalize_key_idem = normalize_idem

normalize_empty : (name : Bytes) → null (normalize_key name) ≡ true → normalize_tool_name name ≡ []
unfolding normalize_tool_name
normalize_empty name e = rw e

normalize_full :
    (name : Bytes)
    → null (normalize_key name) ≡ false
    → normalize_tool_name name ≡ aliased (normalize_key name)
unfolding normalize_tool_name
normalize_full name e = rw e

normalize_nil : normalize_tool_name [] ≡ []
unfolding normalize_tool_name trim to_lower
normalize_nil = refl

aliased-none : (k : Bytes) → lookup k tool_aliases ≡ none → aliased k ≡ k
unfolding aliased
aliased-none k e = ap (λ (o : Option Bytes). elim o [ none ↦ k | some v ↦ v ]) e

aliased-some : (k v : Bytes) → lookup k tool_aliases ≡ some v → aliased k ≡ v
unfolding aliased
aliased-some k v e = ap (λ (o : Option Bytes). elim o [ none ↦ k | some w ↦ w ]) e

-- Normalizing a tool's name twice is normalizing it once.
pub normalize_tool_name_idem :
    (name : Bytes) → normalize_tool_name (normalize_tool_name name) ≡ normalize_tool_name name
normalize_tool_name_idem name = elim (Bool-cases (null (normalize_key name))) [
  | inl empty ↦ rw (normalize_empty name empty) normalize_nil
  | inr full ↦
      rw (normalize_full name full)
        (elim (Option-cases (lookup (normalize_key name) tool_aliases)) [
          | inl unknown ↦ rw (aliased-none (normalize_key name) unknown) (
              normalize_full (normalize_key name) (rw (normalize_key_idem name) full)
              ∙ rw (normalize_key_idem name) (aliased-none (normalize_key name) unknown))
          | inr (v, known) ↦
              rw (aliased-some (normalize_key name) v known)
                (lookup-Normal tool_aliases (normalize_key name) v targets_normal known)
        ])
]

-- In a new pipeline every layer but the profile's is empty.
abbrev pub minimal_request : Bytes → ToolPolicyRequest
minimal_request name = record {
  tool_name = name;
  profile = minimal;
  provider = [];
  agent_id = [];
  channel_id = [];
  group_id = [];
}

expand_read : expand_entries (codes "read" ∷ []) ≡ codes "read" ∷ []
unfolding expand_entries expand_group normalize_pattern normalize_key normalize_tool_name aliased
    lookup trim to_lower mem has_glob_chars
expand_read = refl

normalize_pattern_read : normalize_pattern (codes "read") ≡ codes "read"
unfolding normalize_pattern normalize_key normalize_tool_name aliased lookup trim to_lower
    has_glob_chars
normalize_pattern_read = refl

read_ne_nil : codes "read" ≢ []
read_ne_nil e = cc

not_star : equal (codes "read") (codes "*") ≡ false
unfolding equal
not_star = refl

no_glob : has_glob_chars (codes "read") ≡ false
unfolding has_glob_chars
no_glob = refl

matches_read-equal :
    (n : Bytes)
    → matches_pattern n (codes "read") ≡ (
        if null (normalize_tool_name n)
        then false
        else equal (normalize_tool_name n) (codes "read"))
unfolding matches_pattern
matches_read-equal n = ground (arith, normalize_pattern_read, not_star, no_glob, targets_normal.0)

matches_read :
    (n : Bytes) → (matches_pattern n (codes "read") ≡ true) ↔ (normalize_tool_name n ≡ codes "read")
matches_read n =
    let eq = equal_iff (normalize_tool_name n) (codes "read") in
    (
      λ h. eq.0 (ground (arith, matches_read-equal n, h)),
      λ h. matches_read-equal n ∙ rw h (equal_refl (codes "read")),
    )

no_names : expand_entries [] ≡ []
unfolding expand_entries
no_names = refl

minimal_policy : default_profile_policy minimal ≡ record { allow = codes "read" ∷ []; deny = [] }
unfolding default_profile_policy
minimal_policy = refl

reads :
    (tool : Bytes) → Listed tool (codes "read" ∷ []) ↔ (matches_pattern tool (codes "read") ≡ true)
reads tool = (λ h. ground arith, λ h. ground arith)

minimal_profile :
    (tool : Bytes)
    → Passes tool (some (default_profile_policy minimal))
      ↔ (matches_pattern tool (codes "read") ≡ true)
minimal_profile tool =
    rw (minimal_policy, no_names, expand_read)
      (
        λ (_, h). elim h [ inl e ↦ cc | inr listed ↦ (reads tool).0 listed ],
        λ h. (λ e. cc, inr ((reads tool).1 h)),
      )

minimal_passes :
    (tool name : Bytes)
    → PassesAll tool (build_default_pipeline_steps new_pipeline (minimal_request name))
      ↔ (matches_pattern tool (codes "read") ≡ true)
unfolding build_default_pipeline_steps new_pipeline normalize_key make_group_key trim to_lower
minimal_passes tool name = (
  λ h. (minimal_profile tool).0 h.0,
  λ h. ((minimal_profile tool).1 h, (tt, (tt, (tt, (tt, (tt, (tt, tt))))))),
)

-- In a new pipeline, for a request with the profile `minimal` and no provider, agent, channel or
-- group, a tool is allowed exactly when its normalized name is `read`.
pub minimal_allows_read :
    (name : Bytes)
    → ((evaluate_tool new_pipeline name (minimal_request name)).allowed ≡ true)
      ↔ (normalize_tool_name name ≡ codes "read")
minimal_allows_read name =
    let tool = normalize_tool_name name in
    let decide = evaluate_tool_iff new_pipeline name (minimal_request name) in
    let passes = minimal_passes tool name in
    let read = matches_read tool in
    let same = normalize_tool_name_idem name in
    (
      λ h. sym same ∙ read.0 (passes.0 (decide.0 h).1),
      λ h. decide.1 (λ e. read_ne_nil (sym h ∙ e), passes.1 (read.1 (same ∙ h))),
    )
