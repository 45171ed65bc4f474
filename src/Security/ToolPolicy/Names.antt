-- ===== src/Security/ToolPolicy/Names.antt =====
-- src/security/tool_policy_pipeline.cpp: the names of tools, groups and profiles, and patterns.
use ghostclaw.Base.{
  ◌&&◌, ◌||◌, not, Bool, true, false, List, [], ◌∷◌, ◌++◌, map, Option, none, some, if◌then◌else◌,
  null,
}
use ghostclaw.Base.Text.{Bytes, codes, equal, is_prefix}
use ghostclaw.Base.{String}
use ghostclaw.Common.{Result, ok, err}
use ghostclaw.Common.Fs.{trim, to_lower}
use ghostclaw.Security.Glob.{has_glob_chars, glob_to_regex, regex_match}

unfoldable pub normalize_key : Bytes → Bytes
normalize_key value = to_lower (trim value)

-- A constant map, as the list of its pairs.
unfoldable pub lookup {ℓ} : {V : Type ℓ} → Bytes → List (Bytes × V) → Option V
unfolding equal
lookup k [] = none
lookup k ((j, v) ∷ m) = if equal j k then some v else lookup k m

abbrev alias : String → String → Bytes × Bytes
alias a b = (codes a, codes b)

abbrev pub tool_aliases : List (Bytes × Bytes)
tool_aliases =
    alias "file_read" "read"
    ∷ alias "file_write" "write"
    ∷ alias "file_edit" "edit"
    ∷ alias "shell" "exec"
    ∷ alias "bash" "exec"
    ∷ alias "process_bg" "process"
    ∷ alias "sessions_list" "sessions"
    ∷ alias "sessions_history" "sessions"
    ∷ alias "sessions_send" "sessions"
    ∷ alias "sessions_spawn" "sessions"
    ∷ alias "session_list" "sessions"
    ∷ alias "session_fork" "subagents"
    ∷ alias "apply-patch" "edit"
    ∷ alias "calendar" "calendar"
    ∷ alias "email" "email"
    ∷ alias "notify" "notify"
    ∷ alias "reminder" "reminder"
    ∷ alias "message" "message"
    ∷ []

unfoldable pub aliased : Bytes → Bytes
aliased normalized = elim (lookup normalized tool_aliases) [ none ↦ normalized | some name ↦ name ]

unfoldable pub normalize_tool_name : Bytes → Bytes
unfolding normalize_key
normalize_tool_name name =
    let normalized = normalize_key name in if null normalized then [] else aliased normalized

abbrev group_names : List String
group_names =
    "fs" ∷ "runtime" ∷ "memory" ∷ "sessions" ∷ "skills" ∷ "ui" ∷ "automation" ∷ "messaging"
    ∷ "calendar" ∷ "web" ∷ "conway" ∷ "soul" ∷ "profiler" ∷ []

abbrev group_aliases : List (Bytes × Bytes)
group_aliases = map (λ n. (codes n, codes "group:" ++ codes n)) group_names

abbrev group : String → List String → Bytes × List Bytes
group name tools = (codes "group:" ++ codes name, map codes tools)

abbrev groups : List (Bytes × List Bytes)
groups =
    group "fs" ("read" ∷ "write" ∷ "edit" ∷ [])
    ∷ group "runtime" ("exec" ∷ "process" ∷ [])
    ∷ group "memory" ("memory_store" ∷ "memory_recall" ∷ "memory_forget" ∷ [])
    ∷ group "sessions" ("sessions" ∷ "subagents" ∷ "skills" ∷ [])
    ∷ group "skills" ("skills" ∷ "skill_discover" ∷ "skill_auto_install" ∷ "skill_create" ∷ [])
    ∷ group "ui" ("browser" ∷ "canvas" ∷ [])
    ∷ group "automation" ("cron" ∷ "gateway" ∷ [])
    ∷ group "messaging" ("message" ∷ "email" ∷ "notify" ∷ "reminder" ∷ [])
    ∷ group "calendar" ("calendar" ∷ "reminder" ∷ [])
    ∷ group "web" ("web_search" ∷ "web_fetch" ∷ [])
    ∷ group "conway" ("mcp_conway_*" ∷ [])
    ∷ group "soul" ("soul_update" ∷ "soul_reflect" ∷ "soul_read" ∷ [])
    ∷ group "profiler" ("tool_profile_report" ∷ "self_optimize" ∷ [])
    ∷ []

-- A key without the prefix `group:` may be the short name of a group.
unfoldable pub group_key : Bytes → Bytes
unfolding lookup is_prefix
group_key key =
    if is_prefix (codes "group:") key
    then key
    else elim (lookup key group_aliases) [ none ↦ key | some name ↦ name ]

unfoldable pub expand_group : Bytes → List Bytes
unfolding group_key lookup
expand_group group_name =
    let key = normalize_key group_name in
    if null key then [] else elim (lookup (group_key key) groups) [ none ↦ [] | some tools ↦ tools ]

unfoldable pub normalize_pattern : Bytes → Bytes
normalize_pattern pattern =
    let normalized = normalize_key pattern in
    if null normalized
    then []
    else if has_glob_chars normalized
    then normalized
    else normalize_tool_name normalized

unfoldable pub matches_pattern : Bytes → Bytes → Bool
matches_pattern name pattern =
    let normalized_name = normalize_tool_name name in
    let normalized_pattern = normalize_pattern pattern in
    if null normalized_name || null normalized_pattern
    then false
    else if equal normalized_pattern (codes "*")
    then true
    else if not (has_glob_chars normalized_pattern)
    then equal normalized_name (normalize_tool_name normalized_pattern)
    else regex_match normalized_name (glob_to_regex normalized_pattern)

unfoldable pub make_group_key : Bytes → Bytes → Bytes
make_group_key channel_id group_id =
    let channel = normalize_key channel_id in
    let group = normalize_key group_id in
    if null channel && null group then [] else channel ++ (codes "::" ++ group)

pub data ToolProfile : Type 0 where
  minimal coding messaging full : ToolProfile

unfoldable pub profile_from_string : Bytes → Result ToolProfile
profile_from_string value =
    let normalized = normalize_key value in
    if equal normalized (codes "minimal")
    then ok minimal
    else if equal normalized (codes "coding")
    then ok coding
    else if equal normalized (codes "messaging")
    then ok messaging
    else if equal normalized (codes "full")
    then ok full
    else err (codes "unknown tool profile: " ++ value)

unfoldable pub profile_to_string : ToolProfile → Bytes
profile_to_string minimal = codes "minimal"
profile_to_string coding = codes "coding"
profile_to_string messaging = codes "messaging"
profile_to_string full = codes "full"
