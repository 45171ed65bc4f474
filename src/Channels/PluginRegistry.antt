-- ===== src/Channels/PluginRegistry.antt =====
-- src/channels/plugin_registry.cpp: the factories of channels by their ids. A factory is anything; one that
-- is not set is `none`. `sort` is std::sort.
pub mod First
use ghostclaw.Base.{ℕ, Bool, List, [], ◌∷◌, ◌++◌, Option, none, some, if◌then◌else◌, null, map}
use ghostclaw.Base.Text.{Bytes, codes, equal}
use ghostclaw.Common.{Result, ok, err}
use ghostclaw.Common.Fs.{trim, to_lower}
use ghostclaw.Security.ToolPolicy.Names.{lookup}

unfoldable pub normalize_id : Bytes → Bytes
normalize_id id = to_lower (trim id)

module _ {F : Type 0} where
  -- Whether the id is known, and the registry with its new entry.
  abbrev pub insert_new :
      Bytes → F → List (Bytes × F) → Option F → Result (Unit {0}) × List (Bytes × F)
  insert_new id factory factories (some _) =
      (err (codes "plugin already registered: " ++ id), factories)
  insert_new id factory factories none = (ok tt, (id, factory) ∷ factories)

  abbrev pub register_set :
      Bytes → Option F → List (Bytes × F) → Result (Unit {0}) × List (Bytes × F)
  register_set id none factories = (err (codes "plugin factory is required"), factories)
  register_set id (some factory) factories = insert_new id factory factories (lookup id factories)

  unfoldable pub register_factory :
      Bytes → Option F → List (Bytes × F) → Result (Unit {0}) × List (Bytes × F)
  unfolding normalize_id lookup
  register_factory id factory factories =
      let normalized = normalize_id id in
      if null normalized
      then (err (codes "plugin id is required"), factories)
      else register_set normalized factory factories

  -- The factory that makes the channel; `none` is nullptr.
  unfoldable pub create : List (Bytes × F) → Bytes → Option F
  unfolding normalize_id lookup
  create factories id =
      let normalized = normalize_id id in
      if null normalized then none else lookup normalized factories

  abbrev pub is_some : Option F → Bool
  is_some none = Bool.false
  is_some (some _) = Bool.true

  unfoldable pub contains : List (Bytes × F) → Bytes → Bool
  unfolding normalize_id lookup
  contains factories id = is_some (lookup (normalize_id id) factories)

  unfoldable pub list : (List Bytes → List Bytes) → List (Bytes × F) → List Bytes
  list sort factories = sort (map (λ e. e.0) factories)
