-- ===== src/Tests/Registered.antt =====
-- A registry of channels at concrete inputs.
use ghostclaw.Base.{ℕ, ◌≡◌, refl, List, [], ◌∷◌, Option, none, some}
use ghostclaw.Base.Text.{Bytes, codes, equal}
use ghostclaw.Common.Fs.{trim, to_lower, lower_byte, is_space}
use ghostclaw.Channels.PluginRegistry.{normalize_id, create}
use ghostclaw.Channels.PluginRegistry.First.{register_all, first_of, create-register_all}

-- A factory is a number.
abbrev calls : List (Bytes × Option ℕ)
calls = (codes "Slack", some 1) ∷ (codes " slack ", some 2) ∷ (codes "cli", none) ∷ []

create-register_all_example :
    create (register_all calls []) (codes "SLACK") ≡ first_of (normalize_id (codes "SLACK")) calls
unfolding normalize_id trim to_lower lower_byte is_space
create-register_all_example = create-register_all calls (codes "SLACK") refl

first : first_of (normalize_id (codes "SLACK")) calls ≡ some 1
unfolding normalize_id trim to_lower lower_byte is_space equal
first = refl
