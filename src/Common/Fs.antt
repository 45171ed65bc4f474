-- ===== src/Common/Fs.antt =====
-- src/common/fs.cpp: trimming, case folding, prefixes and the test for a path below another.
pub mod Trim
pub mod Subpath
use ghostclaw.Base.{
  ℕ, ◌+◌, ◌-◌, ◌≡◌, refl, Bool, true, false, ◌&&◌, ◌||◌, List, [], ◌∷◌, ◌++◌, null, map, reverse,
  arith, leb, ◌==◌, if◌then◌else◌, drop_while,
}
use ghostclaw.Base.Text.{Bytes, is_prefix, equal}

-- std::isspace in the "C" locale
unfoldable pub is_space : ℕ → Bool
is_space c = (leb 9 c && leb c 13) || c == 32

-- std::tolower in the "C" locale
unfoldable pub lower_byte : ℕ → ℕ
lower_byte c = if leb b'A' c && leb c b'Z' then c + 32 else c

-- What is left behind `first`, cut at `last`: where all is space nothing is left, which is the
-- case `first >= last`.
unfoldable pub trim : Bytes → Bytes
unfolding is_space
trim input = reverse (drop_while is_space (reverse (drop_while is_space input)))

unfoldable pub starts_with : Bytes → Bytes → Bool
unfolding is_prefix
starts_with value prefix = is_prefix prefix value

unfoldable pub to_lower : Bytes → Bytes
unfolding lower_byte
to_lower value = map lower_byte value

-- A path is the list of its components.
abbrev pub FilePath : Type 0
FilePath = List Bytes

unfoldable pub is_subpath : FilePath → FilePath → Bool
unfolding equal
is_subpath candidate [] = true
is_subpath [] (p ∷ parent) = false
is_subpath (c ∷ candidate) (p ∷ parent) = equal c p && is_subpath candidate parent

-- `stream >> word` until the stream's end
unfoldable pub words : Bytes → Bytes → List Bytes
unfolding is_space
words word [] = if null word then [] else word ∷ []
words word (c ∷ s) = elim (is_space c) [
  | false ↦ words (word ++ c ∷ []) s
  | true ↦ if null word then words [] s else word ∷ words [] s
]
