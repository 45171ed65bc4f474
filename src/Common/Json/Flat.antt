-- ===== src/Common/Json/Flat.antt =====
-- A flat object as a map (src/common/json_util.cpp). A map is the list of its entries; setting a key
-- that is there changes its entry.
use ghostclaw.Base.{
  ℕ, zero, suc, ◌+◌, true, false, ◌||◌, List, [], ◌∷◌, Option, none, some, ◌==◌, if◌then◌else◌,
  length, take, drop, drop_while,
}
use ghostclaw.Base.Maybe.{◌>>=◌}
use ghostclaw.Base.Text.{Bytes, equal}
use ghostclaw.Common.Fs.{is_space}
use ghostclaw.Common.Json.{json_unescape, string_end_loop, json_find_matching_token, number_end}

unfoldable pub set_entry : Bytes → Bytes → List (Bytes × Bytes) → List (Bytes × Bytes)
set_entry key value [] = (key, value) ∷ []
set_entry key value ((k, v) ∷ m) =
    if equal k key then (k, value) ∷ m else (k, v) ∷ set_entry key value m

abbrev closing : ℕ → ℕ
closing open_ch = if open_ch == b'{' then b'}' else b']'

-- The value at the begin of the text, and what follows it; `none` ends the loop.
unfoldable pub flat_value : Bytes → Option (Bytes × Bytes)
flat_value [] = none
flat_value (c ∷ rest) =
    if c == b'"'
    then string_end_loop rest 0 false
      >>= (λ end. some (json_unescape (take end rest), drop (end + 1) rest))
    else if c == b'{' || c == b'['
    then json_find_matching_token (c ∷ rest) 0 c (closing c)
      >>= (λ end. some (take (end + 1) (c ∷ rest), drop (end + 1) (c ∷ rest)))
    else let end = number_end (c ∷ rest) 0 in some (take end (c ∷ rest), drop end (c ∷ rest))

-- The value behind the colon.
unfoldable pub behind_colon : Bytes → Option (Bytes × Bytes)
unfolding flat_value
behind_colon [] = none
behind_colon (c ∷ rest) = if c == b':' then flat_value (drop_while is_space rest) else none

-- A key, from behind its quote on, its value, and what follows.
unfoldable pub flat_entry : Bytes → Option (Bytes × (Bytes × Bytes))
unfolding behind_colon
flat_entry s = do
  key_end ← string_end_loop s 0 false
  value ← behind_colon (drop_while is_space (drop (key_end + 1) s))
  some (take key_end s, value)

-- The loop over `pos`, on the bytes from `pos` on; every round takes a byte.
unfoldable pub flat_loop : ℕ → Bytes → List (Bytes × Bytes) → List (Bytes × Bytes)
unfolding flat_entry set_entry
flat_loop zero s result = result
flat_loop (suc fuel) s result = elim (drop_while is_space s) [
  | [] ↦ result
  | c ∷ rest ↦ elim (c == b'}') [
    | true ↦ result
    | false ↦ elim (c == b'"') [
      | false ↦ flat_loop fuel rest result
      | true ↦ elim (flat_entry rest) [
        | none ↦ result
        | some (key, (value, rest')) ↦ flat_loop fuel rest' (set_entry key value result)
      ]
    ]
  ]
]

unfoldable pub json_parse_flat : Bytes → List (Bytes × Bytes)
unfolding flat_loop
json_parse_flat [] = []
json_parse_flat (c ∷ []) = []
json_parse_flat (c ∷ d ∷ s) = if c == b'{' then flat_loop (length (d ∷ s)) (d ∷ s) [] else []
