-- ===== src/Common/Json/Arrays.antt =====
-- The array getter and the splitting of an array (src/common/json_util.cpp).
pub mod RoundTrip
use ghostclaw.Base.{
  ℕ, zero, suc, ◌+◌, ◌-◌, Bool, true, false, ◌&&◌, ◌||◌, not, List, [], ◌∷◌, ◌++◌, Option, none,
  some, ◌==◌, leb, if◌then◌else◌, length, take, drop, drop_while,
}
use ghostclaw.Base.Text.{Bytes, substr}
use ghostclaw.Common.Fs.{is_space}
use ghostclaw.Common.Json.{json_unescape, string_end_loop, json_get_array, Scan, scan_string, is_at}

-- The loop over `pos`, on the bytes from `pos` on; every round takes a byte.
unfoldable pub items_loop : ℕ → Bytes → List Bytes
items_loop zero s = []
items_loop (suc fuel) s = elim (drop_while is_space s) [
  | [] ↦ []
  | c ∷ rest ↦ elim (c == b']') [
    | true ↦ []
    | false ↦ elim (c == b'"') [
      | false ↦ items_loop fuel rest
      | true ↦ elim (string_end_loop rest 0 false) [
        | none ↦ []
        | some end ↦ json_unescape (take end rest) ∷ items_loop fuel (drop (end + 1) rest)
      ]
    ]
  ]
]

unfoldable pub json_get_string_array : Bytes → Bytes → List Bytes
unfolding items_loop
json_get_string_array json field = elim (json_get_array json field) [
  | [] ↦ []
  | _ ∷ s ↦ items_loop (length s) s
]

-- The scan's state, with the objects found and the begin of the current one.
pub record Split : Type 0 where
  pub scan : Scan
  pub current_start : Option ℕ
  pub out : List Bytes

-- What one byte outside a string does.
unfoldable pub split_byte : Bytes → ℕ → ℕ → Split → Split
split_byte array_json i ch s =
    let scan = s.scan in
    if ch == b'"'
    then record s { scan = record scan { in_string = true; escaped = false } }
    else if ch == b'{'
    then record s {
      scan = record scan { depth = scan.depth + 1 };
      current_start = if scan.depth == 0 then some i else s.current_start;
    }
    else if not (ch == b'}') || scan.depth == 0
    then s
    else let less = record s { scan = record scan { depth = scan.depth - 1 } } in
      if scan.depth == 1
      then elim s.current_start [
        | none ↦ less
        | some start ↦ record less {
          current_start = none;
          out = s.out ++ substr array_json start (i - start + 1) ∷ [];
        }
      ]
      else less

-- The bytes between the brackets.
unfoldable pub split_loop : Bytes → ℕ → Bytes → Split → List Bytes
unfolding split_byte scan_string
split_loop array_json i [] s = s.out
split_loop array_json i (ch ∷ rest) s = elim s.scan.in_string [
  | true ↦ split_loop array_json (i + 1) rest (record s { scan = scan_string s.scan ch })
  | false ↦ split_loop array_json (i + 1) rest (split_byte array_json i ch s)
]

unfoldable pub json_split_top_level_objects : Bytes → List Bytes
unfolding split_loop is_at
json_split_top_level_objects array_json =
    if not (leb 2 (length array_json))
    then []
    else if not (is_at array_json 0 b'[' && is_at array_json (length array_json - 1) b']')
    then []
    else split_loop array_json 1 (take (length array_json - 2) (drop 1 array_json)) (record {
      scan = record { depth = 0; in_string = false; escaped = false };
      current_start = none;
      out = [];
    })
