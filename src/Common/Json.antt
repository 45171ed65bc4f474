-- ===== src/Common/Json.antt =====
-- src/common/json_util.cpp: escapes and the search for one field in a JSON text. A position counts
-- bytes from the start; `none` is npos, and an empty text is the failure of a getter.
pub mod Escape
pub mod Field
pub mod Arrays
pub mod Flat
use ghostclaw.Base.{
  ℕ, ◌+◌, ◌-◌, Bool, true, false, ◌&&◌, ◌||◌, not, List, [], ◌∷◌, ◌++◌, Option, none, some, ◌==◌,
  leb, if◌then◌else◌, length, drop, suc, zero, get_elem?,
}
use ghostclaw.Base.Text.{Bytes, find, substr}
use ghostclaw.Common.Fs.{is_space}

-- What one byte is written as.
unfoldable pub escape_byte : ℕ → Bytes
escape_byte c =
    if c == b'"'
    then b'\\' ∷ (b'"' ∷ [])
    else if c == b'\\'
    then b'\\' ∷ (b'\\' ∷ [])
    else if c == b'\n'
    then b'\\' ∷ (b'n' ∷ [])
    else if c == b'\r'
    then b'\\' ∷ (b'r' ∷ [])
    else if c == b'\t'
    then b'\\' ∷ (b't' ∷ [])
    else c ∷ []

unfoldable pub json_escape : Bytes → Bytes
unfolding escape_byte
json_escape [] = []
json_escape (c ∷ value) = escape_byte c ++ json_escape value

-- The byte that stands for `\c`.
unfoldable pub unescape_byte : ℕ → ℕ
unescape_byte c =
    if c == b'n' then b'\n' else if c == b'r' then b'\r' else if c == b't' then b'\t' else c

unfoldable pub unescape_loop : Bool → Bytes → Bytes
unfolding unescape_byte
unescape_loop escaped [] = []
unescape_loop true (c ∷ raw) = unescape_byte c ∷ unescape_loop false raw
unescape_loop false (c ∷ raw) = elim (c == b'\\') [
  | true ↦ unescape_loop true raw
  | false ↦ c ∷ unescape_loop false raw
]

unfoldable pub json_unescape : Bytes → Bytes
unfolding unescape_loop
json_unescape raw = unescape_loop false raw

unfoldable pub json_find_key : Bytes → Bytes → ℕ → Option ℕ
json_find_key json key from = find json (b'"' ∷ (key ++ b'"' ∷ [])) from

unfoldable pub skip_loop : Bytes → ℕ → ℕ
skip_loop [] pos = pos
skip_loop (c ∷ s) pos = elim (is_space c) [ true ↦ skip_loop s (pos + 1) | false ↦ pos ]

unfoldable pub json_skip_ws : Bytes → ℕ → ℕ
unfolding skip_loop
json_skip_ws text pos = skip_loop (drop pos text) pos

-- The loop over `i`, on the bytes from `i` on.
unfoldable pub string_end_loop : Bytes → ℕ → Bool → Option ℕ
string_end_loop [] i escaped = none
string_end_loop (c ∷ s) i escaped = elim (not escaped && c == b'"') [
  | true ↦ some i
  | false ↦ string_end_loop s (i + 1) (not escaped && c == b'\\')
]

unfoldable pub json_find_string_end : Bytes → ℕ → Option ℕ
unfolding string_end_loop
json_find_string_end json quote_pos =
    string_end_loop (drop (quote_pos + 1) json) (quote_pos + 1) false

-- The scanner's state between two bytes.
pub record Scan : Type 0 where
  pub depth : ℕ
  pub in_string : Bool
  pub escaped : Bool

-- What a byte inside a string does.
unfoldable pub scan_string : Scan → ℕ → Scan
scan_string s c =
    if not s.escaped && c == b'"'
    then record s { in_string = false; escaped = false }
    else if not s.escaped && c == b'\\'
    then record s { escaped = true }
    else record s { escaped = false }

unfoldable pub token_loop : ℕ → ℕ → Bytes → ℕ → Scan → Option ℕ
unfolding scan_string
token_loop open_ch close_ch [] i s = none
token_loop open_ch close_ch (c ∷ json) i s = elim s.in_string [
  | true ↦ token_loop open_ch close_ch json (i + 1) (scan_string s c)
  | false ↦ elim (c == b'"') [
    | true ↦
        token_loop open_ch close_ch json (i + 1) (record s { in_string = true; escaped = false })
    | false ↦ elim (c == open_ch) [
      | true ↦ token_loop open_ch close_ch json (i + 1) (record s { depth = s.depth + 1 })
      | false ↦ elim (c == close_ch) [
        | false ↦ token_loop open_ch close_ch json (i + 1) s
        | true ↦ elim (s.depth == 0) [
          | true ↦ none
          | false ↦ elim (s.depth == 1) [
            | true ↦ some i
            | false ↦ token_loop open_ch close_ch json (i + 1) (record s { depth = s.depth - 1 })
          ]
        ]
      ]
    ]
  ]
]

-- `text[pos] == c`, false behind the end
unfoldable pub is_at : Bytes → ℕ → ℕ → Bool
is_at text pos c = elim (get_elem? text pos) [ none ↦ false | some d ↦ d == c ]

unfoldable pub json_find_matching_token : Bytes → ℕ → ℕ → ℕ → Option ℕ
unfolding token_loop
json_find_matching_token json open_pos open_ch close_ch =
    if not (is_at json open_pos open_ch)
    then none
    else token_loop open_ch close_ch (drop open_pos json) open_pos
        (record { depth = 0; in_string = false; escaped = false })

-- A getter's next step, or its failure.
abbrev pub found : Option ℕ → (ℕ → Bytes) → Bytes
found none next = []
found (some pos) next = next pos

-- The position of the field's value.
unfoldable pub value_pos : Bytes → Bytes → Option ℕ
value_pos json field = elim (json_find_key json field 0) [
  | none ↦ none
  | some key_pos ↦ elim (find json (b':' ∷ []) (key_pos + length field + 2)) [
    | none ↦ none
    | some colon ↦ some (json_skip_ws json (colon + 1))
  ]
]

unfoldable pub json_get_string : Bytes → Bytes → Bytes
json_get_string json field = found (value_pos json field) λ pos.
    if not (is_at json pos b'"')
    then []
    else found (json_find_string_end json pos)
        λ end. if leb end pos then [] else json_unescape (substr json (pos + 1) (end - pos - 1))

unfoldable pub number_end : Bytes → ℕ → ℕ
number_end [] pos = pos
number_end (c ∷ s) pos = elim (c == b',' || (c == b'}' || (c == b']' || is_space c))) [
  | true ↦ pos
  | false ↦ number_end s (pos + 1)
]

unfoldable pub json_get_number : Bytes → Bytes → Bytes
unfolding number_end
json_get_number json field = found (value_pos json field) λ start.
    if leb (length json) start || is_at json start b'"'
    then []
    else let pos = number_end (drop start json) start in
      if leb pos start then [] else substr json start (pos - start)

-- `json_get_object` and `json_get_array` differ in the brackets only.
abbrev pub get_bracketed : ℕ → ℕ → Bytes → Bytes → Bytes
get_bracketed open_ch close_ch json field = found (value_pos json field) λ pos.
    if not (is_at json pos open_ch)
    then []
    else found (json_find_matching_token json pos open_ch close_ch)
        λ end. substr json pos (end - pos + 1)

unfoldable pub json_get_object : Bytes → Bytes → Bytes
json_get_object json field = get_bracketed b'{' b'}' json field

unfoldable pub json_get_array : Bytes → Bytes → Bytes
json_get_array json field = get_bracketed b'[' b']' json field
