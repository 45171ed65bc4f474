-- ===== src/Common/Toml.antt =====
-- src/common/toml.cpp: the reader of configuration files. A document is the list of its entries, and
-- `to_string` is std::to_string. get_double, which reads floating point numbers, is left out.
pub mod Rows
pub mod RoundTrip
use ghostclaw.Base.{
  ℕ, zero, suc, ◌+◌, ◌-◌, Bool, true, false, ◌&&◌, ◌||◌, not, List, [], ◌∷◌, ◌++◌, Option, none,
  some, ◌==◌, leb, ltb, if◌then◌else◌, null, length, take, drop, reverse, keep, map,
}
use ghostclaw.Base.Text.{Bytes, codes, equal, index_of, lines}
use ghostclaw.Common.{Result, ok, err, ◌>>=◌}
use ghostclaw.Common.Fs.{trim, to_lower}
use ghostclaw.Common.Json.Flat.{set_entry}
use ghostclaw.Heartbeat.Cron.Integers.{ℤ, parse_int, is_number, digits_value}

abbrev pub Values : Type 0
Values = List (Bytes × Bytes)

-- `ch` is a quote, and the byte before it is no backslash.
abbrev pub toggles : Bool → ℕ → Bool
toggles behind_backslash ch = ch == b'"' && not behind_backslash

-- The loop over `i`, with whether `line[i - 1]` is a backslash.
unfoldable pub strip_loop : Bool → Bool → Bytes → Bytes
strip_loop behind_backslash in_quotes [] = []
strip_loop behind_backslash in_quotes (ch ∷ line) =
    let inside = (if toggles behind_backslash ch then not in_quotes else in_quotes) in
    let rest = strip_loop (ch == b'\\') inside line in
    if not inside && ch == b'#' then [] else ch ∷ rest

unfoldable pub strip_comment : Bytes → Bytes
unfolding strip_loop
strip_comment line = strip_loop false false line

abbrev pub not_null : Bytes → List Bytes
not_null current = if null (trim current) then [] else trim current ∷ []

unfoldable pub split_loop : Bool → Bool → Bytes → Bytes → List Bytes
split_loop behind_backslash in_quotes current [] = not_null current
split_loop behind_backslash in_quotes current (ch ∷ array) = elim (toggles behind_backslash ch) [
  | true ↦ split_loop false (not in_quotes) (current ++ ch ∷ []) array
  | false ↦ elim (not in_quotes && ch == b',') [
    | true ↦ trim current ∷ split_loop false in_quotes [] array
    | false ↦ split_loop (ch == b'\\') in_quotes (current ++ ch ∷ []) array
  ]
]

unfoldable pub split_array_elements : Bytes → List Bytes
unfolding split_loop
split_array_elements array_value = split_loop false false [] array_value

abbrev pub starts_byte : ℕ → Bytes → Bool
starts_byte b [] = false
starts_byte b (c ∷ s) = c == b

abbrev pub ends_byte : ℕ → Bytes → Bool
ends_byte b s = starts_byte b (reverse s)

-- The text without its first and its last byte.
abbrev pub inner : Bytes → Bytes
inner s = take (length s - 2) (drop 1 s)

unfoldable pub unquote : Bytes → Bytes
unquote text =
    let value = trim text in
    if leb 2 (length value) && (starts_byte b'"' value && ends_byte b'"' value)
    then inner value
    else value

-- `values.find(key)`
unfoldable pub find_value : Bytes → Values → Option Bytes
find_value key [] = none
find_value key ((k, v) ∷ values) =
    let rest = find_value key values in if equal k key then some v else rest

unfoldable pub has : Values → Bytes → Bool
unfolding find_value
has values key = elim (find_value key values) [ none ↦ false | some _ ↦ true ]

unfoldable pub get_string : Values → Bytes → Bytes → Bytes
unfolding find_value unquote
get_string values key fallback = elim (find_value key values) [
  | none ↦ fallback
  | some value ↦ unquote value
]

abbrev pub read_bool : Bytes → Bool → Bool
read_bool value fallback =
    let normalized = to_lower (trim value) in
    if equal normalized (codes "true")
    then true
    else if equal normalized (codes "false")
    then false
    else fallback

unfoldable pub get_bool : Values → Bytes → Bool → Bool
unfolding find_value
get_bool values key fallback = elim (find_value key values) [
  | none ↦ fallback
  | some value ↦ read_bool value fallback
]

-- std::from_chars, which must take the whole text.
abbrev pub read_int : Bytes → ℤ → ℤ
read_int value fallback = elim (parse_int (trim value)) [ err _ ↦ fallback | ok parsed ↦ parsed ]

unfoldable pub get_int : Values → Bytes → ℤ → ℤ
unfolding find_value
get_int values key fallback = elim (find_value key values) [
  | none ↦ fallback
  | some value ↦ read_int value fallback
]

abbrev pub read_u64 : Bytes → ℕ → ℕ
read_u64 value fallback =
    let digits = trim value in
    if is_number digits 18446744073709551615 then digits_value 0 digits else fallback

unfoldable pub get_u64 : Values → Bytes → ℕ → ℕ
unfolding find_value
get_u64 values key fallback = elim (find_value key values) [
  | none ↦ fallback
  | some value ↦ read_u64 value fallback
]

abbrev pub read_array : Bytes → List Bytes → List Bytes
read_array value fallback =
    let raw = trim value in
    if ltb (length raw) 2 || (not (starts_byte b'[' raw) || not (ends_byte b']' raw))
    then fallback
    else map unquote (keep (λ element. not (null element)) (split_array_elements (inner raw)))

unfoldable pub get_string_array : Values → Bytes → List Bytes → List Bytes
unfolding find_value split_array_elements
get_string_array values key fallback = elim (find_value key values) [
  | none ↦ fallback
  | some value ↦ read_array value fallback
]

-- `if (!line.empty() && line.back() == '\r') line.pop_back();`
abbrev pub without_cr : Bytes → Bytes
without_cr line = if ends_byte b'\r' line then take (length line - 1) line else line

unfoldable pub clean : Bytes → Bytes
unfolding strip_comment
clean line = trim (strip_comment (without_cr line))

-- The section and the values that the lines so far have given.
pub record Document : Type 0 where
  pub section : Bytes
  pub values : Values

abbrev pub full_key : Bytes → Bytes → Bytes
full_key section key = if null section then key else section ++ (b'.' ∷ key)

module _ (to_string : ℕ → Bytes) where
  abbrev set_section : ℕ → Bytes → Document → Result Document
  set_section number section d =
      if null section
      then err (codes "Invalid empty section at line " ++ to_string number)
      else ok (record d { section = section })

  abbrev set_value : ℕ → Bytes → Bytes → Document → Result Document
  set_value number key value d =
      if null key
      then err (codes "Missing key at line " ++ to_string number)
      else ok (record d { values = set_entry (full_key d.section key) value d.values })

  -- What a line does that is left of its comment and its outer spaces.
  unfoldable pub read_line : ℕ → Bytes → Document → Result Document
  unfolding set_entry
  read_line number line d =
      if null line
      then ok d
      else if starts_byte b'[' line && ends_byte b']' line
      then set_section number (trim (inner line)) d
      else elim (index_of (codes "=") line) [
        | none ↦ err (codes "Invalid key/value at line " ++ to_string number)
        | some equals ↦ set_value number (trim (take equals line)) (trim (drop (equals + 1) line)) d
      ]

  unfoldable pub line_loop : ℕ → List Bytes → Document → Result Document
  unfolding read_line clean
  line_loop number [] d = ok d
  line_loop number (line ∷ rest) d =
      read_line (number + 1) (clean line) d >>= (λ next. line_loop (number + 1) rest next)

  -- An empty line at the end does nothing.
  unfoldable pub parse_toml : Bytes → Result Document
  unfolding line_loop
  parse_toml content = line_loop 0 (lines [] content) (record { section = []; values = [] })

unfoldable pub quote_byte : ℕ → Bytes
quote_byte ch = if ch == b'"' || ch == b'\\' then b'\\' ∷ (ch ∷ []) else ch ∷ []

-- What stands between the quotes.
unfoldable pub quote_loop : Bytes → Bytes
unfolding quote_byte
quote_loop [] = []
quote_loop (ch ∷ value) = quote_byte ch ++ quote_loop value

unfoldable pub quote_toml_string : Bytes → Bytes
unfolding quote_loop
quote_toml_string value = b'"' ∷ (quote_loop value ++ b'"' ∷ [])
