-- ===== src/Common/Toml/RoundTrip.antt =====
-- Texts that are written as values are read back (src/common/toml.cpp).
use ghostclaw.Base.{
  ℕ, ◌+◌, ◌-◌, ◌≡◌, refl, ap, le→leb, ◌∙◌, true, not, ◌||◌, List, [], ◌∷◌, ◌++◌, some, arith,
  length, map, all, ◌==◌, leb, length-append, take-append,
}
use ghostclaw.Base.Lines.{unlines, HaveNoNewline, lines-unlines}
use ghostclaw.Base.Text.{Bytes, Lacks, equal_refl}
use ghostclaw.Common.{Result, ok, ◌>>=◌}
use ghostclaw.Common.Fs.{trim}
use ghostclaw.Common.Fs.Trim.{trim-solid}
use ghostclaw.Common.Json.Flat.{set_entry}
use ghostclaw.Common.Toml.{
  Values, Document, starts_byte, ends_byte, unquote, find_value, get_string, read_line, line_loop,
  parse_toml, quote_byte, quote_loop, quote_toml_string,
}
use ghostclaw.Common.Toml.Rows.{
  IsKey, row, quote_solid, row-Lacks, clean-row, reverse-quote, ends_solid, read-row,
}

-- The entries that a file of such lines sets.
abbrev pub stored : List (Bytes × Bytes) → Values → Values
stored [] values = values
stored ((key, value) ∷ rest) values = stored rest (set_entry key (quote_toml_string value) values)

abbrev pub rows : List (Bytes × Bytes) → List Bytes
rows entries = map (λ e. row e.0 e.1) entries

abbrev pub AreEntries : List (Bytes × Bytes) → Type 0
AreEntries [] = Unit
AreEntries ((key, value) ∷ rest) = IsKey key × Lacks b'\n' value × AreEntries rest

module _ (to_string : ℕ → Bytes) where
  line_loop-rows :
      (entries : List (Bytes × Bytes)) (number : ℕ) (values : Values)
      → AreEntries entries
      → line_loop to_string number (rows entries) (record { section = []; values = values })
        ≡ ok (record { section = []; values = stored entries values })
  unfolding line_loop
  line_loop-rows [] number values h = refl
  line_loop-rows ((key, value) ∷ rest) number values (k, line, h) =
      let start : Document = record { section = []; values = values } in
      let go : Document → Result Document = line_loop to_string (number + 1) (rows rest) in
      ap (λ t. read_line to_string (number + 1) t start >>= go) (clean-row key value k)
      ∙ ap (λ r. r >>= go) (read-row key value k to_string (number + 1) values)
      ∙ line_loop-rows rest (number + 1) (set_entry key (quote_toml_string value) values) h

  rows-lines : (entries : List (Bytes × Bytes)) → AreEntries entries → HaveNoNewline (rows entries)
  rows-lines [] h = tt
  rows-lines ((key, value) ∷ rest) (k, line, h) = (row-Lacks key value k line, rows-lines rest h)

find_value-set_entry :
    (key value : Bytes) (values : Values) → find_value key (set_entry key value values) ≡ some value
unfolding find_value set_entry
find_value-set_entry key value [] = rw (equal_refl key) refl
find_value-set_entry key value ((k, v) ∷ values) =
    ground (arith, find_value-set_entry key value values)

trim-quote : (value : Bytes) → trim (quote_toml_string value) ≡ quote_toml_string value
unfolding quote_toml_string
trim-quote value =
    let front = b'"' ∷ quote_loop value in
    trim-solid (front ++ b'"' ∷ []) quote_solid (ends_solid front)

unquote-quote : (value : Bytes) → unquote (quote_toml_string value) ≡ quote_loop value
unfolding unquote quote_toml_string
unquote-quote value =
    let front = b'"' ∷ quote_loop value in
    let whole = front ++ b'"' ∷ [] in
    let ends : ends_byte b'"' whole ≡ true = ap (starts_byte b'"') (reverse-quote front) in
    let long : leb 2 (length whole) ≡ true =
      le→leb 2 (length whole) (omega (arith, length-append (quote_loop value) (b'"' ∷ []))) in
    let size : length whole - 2 ≡ length (quote_loop value) =
      omega (arith, length-append (quote_loop value) (b'"' ∷ [])) in
    rw (trim-quote value, long, ends, size) (take-append (quote_loop value) (b'"' ∷ []))

-- No quote and no backslash.
abbrev pub IsBare : Bytes → Type 0
IsBare value = all (λ c. not (c == b'"' || c == b'\\')) value ≡ true

-- A text of such bytes stands between its quotes as it is.
pub quote_loop-bare : (value : Bytes) → IsBare value → quote_loop value ≡ value
unfolding quote_loop quote_byte
quote_loop-bare [] h = refl
quote_loop-bare (c ∷ value) h = ground (arith, quote_loop-bare value)

stored-append :
    (xs ys : List (Bytes × Bytes)) (values : Values)
    → stored (xs ++ ys) values ≡ stored ys (stored xs values)
stored-append [] ys values = refl
stored-append ((key, value) ∷ xs) ys values =
    stored-append xs ys (set_entry key (quote_toml_string value) values)

-- A file of lines that give bare keys texts without newlines is accepted. The last text is read
-- back under its key as it stands between its quotes, with a backslash before each quote and each
-- backslash; the texts before it may be any, also of its key.
pub get_string-parse_toml :
    (to_string : ℕ → Bytes) (entries : List (Bytes × Bytes)) (key value fallback : Bytes)
    → AreEntries (entries ++ (key, value) ∷ [])
    → (d : Document) × (parse_toml to_string (unlines (rows (entries ++ (key, value) ∷ []))) ≡ ok d)
      × (get_string d.values key fallback ≡ quote_loop value)
unfolding parse_toml get_string
get_string-parse_toml to_string entries key value fallback h =
    let all_entries = entries ++ (key, value) ∷ [] in
    let values = stored all_entries [] in
    let last : find_value key values ≡ some (quote_toml_string value) =
      ap (find_value key) (stored-append entries ((key, value) ∷ []) [])
      ∙ find_value-set_entry key (quote_toml_string value) (stored entries []) in
    let read : get_string values key fallback ≡ quote_loop value =
      rw (get_string, last) (unquote-quote value) in
    (
      record { section = []; values = values },
      ap (λ t. line_loop to_string 0 t (record { section = []; values = [] }))
            (lines-unlines (rows all_entries) (rows-lines to_string all_entries h))
          ∙ line_loop-rows to_string all_entries 0 [] h,
      read,
    )
