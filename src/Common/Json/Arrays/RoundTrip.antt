-- ===== src/Common/Json/Arrays/RoundTrip.antt =====
-- An array of texts is read back (src/common/json_util.cpp).
use ghostclaw.Base.{
  ℕ, zero, suc, ◌+◌, ◌-◌, ◌<◌, ◌≡◌, refl, ap, ap₂, sym, ◌∙◌, Bool, true, false, List, [], ◌∷◌, ◌++◌,
  some, arith, length, length-append, append_assoc, take, take-append, drop, drop-append,
}
use ghostclaw.Base.Text.{Bytes, substr}
use ghostclaw.Common.Fs.{is_space}
use ghostclaw.Common.Json.{
  escape_byte, json_escape, json_unescape, string_end_loop, Scan, scan_string, token_loop,
  json_find_matching_token, is_at, value_pos, json_get_array,
}
use ghostclaw.Common.Json.Escape.{json_unescape-json_escape, string_end-json_escape, escape-split}
use ghostclaw.Common.Json.Field.{front, finds_value, get_elem?-length, drop-quote}
use ghostclaw.Common.Json.Arrays.{items_loop, json_get_string_array}

-- Texts between quotes, parted by commas.
abbrev pub items_text : Bool → List Bytes → Bytes
items_text first [] = []
items_text true (v ∷ values) = b'"' ∷ (json_escape v ++ (b'"' ∷ items_text false values))
items_text false (v ∷ values) = b',' ∷ b'"' ∷ (json_escape v ++ (b'"' ∷ items_text false values))

abbrev inside : Scan
inside = record { depth = 1; in_string = true; escaped = false }

abbrev between : Scan
between = record { depth = 1; in_string = false; escaped = false }

scan-escape_byte :
    (c i : ℕ) (rest : Bytes)
    → token_loop b'[' b']' (escape_byte c ++ rest) i inside
      ≡ token_loop b'[' b']' rest (i + length (escape_byte c)) inside
unfolding token_loop scan_string escape_byte
scan-escape_byte c i rest = let two : i + 1 + 1 ≡ i + 2 = omega arith in ground (arith, two)

-- A text between quotes is passed over.
scan-json_escape :
    (v rest : Bytes) (i : ℕ)
    → token_loop b'[' b']' (json_escape v ++ (b'"' ∷ rest)) i inside
      ≡ token_loop b'[' b']' rest (i + length (json_escape v) + 1) between
scan-json_escape [] rest i =
    let none_more : i + 0 + 1 ≡ i + 1 = omega arith in
    unfold token_loop scan_string json_escape in rw none_more refl
scan-json_escape (c ∷ v) rest i =
    let here = i + length (escape_byte c) in
    let count : here + length (json_escape v) + 1 ≡ i + length (json_escape (c ∷ v)) + 1 =
      unfold json_escape in omega (arith, length-append (escape_byte c) (json_escape v)) in
    ap (λ t. token_loop b'[' b']' t i inside) (escape-split c v rest)
    ∙ scan-escape_byte c i (json_escape v ++ (b'"' ∷ rest))
    ∙ scan-json_escape v rest here
    ∙ ap (λ k. token_loop b'[' b']' rest k between) count

scan-quote :
    (v : Bytes) (values : List Bytes) (rest : Bytes) (i : ℕ)
    → token_loop b'[' b']'
        ((b'"' ∷ (json_escape v ++ (b'"' ∷ items_text false values))) ++ rest)
        i
        between
      ≡ token_loop b'[' b']'
          (items_text false values ++ rest)
          (i + 1 + length (json_escape v) + 1)
          between
scan-quote v values rest i =
    ap (λ t. token_loop b'[' b']' (b'"' ∷ t) i between)
      (append_assoc (json_escape v) (b'"' ∷ items_text false values) rest)
    ∙ (unfold token_loop in scan-json_escape v (items_text false values ++ rest) (i + 1))

scan-comma :
    (s : Bytes) (i : ℕ)
    → token_loop b'[' b']' (b',' ∷ s) i between ≡ token_loop b'[' b']' s (i + 1) between
unfolding token_loop
scan-comma s i = refl

scan-items_text :
    (first : Bool) (values : List Bytes) (rest : Bytes) (i : ℕ)
    → token_loop b'[' b']' (items_text first values ++ (b']' ∷ rest)) i between
      ≡ some (i + length (items_text first values))
scan-items_text first [] rest i =
    let none_more : i ≡ i + 0 = omega arith in unfold token_loop in ap some none_more
scan-items_text true (v ∷ values) rest i =
    let after = i + 1 + length (json_escape v) + 1 in
    scan-quote v values (b']' ∷ rest) i
    ∙ scan-items_text false values rest after
    ∙ ap some (omega (arith, length-append (json_escape v) (b'"' ∷ items_text false values)))
scan-items_text false (v ∷ values) rest i =
    let after = i + 1 + 1 + length (json_escape v) + 1 in
    scan-comma _ i
    ∙ scan-quote v values (b']' ∷ rest) (i + 1)
    ∙ scan-items_text false values rest after
    ∙ ap some (omega (arith, length-append (json_escape v) (b'"' ∷ items_text false values)))

items-found :
    (fuel end : ℕ) (rest : Bytes)
    → string_end_loop rest 0 false ≡ some end
    → items_loop (suc fuel) (b'"' ∷ rest)
      ≡ json_unescape (take end rest) ∷ items_loop fuel (drop (end + 1) rest)
unfolding items_loop is_space
items-found fuel end rest h = ground (arith, h)

-- The reader takes the items one by one, whatever fuel is left.
items-quote :
    (fuel : ℕ) (v s : Bytes)
    → items_loop (suc fuel) (b'"' ∷ (json_escape v ++ (b'"' ∷ s))) ≡ v ∷ items_loop fuel s
items-quote fuel v s =
    let text = json_escape v ++ (b'"' ∷ s) in
    let end : string_end_loop text 0 false ≡ some (length (json_escape v)) =
      string_end-json_escape v s 0 ∙ ap some (omega arith) in
    items-found fuel (length (json_escape v)) text end
    ∙ ap₂ ◌∷◌
        (ap json_unescape (take-append (json_escape v) (b'"' ∷ s)) ∙ json_unescape-json_escape v)
        (ap (items_loop fuel) (drop-quote (json_escape v) b'"' s))

items-comma : (fuel : ℕ) (s : Bytes) → items_loop (suc fuel) (b',' ∷ s) ≡ items_loop fuel s
unfolding items_loop is_space
items-comma fuel s = refl

items-items_text :
    (fuel : ℕ) (first : Bool) (values : List Bytes)
    → length (items_text first values) < fuel
    → items_loop fuel (items_text first values ++ (b']' ∷ [])) ≡ values
items-items_text zero first values h = absurd (omega arith)
items-items_text (suc fuel) first [] h = unfold items_loop is_space in refl
items-items_text (suc fuel) true (v ∷ values) h =
    ap (λ t. items_loop (suc fuel) (b'"' ∷ t))
      (append_assoc (json_escape v) (b'"' ∷ items_text false values) (b']' ∷ []))
    ∙ items-quote fuel v (items_text false values ++ (b']' ∷ []))
    ∙ ap (◌∷◌ v) (
        items-items_text fuel false values
          (omega (arith, h, length-append (json_escape v) (b'"' ∷ items_text false values))))
items-items_text (suc zero) false (v ∷ values) h = absurd (omega arith)
items-items_text (suc (suc fuel)) false (v ∷ values) h =
    items-comma (suc fuel) _
    ∙ ap (λ t. items_loop (suc fuel) (b'"' ∷ t))
        (append_assoc (json_escape v) (b'"' ∷ items_text false values) (b']' ∷ []))
    ∙ items-quote fuel v (items_text false values ++ (b']' ∷ []))
    ∙ ap (◌∷◌ v) (
        items-items_text fuel false values
          (omega (arith, h, length-append (json_escape v) (b'"' ∷ items_text false values))))

abbrev pub array_text : List Bytes → Bytes
array_text values = b'[' ∷ (items_text true values ++ b']' ∷ [])

get_array-found :
    (json field : Bytes) (pos end : ℕ)
    → value_pos json field ≡ some pos
    → is_at json pos b'[' ≡ true
    → json_find_matching_token json pos b'[' b']' ≡ some end
    → json_get_array json field ≡ substr json pos (end - pos + 1)
unfolding json_get_array
get_array-found json field pos end h g k = ground (arith, h, g, k)

get_string_array-found :
    (json field : Bytes) (c : ℕ) (s : Bytes)
    → json_get_array json field ≡ c ∷ s
    → json_get_string_array json field ≡ items_loop (length s) s
unfolding json_get_string_array
get_string_array-found json field c s h = ground (arith, h)

module _ (pre : Bytes) (values : List Bytes) (rest : Bytes) where
  abbrev json : Bytes
  json = pre ++ (b'[' ∷ (items_text true values ++ (b']' ∷ rest)))

  opens : is_at json (length pre) b'[' ≡ true
  unfolding is_at
  opens = ground (arith, get_elem?-length pre b'[' (items_text true values ++ (b']' ∷ rest)))

  closes :
      json_find_matching_token json (length pre) b'[' b']'
      ≡ some (length pre + 1 + length (items_text true values))
  unfolding json_find_matching_token
  closes =
      rw (opens, drop-append pre (b'[' ∷ (items_text true values ++ (b']' ∷ rest))))
        (unfold token_loop in scan-items_text true values rest (length pre + 1))

  cut :
      substr json (length pre) (length pre + 1 + length (items_text true values) - length pre + 1)
      ≡ b'[' ∷ (items_text true values ++ b']' ∷ [])
  cut =
      let items = items_text true values in
      let len : length pre + 1 + length items - length pre + 1 ≡ length (array_text values) =
        omega (arith, length-append items (b']' ∷ [])) in
      let shape : b'[' ∷ (items ++ (b']' ∷ rest)) ≡ array_text values ++ rest =
        ap (◌∷◌ b'[') (sym (append_assoc items (b']' ∷ []) rest)) in
      ap₂ take len (drop-append pre (b'[' ∷ (items ++ (b']' ∷ rest))) ∙ shape)
      ∙ take-append (array_text values) rest

  read_array :
      (field : Bytes)
      → value_pos json field ≡ some (length pre)
      → json_get_string_array json field ≡ values
  read_array field at =
      get_string_array-found json field b'[' (items_text true values ++ b']' ∷ [])
        (get_array-found json field (length pre) _ at opens closes ∙ cut)
      ∙ items-items_text (length (items_text true values ++ b']' ∷ [])) true values
          (omega (arith, length-append (items_text true values) (b']' ∷ [])))

bracket_solid : is_space b'[' ≡ false
unfolding is_space
bracket_solid = refl

-- Texts that are written, escaped, between quotes and parted by commas, as the array that is the
-- first field of an object are read back under the field's name, whatever the texts and the name
-- are and whatever follows the array.
pub json_get_string_array-items_text :
    (field : Bytes) (values : List Bytes) (rest : Bytes)
    → json_get_string_array
        ((front field ++ b':' ∷ []) ++ (b'[' ∷ (items_text true values ++ (b']' ∷ rest))))
        field
      ≡ values
json_get_string_array-items_text field values rest =
    read_array (front field ++ b':' ∷ []) values rest field
      (finds_value field b'[' (items_text true values ++ (b']' ∷ rest)) bracket_solid)
