-- ===== src/Common/Json/Field.antt =====
-- A text that was written as a field of an object is read back (src/common/json_util.cpp).
use ghostclaw.Base.{
  zero, suc, ◌<◌, drop-add, ℕ, ◌+◌, ◌-◌, ◌≡◌, refl, ap, sym, ◌∙◌, true, false, [], ◌∷◌, ◌++◌, some,
  arith, length, length-append, append_assoc, drop, drop-append, take-append, get_elem?, leb,
}
use ghostclaw.Base.Text.{Bytes, index_of, find-inside, index_of-append, find, find-append, substr}
use ghostclaw.Common.Fs.{is_space}
use ghostclaw.Common.Json.{
  json_escape, json_find_key, skip_loop, json_skip_ws, json_find_string_end, is_at, value_pos,
  json_get_string,
}
use ghostclaw.Common.Json.Escape.{json_unescape-json_escape, string_end-json_escape}

pub get_elem?-length :
    (pre : Bytes) (c : ℕ) (s : Bytes) → get_elem? (pre ++ c ∷ s) (length pre) ≡ some c
get_elem?-length [] c s = refl
get_elem?-length (d ∷ pre) c s = get_elem?-length pre c s

pub drop-quote : (pre : Bytes) (c : ℕ) (s : Bytes) → drop (length pre + 1) (pre ++ c ∷ s) ≡ s
drop-quote pre c s =
    let count : length pre + 1 ≡ length (pre ++ c ∷ []) = sym (length-append pre (c ∷ [])) in
    rw count (
      ap (drop (length (pre ++ c ∷ []))) (sym (append_assoc pre (c ∷ []) s))
      ∙ drop-append (pre ++ c ∷ []) s)

-- an encoded text between its quotes, and what follows it
abbrev pub quoted : Bytes → Bytes → Bytes
quoted v rest = b'"' ∷ (json_escape v ++ (b'"' ∷ rest))

value_pos-found :
    (json field : Bytes) (key_pos colon : ℕ)
    → json_find_key json field 0 ≡ some key_pos
    → find json (b':' ∷ []) (key_pos + length field + 2) ≡ some colon
    → value_pos json field ≡ some (json_skip_ws json (colon + 1))
unfolding value_pos
value_pos-found json field key_pos colon h g = ground (arith, h, g)

module _ (pre v rest : Bytes) where
  abbrev pub json : Bytes
  json = pre ++ quoted v rest

  starts_quoted : is_at json (length pre) b'"' ≡ true
  unfolding is_at
  starts_quoted = ground (arith, get_elem?-length pre b'"' (json_escape v ++ (b'"' ∷ rest)))

  ends_quoted :
      json_find_string_end json (length pre) ≡ some (length pre + 1 + length (json_escape v))
  unfolding json_find_string_end
  ends_quoted =
      rw (drop-quote pre b'"' (json_escape v ++ (b'"' ∷ rest)))
        (string_end-json_escape v rest (length pre + 1))

  inside :
      substr json (length pre + 1) (length pre + 1 + length (json_escape v) - length pre - 1)
      ≡ json_escape v
  inside =
      let len : length pre + 1 + length (json_escape v) - length pre - 1 ≡ length (json_escape v) =
        omega arith in
      rw (len, drop-quote pre b'"' (json_escape v ++ (b'"' ∷ rest)))
        (take-append (json_escape v) (b'"' ∷ rest))

  pub read_quoted :
      (field : Bytes) → value_pos json field ≡ some (length pre) → json_get_string json field ≡ v
  unfolding json_get_string
  read_quoted field at =
      let longer : leb (length pre + 1 + length (json_escape v)) (length pre) ≡ false =
        ground arith in
      rw (at, starts_quoted, ends_quoted, longer, inside) (json_unescape-json_escape v)

skip_solid : (c pos : ℕ) (rest : Bytes) → is_space c ≡ false → skip_loop (c ∷ rest) pos ≡ pos
unfolding skip_loop
skip_solid c pos rest solid = ground (arith, solid)

drop_cons : (n : ℕ) (s : Bytes) {c : ℕ} {t : Bytes} → drop n s ≡ c ∷ t → n < length s
drop_cons zero [] h = absurd cc
drop_cons zero (d ∷ s) h = omega arith
drop_cons (suc n) [] h = absurd cc
drop_cons (suc n) (d ∷ s) h = omega (arith, drop_cons n s h)

-- The name's first occurrence is followed by a colon and the value.
pub value_pos-marked :
    (json field : Bytes) (key c : ℕ) (rest : Bytes)
    → index_of (b'"' ∷ (field ++ b'"' ∷ [])) json ≡ some key
    → drop (key + length field + 2) json ≡ b':' ∷ c ∷ rest
    → is_space c ≡ false
    → value_pos json field ≡ some (key + length field + 3)
value_pos-marked json field key c rest named behind solid =
    let colon = key + length field + 2 in
    let next : drop (colon + 0 + 1) json ≡ c ∷ rest =
      ap (λ n. drop (n + 1) json) (omega arith) ∙ drop-add colon 1 json ∙ ap (drop 1) behind in
    let skips : json_skip_ws json (colon + 0 + 1) ≡ key + length field + 3 =
      unfold json_skip_ws in rw next (skip_solid c (colon + 0 + 1) rest solid ∙ omega arith) in
    let inside = drop_cons colon json behind in
    let key_at : json_find_key json field 0 ≡ some key =
      unfold json_find_key in
      find-inside json (b'"' ∷ (field ++ b'"' ∷ [])) 0 key (omega arith) named
      ∙ ap some (omega arith) in
    let here : index_of (b':' ∷ []) (b':' ∷ c ∷ rest) ≡ some 0 =
      index_of-append b':' [] [] (c ∷ rest) tt in
    value_pos-found json field key (colon + 0) key_at (
      find-inside json (b':' ∷ []) colon 0 (omega (arith, inside))
        (ap (index_of (b':' ∷ [])) behind ∙ here))
    ∙ ap some skips

module _ (field : Bytes) where
  -- An object up to the colon behind its first name.
  abbrev pub front : Bytes
  front = b'{' ∷ (b'"' ∷ (field ++ b'"' ∷ []))

  length-front : 1 + length field + 2 ≡ length front
  length-front = omega (arith, length-append field (b'"' ∷ []))

  finds_key : (rest : Bytes) → json_find_key (front ++ (b':' ∷ rest)) field 0 ≡ some 1
  unfolding json_find_key
  finds_key rest =
      find-append [] (b'{' ∷ []) b'"' (field ++ b'"' ∷ []) (b':' ∷ rest) 0 refl ((λ e. cc), tt)

  finds_colon :
      (rest : Bytes)
      → find (front ++ (b':' ∷ rest)) (b':' ∷ []) (1 + length field + 2)
        ≡ some (1 + length field + 2 + 0)
  finds_colon rest = find-append front [] b':' [] rest (1 + length field + 2) length-front tt

  -- The value of the first field stands right behind the colon, where it is no space.
  pub finds_value :
      (c : ℕ) (rest : Bytes)
      → is_space c ≡ false
      → value_pos ((front ++ b':' ∷ []) ++ c ∷ rest) field ≡ some (length (front ++ b':' ∷ []))
  finds_value c rest solid =
      let at : 1 + length field + 2 + 0 + 1 ≡ length front + 1 = omega (arith, length-front) in
      let skips : json_skip_ws (front ++ (b':' ∷ c ∷ rest)) (1 + length field + 2 + 0 + 1)
          ≡ length front + 1 =
        unfold json_skip_ws in
        rw (at, drop-quote front b':' (c ∷ rest)) (skip_solid c (length front + 1) rest solid) in
      ap (λ t. value_pos t field) (append_assoc front (b':' ∷ []) (c ∷ rest))
      ∙ value_pos-found (front ++ (b':' ∷ c ∷ rest)) field 1 (1 + length field + 2 + 0)
          (finds_key (c ∷ rest)) (finds_colon (c ∷ rest))
      ∙ ap some (skips ∙ sym (length-append front (b':' ∷ [])))

pub quote_solid : is_space b'"' ≡ false
unfolding is_space
quote_solid = refl

module _ (field v rest : Bytes) where
  -- A text that is written, escaped and between quotes, as the first field of an object is read
  -- back under the field's name, whatever the text and the name are and whatever follows.
  pub json_get_string-json_escape :
      json_get_string
        (b'{' ∷ (b'"' ∷ (field ++ b'"' ∷ [])) ++ (b':' ∷ (b'"' ∷ (json_escape v ++ (b'"' ∷ rest)))))
        field
      ≡ v
  json_get_string-json_escape =
      ap (λ t. json_get_string t field)
        (sym (append_assoc (front field) (b':' ∷ []) (quoted v rest)))
      ∙ read_quoted (front field ++ b':' ∷ []) v rest field
          (finds_value field b'"' (json_escape v ++ (b'"' ∷ rest)) quote_solid)
