-- ===== src/Common/Json/Escape.antt =====
-- Escaping is undone by unescaping, and hides no quote (src/common/json_util.cpp).
use ghostclaw.Base.{
  ℕ, ◌+◌, ◌≡◌, refl, ap, ◌∙◌, false, [], ◌∷◌, ◌++◌, some, arith, length, length-append,
  append_assoc,
}
use ghostclaw.Base.Text.{Bytes}
use ghostclaw.Common.Json.{escape_byte, json_escape, unescape_loop, json_unescape, string_end_loop}

unescape-escape_byte :
    (c : ℕ) (rest : Bytes)
    → unescape_loop false (escape_byte c ++ rest) ≡ c ∷ unescape_loop false rest
unfolding unescape_loop escape_byte
unescape-escape_byte c rest = ground arith

-- Every text is read back from its escaped form.
pub json_unescape-json_escape : (s : Bytes) → json_unescape (json_escape s) ≡ s
unfolding json_unescape json_escape
json_unescape-json_escape [] = refl
json_unescape-json_escape (c ∷ s) =
    unescape-escape_byte c (json_escape s) ∙ ap (◌∷◌ c) (json_unescape-json_escape s)

string_end-escape_byte :
    (c i : ℕ) (rest : Bytes)
    → string_end_loop (escape_byte c ++ rest) i false
      ≡ string_end_loop rest (i + length (escape_byte c)) false
unfolding string_end_loop escape_byte
string_end-escape_byte c i rest = let two : i + 1 + 1 ≡ i + 2 = omega arith in ground (arith, two)

pub escape-split :
    (c : ℕ) (s rest : Bytes)
    → json_escape (c ∷ s) ++ (b'"' ∷ rest) ≡ escape_byte c ++ (json_escape s ++ (b'"' ∷ rest))
unfolding json_escape
escape-split c s rest = append_assoc (escape_byte c) (json_escape s) (b'"' ∷ rest)

-- Behind an escaped text stands its closing quote: the search from the first byte of the text on
-- finds that quote, whatever the text is and whatever follows.
pub string_end-json_escape :
    (s rest : Bytes) (i : ℕ)
    → string_end_loop (json_escape s ++ (b'"' ∷ rest)) i false ≡ some (i + length (json_escape s))
string_end-json_escape [] rest i =
    let zero_more : i + 0 ≡ i = omega arith in
    unfold string_end_loop json_escape in ground (arith, zero_more)
string_end-json_escape (c ∷ s) rest i =
    let here = i + length (escape_byte c) in
    let count : here + length (json_escape s) ≡ i + length (json_escape (c ∷ s)) =
      unfold json_escape in omega (arith, length-append (escape_byte c) (json_escape s)) in
    ap (λ k. string_end_loop k i false) (escape-split c s rest)
    ∙ string_end-escape_byte c i (json_escape s ++ (b'"' ∷ rest))
    ∙ string_end-json_escape s rest here
    ∙ ap some count
