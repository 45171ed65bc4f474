-- ===== src/Security/ExternalContent/Homoglyphs.antt =====
-- `normalize_homoglyphs` of src/security/patterns.cpp, on bytes below 256.
use ghostclaw.Base.{
  ℕ, zero, suc, ◌+◌, ◌-◌, ◌*◌, ◌/◌, ◌%◌, ◌&&◌, ◌||◌, List, [], ◌∷◌, ◌++◌, ltb, leb, ◌==◌,
  if◌then◌else◌, length, take, drop, all, any,
}
use ghostclaw.Base.Text.{Bytes}

-- A code point, the bytes that it was read from, and the bytes behind it.
pub record Decoded : Type 0 where
  pub cp : ℕ
  pub raw : Bytes
  pub rest : Bytes

abbrev single : ℕ → Bytes → Decoded
single lead s = record { cp = lead; raw = lead ∷ []; rest = s }

-- the continuation bytes, six bits each
unfoldable pub continued : ℕ → Bytes → ℕ
continued value [] = value
continued value (c ∷ s) = continued (value * 64 + c % 64) s

-- A sequence with `extra` continuation bytes, or else the lead byte alone.
unfoldable pub decode_sequence : ℕ → ℕ → ℕ → Bytes → Decoded
unfolding continued
decode_sequence lead extra value s =
    if leb extra (length s) && all (λ c. c / 64 == 2) (take extra s)
    then record {
      cp = continued value (take extra s);
      raw = lead ∷ take extra s;
      rest = drop extra s;
    }
    else single lead s

unfoldable pub decode_utf8_codepoint : ℕ → Bytes → Decoded
unfolding decode_sequence
decode_utf8_codepoint lead s =
    if ltb lead 128
    then single lead s
    else if lead / 32 == 6
    then decode_sequence lead 1 (lead % 32) s
    else if lead / 16 == 14
    then decode_sequence lead 2 (lead % 16) s
    else if lead / 8 == 30
    then decode_sequence lead 3 (lead % 8) s
    else single lead s

abbrev left_angles : List ℕ
left_angles = 0xFF1C ∷ 0x2329 ∷ 0x3008 ∷ 0x2039 ∷ 0x27E8 ∷ 0xFE64 ∷ []

abbrev right_angles : List ℕ
right_angles = 0xFF1E ∷ 0x232A ∷ 0x3009 ∷ 0x203A ∷ 0x27E9 ∷ 0xFE65 ∷ []

unfoldable pub fold_codepoint : ℕ → Bytes → Bytes
fold_codepoint cp raw =
    if (leb 0xFF21 cp && leb cp 0xFF3A) || (leb 0xFF41 cp && leb cp 0xFF5A)
    then (cp - 0xFEE0) ∷ []
    else if any (λ k. k == cp) left_angles
    then b'<' ∷ []
    else if any (λ k. k == cp) right_angles
    then b'>' ∷ []
    else raw

-- The loop over `index`, on the bytes from it on; each round takes one at least, so their number is
-- fuel enough.
unfoldable pub normalize_loop : ℕ → Bytes → Bytes
unfolding decode_utf8_codepoint fold_codepoint
normalize_loop fuel [] = []
normalize_loop zero (lead ∷ s) = []
normalize_loop (suc fuel) (lead ∷ s) =
    let d = decode_utf8_codepoint lead s in fold_codepoint d.cp d.raw ++ normalize_loop fuel d.rest

unfoldable pub normalize_homoglyphs : Bytes → Bytes
unfolding normalize_loop
normalize_homoglyphs content = normalize_loop (length content) content
