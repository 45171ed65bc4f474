-- ===== src/Security/ExternalContent/Sanitized.antt =====
-- Sanitized content holds no marker (src/security/external_content.cpp).
use ghostclaw.Base.{
  ℕ, zero, suc, ◌+◌, ◌≡◌, refl, List, [], ◌∷◌, ◌++◌, none, arith, length, take, drop, map, inl, inr,
  Option-cases,
}
use ghostclaw.Base.Text.{Bytes, codes, index_of, Lacks}
use ghostclaw.Common.Fs.{lower_byte, to_lower}
use ghostclaw.Security.ExternalContent.{
  external_start, external_end, replace_loop, replace_all, replace_case_insensitive, square,
  unicode_pairs, replace_pairs, escape_angle_markers, replace_markers, sanitize_external_markers,
}
use ghostclaw.Security.ExternalContent.Homoglyphs.{normalize_homoglyphs}
use ghostclaw.Security.ExternalContent.Replace.{
  Clean, none-Clean, Clean-Lacks, replace_loop-Clean, replace_loop-keeps_Clean,
}

Lacks-append : (b : ℕ) (xs ys : Bytes) → Lacks b xs → Lacks b ys → Lacks b (xs ++ ys)
Lacks-append b [] ys h k = k
Lacks-append b (x ∷ xs) ys (n, h) k = (n, Lacks-append b xs ys h k)

Lacks-take : (b i : ℕ) (xs : Bytes) → Lacks b xs → Lacks b (take i xs)
Lacks-take b zero xs h = tt
Lacks-take b (suc i) [] h = tt
Lacks-take b (suc i) (x ∷ xs) (n, h) = (n, Lacks-take b i xs h)

Lacks-drop : (b i : ℕ) (xs : Bytes) → Lacks b xs → Lacks b (drop i xs)
Lacks-drop b zero xs h = h
Lacks-drop b (suc i) [] h = tt
Lacks-drop b (suc i) (x ∷ xs) (n, h) = Lacks-drop b i xs h

module _ (b : ℕ) (fold : ℕ → ℕ) (needle replacement : Bytes) (free : Lacks b replacement) where
  replace_loop-Lacks :
      (fuel : ℕ) (text : Bytes)
      → Lacks b text
      → Lacks b (replace_loop fold fuel needle replacement text)
  unfolding replace_loop
  replace_loop-Lacks zero text h = h
  replace_loop-Lacks (suc fuel) text h =
      elim (Option-cases (index_of (map fold needle) (map fold text))) [
        | inl lost ↦
            let same : replace_loop fold (suc fuel) needle replacement text ≡ text =
              ground (arith, lost) in
            rw same h
        | inr (pos, found) ↦
            let rest = drop (pos + length needle) text in
            let same : replace_loop fold (suc fuel) needle replacement text
                ≡ take pos text ++ (replacement ++ replace_loop fold fuel needle replacement rest) =
              ground (arith, found) in
            rw same (
              Lacks-append b (take pos text) _ (Lacks-take b pos text h) (
                Lacks-append b replacement _ free
                  (replace_loop-Lacks fuel rest (Lacks-drop b (pos + length needle) text h))))
      ]

replace_all-Lacks :
    (b : ℕ) (target from to : Bytes)
    → Lacks b to
    → Lacks b target
    → Lacks b (replace_all target from to)
unfolding replace_all
replace_all-Lacks b target [] to free h = h
replace_all-Lacks b target (c ∷ from) to free h =
    replace_loop-Lacks b (λ x. x) (c ∷ from) to free (length target) target h

abbrev AllLack : ℕ → List (Bytes × Bytes) → Type 0
AllLack b [] = Unit
AllLack b ((from, to) ∷ pairs) = Lacks b to × AllLack b pairs

replace_pairs-Lacks :
    (b : ℕ) (pairs : List (Bytes × Bytes)) (content : Bytes)
    → AllLack b pairs
    → Lacks b content
    → Lacks b (replace_pairs pairs content)
unfolding replace_pairs
replace_pairs-Lacks b [] content free h = h
replace_pairs-Lacks b ((from, to) ∷ pairs) content (f, free) h =
    replace_pairs-Lacks b pairs (replace_all content from to) free
      (replace_all-Lacks b content from to f h)

square-Lacks : (s : Bytes) → Lacks b'<' (map square s)
unfolding square
square-Lacks [] = tt
square-Lacks (c ∷ s) = (ground arith, square-Lacks s)

pairs-AllLack : AllLack b'<' unicode_pairs
pairs-AllLack = omega arith

escape-Lacks : (s : Bytes) → Lacks b'<' (escape_angle_markers s)
unfolding escape_angle_markers
escape-Lacks s =
    replace_pairs-Lacks b'<' unicode_pairs (map square s) pairs-AllLack (square-Lacks s)

lower-Lacks : (s : Bytes) → Lacks b'<' s → Lacks b'<' (map lower_byte s)
unfolding lower_byte
lower-Lacks [] h = tt
lower-Lacks (c ∷ s) (n, h) = (ground arith, lower-Lacks s h)

-- The markers behind their first byte, with their letters lowered.
abbrev pub start_tail : Bytes
start_tail = codes "<<external_untrusted_content>>>"

abbrev pub end_tail : Bytes
end_tail = codes "<<end_external_untrusted_content>>>"

abbrev marker_tail : Bytes
marker_tail = codes "[marker_sanitized]]"

abbrev end_marker_tail : Bytes
end_marker_tail = codes "[end_marker_sanitized]]"

start_folds : map lower_byte external_start ≡ b'<' ∷ start_tail
unfolding lower_byte
start_folds = refl

end_folds : map lower_byte external_end ≡ b'<' ∷ end_tail
unfolding lower_byte
end_folds = refl

marker_folds : map lower_byte (codes "[[MARKER_SANITIZED]]") ≡ b'[' ∷ marker_tail
unfolding lower_byte
marker_folds = refl

end_marker_folds : map lower_byte (codes "[[END_MARKER_SANITIZED]]") ≡ b'[' ∷ end_marker_tail
unfolding lower_byte
end_marker_folds = refl

start_apart : Lacks b'[' (b'<' ∷ start_tail)
start_apart = omega arith

end_apart : Lacks b'[' (b'<' ∷ end_tail)
end_apart = omega arith

marker_free : Lacks b'<' (b'[' ∷ marker_tail)
marker_free = omega arith

end_marker_free : Lacks b'<' (b'[' ∷ end_marker_tail)
end_marker_free = omega arith

replace_markers-start : (s : Bytes) → Clean (b'<' ∷ start_tail) (map lower_byte (replace_markers s))
unfolding replace_markers replace_case_insensitive
replace_markers-start s =
    let once = replace_loop lower_byte (length s) external_start (codes "[[MARKER_SANITIZED]]") s in
    replace_loop-keeps_Clean lower_byte b'<' start_tail b'[' end_marker_tail
      (codes "[[END_MARKER_SANITIZED]]") end_marker_folds start_apart end_marker_free (length once)
      external_end once
      (replace_loop-Clean lower_byte b'<' start_tail b'[' marker_tail (codes "[[MARKER_SANITIZED]]")
        marker_folds start_apart marker_free (length s) b'<' _ s start_folds (omega arith))

replace_markers-end : (s : Bytes) → Clean (b'<' ∷ end_tail) (map lower_byte (replace_markers s))
unfolding replace_markers replace_case_insensitive
replace_markers-end s =
    let once = replace_loop lower_byte (length s) external_start (codes "[[MARKER_SANITIZED]]") s in
    replace_loop-Clean lower_byte b'<' end_tail b'[' end_marker_tail
      (codes "[[END_MARKER_SANITIZED]]") end_marker_folds end_apart end_marker_free (length once)
      b'<' _ once end_folds (omega arith)

pub sanitized-Clean :
    (s : Bytes)
    → Clean (b'<' ∷ start_tail) (to_lower (sanitize_external_markers s))
      × Clean (b'<' ∷ end_tail) (to_lower (sanitize_external_markers s))
unfolding sanitize_external_markers to_lower
sanitized-Clean s =
    elim (Option-cases (
      index_of (codes "external_untrusted_content")
        (to_lower (normalize_homoglyphs (replace_markers s))))) [
          | inl plain ↦
              let same : sanitize_external_markers s ≡ replace_markers s = ground (arith, plain) in
              rw same (replace_markers-start s, replace_markers-end s)
          | inr (i, hidden) ↦
              let same : sanitize_external_markers s ≡ escape_angle_markers (replace_markers s) =
                ground (arith, hidden) in
              let free = lower-Lacks _ (escape-Lacks (replace_markers s)) in
              rw same (Clean-Lacks b'<' start_tail _ free, Clean-Lacks b'<' end_tail _ free)
        ]

-- Whatever the content is, its sanitized form holds neither the start marker nor the end marker,
-- in any case of their letters.
pub sanitize-index_of :
    (s : Bytes)
    → (index_of (to_lower external_start) (to_lower (sanitize_external_markers s)) ≡ none)
      × (index_of (to_lower external_end) (to_lower (sanitize_external_markers s)) ≡ none)
unfolding to_lower lower_byte
sanitize-index_of s =
    let (start, end) = sanitized-Clean s in
    (none-Clean b'<' start_tail _ start, none-Clean b'<' end_tail _ end)
