-- ===== src/Base/Text.antt =====
-- Text as lists of bytes, with the operations of `std::string` that the sources call.
use Prim.Native.Char.{code}
use Prim.Native.Nat.{ℕ, zero, suc, ◌+◌, ◌-◌, ◌≤◌}
use Prim.Native.String.{String}
use mathlib.Core.Bool.{Bool, true, false, ◌&&◌}
use mathlib.Core.List.{List, [], ◌∷◌, ◌++◌}
use mathlib.Core.Logic.{◌≢◌, ◌↔◌, inl, inr}
use mathlib.Core.Option.{Option, none, some}
use mathlib.Core.Path.{◌≡◌, refl, ap, ◌∙◌}
use native.Mathlib.Omega.{arith}
use ghostclaw.Base.Lists.{null, length, take, drop, any, length-append, drop-append, drop-add}
use ghostclaw.Base.Tests.{◌==◌, leb, if◌then◌else◌, Option-cases, le→leb}

abbrev pub Bytes : Type 0
Bytes = List ℕ

-- The code points of a literal: its bytes, since every literal here is ASCII.
abbrev pub codes : String → Bytes
codes String.[] = []
codes (String.◌∷◌ c s) = code c ∷ codes s

-- operator==
unfoldable pub equal : Bytes → Bytes → Bool
equal [] [] = true
equal (x ∷ a) (y ∷ b) = x == y && equal a b
equal _ _ = false

pub equal_iff : (a b : Bytes) → (equal a b ≡ true) ↔ (a ≡ b)
unfolding equal
equal_iff [] [] = (λ h. refl, λ e. refl)
equal_iff [] (d ∷ t) = ground arith
equal_iff (c ∷ s) [] = ground arith
equal_iff (c ∷ s) (d ∷ t) = ground (arith, equal_iff s t)

pub equal_refl : (a : Bytes) → equal a a ≡ true
equal_refl a = (equal_iff a a).1 refl

-- std::find(list.begin(), list.end(), x) != list.end()
unfoldable pub mem : Bytes → List Bytes → Bool
unfolding equal
mem x ys = any (λ y. equal y x) ys

abbrev pub Lacks : ℕ → Bytes → Type 0
Lacks b [] = Unit
Lacks b (c ∷ s) = (c ≢ b) × Lacks b s

-- s.find(c) != npos
unfoldable pub has_byte : ℕ → Bytes → Bool
has_byte b s = any (λ c. c == b) s

pub has_byte→Lacks : (b : ℕ) (s : Bytes) → has_byte b s ≡ false → Lacks b s
unfolding has_byte
has_byte→Lacks b [] h = tt
has_byte→Lacks b (c ∷ s) h = (ground arith, has_byte→Lacks b s (ground arith))

-- s.compare(0, p.size(), p) == 0
unfoldable pub is_prefix : Bytes → Bytes → Bool
is_prefix [] s = true
is_prefix (c ∷ p) [] = false
is_prefix (c ∷ p) (d ∷ s) = c == d && is_prefix p s

pub is_prefix-append : (p s : Bytes) → is_prefix p (p ++ s) ≡ true
unfolding is_prefix
is_prefix-append [] s = refl
is_prefix-append (c ∷ p) s = ground (arith, is_prefix-append p s)

pub is_prefix_split : (p s : Bytes) → is_prefix p s ≡ true → s ≡ p ++ drop (length p) s
unfolding is_prefix
is_prefix_split [] s h = refl
is_prefix_split (c ∷ p) [] h = cc
is_prefix_split (c ∷ p) (d ∷ s) h = ground (arith, is_prefix_split p s)

-- The first position of `needle`, counted from the head of the list.
unfoldable pub index_of : Bytes → Bytes → Option ℕ
unfolding is_prefix
index_of needle [] = if is_prefix needle [] then some 0 else none
index_of needle (c ∷ s) =
    let later = index_of needle s in
    if is_prefix needle (c ∷ s) then some 0 else elim later [ none ↦ none | some i ↦ some (suc i) ]

-- s.find(needle, from); `none` is npos.
unfoldable pub find : Bytes → Bytes → ℕ → Option ℕ
unfolding index_of
find s needle from =
    if leb from (length s)
    then elim (index_of needle (drop from s)) [ none ↦ none | some i ↦ some (from + i) ]
    else none

-- s.substr(pos, len), for a position inside the text.
abbrev pub substr : Bytes → ℕ → ℕ → Bytes
substr s pos len = take len (drop pos s)

-- The text around the first occurrence: what stands before it lacks the needle's first byte.
pub index_of-append :
    (b : ℕ) (n a rest : Bytes)
    → Lacks b a
    → index_of (b ∷ n) (a ++ ((b ∷ n) ++ rest)) ≡ some (length a)
unfolding index_of
index_of-append b n [] rest h = ground (arith, is_prefix-append n rest)
index_of-append b n (c ∷ a) rest (ne, h) = ground (arith, index_of-append b n a rest h)

pub index_of_split :
    (n s : Bytes) (i : ℕ)
    → index_of n s ≡ some i
    → s ≡ take i s ++ (n ++ drop (length n) (drop i s))
unfolding index_of
index_of_split n [] zero h = is_prefix_split n [] (ground arith)
index_of_split n [] (suc i) h = ground arith
index_of_split n (c ∷ s) zero h = is_prefix_split n (c ∷ s) (ground arith)
index_of_split n (c ∷ s) (suc i) h = ap (◌∷◌ c) (index_of_split n s i (ground arith))

-- The text from `from` on is what stands before the found position, the needle, and the rest.
pub find_split :
    (s n : Bytes) (from : ℕ) {m : ℕ}
    → find s n from ≡ some m
    → drop from s ≡ substr s from (m - from) ++ (n ++ drop (m + length n) s)
unfolding find
find_split s n from {m} h = elim (Option-cases (index_of n (drop from s))) [
  | inl e ↦ absurd (ground (arith, e))
  | inr (i, e) ↦
      let at : m ≡ from + i = ground (arith, e) in
      let rest : drop (m + length n) s ≡ drop (length n) (drop i (drop from s)) =
        ap (λ k. drop (k + length n) s) at
        ∙ (drop-add (from + i) (length n) s ∙ ap (drop (length n)) (drop-add from i s)) in
      let len : m - from ≡ i = omega arith in rw (rest, len) (index_of_split n (drop from s) i e)
]

-- The needle is found behind a text that lacks its first byte.
pub find-append :
    (pre a : Bytes) (b : ℕ) (n rest : Bytes) (from : ℕ)
    → from ≡ length pre
    → Lacks b a
    → find (pre ++ (a ++ ((b ∷ n) ++ rest))) (b ∷ n) from ≡ some (from + length a)
unfolding find
find-append pre a b n rest from e h =
    let whole = pre ++ (a ++ ((b ∷ n) ++ rest)) in
    let tail : drop from whole ≡ a ++ ((b ∷ n) ++ rest) =
      ap (λ k. drop k whole) e ∙ drop-append pre _ in
    let inside : leb from (length whole) ≡ true =
      le→leb _ _ (omega (arith, length-append pre (a ++ ((b ∷ n) ++ rest)))) in
    rw (inside, tail, index_of-append b n a rest h)

-- A search that starts inside the text.
pub find-inside :
    (s n : Bytes) (from i : ℕ)
    → from ≤ length s
    → index_of n (drop from s) ≡ some i
    → find s n from ≡ some (from + i)
unfolding find
find-inside s n from i inside at = rw (le→leb _ _ inside, at) refl

-- `std::getline` on the whole file: the lines, the last one with or without its newline.
unfoldable pub lines : Bytes → Bytes → List Bytes
lines line [] = if null line then [] else line ∷ []
lines line (c ∷ s) = elim (c == b'\n') [
  | true ↦ line ∷ lines [] s
  | false ↦ lines (line ++ c ∷ []) s
]

-- `std::getline` with another delimiter.
unfoldable pub pieces : ℕ → Bytes → Bytes → List Bytes
pieces delimiter piece [] = if null piece then [] else piece ∷ []
pieces delimiter piece (c ∷ s) = elim (c == delimiter) [
  | true ↦ piece ∷ pieces delimiter [] s
  | false ↦ pieces delimiter (piece ++ c ∷ []) s
]
