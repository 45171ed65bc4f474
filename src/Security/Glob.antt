-- ===== src/Security/Glob.antt =====
-- `glob_to_regex` of src/security/tool_policy_pipeline.cpp and src/security/approval.cpp, with the
-- part of `std::regex` (ECMAScript, `regex_match`) that its results use.
pub mod Compile
pub mod Matches
use ghostclaw.Base.{
  ℕ, ◌+◌, Bool, true, false, ◌&&◌, ◌||◌, not, List, [], ◌∷◌, ◌++◌, Option, none, some, ◌==◌,
  if◌then◌else◌, null,
}
use ghostclaw.Base.Text.{Bytes, codes, mem, has_byte}

unfoldable pub has_glob_chars : Bytes → Bool
unfolding has_byte
has_glob_chars value = has_byte b'*' value || has_byte b'?' value

-- the bytes that `glob_to_regex` escapes
unfoldable pub is_escaped : ℕ → Bool
unfolding has_byte
is_escaped c = has_byte c (codes ".+^$()[]{}|\\")

unfoldable pub glob_byte : ℕ → Bytes
unfolding is_escaped
glob_byte c =
    if c == b'*'
    then codes ".*"
    else if c == b'?'
    then codes "."
    else if is_escaped c
    then b'\\' ∷ (c ∷ [])
    else c ∷ []

unfoldable pub glob_body : Bytes → Bytes
unfolding glob_byte
glob_body [] = codes "$"
glob_body (c ∷ pattern) = glob_byte c ++ glob_body pattern

unfoldable pub glob_to_regex : Bytes → Bytes
unfolding glob_body
glob_to_regex pattern = b'^' ∷ glob_body pattern

-- What one byte, or an escaped one, of a regular expression stands for.
pub data Atom : Type 0 where
  any_byte : Atom
  literal : ℕ → Atom

pub data Piece : Type 0 where
  line_begin line_end : Piece
  one star : Atom → Piece

-- What the compiler has read and not written yet: an atom that a `*` may still repeat.
pub data Pending : Type 0 where
  nothing escape : Pending
  atom : Atom → Pending

unfoldable pub flush : Pending → List Piece
flush nothing = []
flush escape = []
flush (atom a) = one a ∷ []

-- A byte outside an escape. Groups, sets and counts do not occur in a glob's expression.
unfoldable pub next_plain : Pending → ℕ → Option (List Piece × Pending)
unfolding flush is_escaped
next_plain p c =
    if c == b'^'
    then some (flush p ++ line_begin ∷ [], nothing)
    else if c == b'$'
    then some (flush p ++ line_end ∷ [], nothing)
    else if c == b'.'
    then some (flush p, atom any_byte)
    else if c == b'\\'
    then some (flush p, escape)
    else if is_escaped c || (c == b'*' || c == b'?')
    then none
    else some (flush p, atom (literal c))

unfoldable pub next : Pending → ℕ → Option (List Piece × Pending)
unfolding next_plain
next nothing c = next_plain nothing c
next escape c = if is_escaped c then some ([], atom (literal c)) else none
next (atom a) c = if c == b'*' then some (star a ∷ [], nothing) else next_plain (atom a) c

unfoldable pub finish : Pending → Option (List Piece)
finish nothing = some []
finish escape = none
finish (atom a) = some (one a ∷ [])

abbrev pub prepend : List Piece → Option (List Piece) → Option (List Piece)
prepend ps none = none
prepend ps (some qs) = some (ps ++ qs)

-- The constructor of `std::regex`; `none` is the exception `regex_error`.
unfoldable pub compile : Pending → Bytes → Option (List Piece)
unfolding next finish
compile p [] = finish p
compile p (c ∷ s) = elim (next p c) [ none ↦ none | some (ps, q) ↦ prepend ps (compile q s) ]

-- `.` matches no line terminator.
unfoldable pub fits : Atom → ℕ → Bool
fits any_byte c = not (c == b'\n' || c == b'\r')
fits (literal b) c = b == c

-- The whole text is matched; `first` tells that nothing of it is consumed.
unfoldable pub match_pieces : Bool → List Piece → Bytes → Bool
unfolding fits
match_pieces first [] s = null s
match_pieces first (line_begin ∷ ps) s = first && match_pieces first ps s
match_pieces first (line_end ∷ ps) s = null s && match_pieces first ps s
match_pieces first (one a ∷ ps) [] = false
match_pieces first (one a ∷ ps) (c ∷ s) = fits a c && match_pieces false ps s
match_pieces first (star a ∷ ps) [] = match_pieces first ps []
match_pieces first (star a ∷ ps) (c ∷ s) =
    match_pieces first ps (c ∷ s) || (fits a c && match_pieces false (star a ∷ ps) s)

-- `std::regex re(...)` and `std::regex_match(text, re)`; an exception counts as no match.
unfoldable pub regex_match : Bytes → Bytes → Bool
unfolding compile match_pieces
regex_match text expression = elim (compile nothing expression) [
  | none ↦ false
  | some ps ↦ match_pieces true ps text
]
