-- ===== src/Security/Glob/Matches.antt =====
-- A glob's regular expression matches what the glob stands for (`glob_to_regex` of
-- src/security/tool_policy_pipeline.cpp and src/security/approval.cpp).
use native.Mathlib.Decide.{ℕ_discrete}
use ghostclaw.Base.{
  ℕ, ◌≡◌, ◌≢◌, ◌↔◌, refl, sym, subst, ◌∙◌, Bool, true, false, List, [], ◌∷◌, arith, Bool-cases, inl,
  inr,
}
use ghostclaw.Base.Text.{Bytes}
use ghostclaw.Security.Glob.{
  glob_to_regex, Atom, any_byte, literal, Piece, one, star, fits, match_pieces, regex_match,
}
use ghostclaw.Security.Glob.Compile.{glob_pieces, regex_match-glob_to_regex}

-- A wildcard stands for any byte but a line terminator.
abbrev pub IsWild : ℕ → Type 0
IsWild c = (c ≢ b'\n') × (c ≢ b'\r')

-- The texts that a glob stands for: `*` is any number of bytes, `?` is one, and each other byte is
-- itself.
pub data GlobMatches : Bytes → Bytes → Type 0 where
  done : GlobMatches [] []
  star_end : {b : ℕ} {p s : Bytes} → b ≡ b'*' → GlobMatches p s → GlobMatches (b ∷ p) s
  star_more :
      {b c : ℕ} {p s : Bytes}
      → b ≡ b'*'
      → IsWild c
      → GlobMatches (b ∷ p) s
      → GlobMatches (b ∷ p) (c ∷ s)
  question :
      {b c : ℕ} {p s : Bytes} → b ≡ b'?' → IsWild c → GlobMatches p s → GlobMatches (b ∷ p) (c ∷ s)
  same : {b : ℕ} {p s : Bytes} → b ≢ b'*' → b ≢ b'?' → GlobMatches p s → GlobMatches (b ∷ p) (b ∷ s)

IsWild-fits : (c : ℕ) → fits any_byte c ≡ true → IsWild c
unfolding fits
IsWild-fits c h = (λ e. ground arith, λ e. ground arith)

fits-IsWild : (c : ℕ) → IsWild c → fits any_byte c ≡ true
unfolding fits
fits-IsWild c (h, k) = ground arith

fits_self : (c : ℕ) → fits (literal c) c ≡ true
unfolding fits
fits_self c = ground arith

fits_eq : (b c : ℕ) → fits (literal b) c ≡ true → b ≡ c
unfolding fits
fits_eq b c h = ground arith

glob_piece-star :
    (b : ℕ) (p : Bytes) → b ≡ b'*' → glob_pieces (b ∷ p) ≡ star any_byte ∷ glob_pieces p
unfolding glob_pieces
glob_piece-star b p e = rw e

glob_piece-question :
    (b : ℕ) (p : Bytes) → b ≡ b'?' → glob_pieces (b ∷ p) ≡ one any_byte ∷ glob_pieces p
unfolding glob_pieces
glob_piece-question b p e = rw e

glob_piece-same :
    (b : ℕ) (p : Bytes)
    → b ≢ b'*'
    → b ≢ b'?'
    → glob_pieces (b ∷ p) ≡ one (literal b) ∷ glob_pieces p
unfolding glob_pieces
glob_piece-same b p n k = ground arith

star_skip :
    (a : Atom) (ps : List Piece) (s : Bytes) (first : Bool)
    → match_pieces first ps s ≡ true
    → match_pieces first (star a ∷ ps) s ≡ true
unfolding match_pieces
star_skip a ps [] first h = h
star_skip a ps (c ∷ s) first h = rw h

star_again :
    (a : Atom) (ps : List Piece) (c : ℕ) (s : Bytes) (first : Bool)
    → fits a c ≡ true
    → match_pieces false (star a ∷ ps) s ≡ true
    → match_pieces first (star a ∷ ps) (c ∷ s) ≡ true
unfolding match_pieces
star_again a ps c s first f h = ground (arith, f, h)

one_byte :
    (a : Atom) (ps : List Piece) (c : ℕ) (s : Bytes) (first : Bool)
    → (match_pieces first (one a ∷ ps) (c ∷ s) ≡ true)
      ↔ ((fits a c ≡ true) × (match_pieces false ps s ≡ true))
unfolding match_pieces
one_byte a ps c s first = (λ h. (ground arith, ground arith), λ h. ground arith)

complete :
    {p s : Bytes} (first : Bool) → GlobMatches p s → match_pieces first (glob_pieces p) s ≡ true
complete first done = unfold match_pieces glob_pieces in refl
complete first (star_end {b} {p} {s} e m) =
    rw (glob_piece-star b p e) (star_skip any_byte (glob_pieces p) s first (complete first m))
complete first (star_more {b} {c} {p} {s} e w m) =
    let later : match_pieces false (star any_byte ∷ glob_pieces p) s ≡ true =
      rw (glob_piece-star b p e) at (complete false m) in
    rw (glob_piece-star b p e)
      (star_again any_byte (glob_pieces p) c s first (fits-IsWild c w) later)
complete first (question {b} {c} {p} {s} e w m) =
    rw (glob_piece-question b p e)
      ((one_byte any_byte (glob_pieces p) c s first).1 (fits-IsWild c w, complete false m))
complete first (same {b} {p} {s} n k m) =
    rw (glob_piece-same b p n k)
      ((one_byte (literal b) (glob_pieces p) b s first).1 (fits_self b, complete false m))

module _ (b : ℕ) (p : Bytes)
    (ih : (s : Bytes) (first : Bool)
      → match_pieces first (glob_pieces p) s ≡ true
      → GlobMatches p s) where
  star_sound :
      (s : Bytes) (first : Bool)
      → b ≡ b'*'
      → match_pieces first (star any_byte ∷ glob_pieces p) s ≡ true
      → GlobMatches (b ∷ p) s
  unfolding match_pieces
  star_sound [] first e h = star_end e (ih [] first h)
  star_sound (c ∷ s) first e h = elim (Bool-cases (match_pieces first (glob_pieces p) (c ∷ s))) [
    | inl here ↦ star_end e (ih (c ∷ s) first here)
    | inr later ↦
        star_more e (IsWild-fits c (ground (arith, h, later)))
          (star_sound s false e (ground (arith, h, later)))
  ]

  no_text : (first : Bool) → b ≢ b'*' → match_pieces first (glob_pieces (b ∷ p)) [] ≢ true
  unfolding match_pieces glob_pieces
  no_text first n h = ground arith

  one_sound :
      (s : Bytes) (first : Bool)
      → b ≢ b'*'
      → match_pieces first (glob_pieces (b ∷ p)) s ≡ true
      → GlobMatches (b ∷ p) s
  one_sound [] first n h = absurd (no_text first n h)
  one_sound (c ∷ s) first n h = elim (ℕ_discrete b b'?') [
    | yes e ↦
        let (wild, later) =
          (one_byte any_byte (glob_pieces p) c s first).0 (rw (glob_piece-question b p e) at h) in
        question e (IsWild-fits c wild) (ih s false later)
    | no k ↦
        let (eq, later) =
          (one_byte (literal b) (glob_pieces p) c s first).0 (rw (glob_piece-same b p n k) at h) in
        subst (λ d. GlobMatches (b ∷ p) (d ∷ s)) (fits_eq b c eq) (same n k (ih s false later))
  ]

sound : (p s : Bytes) (first : Bool) → match_pieces first (glob_pieces p) s ≡ true → GlobMatches p s
sound [] [] first h = done
sound [] (c ∷ s) first h = unfold match_pieces glob_pieces in cc
sound (b ∷ p) s first h = elim (ℕ_discrete b b'*') [
  | yes e ↦ star_sound b p (sound p) s first e (rw (glob_piece-star b p e) at h)
  | no n ↦ one_sound b p (sound p) s first n h
]

-- The expression that a glob is turned into matches exactly the texts that the glob stands for,
-- where `*` and `?` stand for no line terminator.
pub regex_match-GlobMatches :
    (p s : Bytes) → (regex_match s (glob_to_regex p) ≡ true) ↔ GlobMatches p s
regex_match-GlobMatches p s = (
  λ h. sound p s true (sym (regex_match-glob_to_regex p s) ∙ h),
  λ m. regex_match-glob_to_regex p s ∙ complete true m,
)
