-- ===== src/Security/Glob/Compile.antt =====
-- The pieces that std::regex makes of a glob's expression (`glob_to_regex` of
-- src/security/tool_policy_pipeline.cpp and src/security/approval.cpp).
use ghostclaw.Base.{
  ℕ, ◌≡◌, ◌≢◌, refl, true, false, List, [], ◌∷◌, ◌++◌, some, arith, ◌==◌, if◌then◌else◌, Bool-cases,
  inl, inr,
}
use ghostclaw.Base.Text.{Bytes, codes}
use ghostclaw.Security.Glob.{
  is_escaped, glob_body, glob_to_regex, Atom, any_byte, literal, Piece, line_begin, line_end, one,
  star, Pending, nothing, escape, atom, flush, next_plain, next, finish, compile, match_pieces,
  regex_match,
}

unfoldable pub glob_piece : ℕ → Piece
glob_piece c =
    if c == b'*' then star any_byte else if c == b'?' then one any_byte else one (literal c)

unfoldable pub glob_pieces : Bytes → List Piece
unfolding glob_piece
glob_pieces [] = line_end ∷ []
glob_pieces (c ∷ p) = glob_piece c ∷ glob_pieces p

plain_byte :
    (q : Pending) (c : ℕ)
    → q ≢ escape
    → (c == b'*') ≡ false
    → (c == b'?') ≡ false
    → is_escaped c ≡ false
    → next q c ≡ some (flush q, atom (literal c))
unfolding next next_plain is_escaped
plain_byte nothing c h a b e = ground arith
plain_byte escape c h a b e = absurd (h refl)
plain_byte (atom x) c h a b e = ground arith

special_byte :
    (q : Pending) (c : ℕ)
    → q ≢ escape
    → is_escaped c ≡ true
    → (next q b'\\' ≡ some (flush q, escape)) × (next escape c ≡ some ([], atom (literal c)))
unfolding next next_plain
special_byte nothing c h e = (refl, ground arith)
special_byte escape c h e = absurd (h refl)
special_byte (atom x) c h e = (refl, ground arith)

wild_byte :
    (q : Pending)
    → q ≢ escape
    → (next q b'.' ≡ some (flush q, atom any_byte))
      × (next (atom any_byte) b'*' ≡ some (star any_byte ∷ [], nothing))
unfolding next next_plain
wild_byte nothing h = (refl, refl)
wild_byte escape h = absurd (h refl)
wild_byte (atom x) h = (refl, refl)

compile_step :
    (q r : Pending) (c : ℕ) (s : Bytes) (ps qs : List Piece)
    → next q c ≡ some (ps, r)
    → compile r s ≡ some qs
    → compile q (c ∷ s) ≡ some (ps ++ qs)
unfolding compile
compile_step q r c s ps qs h k = ground (arith, h, k)

compile_end : (q : Pending) → q ≢ escape → compile q (codes "$") ≡ some (flush q ++ line_end ∷ [])
unfolding compile next next_plain finish flush
compile_end nothing h = refl
compile_end escape h = absurd (h refl)
compile_end (atom x) h = refl

not_escape : (a : Atom) → atom a ≢ escape
not_escape a e = cc

nothing_escape : nothing ≢ escape
nothing_escape e = cc

compile-glob_body :
    (p : Bytes) (q : Pending)
    → q ≢ escape
    → compile q (glob_body p) ≡ some (flush q ++ glob_pieces p)
unfolding glob_body glob_pieces flush
compile-glob_body [] q h = compile_end q h
compile-glob_body (c ∷ p) q h = elim (Bool-cases (c == b'*')) [
  | inl starred ↦ rw starred (
      compile_step q (atom any_byte) b'.' _ (flush q) _ (wild_byte q h).0 (
        compile_step (atom any_byte) nothing b'*' _ _ _ (wild_byte q h).1
          (compile-glob_body p nothing nothing_escape)))
  | inr plain ↦ elim (Bool-cases (c == b'?')) [
    | inl wild ↦
        rw (plain, wild)
          (compile_step q (atom any_byte) b'.' _ (flush q) _ (wild_byte q h).0
            (compile-glob_body p (atom any_byte) (not_escape any_byte)))
    | inr tame ↦ elim (Bool-cases (is_escaped c)) [
      | inl special ↦
          rw (plain, tame, special)
            (compile_step q escape b'\\' _ (flush q) _ (special_byte q c h special).0 (
              compile_step escape (atom (literal c)) c _ [] _ (special_byte q c h special).1
                (compile-glob_body p (atom (literal c)) (not_escape (literal c)))))
      | inr bare ↦
          rw (plain, tame, bare)
            (compile_step q (atom (literal c)) c _ (flush q) _ (plain_byte q c h plain tame bare)
              (compile-glob_body p (atom (literal c)) (not_escape (literal c))))
    ]
  ]
]

compile-glob_to_regex :
    (p : Bytes) → compile nothing (glob_to_regex p) ≡ some (line_begin ∷ glob_pieces p)
unfolding glob_to_regex glob_pieces flush
compile-glob_to_regex p =
    compile_step nothing nothing b'^' (glob_body p) (line_begin ∷ []) (glob_pieces p)
      (unfold next next_plain flush in refl) (compile-glob_body p nothing nothing_escape)

pub regex_match-glob_to_regex :
    (p s : Bytes) → regex_match s (glob_to_regex p) ≡ match_pieces true (glob_pieces p) s
unfolding regex_match
regex_match-glob_to_regex p s =
    rw (compile-glob_to_regex p, regex_match) (unfold match_pieces in refl)
