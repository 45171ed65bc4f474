-- ===== src/Base/Lines.antt =====
-- Texts of lines, as they are written and as they are read.
use mathlib.Core.List.{List, [], ◌∷◌, ◌++◌, append-nil, append_assoc}
use mathlib.Core.Path.{◌≡◌, refl, ap, sym, ◌∙◌}
use native.Mathlib.Omega.{arith}
use ghostclaw.Base.Text.{Bytes, Lacks, lines}

-- The loop that writes each text and a newline.
unfoldable pub unlines : List Bytes → Bytes
unlines [] = []
unlines (entry ∷ rest) = entry ++ (b'\n' ∷ unlines rest)

abbrev pub HaveNoNewline : List Bytes → Type 0
HaveNoNewline [] = Unit
HaveNoNewline (x ∷ xs) = Lacks b'\n' x × HaveNoNewline xs

pub lines-entry :
    (line entry rest : Bytes)
    → Lacks b'\n' entry
    → lines line (entry ++ (b'\n' ∷ rest)) ≡ (line ++ entry) ∷ lines [] rest
unfolding lines
lines-entry line [] rest h = rw append-nil
lines-entry line (c ∷ entry) rest (ne, h) =
    ground (arith, lines-entry (line ++ c ∷ []) entry rest h, append_assoc line (c ∷ []) entry)

pub lines-unlines :
    (entries : List Bytes) → HaveNoNewline entries → lines [] (unlines entries) ≡ entries
unfolding unlines
lines-unlines [] h = unfold lines in refl
lines-unlines (x ∷ xs) h = lines-entry [] x (unlines xs) h.0 ∙ ap (◌∷◌ x) (lines-unlines xs h.1)

pub unlines-append : (xs ys : List Bytes) → unlines (xs ++ ys) ≡ unlines xs ++ unlines ys
unfolding unlines
unlines-append [] ys = refl
unlines-append (x ∷ xs) ys =
    ap (λ t. x ++ (b'\n' ∷ t)) (unlines-append xs ys)
    ∙ sym (append_assoc x (b'\n' ∷ unlines xs) (unlines ys))
