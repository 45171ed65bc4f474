-- ===== src/Security/Approval/Store.antt =====
-- The approval store and its file (`ApprovalStore` of src/security/approval.cpp).
use ghostclaw.Base.{
  ◌≡◌, ◌≢◌, refl, ap, ◌∙◌, sym, true, false, List, [], ◌∷◌, ◌++◌, arith, null, append_assoc,
  append-nil, Bool-cases, inl, inr, Option, some, none,
}
use ghostclaw.Base.Text.{Bytes, lines, equal_iff, mem, Lacks}
use ghostclaw.Base.Lines.{unlines, HaveNoNewline, lines-unlines, lines-entry}
use ghostclaw.Common.Fs.Trim.{normalize_idem}
use ghostclaw.Security.Approval.{
  ApprovalStore, normalize_text, add_entry, add, load_lines, load, file_entries, save,
}

-- Each text is in none of those before it.
abbrev pub DistinctFrom : List Bytes → List Bytes → Type 0
DistinctFrom before [] = Unit
DistinctFrom before (x ∷ xs) = (mem x before ≡ false) × DistinctFrom (before ++ x ∷ []) xs

-- Normalized and not empty.
abbrev pub AreNormal : List Bytes → Type 0
AreNormal [] = Unit
AreNormal (x ∷ xs) = (normalize_text x ≡ x) × (null x ≡ false) × AreNormal xs

pub record IsStore (entries : List Bytes) : Type 0 where
  pub normal : AreNormal entries
  pub distinct : DistinctFrom [] entries

normalize_text_idem : (s : Bytes) → normalize_text (normalize_text s) ≡ normalize_text s
unfolding normalize_text
normalize_text_idem = normalize_idem

AreNormal-concat :
    (xs : List Bytes) (x : Bytes)
    → AreNormal xs
    → normalize_text x ≡ x
    → null x ≡ false
    → AreNormal (xs ++ x ∷ [])
AreNormal-concat [] x h n e = (n, e, tt)
AreNormal-concat (y ∷ xs) x h n e = (h.0, h.1, AreNormal-concat xs x h.2 n e)

DistinctFrom-concat :
    (before xs : List Bytes) (x : Bytes)
    → DistinctFrom before xs
    → mem x (before ++ xs) ≡ false
    → DistinctFrom before (xs ++ x ∷ [])
DistinctFrom-concat before [] x h n = (ap (mem x) (sym (append-nil before)) ∙ n, tt)
DistinctFrom-concat before (y ∷ xs) x h n = (
  h.0,
  DistinctFrom-concat (before ++ y ∷ []) xs x h.1
      (ap (mem x) (append_assoc before (y ∷ []) xs) ∙ n),
)

add_entry-IsStore :
    (entries : List Bytes) (command : Bytes)
    → IsStore entries
    → IsStore (add_entry entries (normalize_text command))
unfolding add_entry
add_entry-IsStore entries command s = elim (Bool-cases (null (normalize_text command))) [
  | inl empty ↦ rw empty s
  | inr full ↦ elim (Bool-cases (mem (normalize_text command) entries)) [
    | inl old ↦ rw (full, old) s
    | inr new ↦
        rw (full, new)
          (record {
            normal = AreNormal-concat entries _ s.normal (normalize_text_idem command) full;
            distinct = DistinctFrom-concat [] entries _ s.distinct new;
          })
  ]
]

-- Adding a command keeps the stored commands normalized, not empty and distinct.
pub add-IsStore :
    (s : ApprovalStore) (command : Bytes) → IsStore s.entries → IsStore (add s command).entries
unfolding add
add-IsStore s command h = add_entry-IsStore s.entries command h

load_lines-IsStore :
    (entries rest : List Bytes) → IsStore entries → IsStore (load_lines entries rest)
unfolding load_lines
load_lines-IsStore entries [] s = s
load_lines-IsStore entries (line ∷ rest) s =
    load_lines-IsStore (add_entry entries (normalize_text line)) rest
      (add_entry-IsStore entries line s)

file_entries-IsStore : (file : Option Bytes) → IsStore (file_entries file)
unfolding file_entries
file_entries-IsStore none = record { normal = tt; distinct = tt }
file_entries-IsStore (some text) =
    load_lines-IsStore [] (lines [] text) (record { normal = tt; distinct = tt })

-- Whatever the file holds, what is loaded from it is normalized, not empty and distinct.
pub load-IsStore : (s : ApprovalStore) → IsStore (load s).entries
unfolding load
load-IsStore s = file_entries-IsStore s.file

load_lines-append :
    (before xs : List Bytes)
    → AreNormal xs
    → DistinctFrom before xs
    → load_lines before xs ≡ before ++ xs
unfolding load_lines
load_lines-append before [] n d = sym (append-nil before)
load_lines-append before (x ∷ xs) n d =
    let step : add_entry before (normalize_text x) ≡ before ++ x ∷ [] =
      unfold add_entry in rw (n.0, n.1, d.0) in
    ap (λ k. load_lines k xs) step
    ∙ load_lines-append (before ++ x ∷ []) xs n.2 d.1
    ∙ append_assoc before (x ∷ []) xs

-- A saved store is loaded back as it was, if no command in it holds a newline.
pub load-save :
    (s : ApprovalStore)
    → IsStore s.entries
    → HaveNoNewline s.entries
    → (load (save true s)).entries ≡ s.entries
unfolding load save file_entries
load-save s h l =
    ap (load_lines []) (lines-unlines s.entries l)
    ∙ load_lines-append [] s.entries h.normal h.distinct

mem-single : (x y : Bytes) → x ≢ y → mem y (x ∷ []) ≡ false
unfolding mem
mem-single x y ne = ground (arith, equal_iff x y)

null-append : (a b : Bytes) → null a ≡ false → null (a ++ b) ≡ false
null-append [] b h = cc
null-append (c ∷ a) b h = refl

abbrev pub empty_store : ApprovalStore
empty_store = record { entries = []; file = none }

add_first :
    (command : Bytes)
    → normalize_text command ≡ command
    → null command ≡ false
    → (add empty_store command).entries ≡ command ∷ []
unfolding add add_entry mem
add_first command n e = rw n (rw (e, add_entry))

lines_last :
    (a b : Bytes)
    → Lacks b'\n' a
    → Lacks b'\n' b
    → lines [] (unlines ((a ++ (b'\n' ∷ b)) ∷ [])) ≡ a ∷ b ∷ []
unfolding unlines
lines_last a b la lb =
    ap (lines []) (append_assoc a (b'\n' ∷ b) (b'\n' ∷ []))
    ∙ lines-entry [] a (b ++ (b'\n' ∷ [])) la
    ∙ ap (◌∷◌ a) (lines-entry [] b [] lb ∙ unfold lines in refl)

-- A command of two different lines, that and its lines being normal, that is added to an empty
-- store and saved is loaded back as two commands, one for each line.
pub load-save_two_lines :
    (a b : Bytes)
    → normalize_text (a ++ (b'\n' ∷ b)) ≡ a ++ (b'\n' ∷ b)
    → AreNormal (a ∷ b ∷ [])
    → HaveNoNewline (a ∷ b ∷ [])
    → a ≢ b
    → (load (save true (add empty_store (a ++ (b'\n' ∷ b))))).entries ≡ a ∷ b ∷ []
unfolding load save file_entries mem
load-save_two_lines a b n h l ne =
    ap (λ k. load_lines [] (lines [] (unlines k))) (add_first _ n (null-append a _ h.1))
    ∙ ap (load_lines []) (lines_last a b l.0 l.1.0)
    ∙ load_lines-append [] (a ∷ b ∷ []) h (refl, (mem-single a b ne, tt))
