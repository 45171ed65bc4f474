-- ===== src/Common/Fs/Subpath.antt =====
-- What `is_subpath` decides (src/common/fs.cpp).
use ghostclaw.Base.{◌≡◌, ◌↔◌, refl, true, [], ◌∷◌, ◌++◌, arith, &&-eq-true}
use ghostclaw.Base.Text.{equal, equal_iff}
use ghostclaw.Common.Fs.{FilePath, is_subpath}

-- The path is `parent` with some components behind it.
abbrev pub IsBelow : FilePath → FilePath → Type 0
IsBelow candidate parent = (rest : FilePath) × (candidate ≡ parent ++ rest)

-- A path is a subpath exactly when it is the parent with some components behind it.
pub is_subpath_iff :
    (candidate parent : FilePath) → (is_subpath candidate parent ≡ true) ↔ IsBelow candidate parent
unfolding is_subpath
is_subpath_iff candidate [] = (λ h. (candidate, refl), λ h. refl)
is_subpath_iff [] (p ∷ parent) = (λ h. cc, λ (rest, e). cc)
is_subpath_iff (c ∷ candidate) (p ∷ parent) =
    let later = is_subpath_iff candidate parent in
    let same = equal_iff c p in
    (
      λ h.
          let (e, below) = &&-eq-true (equal c p) (is_subpath candidate parent) h in
          let (rest, f) = later.0 below in (rest, cc (same.0 e, f)),
      λ (rest, e).
          let head : c ≡ p = cc in
          let below : candidate ≡ parent ++ rest = cc in
          ground (arith, same.1 head, later.1 (rest, below)),
    )
