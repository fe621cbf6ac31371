-- ===== src/Paths/Overlaps.antt =====
-- Roots that are accepted beside each other (internal/common/paths/paths.go) share no file.
use Prim.Native.String.{◌++◌ as append}
use text.Mathlib.Text.{starts_with}
use syna.Prelude.{
  String, str_eq, eq_iff, ◌≡◌, ◌≢◌, false, ◌||◌, arith, List, [], ◌∷◌, All, Bool-cases, ◌⊎◌, inl,
  inr,
}
use syna.Prelude.Result.{ok, fail_if-eq-ok}
use syna.Paths.Defs.{PathPackage, clean_stored, overlaps, check_overlap, overlapping}

-- neither is the other, or under it
abbrev pub IsApart : String → String → Type 0
IsApart a b =
    (a ≢ b) × (starts_with a (append b "/") ≡ false) × (starts_with b (append a "/") ≡ false)

overlaps-IsApart :
    (pkg : PathPackage) (a b : String)
    → str_eq a "" ≡ false
    → overlaps pkg a b ≡ false
    → (b ≡ "") ⊎ IsApart a b
unfolding overlaps
overlaps-IsApart pkg a b full h = elim (Bool-cases (str_eq b "")) [
  | inl blank ↦ inl ((eq_iff b "").0 blank)
  | inr named ↦
      let differ : (str_eq a b || starts_with a (append b "/") || starts_with b (append a "/"))
          ≡ false =
        (rw (full, named) at h) in
      inr (
        (λ same. ground (arith, (eq_iff a b).1 same, differ)),
        ground (arith, differ),
        ground (arith, differ),
      )
]

-- A candidate that is accepted and is not the home directory itself is, of each existing root that is
-- not, neither that root, nor under it, nor over it.
pub check_overlap-IsApart :
    (pkg : PathPackage) (candidate : String) (existing : List String)
    → str_eq (clean_stored pkg candidate) "" ≡ false
    → check_overlap pkg candidate existing ≡ ok tt
    → All
        (λ root.
          (clean_stored pkg root ≡ "")
          ⊎ IsApart (clean_stored pkg candidate) (clean_stored pkg root))
        existing
unfolding check_overlap
check_overlap-IsApart pkg candidate [] full h = tt
check_overlap-IsApart pkg candidate (root ∷ roots) full h =
    let (apart, h1) = fail_if-eq-ok _ overlapping _ h in
    (
      overlaps-IsApart pkg (clean_stored pkg candidate) (clean_stored pkg root) full apart,
      check_overlap-IsApart pkg candidate roots full h1,
    )
