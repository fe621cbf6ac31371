-- ===== src/Paths/Inside.antt =====
-- A path that a remote device names stays in its root (internal/common/paths/paths.go).
use Prim.Native.String.{◌++◌ as append}
use mathlib.Core.Path.{subst}
use text.Mathlib.Text.{starts_with}
use syna.Prelude.{
  String, str_eq, eq_iff, ◌≡◌, sym, ap, ◌∙◌, Bool, true, false, not, ◌||◌, arith, ◌⊎◌, inl, inr,
  Bool-cases, if◌then◌else◌, ◌≢◌, List, [], ◌∷◌, All,
}
use syna.Prelude.Result.{ok, err, fail_if, ◌>>◌, >>=-eq-ok, fail_if-eq-ok, ok-injective}
use syna.Paths.Defs.{
  PathPackage, has_bad_part, check_nonempty_path, validate_slash_rel_path, validate_remote_rel_path,
  rel_within_root, ensure_within_root, remote_target, resolve_remote_target, rel_found, contains,
  backslash, absolute, empty_path, upward, not_canonical, malformed, contains_nul, outside_root,
}

-- `inner` is the root or a path under it
abbrev pub IsWithin : PathPackage → String → String → Type 0
IsWithin pkg root inner =
    (pkg.clean inner ≡ pkg.clean root)
    ⊎ (starts_with (pkg.clean inner) (append (pkg.clean root) "/") ≡ true)

-- A path that the check of the root passes is the root or under it.
pub rel_within_root-IsWithin :
    (pkg : PathPackage) (root target : String) {rel : String}
    → rel_within_root pkg root target ≡ ok rel
    → IsWithin pkg root target
unfolding rel_within_root
rel_within_root-IsWithin pkg root target {rel} h =
    elim (Bool-cases (str_eq (pkg.clean target) (pkg.clean root))) [
      | inl same ↦ inl ((eq_iff (pkg.clean target) (pkg.clean root)).0 same)
      | inr other ↦
          let h1 : (fail_if (not (starts_with (pkg.clean target) (append (pkg.clean root) "/")))
                  outside_root
                >> rel_found pkg (pkg.rel (pkg.clean root) (pkg.clean target)))
              ≡ ok rel =
            (rw other at h) in
          let (under, found) =
            fail_if-eq-ok (not (starts_with (pkg.clean target) (append (pkg.clean root) "/")))
              outside_root _ h1 in
          inr (ground (arith, under))
    ]

check_nonempty_path-canonical :
    (pkg : PathPackage) (raw : String) {rel : String}
    → check_nonempty_path pkg raw ≡ ok rel
    → (rel ≡ raw)
      × (starts_with raw "/" ≡ false)
      × (pkg.clean raw ≡ raw)
      × (has_bad_part (pkg.split raw) ≡ false)
check_nonempty_path-canonical pkg raw h =
    let (no_backslash, h3) = fail_if-eq-ok (contains raw "\\") backslash _ h in
    let (relative, h4) = fail_if-eq-ok (starts_with raw "/") absolute _ h3 in
    let (named, h5) = fail_if-eq-ok (str_eq (pkg.clean raw) ".") empty_path _ h4 in
    let (inner, h6) =
      fail_if-eq-ok (str_eq (pkg.clean raw) ".." || starts_with (pkg.clean raw) "../") upward _
        h5 in
    let (differ, h7) = fail_if-eq-ok (not (str_eq (pkg.clean raw) raw)) not_canonical _ h6 in
    let (parts, h8) = fail_if-eq-ok (has_bad_part (pkg.split (pkg.clean raw))) malformed _ h7 in
    let canonical : pkg.clean raw ≡ raw = (eq_iff (pkg.clean raw) raw).0 (ground (arith, differ)) in
    (
      sym (ok-injective h8) ∙ canonical,
      relative,
      canonical,
      sym (ap (λ p. has_bad_part (pkg.split p)) canonical) ∙ parts,
    )

-- a part that names an entry of its directory
abbrev pub IsPlainPart : String → Type 0
IsPlainPart part = ◌≢◌ {A = String} part "." × ◌≢◌ {A = String} part ".." × ◌≢◌ {A = String} part ""

has_bad_part-IsPlainPart :
    (parts : List String) → has_bad_part parts ≡ false → All IsPlainPart parts
has_bad_part-IsPlainPart [] h = tt
has_bad_part-IsPlainPart (part ∷ parts) h = (
  (
    λ e. absurd (ground (arith, h, (eq_iff part ".").1 e)),
    λ e. absurd (ground (arith, h, (eq_iff part "..").1 e)),
    λ e. absurd (ground (arith, h, (eq_iff part "").1 e)),
  ),
  has_bad_part-IsPlainPart parts (ground (arith, h)),
)

-- A path that is accepted is given back as it came; it is empty, which only a caller that allows
-- it accepts, or it is relative, canonical, and no part of it is empty, "." or "..".
pub validate_slash_rel_path-canonical :
    (pkg : PathPackage) (raw : String) (allow_empty : Bool) {rel : String}
    → validate_slash_rel_path pkg raw allow_empty ≡ ok rel
    → (rel ≡ raw)
      × (((raw ≡ "") × (allow_empty ≡ true))
          ⊎ ((starts_with raw "/" ≡ false)
              × (pkg.clean raw ≡ raw)
              × All IsPlainPart (pkg.split raw)))
unfolding validate_slash_rel_path
validate_slash_rel_path-canonical pkg raw allow_empty {rel} h =
    let (nul, h1) =
      fail_if-eq-ok (contains raw "\0") contains_nul
        (if str_eq raw ""
          then (if allow_empty then ok "" else err empty_path)
          else check_nonempty_path pkg raw)
        h in
    elim (Bool-cases (str_eq raw "")) [
      | inl blank ↦
          let is_blank = (eq_iff raw "").0 blank in
          let h2 : (if allow_empty then ok "" else err empty_path) ≡ ok rel = (rw blank at h1) in
          elim (Bool-cases allow_empty) [
            | inl allowed ↦
                (sym (ok-injective (rw allowed at h2)) ∙ sym is_blank, inl (is_blank, allowed))
            | inr refused ↦ absurd (ground (arith, refused, h2))
          ]
      | inr full ↦
          let (same, relative, canonical, parts) =
            check_nonempty_path-canonical pkg raw (rw full at h1) in
          (same, inr (relative, canonical, has_bad_part-IsPlainPart (pkg.split raw) parts))
    ]

-- Where a remote path leads is the root or under it, and the path was accepted as it is.
pub resolve_remote_target-IsWithin :
    (pkg : PathPackage) (root raw : String) (allow_root : Bool) {rel target : String}
    → resolve_remote_target pkg root raw allow_root ≡ ok (rel, target)
    → IsWithin pkg root target × (rel ≡ raw)
unfolding resolve_remote_target ensure_within_root validate_remote_rel_path
resolve_remote_target-IsWithin pkg root raw allow_root {target = target} h =
    let (r, valid, h1) = >>=-eq-ok (validate_remote_rel_path pkg raw allow_root) _ h in
    let (u, inside, h2) = >>=-eq-ok (ensure_within_root pkg root (remote_target pkg root r)) _ h1 in
    let (x, within, h3) =
      >>=-eq-ok (rel_within_root pkg root (remote_target pkg root r)) _ inside in
    let e = ok-injective h2 in
    let same_target : remote_target pkg root r ≡ target = ap (λ p. p.1) e in
    (
      subst (IsWithin pkg root) same_target (rel_within_root-IsWithin pkg root _ within),
      sym (ap (λ p. p.0) e) ∙ (validate_slash_rel_path-canonical pkg raw allow_root valid).0,
    )
