-- ===== src/Paths/Defs.antt =====
-- internal/common/paths/paths.go. Go's packages path and filepath, and the split of a text at its
-- slashes, are the fields of `PathPackage`; a separator is a slash, so ToSlash and FromSlash change
-- nothing. `lstat` and `mkdir` of the system are arguments.
use Prim.Native.String.{◌++◌ as append}
use text.Mathlib.Text.{starts_with, find?}
use syna.Prelude.{
  String, str_eq, Bool, false, not, ◌||◌, Option, none, some, List, [], ◌∷◌, is_some, if◌then◌else◌,
}
use syna.Prelude.Result.{Result, ok, err, ◌>>=◌, ◌>>◌, fail_if}

pub record PathPackage : Type 0 where
  -- path.Clean and filepath.Clean
  pub clean : String → String
  pub join : String → String → String
  -- filepath.Rel, `none` where it fails
  pub rel : String → String → Option String
  -- filepath.Dir
  pub dir : String → String
  -- strings.Split at "/", and strings.TrimPrefix and strings.TrimSuffix, the text to cut last
  pub split : String → List String
  pub trim_prefix : String → String → String
  pub trim_suffix : String → String → String

pub data PathError : Type 0 where
  contains_nul empty_path backslash absolute upward not_canonical malformed outside_root overlapping
        no_home no_rel is_symlink not_directory stat_failed mkdir_failed :
      PathError

-- strings.Contains
abbrev pub contains : String → String → Bool
contains s t = is_some (find? s t)

abbrev pub is_bad_part : String → Bool
is_bad_part part = str_eq part "." || str_eq part ".." || str_eq part ""

abbrev pub has_bad_part : List String → Bool
has_bad_part [] = false
has_bad_part (part ∷ parts) = is_bad_part part || has_bad_part parts

module _ (pkg : PathPackage) where
  abbrev pub check_nonempty_path : String → Result PathError String
  check_nonempty_path raw = do
    fail_if (contains raw "\\") backslash
    fail_if (starts_with raw "/") absolute
    fail_if (str_eq (pkg.clean raw) ".") empty_path
    fail_if (str_eq (pkg.clean raw) ".." || starts_with (pkg.clean raw) "../") upward
    fail_if (not (str_eq (pkg.clean raw) raw)) not_canonical
    fail_if (has_bad_part (pkg.split (pkg.clean raw))) malformed
    ok (pkg.clean raw)

  unfoldable pub validate_slash_rel_path : String → Bool → Result PathError String
  validate_slash_rel_path raw allow_empty = do
    fail_if (contains raw "\0") contains_nul
    if str_eq raw ""
        then (if allow_empty then ok "" else err empty_path)
        else check_nonempty_path raw

  unfoldable pub validate_remote_rel_path : String → Bool → Result PathError String
  validate_remote_rel_path raw allow_root = validate_slash_rel_path raw allow_root

  unfoldable pub validate_home_rel_path : String → Result PathError String
  validate_home_rel_path raw = validate_slash_rel_path raw false

  abbrev pub rel_found : Option String → Result PathError String
  rel_found none = err no_rel
  rel_found (some r) = ok (if str_eq (pkg.clean r) "." then "" else pkg.clean r)

  unfoldable pub rel_within_root : String → String → Result PathError String
  rel_within_root root_abs target_abs =
      if str_eq (pkg.clean target_abs) (pkg.clean root_abs) then ok "" else (do
        fail_if (not (starts_with (pkg.clean target_abs) (append (pkg.clean root_abs) "/")))
            outside_root
        rel_found (pkg.rel (pkg.clean root_abs) (pkg.clean target_abs)))

  unfoldable pub ensure_within_root : String → String → Result PathError (Unit {0})
  ensure_within_root root_abs target_abs = rel_within_root root_abs target_abs >> ok tt

  unfoldable pub remote_target : String → String → String
  remote_target root_abs rel =
      if str_eq rel "" then pkg.clean root_abs else pkg.join (pkg.clean root_abs) rel

  -- the path in the root, and the file it leads to
  unfoldable pub resolve_remote_target : String → String → Bool → Result PathError (String × String)
  resolve_remote_target root_abs raw allow_root = do
    rel ← validate_remote_rel_path raw allow_root
    ensure_within_root root_abs (remote_target root_abs rel)
    ok (rel, remote_target root_abs rel)

  unfoldable pub clean_stored : String → String
  clean_stored p =
      let cut = pkg.trim_suffix (pkg.trim_prefix (pkg.clean p) "./") "/" in
      if str_eq cut "." then "" else cut

  -- `home` is what HomeDir returns, `none` where it fails
  unfoldable pub target_for_home_rel : Option String → String → Result PathError String
  target_for_home_rel none home_rel = err no_home
  target_for_home_rel (some home) home_rel = ok (pkg.join home (clean_stored home_rel))

  abbrev pub home_of : Option String → Result PathError String
  home_of none = err no_home
  home_of (some home) = ok home

  unfoldable pub resolve_home_rel_target :
      Option String → String → Result PathError (String × String)
  resolve_home_rel_target home raw = do
    home_rel ← validate_home_rel_path raw
    target ← target_for_home_rel home home_rel
    h ← home_of home
    ensure_within_root h target
    ok (home_rel, target)

  unfoldable pub overlaps : String → String → Bool
  overlaps a b =
      if str_eq a "" || str_eq b ""
      then str_eq a b
      else str_eq a b || starts_with a (append b "/") || starts_with b (append a "/")

  unfoldable pub check_overlap : String → List String → Result PathError (Unit {0})
  check_overlap candidate [] = ok tt
  check_overlap candidate (root ∷ roots) = do
    fail_if (overlaps (clean_stored candidate) (clean_stored root)) overlapping
    check_overlap candidate roots

-- what os.Lstat tells of a path
pub data Lstat : Type 0 where
  absent lstat_error symlink directory regular : Lstat

-- what os.Mkdir returns
pub data Mkdir : Type 0 where
  made exists mkdir_error : Mkdir

module _ (lstat : String → Lstat) where
  abbrev pub reject_symlink_of : Lstat → Result PathError (Unit {0})
  reject_symlink_of absent = ok tt
  reject_symlink_of lstat_error = err stat_failed
  reject_symlink_of symlink = err is_symlink
  reject_symlink_of directory = ok tt
  reject_symlink_of regular = ok tt

  unfoldable pub reject_symlink : String → Result PathError (Unit {0})
  reject_symlink path = reject_symlink_of (lstat path)

module _ (pkg : PathPackage) (lstat : String → Lstat) where
  -- the directories above the last part, from the root down
  abbrev pub reject_symlinks_along : String → List String → Result PathError (Unit {0})
  reject_symlinks_along current [] = ok tt
  reject_symlinks_along current (last ∷ []) = ok tt
  reject_symlinks_along current (part ∷ next ∷ parts) = do
    reject_symlink lstat (pkg.join current part)
    reject_symlinks_along (pkg.join current part) (next ∷ parts)

  abbrev pub reject_parents_of : String → Option String → Result PathError (Unit {0})
  reject_parents_of root_abs none = err no_rel
  reject_parents_of root_abs (some r) =
      if str_eq (pkg.clean r) "."
      then reject_symlink lstat root_abs
      else reject_symlinks_along root_abs (pkg.split (pkg.clean r))

  unfoldable pub reject_symlink_parents : String → String → Result PathError (Unit {0})
  reject_symlink_parents root_abs target_abs = do
    rel_within_root pkg (pkg.clean root_abs) (pkg.clean target_abs)
    reject_parents_of (pkg.clean root_abs) (pkg.rel (pkg.clean root_abs) (pkg.clean target_abs))
