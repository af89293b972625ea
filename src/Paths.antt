-- ===== src/Paths.antt =====
-- Resolution of request paths under the storage root (path.go). A cleaned absolute path is the list
-- of its segments; the file system is an argument.
pub mod Names
pub mod Confinement
pub mod Resolution
pub mod Sanitized
mod Examples
use dingbap.Base.{
  ℕ, Bool, true, false, not, ◌&&◌, ◌||◌, List, [], ◌∷◌, ◌++◌, Option, none, some, if◌then◌else◌,
  is_empty,
}
use dingbap.Text.{Text, codes, text_eq, has_prefix, split, replace_byte, contains_byte}

abbrev pub FilePath : Type 0
FilePath = List Text

-- What `os.Lstat` says of a path.
pub data Lstat : Type 0 where
  missing failed symlink plain : Lstat

-- What `os.Stat` says of a path; a file has a size.
pub data Stat : Type 0 where
  absent broken folder : Stat
  file : ℕ → Stat

pub record FileSystem : Type 0 where
  -- `filepath.Abs`, `filepath.EvalSymlinks`, `os.Lstat` and `os.Stat`
  pub abs : Text → Option FilePath
  pub eval_symlinks : FilePath → Option FilePath
  pub lstat : FilePath → Lstat
  pub stat : FilePath → Stat

pub data PathError : Type 0 where
  invalid_path traversal hidden : PathError

pub data PathResult : Type 0 where
  ok : FilePath → PathResult
  err : PathError → PathResult

-- `pathRootAbs` and `pathRootReal`, once they are set.
abbrev pub PathRoot : Type 0
PathRoot = Option (FilePath × FilePath)

abbrev pub dot : Text
dot = codes "."

abbrev pub dot_dot : Text
dot_dot = codes ".."

abbrev pub skipped : Text → Bool
skipped part = is_empty part || text_eq part dot

abbrev pub drop_last : FilePath → FilePath
drop_last [] = []
drop_last (x ∷ []) = []
drop_last (x ∷ y ∷ xs) = x ∷ drop_last (y ∷ xs)

-- One more segment, as `filepath.Clean` reads it.
unfoldable pub append_part : FilePath → Text → FilePath
append_part path part =
    if skipped part
    then path
    else if text_eq part dot_dot
    then drop_last path
    else path ++ (part ∷ [])

-- `filepath.Join` of a cleaned absolute path with segments.
unfoldable pub join_parts : FilePath → List Text → FilePath
unfolding append_part
join_parts path [] = path
join_parts path (part ∷ parts) = join_parts (append_part path part) parts

-- `filepath.Clean("/" + s)`
unfoldable pub clean_rooted : Text → FilePath
unfolding join_parts split
clean_rooted s = join_parts [] (split b'/' s)

abbrev pub ups : FilePath → List Text
ups [] = []
ups (x ∷ xs) = dot_dot ∷ ups xs

-- `filepath.Rel` of two cleaned absolute paths; `.` is the empty list.
unfoldable pub rel_parts : FilePath → FilePath → List Text
rel_parts [] target = target
rel_parts (b ∷ base) [] = ups (b ∷ base)
rel_parts (b ∷ base) (t ∷ target) =
    if text_eq b t then rel_parts base target else ups (b ∷ base) ++ (t ∷ target)

-- `rel == ".."` or `rel` begins with `../`
abbrev pub climbs : List Text → Bool
climbs [] = false
climbs (part ∷ parts) = text_eq part dot_dot

unfoldable pub within_root : FilePath → FilePath → Bool
unfolding rel_parts
within_root root target = not (climbs (rel_parts root target))

-- The loops that deny a segment; `none` is no error.
unfoldable pub check_parts : List Text → Option PathError
check_parts [] = none
check_parts (part ∷ parts) =
    let rest = check_parts parts in
    if skipped part
    then rest
    else if text_eq part dot_dot
    then some traversal
    else if has_prefix part dot
    then some hidden
    else rest

unfoldable pub reject_hidden_under_root : FilePath → FilePath → Option PathError
unfolding rel_parts check_parts
reject_hidden_under_root root abs =
    let rel = rel_parts root abs in if climbs rel then some traversal else check_parts rel

abbrev pub checked : FilePath → Option PathError → PathResult
checked path none = ok path
checked path (some e) = err e

-- The rest of the path does not exist: it stays lexical.
abbrev pub lexical : FilePath → FilePath → PathResult
lexical root candidate =
    if within_root root candidate
    then checked candidate (reject_hidden_under_root root candidate)
    else err traversal

-- The loop over the segments of the request.
unfoldable pub resolve_parts : FileSystem → FilePath → FilePath → List Text → PathResult
unfolding append_part join_parts within_root reject_hidden_under_root
resolve_parts fs root current [] = checked current (reject_hidden_under_root root current)
resolve_parts fs root current (part ∷ parts) =
    let next = append_part current part in
    let passed = resolve_parts fs root current parts in
    let onward = resolve_parts fs root next parts in
    let from_link = λ (target : FilePath). resolve_parts fs root target parts in
    if skipped part
    then passed
    else if not (within_root root next)
    then err traversal
    else elim (fs.lstat next) [
      | missing ↦ lexical root (join_parts current (part ∷ parts))
      | failed ↦ err invalid_path
      | symlink ↦ elim (fs.eval_symlinks next) [
        | none ↦ err invalid_path
        | some target ↦
            if within_root root target
            then elim (reject_hidden_under_root root target) [
              | none ↦ from_link target
              | some e ↦ err e
            ]
            else err traversal
      ]
      | plain ↦ onward
    ]

unfoldable pub path_eq : FilePath → FilePath → Bool
path_eq [] [] = true
path_eq [] (y ∷ ys) = false
path_eq (x ∷ xs) [] = false
path_eq (x ∷ xs) (y ∷ ys) = text_eq x y && path_eq xs ys

abbrev pub cached_for : FilePath → PathRoot → Option FilePath
cached_for abs none = none
cached_for abs (some (root_abs, root_real)) = if path_eq abs root_abs then some root_real else none

-- The real root: the cached one, or the resolved directory.
unfoldable pub real_root : FileSystem → PathRoot → Text → Option FilePath
unfolding path_eq
real_root fs cache dir = elim (fs.abs dir) [
  | none ↦ none
  | some abs ↦ elim (cached_for abs cache) [ none ↦ fs.eval_symlinks abs | some real ↦ some real ]
]

unfoldable pub configure_storage_root : FileSystem → Text → PathRoot
configure_storage_root fs dir = elim (fs.abs dir) [
  | none ↦ none
  | some abs ↦ elim (fs.eval_symlinks abs) [ none ↦ none | some real ↦ some (abs, real) ]
]

abbrev pub resolve_checked : FileSystem → FilePath → List Text → Option PathError → PathResult
resolve_checked fs root parts (some e) = err e
resolve_checked fs root parts none = resolve_parts fs root root parts

unfoldable pub resolve_under_root : FileSystem → PathRoot → Text → Text → PathResult
unfolding clean_rooted check_parts resolve_parts real_root
resolve_under_root fs cache dir requested =
    let parts = clean_rooted (replace_byte b'\\' b'/' requested) in
    if contains_byte 0 requested then err invalid_path else elim (real_root fs cache dir) [
      | none ↦ err invalid_path
      | some root ↦
          if is_empty parts then ok root else resolve_checked fs root parts (check_parts parts)
    ]

-- `rootDir` with the file system below it.
pub record Storage : Type 0 where
  pub fs : FileSystem
  pub path_root : PathRoot
  pub root_dir : Text

unfoldable pub safe_path : Storage → Text → PathResult
unfolding resolve_under_root
safe_path st rel = resolve_under_root st.fs st.path_root st.root_dir rel

unfoldable pub assert_user_content_path : Storage → Text → PathResult
unfolding safe_path
assert_user_content_path st rel = safe_path st rel
