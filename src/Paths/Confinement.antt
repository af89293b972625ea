-- ===== src/Paths/Confinement.antt =====
-- A resolved path stays under the storage root and passes through no hidden segment, whatever links
-- the file system holds.
use dingbap.Text.Laws.{text_eq_refl, text_eq_iff}
use dingbap.Base.{
  ◌≡◌, ◌≢◌, All, ◌++◌, false, [], some, ◌∷◌, List, none, arith, subst, All-append, Option-cases,
  inl, inr, append-nil, refl, ◌⊎◌,
}
use dingbap.Text.{Text, replace_byte, split, text_eq, has_prefix}
use dingbap.Paths.{
  FilePath, skipped, FileSystem, rel_parts, check_parts, reject_hidden_under_root, append_part,
  join_parts, resolve_parts, climbs, drop_last, lexical, ok, dot_dot, dot, resolve_under_root,
  PathRoot, real_root, clean_rooted, safe_path, Storage,
}

-- A segment that `filepath.Clean` leaves in a rooted path.
abbrev pub IsClean : Text → Type 0
IsClean part = (skipped part ≡ false) × (text_eq part dot_dot ≡ false)

-- A segment that the program shows.
abbrev pub IsShown : Text → Type 0
IsShown part = (part ≢ []) × (has_prefix part dot ≡ false)

-- The path is the root or lies under it, and has only segments that the program shows below it.
abbrev pub IsInside : FilePath → FilePath → Type 0
IsInside root path = (rest : FilePath) × (path ≡ root ++ rest) × All IsShown rest

-- `filepath.EvalSymlinks` returns a cleaned path.
abbrev pub ResolvesClean : FileSystem → Type 0
ResolvesClean fs =
    (path target : FilePath) → fs.eval_symlinks path ≡ some target → All IsClean target

pub rel_parts-append :
    (root path : FilePath)
    → climbs (rel_parts root path) ≡ false
    → path ≡ root ++ rel_parts root path
unfolding rel_parts
rel_parts-append [] path h = refl
rel_parts-append (b ∷ root) [] h = ground (arith, text_eq_refl dot_dot)
rel_parts-append (b ∷ root) (t ∷ path) h =
    ground (arith, text_eq_refl dot_dot, text_eq_iff b t, rel_parts-append root path)

All-append_right : (xs ys : FilePath) → All IsClean (xs ++ ys) → All IsClean ys
All-append_right [] ys h = h
All-append_right (x ∷ xs) ys h = All-append_right xs ys h.1

check_parts-IsShown :
    (parts : List Text) → All IsClean parts → check_parts parts ≡ none → All IsShown parts
unfolding check_parts
check_parts-IsShown [] h e = tt
check_parts-IsShown (part ∷ parts) h e = ground (arith, check_parts-IsShown parts h.1)

pub reject_hidden-IsInside :
    (root path : FilePath)
    → All IsClean path
    → reject_hidden_under_root root path ≡ none
    → IsInside root path
unfolding reject_hidden_under_root
reject_hidden-IsInside root path h e =
    let rest = rel_parts root path in
    let split : path ≡ root ++ rest = rel_parts-append root path (ground arith) in
    let clean : All IsClean rest = All-append_right root rest (subst (All IsClean) split h) in
    (rest, split, check_parts-IsShown rest clean (ground arith))

drop_last-IsClean : (path : FilePath) → All IsClean path → All IsClean (drop_last path)
drop_last-IsClean [] h = tt
drop_last-IsClean (x ∷ []) h = tt
drop_last-IsClean (x ∷ y ∷ xs) h = (h.0, drop_last-IsClean (y ∷ xs) h.1)

append_part-IsClean :
    (path : FilePath) (part : Text) → All IsClean path → All IsClean (append_part path part)
unfolding append_part
append_part-IsClean path part h =
    ground (arith, drop_last-IsClean path h, All-append IsClean path (part ∷ []) h)

join_parts-IsClean :
    (path : FilePath) (parts : List Text) → All IsClean path → All IsClean (join_parts path parts)
unfolding join_parts
join_parts-IsClean path [] h = h
join_parts-IsClean path (part ∷ parts) h =
    join_parts-IsClean (append_part path part) parts (append_part-IsClean path part h)

lexical-IsInside :
    (root candidate path : FilePath)
    → All IsClean candidate
    → lexical root candidate ≡ ok path
    → IsInside root path
lexical-IsInside root candidate path h e =
    let same : candidate ≡ path = ground arith in
    subst (IsInside root) same (reject_hidden-IsInside root candidate h (ground arith))

resolve_parts-IsInside :
    (fs : FileSystem)
    → ResolvesClean fs
    → (root current : FilePath) (parts : List Text) (path : FilePath) → All IsClean current
    → resolve_parts fs root current parts ≡ ok path
    → IsInside root path
unfolding resolve_parts
resolve_parts-IsInside fs k root current [] path h e =
    let same : current ≡ path = ground arith in
    subst (IsInside root) same (reject_hidden-IsInside root current h (ground arith))
resolve_parts-IsInside fs k root current (part ∷ parts) path h e =
    let next = append_part current part in
    let clean = append_part-IsClean current part h in
    let skip = resolve_parts-IsInside fs k root current parts path h in
    let onward = resolve_parts-IsInside fs k root next parts path clean in
    let rest =
      lexical-IsInside root (join_parts next parts) path (join_parts-IsClean next parts clean) in
    elim (Option-cases (fs.eval_symlinks next)) [
      | inl n ↦ ground (arith, skip, onward, rest)
      | inr (target, s) ↦ ground (
        arith,
        skip,
        onward,
        rest,
        resolve_parts-IsInside fs k root target parts path (k next target s),
      )
    ]

root-IsInside : (root path : FilePath) → ok root ≡ ok path → IsInside root path
root-IsInside root path e = ([], ground (arith, append-nil root), tt)

-- A successful resolution is the root itself or the end of the walk.
resolved_cases :
    (fs : FileSystem) (cache : PathRoot) (dir requested : Text) (root path : FilePath)
    → real_root fs cache dir ≡ some root
    → resolve_under_root fs cache dir requested ≡ ok path
    → (ok root ≡ ok path)
      ⊎ (resolve_parts fs root root (clean_rooted (replace_byte b'\\' b'/' requested)) ≡ ok path)
unfolding resolve_under_root
resolved_cases fs cache dir requested root path r e = ground arith

-- Where the root and the targets of links are clean paths, every path that a request resolves to
-- is the root or lies under it, and no segment below the root is empty or begins with a dot:
-- neither `..` nor a link leads outside or to a hidden entry.
pub resolve_under_root-IsInside :
    (fs : FileSystem) (cache : PathRoot) (dir requested : Text) (root path : FilePath)
    → ResolvesClean fs
    → All IsClean root
    → real_root fs cache dir ≡ some root
    → resolve_under_root fs cache dir requested ≡ ok path
    → IsInside root path
resolve_under_root-IsInside fs cache dir requested root path k c r e =
    elim (resolved_cases fs cache dir requested root path r e) [
      | inl here ↦ root-IsInside root path here
      | inr walk ↦ resolve_parts-IsInside fs k root root _ path c walk
    ]

-- What `safe_path` resolves lies inside the root.
pub safe_path-IsInside :
    (st : Storage) (rel : Text) (root path : FilePath)
    → ResolvesClean st.fs
    → All IsClean root
    → real_root st.fs st.path_root st.root_dir ≡ some root
    → safe_path st rel ≡ ok path
    → IsInside root path
unfolding safe_path
safe_path-IsInside st rel root path k c r e =
    resolve_under_root-IsInside st.fs st.path_root st.root_dir rel root path k c r e

pub clean_rooted-IsClean : (s : Text) → All IsClean (clean_rooted s)
unfolding clean_rooted
clean_rooted-IsClean s = join_parts-IsClean [] (split b'/' s) tt
