-- ===== src/Paths/Names.antt =====
-- Names and relative paths as texts: `filepath.Base`, and the helpers of handlers.go, trash.go and
-- bulk.go that build them.
use dingbap.Base.{
  List, [], ◌∷◌, Bool, Option, keep, not, none, find?, is_empty, map, if◌then◌else◌, some, ◌==◌,
  ◌||◌, ◌++◌, is_some,
}
use dingbap.Text.{
  Text, codes, trim_right, trim, split, join, trim_slashes, trim_left, has_prefix, is_slash,
  text_eq, replace_byte,
}

abbrev last_part : List Text → Text
last_part [] = []
last_part (part ∷ []) = part
last_part (part ∷ part' ∷ parts) = last_part (part' ∷ parts)

-- `filepath.Base(s)`
unfoldable pub base : Text → Text
unfolding trim_right split
base s =
    let stripped = trim_right is_slash s in
    if is_empty s
    then codes "."
    else if is_empty stripped
    then codes "/"
    else last_part (split b'/' stripped)

abbrev joinable : Text → Bool
joinable part = not (is_empty part || text_eq part (codes "."))

unfoldable pub path_join : List Text → Text
unfolding trim keep join
path_join parts = join b'/' (keep joinable (map trim_slashes parts))

-- The text before the last slash; `none` if there is none.
unfoldable pub before_last_slash : Text → Option Text
before_last_slash [] = none
before_last_slash (c ∷ s) = elim (before_last_slash s) [
  | none ↦ if c == b'/' then some [] else none
  | some p ↦ some (c ∷ p)
]

unfoldable pub path_dir : Text → Text
unfolding trim before_last_slash
path_dir p = elim (before_last_slash (trim_slashes p)) [ none ↦ [] | some d ↦ d ]

unfoldable pub sanitize_name : Text → Text
unfolding base keep trim_left
sanitize_name name =
    let plain = keep (λ c. not (c == b'/')) (keep (λ c. not (c == b'\\')) (base name)) in
    let shown = trim_left (λ c. c == b'.') plain in
    if text_eq shown (codes ".") || text_eq shown (codes "..") then [] else shown

abbrev trash_dir_name : Text
trash_dir_name = codes ".trash"

unfoldable pub is_trash_path : Text → Bool
unfolding trim has_prefix
is_trash_path rel =
    let r = trim_slashes rel in
    text_eq r trash_dir_name || has_prefix r (trash_dir_name ++ codes "/")

-- The loop of `uniqueNonEmptyPaths`; `seen` holds the paths kept so far.
unfoldable pub unique_paths : List Text → List Text → List Text
unfolding trim find?
unique_paths seen [] = []
unique_paths seen (path ∷ paths) =
    let p = trim_slashes (replace_byte b'\\' b'/' path) in
    let fresh = p ∷ unique_paths (p ∷ seen) paths in
    let rest = unique_paths seen paths in
    if is_empty p || is_some (find? (text_eq p) seen) then rest else fresh

unfoldable pub unique_non_empty_paths : List Text → List Text
unfolding unique_paths
unique_non_empty_paths paths = unique_paths [] paths
