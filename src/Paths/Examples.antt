-- ===== src/Paths/Examples.antt =====
-- Resolution in a file system with links to a shown folder, to a hidden one and to one outside.
use dingbap.Paths.Confinement.{ResolvesClean, IsInside, resolve_under_root-IsInside, IsClean}
use dingbap.Paths.Names.{
  sanitize_name, path_join, base, path_dir, is_trash_path, unique_non_empty_paths,
}
use dingbap.Paths.{
  resolve_under_root, FilePath, FileSystem, PathRoot, configure_storage_root, Lstat, missing, ok,
  err, path_eq, plain, folder, hidden, traversal, symlink,
}
use dingbap.Base.{◌≡◌, refl, Option, some, if◌then◌else◌, ◌∷◌, [], none, true, arith, subst, All}
use dingbap.Text.{Text, codes, text_eq, contains_byte}

program : Unit {0}
unfolding resolve_under_root configure_storage_root base path_join path_dir sanitize_name
    is_trash_path unique_non_empty_paths text_eq contains_byte path_eq
program = tt

abbrev root : FilePath
root = codes "srv" ∷ codes "data" ∷ []

abbrev under : Text → FilePath
under name = codes "srv" ∷ codes "data" ∷ name ∷ []

abbrev link_target : FilePath → Option FilePath
link_target path =
    if path_eq path (under (codes "pics"))
    then some (under (codes "albums"))
    else if path_eq path (under (codes "evil"))
    then some (under (codes ".dingbap"))
    else if path_eq path (under (codes "out"))
    then some (codes "etc" ∷ [])
    else none

abbrev lstat_of : Option FilePath → Lstat
lstat_of none = plain
lstat_of (some target) = symlink

abbrev linked : FileSystem
linked = record {
  abs = λ dir. some root;
  eval_symlinks = link_target;
  lstat = λ path. lstat_of (link_target path);
  stat = λ path. folder;
}

abbrev cache : PathRoot
cache = some (root, root)

abbrev bare : FileSystem
bare = record linked { lstat = λ path. missing }

resolve_link :
    resolve_under_root linked cache (codes ".") (codes "pics/a.png")
    ≡ ok (codes "srv" ∷ codes "data" ∷ codes "albums" ∷ codes "a.png" ∷ [])
unfolding program
resolve_link = refl

resolve_hidden_link : resolve_under_root linked cache (codes ".") (codes "/evil") ≡ err hidden
unfolding program
resolve_hidden_link = refl

resolve_outside : resolve_under_root linked cache (codes ".") (codes "out/passwd") ≡ err traversal
unfolding program
resolve_outside = refl

resolve_collapses :
    resolve_under_root bare cache (codes ".") (codes "../..\\a/../b") ≡ ok (under (codes "b"))
unfolding program
resolve_collapses = refl

names :
    (sanitize_name (codes "a/../.b\\c.txt") ≡ codes "bc.txt")
    × (path_join (codes "/a/" ∷ codes "." ∷ codes "b" ∷ []) ≡ codes "a/b")
    × (path_dir (codes "/a/b/c/") ≡ codes "a/b")
    × (is_trash_path (codes "/.trash/x") ≡ true)
    × (unique_non_empty_paths (codes "a" ∷ codes "/a/" ∷ codes "" ∷ codes "b\\c" ∷ [])
        ≡ codes "a" ∷ codes "b/c" ∷ [])
unfolding program
names = (refl, refl, refl, refl, refl)

linked-ResolvesClean : ResolvesClean linked
unfolding program
linked-ResolvesClean path target e = ground (
  arith,
  subst_clean (under (codes "albums")) target ((refl, refl), ((refl, refl), ((refl, refl), tt))),
  subst_clean (under (codes ".dingbap")) target ((refl, refl), ((refl, refl), ((refl, refl), tt))),
  subst_clean (codes "etc" ∷ []) target ((refl, refl), tt),
)
  where
    subst_clean : (p q : FilePath) → All IsClean p → p ≡ q → All IsClean q
    subst_clean p q h e' = subst (All IsClean) e' h

resolve_under_root-IsInside_example :
    IsInside root (codes "srv" ∷ codes "data" ∷ codes "albums" ∷ codes "a.png" ∷ [])
unfolding program
resolve_under_root-IsInside_example =
    resolve_under_root-IsInside linked cache (codes ".") (codes "pics/a.png") root
      (codes "srv" ∷ codes "data" ∷ codes "albums" ∷ codes "a.png" ∷ []) linked-ResolvesClean
      ((refl, refl), ((refl, refl), tt)) refl refl
