-- ===== src/Copies/Trees.antt =====
-- `copyPath`, `copyDir` and `copyFile` of copy.go on a tree of files.
use dingbap.Paths.{dot}
use dingbap.Text.{Text, has_prefix}
use dingbap.Base.{
  ◌+◌, ◌*◌, ◌^◌, ◌||◌, if◌then◌else◌, none, some, true, false, Bool, Option, ℕ, leb, ltb, length,
}

abbrev pub copy_max_files : ℕ
copy_max_files = 5000

-- 4 GiB
abbrev pub copy_max_bytes : ℕ
copy_max_bytes = 4 * 2 ^ 30

-- A file with its bytes, a folder, a link, or an entry that cannot be read.
mutual
  pub data Tree : Type 0 where
    file : Text → Tree
    dir : Entries → Tree
    link unreadable : Tree

  pub data Entries : Type 0 where
    done : Entries
    entry : Text → Tree → Entries → Entries

-- The files and the bytes copied so far.
pub record Copied : Type 0 where
  pub files : ℕ
  pub bytes : ℕ

unfoldable pub copy_file : Text → Copied → Option (Tree × Copied)
copy_file content c =
    if leb copy_max_files c.files
    then none
    else if ltb copy_max_bytes (c.bytes + length content)
    then none
    else some (file content, record { files = c.files + 1; bytes = c.bytes + length content })

abbrev pub is_link : Tree → Bool
is_link link = true
is_link t = false

-- Hidden entries and links are left out.
abbrev pub left_out : Text → Tree → Bool
left_out name t = has_prefix name dot || is_link t

abbrev pub as_dir : Option (Entries × Copied) → Option (Tree × Copied)
as_dir none = none
as_dir (some (es, c)) = some (dir es, c)

abbrev pub with_entry : Text → Tree → Option (Entries × Copied) → Option (Entries × Copied)
with_entry name t none = none
with_entry name t (some (es, c)) = some (entry name t es, c)

unfoldable mutual
  unfolding copy_file has_prefix

  pub copy_path : Tree → Copied → Option (Tree × Copied)
  copy_path (file content) c = copy_file content c
  copy_path (dir es) c = as_dir (copy_dir es c)
  copy_path link c = none
  copy_path unreadable c = none

  pub copy_dir : Entries → Copied → Option (Entries × Copied)
  copy_dir done c = some (done, c)
  copy_dir (entry name t es) c = elim (left_out name t) [
    | true ↦ copy_dir es c
    | false ↦ elim (copy_path t c) [
      | none ↦ none
      | some (t', c') ↦ with_entry name t' (copy_dir es c')
    ]
  ]
