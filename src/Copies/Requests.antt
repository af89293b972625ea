-- ===== src/Copies/Requests.antt =====
-- `handleCopy` and `handleDuplicate` of copy.go: the checks on a request, and the copy.
use dingbap.Files.Changes.{FileReply, rejects, accepts}
use dingbap.Web.{Request, has_method}
use dingbap.Files.Changes.{FileReply, rejects}
use dingbap.Paths.Names.{is_trash_path}
use dingbap.Text.{Text, trim, codes, trim_slashes}
use dingbap.Cache.{ListingCache, invalidate}
use dingbap.Copies.{unique_copy_name, Text, append_part, FileSystem, Stat, codes}
use dingbap.Paths.{
  FilePath, Lstat, rel_parts, safe_path, Storage, path_eq, append_part, drop_last, FileSystem,
  climbs, Stat,
}
use dingbap.Base.{◌&&◌, ◌||◌, if◌then◌else◌, inl, inr, none, some, Bool, Option, ℕ, not, is_empty}
use dingbap.Files.{Plan, path_base, is_dir}
use dingbap.Copies.Trees.{Tree, unreadable, Copied, copy_path}
use dingbap.Paths

-- What is copied where, and the name of the copy.
pub record Copying : Type 0 where
  pub from : FilePath
  pub to : FilePath
  pub name : Text

-- `os.Lstat` of the source: it must be there, and be no link.
unfoldable pub if_plain {ℓ} : {A : Type ℓ} → Lstat → Plan A → Plan A
if_plain Paths.missing p = inr 404
if_plain Paths.failed p = inr 404
if_plain Paths.symlink p = inr 400
if_plain Paths.plain p = p

abbrev pub copying_to : FilePath → FilePath → Text → Copying
copying_to src_abs dest_abs name = record {
  from = src_abs;
  to = append_part dest_abs name;
  name = name;
}

-- The name in the destination, where it is free; another one where it is taken.
unfoldable pub copy_named : FileSystem → ℕ → FilePath → FilePath → Text → Stat → Plan Copying
unfolding unique_copy_name append_part
copy_named fs nanos src_abs dest_abs name Paths.absent = inl (copying_to src_abs dest_abs name)
copy_named fs nanos src_abs dest_abs name Paths.broken = inr 500
copy_named fs nanos src_abs dest_abs name Paths.folder =
    inl (copying_to src_abs dest_abs (unique_copy_name fs nanos dest_abs name))
copy_named fs nanos src_abs dest_abs name (Paths.file n) =
    inl (copying_to src_abs dest_abs (unique_copy_name fs nanos dest_abs name))

-- `handleCopy` after the paths.
unfoldable pub copy_into : Storage → ℕ → FilePath → FilePath → Plan Copying
unfolding if_plain rel_parts path_base path_eq append_part copy_named
copy_into st nanos src_abs dest_abs =
    let name = path_base src_abs in
    let new_abs = append_part dest_abs name in
    if_plain (st.fs.lstat src_abs) (
      if is_dir (st.fs.stat src_abs) && not (climbs (rel_parts src_abs dest_abs))
      then inr 400
      else if path_eq src_abs new_abs
      then inr 400
      else copy_named st.fs nanos src_abs dest_abs name (st.fs.stat new_abs))

unfoldable pub plan_copy : Storage → ℕ → Text → Text → Plan Copying
unfolding safe_path is_trash_path copy_into
plan_copy st nanos path dest_dir =
    if is_trash_path path || is_trash_path dest_dir then inr 400 else elim (safe_path st path) [
      | Paths.err e ↦ inr 400
      | Paths.ok src_abs ↦ elim (safe_path st dest_dir) [
        | Paths.err e ↦ inr 400
        | Paths.ok dest_abs ↦
            if is_dir (st.fs.stat dest_abs) then copy_into st nanos src_abs dest_abs else inr 400
      ]
    ]

-- A duplicate stands beside the source.
unfoldable pub duplicate_of : Storage → ℕ → FilePath → Plan Copying
unfolding if_plain path_base unique_copy_name append_part
duplicate_of st nanos src_abs =
    let parent = drop_last src_abs in
    if_plain (st.fs.lstat src_abs)
      (inl (copying_to src_abs parent (unique_copy_name st.fs nanos parent (path_base src_abs))))

unfoldable pub plan_duplicate : Storage → ℕ → Text → Plan Copying
unfolding safe_path is_trash_path trim duplicate_of
plan_duplicate st nanos path =
    if is_trash_path path || is_empty (trim_slashes path)
    then inr 400
    else elim (safe_path st path) [
      | Paths.err e ↦ inr 400
      | Paths.ok src_abs ↦ duplicate_of st nanos src_abs
    ]

-- What the operating system answers while a tree is copied: whether the calls succeed, what a copy that
-- fails has written, and whether `os.RemoveAll` removes it.
pub record CopyAnswers : Type 0 where
  pub did : Bool
  pub partial : Tree
  pub removed : Bool

-- The cache of listings, what was made and stays, and the reply.
pub record CopyHandled {ℓ} (A : Type ℓ) : Type ℓ where
  pub cache : ListingCache A
  pub copies : Option (FilePath × Tree)
  pub reply : FileReply

-- The tree at the source of a plan.
abbrev pub source_tree : (FilePath → Tree) → Plan Copying → Tree
source_tree tree (inr code) = unreadable
source_tree tree (inl q) = tree q.from

module _ {ℓ} {A : Type ℓ} where
  abbrev pub not_copied : ℕ → ListingCache A → CopyHandled A
  not_copied code c = record { cache = c; copies = none; reply = rejects code }

  -- A copy that fails is removed again, where `os.RemoveAll` does so.
  abbrev pub failed_copy : CopyAnswers → Copying → ListingCache A → CopyHandled A
  failed_copy os q c = record {
    cache = c;
    copies = if os.removed then none else some (q.to, os.partial);
    reply = rejects 500;
  }

  abbrev pub copied_as :
      CopyAnswers → Copying → Option (Tree × Copied) → ListingCache A → CopyHandled A
  copied_as os q none c = failed_copy os q c
  copied_as os q (some (t, n)) c = record {
    cache = invalidate c;
    copies = some (q.to, t);
    reply = accepts q.name;
  }

  -- `tree` is what stands at the source.
  unfoldable pub copy_to : CopyAnswers → Tree → Plan Copying → ListingCache A → CopyHandled A
  unfolding copy_path invalidate
  copy_to os tree (inr code) c = not_copied code c
  copy_to os tree (inl q) c =
      if os.did
      then copied_as os q (copy_path tree (record { files = 0; bytes = 0 })) c
      else failed_copy os q c

  unfoldable pub handle_copy :
      Storage
      → ℕ
      → CopyAnswers
      → (FilePath → Tree)
      → Request
      → Option (Text × Text)
      → ListingCache A
      → CopyHandled A
  unfolding plan_copy copy_to
  handle_copy st nanos os tree r body c =
      if not (has_method (codes "POST") r) then not_copied 405 c else elim body [
        | none ↦ not_copied 400 c
        | some b ↦
            let plan = plan_copy st nanos b.0 b.1 in copy_to os (source_tree tree plan) plan c
      ]

  unfoldable pub handle_duplicate :
      Storage
      → ℕ
      → CopyAnswers
      → (FilePath → Tree)
      → Request
      → Option Text
      → ListingCache A
      → CopyHandled A
  unfolding plan_duplicate copy_to
  handle_duplicate st nanos os tree r body c =
      if not (has_method (codes "POST") r) then not_copied 405 c else elim body [
        | none ↦ not_copied 400 c
        | some path ↦
            let plan = plan_duplicate st nanos path in copy_to os (source_tree tree plan) plan c
      ]
