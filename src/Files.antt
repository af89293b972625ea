-- ===== src/Files.antt =====
-- The handlers that change files (handlers.go): the checks of each on its request, in the file system
-- as it stands then. A plan is what the handler goes on to do, or the status code it answers with.
pub mod Changes
pub mod Bulk
pub mod Served
pub mod Under
pub mod Plans
pub mod Confined
pub mod Deleted
pub mod Requests
pub mod Refused
pub mod Moved
pub mod RenamedRoot
pub mod Inline
pub mod Shown
mod Examples
use dingbap.Paths.Names.{sanitize_name, is_trash_path, path_join, path_dir}
use dingbap.Text.{Text, codes, trim, trim_slashes, text_eq}
use dingbap.Paths.{
  FilePath, Stat, safe_path, rel_parts, append_part, path_eq, Storage, drop_last, climbs,
}
use dingbap.Base.{
  ◌∷◌, [], ◌&&◌, ◌||◌, ◌⊎◌, if◌then◌else◌, inl, inr, none, some, true, false, Bool, Option, ℕ, not,
  is_empty,
}
use dingbap.Paths

abbrev pub Plan {ℓ} : Type ℓ → Type ℓ
Plan A = A ⊎ ℕ

-- `filepath.Base` of a cleaned absolute path.
unfoldable pub path_base : FilePath → Text
path_base [] = codes "/"
path_base (part ∷ []) = part
path_base (part ∷ part' ∷ parts) = path_base (part' ∷ parts)

abbrev pub is_dir : Stat → Bool
is_dir Paths.folder = true
is_dir s = false

-- The target of a change must not exist.
unfoldable pub if_free {ℓ} : {A : Type ℓ} → Stat → A → Plan A
if_free Paths.absent a = inl a
if_free Paths.broken a = inr 500
if_free Paths.folder a = inr 409
if_free (Paths.file n) a = inr 409

-- The path and the name of the new folder.
unfoldable pub plan_mkdir : Storage → Text → Text → Plan (FilePath × Text)
unfolding safe_path sanitize_name is_trash_path path_join append_part if_free
plan_mkdir st path new_name =
    let name = sanitize_name new_name in
    if is_trash_path path || is_trash_path (path_join (path ∷ new_name ∷ []))
    then inr 400
    else elim (safe_path st path) [
      | Paths.err e ↦ inr 400
      | Paths.ok parent ↦
          if is_empty name
          then inr 400
          else if_free (st.fs.stat (append_part parent name)) (append_part parent name, name)
    ]

-- What is renamed, from where to where, and the new path below the root.
pub record Rename : Type 0 where
  pub from : FilePath
  pub to : FilePath
  pub to_rel : Text

-- The source must exist; `code` answers where `os.Stat` fails otherwise.
unfoldable pub if_there {ℓ} : {A : Type ℓ} → Stat → ℕ → Plan A → Plan A
if_there Paths.absent code p = inr 404
if_there Paths.broken code p = inr code
if_there Paths.folder code p = p
if_there (Paths.file n) code p = p

-- `handleRename` after the path of the source; `rel` is the new path below the root.
unfoldable pub rename_from : Storage → FilePath → Text → Text → Plan Rename
unfolding safe_path append_part if_free if_there
rename_from st old_abs name rel =
    let new_abs = append_part (drop_last old_abs) name in
    let r : Rename = record { from = old_abs; to = new_abs; to_rel = rel } in
    if is_empty name then inr 400 else elim (safe_path st rel) [
      | Paths.err e ↦ inr 400
      | Paths.ok checked_path ↦ if_there (st.fs.stat old_abs) 500 (if_free (st.fs.stat new_abs) r)
    ]

unfoldable pub plan_rename : Storage → Text → Text → Plan Rename
unfolding safe_path sanitize_name path_join path_dir rename_from
plan_rename st old_path new_name =
    let name = sanitize_name new_name in
    elim (safe_path st old_path) [
      | Paths.err e ↦ inr 400
      | Paths.ok old_abs ↦ rename_from st old_abs name (path_join (path_dir old_path ∷ name ∷ []))
    ]

-- The part of `handleMove` from the source on, which `handleBulkMove` has too: the destination is the
-- folder that `dest_dir` names.
unfoldable pub plan_into : Storage → Text → FilePath → FilePath → Plan Rename
unfolding rel_parts path_base append_part path_eq path_join if_free if_there trim
plan_into st dest_dir dest_abs src_abs =
    let name = path_base src_abs in
    let new_abs = append_part dest_abs name in
    let r : Rename = record {
      from = src_abs;
      to = new_abs;
      to_rel = path_join (trim_slashes dest_dir ∷ name ∷ []);
    } in
    if_there (st.fs.stat src_abs) 404 (
      if is_dir (st.fs.stat src_abs) && not (climbs (rel_parts src_abs dest_abs))
      then inr 400
      else if path_eq src_abs new_abs
      then inr 400
      else if_free (st.fs.stat new_abs) r)

unfoldable pub plan_move : Storage → Text → Text → Plan Rename
unfolding safe_path is_trash_path plan_into
plan_move st path dest_dir =
    if is_trash_path path || is_trash_path dest_dir then inr 400 else elim (safe_path st path) [
      | Paths.err e ↦ inr 400
      | Paths.ok src_abs ↦ elim (safe_path st dest_dir) [
        | Paths.err e ↦ inr 400
        | Paths.ok dest_abs ↦
            if is_dir (st.fs.stat dest_abs) then plan_into st dest_dir dest_abs src_abs else inr 400
      ]
    ]

-- The path to trash, without the slashes around it.
unfoldable pub plan_delete : Storage → Text → Bool → Text → Plan Text
unfolding safe_path is_trash_path trim path_base text_eq if_there
plan_delete st path confirm confirm_name =
    let rel = trim_slashes path in
    if not confirm || (is_empty rel || is_trash_path rel)
    then inr 400
    else elim (safe_path st path) [
      | Paths.err e ↦ inr 400
      | Paths.ok target ↦ if_there (st.fs.stat target) 500 (
          if is_dir (st.fs.stat target) && not (text_eq confirm_name (path_base target))
          then inr 400
          else inl rel)
    ]

-- The file of the form has a name, or the form has no file.
unfoldable pub plan_upload : Storage → Text → Option Text → Plan (FilePath × Text)
unfolding safe_path sanitize_name is_trash_path append_part if_free
plan_upload st dest_dir file_name =
    if is_trash_path dest_dir then inr 400 else elim (safe_path st dest_dir) [
      | Paths.err e ↦ inr 400
      | Paths.ok target_dir ↦
          if not (is_dir (st.fs.stat target_dir)) then inr 400 else elim file_name [
            | none ↦ inr 400
            | some given ↦
                let name = sanitize_name given in
                let dest = append_part target_dir name in
                if is_empty name then inr 400 else if_free (st.fs.stat dest) (dest, name)
          ]
    ]
