-- ===== src/Uploads/Start.antt =====
-- `init` of upload.go: the checks on the name, the sizes and the destination, and the new session.
use dingbap.Paths.{safe_path, Stat, Storage, err, invalid_path, dot, ok, dot_dot, drop_last}
use dingbap.Table.{insert, delete, lookup}
use dingbap.Text.{Text, trim, has_prefix, split, text_eq, trim_slashes, join, replace_byte}
use dingbap.Paths.Names.{sanitize_name, path_join, is_trash_path}
use dingbap.Base.{
  ◌∷◌, [], ◌+◌, ◌-◌, ◌/◌, ◌==◌, ◌||◌, ◌⊎◌, if◌then◌else◌, inl, inr, none, some, true, false, Bool,
  List, Option, ℕ, zero, suc, not, ℤ, negsuc, is_empty, pos, ltb,
}
use dingbap.Paths
use dingbap.Uploads.{
  UploadMeta, UploadManager, UploadError, Answers, Text, insert, default_chunk_size, reap_expired,
  token_failed, invalid_destination, invalid_path, MetaFile, invalid_filename, max_chunk_size,
  ActiveUpload, mkdir_failed, too_large, holds, not_directory, in_trash, remove_dir, no_file,
  save_failed, check_failed, already_exists, SessionDir, chunks_of,
}

-- The checks on a segment of the name.
unfoldable pub bad_part : Text → Bool
unfolding sanitize_name has_prefix text_eq
bad_part part =
    is_empty part
    || (text_eq part dot
        || (text_eq part dot_dot
            || (has_prefix part dot || not (text_eq (sanitize_name part) part))))

abbrev pub any_bad : List Text → Bool
any_bad [] = false
any_bad (part ∷ parts) = bad_part part || any_bad parts

-- The last segment of the name, and those before it.
abbrev pub last_of : List Text → Text
last_of [] = []
last_of (part ∷ []) = part
last_of (part ∷ part' ∷ parts) = last_of (part' ∷ parts)

unfoldable pub chosen_chunk_size : ℤ → ℕ
chosen_chunk_size (negsuc n) = default_chunk_size
chosen_chunk_size (pos zero) = default_chunk_size
chosen_chunk_size (pos (suc n)) = if ltb max_chunk_size (suc n) then max_chunk_size else suc n

unfoldable pub chunk_count : ℕ → ℕ → ℕ
chunk_count size chunk_size = if size == 0 then 1 else (size + chunk_size - 1) / chunk_size

-- The directory of a token: `os.MkdirAll` keeps what lies there.
unfoldable pub made_dir_of : Text → ℕ → MetaFile → UploadManager → SessionDir
unfolding lookup
made_dir_of id now file um = record {
  meta_file = file;
  chunks = chunks_of (lookup id um.disk);
  mod_time = now;
}

-- The end of `init`: the token, the directory, `meta.json`, the entry in memory, and the sweep.
unfoldable pub open_session :
    (Text → UploadMeta) → Answers → UploadManager → UploadManager × (UploadMeta ⊎ UploadError)
unfolding insert delete reap_expired made_dir_of
open_session new os um = elim os.token [
  | none ↦ (um, inr token_failed)
  | some id ↦
      let m = new id in
      let a : ActiveUpload = record { meta = m; received = []; aborted = false } in
      if not os.made_dir
      then (um, inr mkdir_failed)
      else if os.saved
      then (
        reap_expired os (record um {
          active = insert id a um.active;
          disk = insert id (made_dir_of id os.at (holds m) um) um.disk;
        }),
        inl m,
      )
      else (
        remove_dir os.removed id
            (record um { disk = insert id (made_dir_of id os.at no_file um) um.disk }),
        inr save_failed,
      )
]

-- The checks on the destination in the file system with the folders of the upload made.
unfoldable pub check_final : Storage → Text → Option UploadError
unfolding safe_path
check_final st final_rel = elim (safe_path st final_rel) [
  | Paths.err e ↦ some invalid_destination
  | Paths.ok final_abs ↦ elim (st.fs.stat final_abs) [
    | Paths.absent ↦ none
    | Paths.broken ↦ some check_failed
    | Paths.folder ↦ some already_exists
    | Paths.file n ↦ some already_exists
  ]
]

abbrev pub is_folder : Stat → Bool
is_folder Paths.folder = true
is_folder s = false

unfoldable pub check_destination : Storage → Text → Text → Answers → Option UploadError
unfolding safe_path check_final path_join
check_destination st dest_rel name os = elim (safe_path st dest_rel) [
  | Paths.err e ↦ some invalid_path
  | Paths.ok dest_dir ↦ elim (os.mkdir_all dest_dir) [
    | none ↦ some mkdir_failed
    | some fs ↦
        if is_folder (fs.stat dest_dir)
        then check_final (record st { fs = fs }) (path_join (dest_rel ∷ name ∷ []))
        else some not_directory
  ]
]

unfoldable pub open_checked :
    Option UploadError
    → (Text → UploadMeta)
    → Answers
    → UploadManager
    → UploadManager × (UploadMeta ⊎ UploadError)
unfolding open_session
open_checked (some e) new os um = (um, inr e)
open_checked none new os um = open_session new os um

unfoldable pub new_meta : Text → Text → ℕ → ℕ → ℕ → Text → Text → UploadMeta
unfolding chunk_count
new_meta path name size chunk_size now created_by id = record {
  id = id;
  path = path;
  name = name;
  size = size;
  chunk_size = chunk_size;
  total_chunks = chunk_count size chunk_size;
  created_at = now;
  created_by = created_by;
}

-- `init` after the checks on the name, for its folders and its last segment.
unfoldable pub init_at :
    Storage
    → ℕ
    → Text
    → Text
    → Text
    → ℕ
    → ℕ
    → Text
    → Answers
    → UploadManager
    → UploadManager × (UploadMeta ⊎ UploadError)
unfolding path_join is_trash_path check_destination new_meta open_checked trim
init_at st max_bytes dest_path sub_dir name size chunk_size created_by os um =
    let trimmed = trim_slashes dest_path in
    let dest_rel = if is_empty sub_dir then trimmed else path_join (trimmed ∷ sub_dir ∷ []) in
    let new = new_meta dest_rel name size chunk_size os.at created_by in
    if ltb max_bytes size
    then (um, inr too_large)
    else if is_trash_path dest_rel || is_trash_path (path_join (dest_rel ∷ name ∷ []))
    then (um, inr in_trash)
    else open_checked (check_destination st dest_rel name os) new os um

unfoldable pub init :
    Storage
    → ℕ
    → Text
    → Text
    → ℤ
    → ℤ
    → Text
    → Answers
    → UploadManager
    → UploadManager × (UploadMeta ⊎ UploadError)
unfolding trim split join bad_part init_at chosen_chunk_size
init st max_bytes dest_path name size chunk_size created_by os um =
    let rel = replace_byte b'\\' b'/' (trim_slashes name) in
    let parts = split b'/' rel in
    if is_empty rel || any_bad parts then (um, inr invalid_filename) else elim size [
      | negsuc n ↦ (um, inr too_large)
      | pos n ↦
          init_at st max_bytes dest_path (join b'/' (drop_last parts)) (last_of parts) n
            (chosen_chunk_size chunk_size) created_by os um
    ]
