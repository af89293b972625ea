-- ===== src/Uploads/Chunks.antt =====
-- `writeChunk` and `complete` of upload.go.
use dingbap.Uploads.Start.{is_folder}
use dingbap.Paths.Names.{path_join}
use dingbap.Shares.{valid_share_token}
use dingbap.Paths.{FilePath, safe_path, Storage, err, invalid_path, ok, folder, Stat}
use dingbap.Table.{insert, lookup, delete}
use dingbap.Text.{Text}
use dingbap.Base.{
  ◌∷◌, [], ◌++◌, ◌+◌, ◌-◌, ◌*◌, ◌==◌, ◌&&◌, ◌||◌, ◌⊎◌, if◌then◌else◌, inl, inr, none, some, false,
  Bool, List, Option, ℕ, zero, suc, not, ltb, ℤ, negsuc, is_some, pos, length, take,
}
use dingbap.Paths
use dingbap.Uploads.{
  UploadMeta, ActiveUpload, UploadManager, UploadError, Answers, Text, member, insert, lookup,
  acquire, FilePath, delete, valid_share_token, SessionDir, create_failed, remove_dir, drop_active,
  received_list, open_failed, not_found, no_chunk, invalid_id, copy_failed, invalid_index,
  remove_failed, invalid_path, close_failed, invalid_size, missing_chunks, unexpected_size,
  size_mismatch, chunks_of, incomplete, rename_failed, not_directory, invalid_destination,
  check_failed, already_exists,
}

-- The size of a chunk that belongs at an index; `none` if it is negative.
unfoldable pub expected_size : UploadMeta → ℕ → Option ℕ
expected_size m i =
    if i == m.total_chunks - 1
    then (if ltb m.size (i * m.chunk_size) then none else some (m.size - i * m.chunk_size))
    else some m.chunk_size

-- A declared size is checked where it is not negative.
abbrev pub declares_other : ℤ → ℕ → Bool
declares_other (negsuc n) expected = false
declares_other (pos n) expected = not (n == expected)

-- The file of a chunk, and its index in the set.
abbrev pub put_chunk : ℕ → Text → SessionDir → SessionDir
put_chunk i bytes dir = record dir { chunks = λ j. if j == i then some bytes else dir.chunks j }

abbrev pub add_index : ℕ → List ℕ → List ℕ
add_index i received = if member i received then received else i ∷ received

unfoldable pub store_chunk : Text → ActiveUpload → ℕ → Text → UploadManager → UploadManager
unfolding insert lookup
store_chunk id a i bytes um = elim (lookup id um.disk) [
  | none ↦ um
  | some dir ↦ record um {
    active = insert id (record a { received = add_index i a.received }) um.active;
    disk = insert id (put_chunk i bytes dir) um.disk;
  }
]

-- The copy of at most one byte more than the chunk has, and the rename. A file can be opened where
-- the directory of the session exists.
unfoldable pub copy_chunk :
    Text
    → ActiveUpload
    → ℕ
    → ℕ
    → Text
    → Answers
    → UploadManager
    → UploadManager × Option UploadError
unfolding lookup store_chunk
copy_chunk id a i expected bytes os um =
    if not (os.opened && is_some (lookup id um.disk))
    then (um, some open_failed)
    else if not os.copied
    then (um, some copy_failed)
    else if not os.closed
    then (um, some close_failed)
    else if not (length (take (expected + 1) bytes) == expected)
    then (um, some incomplete)
    else if not os.renamed
    then (um, some rename_failed)
    else (store_chunk id a i (take (expected + 1) bytes) um, none)

unfoldable pub write_locked :
    Text
    → ActiveUpload
    → ℤ
    → Text
    → ℤ
    → Answers
    → UploadManager
    → UploadManager × Option UploadError
unfolding expected_size copy_chunk
write_locked id a (negsuc n) bytes declared os um =
    (um, some (if a.aborted then not_found else invalid_index))
write_locked id a (pos i) bytes declared os um =
    if a.aborted
    then (um, some not_found)
    else if not (ltb i a.meta.total_chunks)
    then (um, some invalid_index)
    else elim (expected_size a.meta i) [
      | none ↦ (um, some invalid_size)
      | some expected ↦
          if declares_other declared expected
          then (um, some unexpected_size)
          else copy_chunk id a i expected bytes os um
    ]

unfoldable pub write_chunk :
    Text → ℤ → Text → ℤ → Answers → UploadManager → UploadManager × Option UploadError
unfolding acquire write_locked
write_chunk id index bytes declared os um =
    let (um', found) = acquire id os um in
    elim found [ inr e ↦ (um', some e) | inl a ↦ write_locked id a index bytes declared os um' ]

-- The loop that appends the chunks; `none` if one cannot be opened. The fuel is the number of
-- chunks left.
unfoldable pub assemble : ℕ → ℕ → (ℕ → Option Text) → Option Text
assemble zero i chunks = some []
assemble (suc left) i chunks =
    let rest = assemble left (suc i) chunks in
    elim (chunks i) [
      | none ↦ none
      | some bytes ↦ elim rest [ none ↦ none | some later ↦ some (bytes ++ later) ]
    ]

-- What `complete` does: the file it makes, or why it makes none.
pub data Completed : Type 0 where
  failed : UploadError → Completed
  made : FilePath → Text → Completed

-- The part of `complete` that writes the file. The temporary file goes where a step fails.
unfoldable pub write_final : UploadMeta → FilePath → (ℕ → Option Text) → Answers → Completed
unfolding assemble
write_final m final_abs chunks os =
    if not os.opened then failed create_failed else elim (assemble m.total_chunks 0 chunks) [
      | none ↦ failed no_chunk
      | some bytes ↦
          if not os.copied
          then failed copy_failed
          else if not os.closed
          then failed close_failed
          else if not (length bytes == m.size)
          then failed size_mismatch
          else if os.renamed
          then made final_abs bytes
          else failed rename_failed
    ]

-- The file is written where `os.Stat` finds no entry of its name.
unfoldable pub complete_into :
    Stat → UploadMeta → FilePath → (ℕ → Option Text) → Answers → Completed
unfolding write_final
complete_into Paths.absent m final_abs chunks os = write_final m final_abs chunks os
complete_into Paths.broken m final_abs chunks os = failed check_failed
complete_into Paths.folder m final_abs chunks os = failed already_exists
complete_into (Paths.file n) m final_abs chunks os = failed already_exists

unfoldable pub complete_at : Storage → UploadMeta → (ℕ → Option Text) → Answers → Completed
unfolding safe_path path_join complete_into
complete_at st m chunks os = elim (safe_path st m.path) [
  | Paths.err e ↦ failed invalid_path
  | Paths.ok dest_dir ↦
      if not (is_folder (st.fs.stat dest_dir))
      then failed not_directory
      else elim (safe_path st (path_join (m.path ∷ m.name ∷ []))) [
        | Paths.err e ↦ failed invalid_destination
        | Paths.ok final_abs ↦ complete_into (st.fs.stat final_abs) m final_abs chunks os
      ]
]

-- The session goes where the file is made.
unfoldable pub end_session : Text → Answers → UploadManager → Completed → UploadManager × Completed
unfolding delete
end_session id os um (failed e) = (um, failed e)
end_session id os um (made path bytes) =
    (remove_dir os.removed id (drop_active id um), made path bytes)

unfoldable pub complete_locked :
    Storage → Text → ActiveUpload → Answers → UploadManager → UploadManager × Completed
unfolding lookup complete_at end_session
complete_locked st id a os um =
    if a.aborted
    then (um, failed not_found)
    else if not (length a.received == a.meta.total_chunks)
    then (um, failed missing_chunks)
    else end_session id os um (complete_at st a.meta (chunks_of (lookup id um.disk)) os)

unfoldable pub complete : Storage → Text → Answers → UploadManager → UploadManager × Completed
unfolding acquire complete_locked
complete st id os um =
    let (um', found) = acquire id os um in
    elim found [ inr e ↦ (um', failed e) | inl a ↦ complete_locked st id a os um' ]

unfoldable pub abort : Text → Answers → UploadManager → UploadManager × Option UploadError
unfolding valid_share_token lookup delete
abort id os um =
    let dropped = drop_active id um in
    if not (valid_share_token id)
    then (um, some invalid_id)
    else if not (is_some (lookup id um.active) || is_some (lookup id um.disk))
    then (dropped, some not_found)
    else (remove_dir os.removed id dropped, if os.removed then none else some remove_failed)

unfoldable pub status :
    Text → Answers → UploadManager → UploadManager × ((UploadMeta × List ℕ) ⊎ UploadError)
unfolding acquire received_list
status id os um =
    let (um', found) = acquire id os um in
    elim found [ inr e ↦ (um', inr e) | inl a ↦ (um', inl (a.meta, received_list a)) ]
