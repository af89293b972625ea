-- ===== src/Uploads/Made.antt =====
-- What a finished upload makes, and what a failed call leaves.
use dingbap.Table.{lookup}
use dingbap.Paths.Confinement.{ResolvesClean, IsClean, IsInside, safe_path-IsInside}
use dingbap.Uploads.Start.{is_folder}
use dingbap.Paths.Names.{path_join}
use dingbap.Text.{Text}
use dingbap.Uploads.Chunks.{
  write_final, complete_at, made, assemble, complete_into, Completed, complete_locked, complete,
  failed, end_session,
}
use dingbap.Paths.{
  PathResult, FilePath, Storage, ok, PathError, err, safe_path, absent, failed, folder,
  invalid_path, Stat, real_root,
}
use dingbap.Base.{
  ◌∷◌, [], ◌≡◌, ◌⊎◌, inl, inr, Option, ℕ, refl, arith, length, Option-cases, ==_iff, ◌∙◌, some,
  true, false, sym, ap, Bool-cases, All, Sum-cases,
}
use dingbap.Uploads.{
  UploadMeta, ActiveUpload, UploadManager, Answers, Text, not_directory, invalid_destination,
  UploadError, invalid_path, chunks_of, lookup, acquire,
}
use dingbap.Paths

write_final_made :
    (m : UploadMeta) (path final : FilePath) (chunks : ℕ → Option Text) (os : Answers)
    (bytes : Text)
    → write_final m final chunks os ≡ made path bytes
    → (final ≡ path) × (length bytes ≡ m.size)
unfolding write_final
write_final_made m path final chunks os bytes e =
    elim (Option-cases (assemble m.total_chunks 0 chunks)) [
      | inl n ↦ ground (arith, n)
      | inr (text, t) ↦ ground (arith, t, ==_iff (length text) m.size)
    ]

path_cases : (r : PathResult) → ((p : FilePath) × (r ≡ ok p)) ⊎ ((x : PathError) × (r ≡ err x))
path_cases (Paths.ok p) = inl (p, refl)
path_cases (Paths.err x) = inr (x, refl)

module _ (st : Storage) (m : UploadMeta) (chunks : ℕ → Option Text) (os : Answers) where
  no_folder_path :
      (x : PathError)
      → safe_path st m.path ≡ err x
      → complete_at st m chunks os ≡ failed invalid_path
  unfolding complete_at
  no_folder_path x k = rw (k, complete_at) refl

  no_folder :
      (dir : FilePath)
      → safe_path st m.path ≡ ok dir
      → is_folder (st.fs.stat dir) ≡ false
      → complete_at st m chunks os ≡ failed not_directory
  unfolding complete_at
  no_folder dir k f = rw (k, complete_at, f) refl

  no_final_path :
      (dir : FilePath) (x : PathError)
      → safe_path st m.path ≡ ok dir
      → is_folder (st.fs.stat dir) ≡ true
      → safe_path st (path_join (m.path ∷ m.name ∷ [])) ≡ err x
      → complete_at st m chunks os ≡ failed invalid_destination
  unfolding complete_at
  no_final_path dir x k f e = rw (k, complete_at, f, e) refl

  final_path :
      (dir final : FilePath)
      → safe_path st m.path ≡ ok dir
      → is_folder (st.fs.stat dir) ≡ true
      → safe_path st (path_join (m.path ∷ m.name ∷ [])) ≡ ok final
      → complete_at st m chunks os ≡ complete_into (st.fs.stat final) m final chunks os
  unfolding complete_at
  final_path dir final k f e = rw (k, complete_at, f, e) refl

complete_into_made :
    (found : Stat) (m : UploadMeta) (path final : FilePath) (chunks : ℕ → Option Text)
    (os : Answers) (bytes : Text)
    → complete_into found m final chunks os ≡ made path bytes
    → (found ≡ absent) × (final ≡ path) × (length bytes ≡ m.size)
unfolding complete_into
complete_into_made Paths.absent m path final chunks os bytes e =
    let (p, l) = write_final_made m path final chunks os bytes e in (refl, p, l)
complete_into_made Paths.broken m path final chunks os bytes e = ground arith
complete_into_made Paths.folder m path final chunks os bytes e = ground arith
complete_into_made (Paths.file n) m path final chunks os bytes e = ground arith

not_made {κ} :
    {P : Type κ} (c : Completed) (x : UploadError) (path : FilePath) (bytes : Text)
    → c ≡ failed x
    → c ≡ made path bytes
    → P
not_made c x path bytes k e = ground (arith, k, e)

complete_at_made :
    (st : Storage) (m : UploadMeta) (chunks : ℕ → Option Text) (os : Answers) (path : FilePath)
    (bytes : Text)
    → complete_at st m chunks os ≡ made path bytes
    → (safe_path st (path_join (m.path ∷ m.name ∷ [])) ≡ ok path)
      × (st.fs.stat path ≡ absent)
      × (length bytes ≡ m.size)
complete_at_made st m chunks os path bytes e =
    let c = complete_at st m chunks os in
    elim (path_cases (safe_path st m.path)) [
      | inr (x, k) ↦ not_made c _ path bytes (no_folder_path st m chunks os x k) e
      | inl (dir, k) ↦ elim (Bool-cases (is_folder (st.fs.stat dir))) [
        | inr f ↦ not_made c _ path bytes (no_folder st m chunks os dir k f) e
        | inl f ↦ elim (path_cases (safe_path st (path_join (m.path ∷ m.name ∷ [])))) [
          | inr (x, q) ↦ not_made c _ path bytes (no_final_path st m chunks os dir x k f q) e
          | inl (final, q) ↦
              let into = sym (final_path st m chunks os dir final k f q) ∙ e in
              let (free, same, l) =
                complete_into_made (st.fs.stat final) m path final chunks os bytes into in
              (q ∙ ap ok same, sym (ap st.fs.stat same) ∙ free, l)
        ]
      ]
    ]

made-end_session :
    (id : Text) (os : Answers) (um : UploadManager) (c : Completed) → (end_session id os um c).1 ≡ c
unfolding end_session
made-end_session id os um (failed x) = refl
made-end_session id os um (made path bytes) = refl

locked_made :
    (st : Storage) (id : Text) (a : ActiveUpload) (os : Answers) (um : UploadManager)
    (path : FilePath) (bytes : Text)
    → (complete_locked st id a os um).1 ≡ made path bytes
    → complete_at st a.meta (chunks_of (lookup id um.disk)) os ≡ made path bytes
unfolding complete_locked
locked_made st id a os um path bytes e =
    let c = complete_at st a.meta (chunks_of (lookup id um.disk)) os in
    ground (arith, made-end_session id os um c)

-- Let the root and the targets of links be clean paths. Where `complete` makes a file, no entry of its path was there, its length is the declared size,
-- and it lies under the root of the storage with no hidden segment in between.
pub complete-IsInside :
    (st : Storage) (id : Text) (os : Answers) (um : UploadManager) (root path : FilePath)
    (bytes : Text)
    → ResolvesClean st.fs
    → All IsClean root
    → real_root st.fs st.path_root st.root_dir ≡ some root
    → (complete st id os um).1 ≡ made path bytes
    → (st.fs.stat path ≡ absent)
      × IsInside root path
      × (a : ActiveUpload) × ((acquire id os um).1 ≡ inl a)
      × (length bytes ≡ a.meta.size)
unfolding complete
complete-IsInside st id os um root path bytes c r q e = elim (Sum-cases (acquire id os um).1) [
  | inr (x, k) ↦ ground (arith, k)
  | inl (a, k) ↦
      let um' = (acquire id os um).0 in
      let locked : (complete_locked st id a os um').1 ≡ made path bytes = ground (arith, k) in
      let (p, free, l) =
        complete_at_made st a.meta (chunks_of (lookup id um'.disk)) os path bytes
          (locked_made st id a os um' path bytes locked) in
      (free, safe_path-IsInside st _ root path c r q p, a, k, l)
]
