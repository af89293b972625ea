-- ===== src/Uploads/Sent.antt =====
-- An upload from its start to the file.
use dingbap.Uploads.Indices.{length_of_all}
use dingbap.Uploads.Opened.{init-IsOpened}
use dingbap.Uploads.Start.{init}
use dingbap.Table.{lookup}
use dingbap.Paths.Names.{path_join}
use dingbap.Uploads.Kept.{IsFresh, init-IsGood}
use dingbap.Shares.{valid_share_token}
use dingbap.Uploads.Tracks.{IsGood}
use dingbap.Uploads.Slices.{IsSized, slice, assemble-slice, take_all}
use dingbap.Uploads.Whole.{
  is_fine, IsPartOf, on_disk, InTime, any_fine, write_each, write_each_lem, acquire_active,
}
use dingbap.Text.{Text}
use dingbap.Paths.{Storage, FilePath, safe_path, ok, folder, absent}
use dingbap.Uploads.Chunks.{
  write_final, complete_at, complete_locked, complete, end_session, assemble, made, Completed,
  complete_into,
}
use dingbap.Base.{
  ◌∷◌, [], ◌+◌, ◌*◌, ◌<◌, ◌≡◌, ◌∙◌, inl, some, true, false, List, Option, ℕ, refl, arith, sym, ap,
  ℤ, length, pos, some_of_is_some, take, drop, is_some,
}
use dingbap.Uploads.{
  UploadMeta, Text, Answers, ActiveUpload, UploadManager, acquire, chunks_of, valid_share_token,
  lookup, is_over,
}

write_final_lem :
    (m : UploadMeta) (bytes : Text) (path : FilePath) (chunks : ℕ → Option Text) (os : Answers)
    → is_fine os ≡ true
    → length bytes ≡ m.size
    → assemble m.total_chunks 0 chunks ≡ some bytes
    → write_final m path chunks os ≡ made path bytes
unfolding write_final
write_final_lem m bytes path chunks os f l e = ground (arith, e, l)

complete_at_lem :
    (st : Storage) (m : UploadMeta) (dir final : FilePath) (chunks : ℕ → Option Text) (os : Answers)
    → safe_path st m.path ≡ ok dir
    → st.fs.stat dir ≡ folder
    → safe_path st (path_join (m.path ∷ m.name ∷ [])) ≡ ok final
    → st.fs.stat final ≡ absent
    → complete_at st m chunks os ≡ write_final m final chunks os
unfolding complete_at complete_into
complete_at_lem st m dir final chunks os a b c d = rw (a, complete_at, b, c, d) refl

complete_locked_lem :
    (st : Storage) (id : Text) (a : ActiveUpload) (os : Answers) (um : UploadManager)
    (path : FilePath) (bytes : Text)
    → a.aborted ≡ false
    → length a.received ≡ a.meta.total_chunks
    → complete_at st a.meta (chunks_of (lookup id um.disk)) os ≡ made path bytes
    → (complete_locked st id a os um).1 ≡ made path bytes
unfolding complete_locked end_session
complete_locked_lem st id a os um path bytes u l e = rw (u, e) (ground (arith, l))

pub acquired_complete :
    (st : Storage) (id : Text) (os : Answers) (um : UploadManager) (a : ActiveUpload)
    → acquire id os um ≡ (um, inl a)
    → complete st id os um ≡ complete_locked st id a os um
unfolding complete
acquired_complete st id os um a e = ground (arith, e)

-- With every chunk of the text on the disk, `complete` makes the file.
pub complete_whole :
    (st : Storage) (m : UploadMeta) (bytes : Text) (os : Answers) (um : UploadManager)
    (dir final : FilePath)
    → IsSized m
    → length bytes ≡ m.size
    → valid_share_token m.id ≡ true
    → IsGood um
    → IsPartOf m bytes um
    → ((j : ℕ) → j < m.total_chunks → on_disk j m um ≡ true)
    → is_over os.at m ≡ false
    → is_fine os ≡ true
    → safe_path st m.path ≡ ok dir
    → st.fs.stat dir ≡ folder
    → safe_path st (path_join (m.path ∷ m.name ∷ [])) ≡ ok final
    → st.fs.stat final ≡ absent
    → (complete st m.id os um).1 ≡ made final bytes
complete_whole st m bytes os um dir final z l v g p all o f q1 q2 q3 q4 =
    let (a, e, s) = p.in_memory in
    let (d, here, t) = g.tracked m.id a e in
    let chunks = chunks_of (lookup m.id um.disk) in
    let slices : (j : ℕ) → j < 0 + m.total_chunks → chunks j ≡ some (slice m.chunk_size j bytes) =
      λ j k.
        let (chunk, c) = some_of_is_some (chunks j) (all j (omega (arith, k))) in
        c ∙ ap some (p.slices j chunk c) in
    let total : a.meta.total_chunks ≡ m.total_chunks = ap (λ (n : UploadMeta). n.total_chunks) s in
    let nothing : 0 * m.chunk_size ≡ 0 = omega arith in
    let assembled : assemble m.total_chunks 0 chunks ≡ some bytes =
      assemble-slice m.total_chunks 0 m.chunk_size bytes chunks slices
      ∙ (ap (λ n. some (take (m.total_chunks * m.chunk_size) (drop n bytes))) nothing
          ∙ ap some
              (take_all (m.total_chunks * m.chunk_size) bytes (omega (arith, l, z.holds_all)))) in
    let received : length a.received ≡ a.meta.total_chunks =
      length_of_all a.meta.total_chunks a.received t.once t.below (λ j k.
        t.on_disk j k
        ∙ (sym (ap (λ o. is_some (chunks_of o j)) here) ∙ all j (omega (arith, k, total)))) in
    let file : complete_at st a.meta chunks os ≡ made final bytes =
      ap (λ n. complete_at st n chunks os) s
      ∙ complete_at_lem st m dir final chunks os q1 q2 q3 q4
      ∙ write_final_lem m bytes final chunks os f l assembled in
    ap (λ (r : UploadManager × Completed). r.1)
      (acquired_complete st m.id os um a
        (acquire_active m.id os um a v e (ap (is_over os.at) s ∙ o)))
    ∙ complete_locked_lem st m.id a os um final bytes t.usable received file

-- Let the sessions in memory and on the disk agree at the start, as they do after every history of
-- calls, and let `init` accept an upload of a text's size, with a token that names no directory. Then
-- the client sends the chunks of the text in any order, as often as it likes, and some of the writes
-- fail; all of it within the lifetime of the session. If each chunk is written at least once without a
-- failure, the session is not over when `complete` is called, the destination is then a folder without
-- an entry of the name, and no call of the operating system fails during `complete` (so that there is
-- room on the disk), then `complete` makes the file there, and its content is the text.
pub complete-write_each :
    (st st' : Storage) (max : ℕ) (dest name : Text) (bytes : Text) (chunk : ℤ) (by : Text)
    (os os' : Answers) (um : UploadManager) (m : UploadMeta) (ws : List (ℕ × Answers))
    (dir final : FilePath)
    → IsGood um
    → IsFresh os um
    → (init st max dest name (pos (length bytes)) chunk by os um).1 ≡ inl m
    → valid_share_token m.id ≡ true
    → InTime m ws
    → ((j : ℕ) → j < m.total_chunks → any_fine j ws ≡ true)
    → is_over os'.at m ≡ false
    → is_fine os' ≡ true
    → safe_path st' m.path ≡ ok dir
    → st'.fs.stat dir ≡ folder
    → safe_path st' (path_join (m.path ∷ m.name ∷ [])) ≡ ok final
    → st'.fs.stat final ≡ absent
    → (complete st' m.id os'
        (write_each m bytes ws (init st max dest name (pos (length bytes)) chunk by os um).0)).1
      ≡ made final bytes
complete-write_each st st' max dest name bytes chunk by os os' um m ws dir final g f e v t c o k q1
      q2 q3 q4 =
    let um' = (init st max dest name (pos (length bytes)) chunk by os um).0 in
    let opened = init-IsOpened st max dest name (length bytes) chunk by os um m f e in
    let good = init-IsGood st max dest name (pos (length bytes)) chunk by os um f g in
    let part : IsPartOf m bytes um' = record {
      in_memory = (_, opened.active, refl);
      slices = λ i b h. ground (arith, opened.empty i, h);
    } in
    let l = sym opened.same_size in
    let (good', part', all) = write_each_lem m bytes ws um' opened.sized l v t good part in
    complete_whole st' m bytes os' (write_each m bytes ws um') dir final opened.sized l v good'
      part' (λ j b. all j b (ground (arith, c j b))) o k q1 q2 q3 q4
