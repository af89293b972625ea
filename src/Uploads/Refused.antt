-- ===== src/Uploads/Refused.antt =====
-- A call that fails leaves the session for another try.
use dingbap.Uploads.Sent.{acquired_complete}
use dingbap.Uploads.Whole.{acquire_active, acquired_write}
use dingbap.Table.{lookup}
use dingbap.Shares.{valid_share_token}
use dingbap.Text.{Text}
use dingbap.Uploads.Chunks.{
  copy_chunk, write_locked, end_session, complete_locked, Completed, failed, made, complete_at,
  expected_size, write_chunk, complete,
}
use dingbap.Paths.{Storage}
use dingbap.Base.{
  ◌≡◌, inl, inr, some, true, false, Option, ℕ, refl, arith, sym, subst, ℤ, negsuc, pos,
  Option-cases,
}
use dingbap.Uploads.{
  ActiveUpload, UploadManager, Answers, Text, UploadError, valid_share_token, lookup, chunks_of,
  is_over,
}

copy_chunk_refused :
    (id : Text) (a : ActiveUpload) (i expected : ℕ) (chunk : Text) (os : Answers)
    (um : UploadManager) (x : UploadError)
    → (copy_chunk id a i expected chunk os um).1 ≡ some x
    → (copy_chunk id a i expected chunk os um).0 ≡ um
unfolding copy_chunk
copy_chunk_refused id a i expected chunk os um x e = ground arith

write_locked_refused :
    (id : Text) (a : ActiveUpload) (index : ℤ) (chunk : Text) (declared : ℤ) (os : Answers)
    (um : UploadManager) (x : UploadError)
    → (write_locked id a index chunk declared os um).1 ≡ some x
    → (write_locked id a index chunk declared os um).0 ≡ um
unfolding write_locked
write_locked_refused id a (negsuc n) chunk declared os um x e = refl
write_locked_refused id a (pos i) chunk declared os um x e =
    elim (Option-cases (expected_size a.meta i)) [
      | inl n ↦ ground (arith, n)
      | inr (expected, n) ↦ ground (arith, n, copy_chunk_refused id a i expected chunk os um x)
    ]

end_session_refused :
    (id : Text) (os : Answers) (um : UploadManager) (c : Completed) (x : UploadError)
    → (end_session id os um c).1 ≡ failed x
    → (end_session id os um c).0 ≡ um
unfolding end_session
end_session_refused id os um (failed y) x e = refl
end_session_refused id os um (made path bytes) x e = ground arith

complete_locked_refused :
    (st : Storage) (id : Text) (a : ActiveUpload) (os : Answers) (um : UploadManager)
    (x : UploadError)
    → (complete_locked st id a os um).1 ≡ failed x
    → (complete_locked st id a os um).0 ≡ um
unfolding complete_locked
complete_locked_refused st id a os um x e =
    let c = complete_at st a.meta (chunks_of (lookup id um.disk)) os in
    ground (arith, end_session_refused id os um c x)

-- Where a session is in memory and not over, a write of a chunk that is refused or fails, and a
-- completion that is refused or fails, leave the manager and the chunks on the disk as they were:
-- the client can send the chunk or the completion again.
pub refused_lem :
    (st : Storage) (id : Text) (index : ℤ) (chunk : Text) (declared : ℤ) (os : Answers)
    (um : UploadManager) (a : ActiveUpload) (x : UploadError)
    → valid_share_token id ≡ true
    → lookup id um.active ≡ some a
    → is_over os.at a.meta ≡ false
    → ((write_chunk id index chunk declared os um).1 ≡ some x
        → (write_chunk id index chunk declared os um).0 ≡ um)
      × ((complete st id os um).1 ≡ failed x → (complete st id os um).0 ≡ um)
refused_lem st id index chunk declared os um a x v e o =
    let found = acquire_active id os um a v e o in
    let w = acquired_write id index chunk declared os um a found in
    let c = acquired_complete st id os um a found in
    (
      subst (λ (r : UploadManager × Option UploadError). r.1 ≡ some x → r.0 ≡ um) (sym w)
          (write_locked_refused id a index chunk declared os um x),
      subst (λ (r : UploadManager × Completed). r.1 ≡ failed x → r.0 ≡ um) (sym c)
          (complete_locked_refused st id a os um x),
    )
