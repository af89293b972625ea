-- ===== src/Uploads/Kept.antt =====
-- The calls of clients, one after the other, and what all of them keep.
use dingbap.Uploads.Stored.{new_session-IsGood, store_chunk-IsGood, failed_session-IsGood}
use dingbap.Paths.Names.{path_join, is_trash_path}
use dingbap.Table.{lookup}
use dingbap.Text.{Text, replace_byte, trim_slashes, split, join}
use dingbap.Uploads.Chunks.{
  write_chunk, complete, expected_size, abort, status, copy_chunk, write_locked, end_session,
  complete_locked, Completed, complete_at, failed, made,
}
use dingbap.Uploads.Start.{
  init, open_session, init_at, new_meta, last_of, chosen_chunk_size, open_checked,
  check_destination, any_bad,
}
use dingbap.Paths.{Storage, failed, drop_last}
use dingbap.Base.{
  ◌∷◌, [], ◌<◌, ◌≡◌, none, some, false, List, ℕ, refl, arith, ℤ, length, inl, inr, subst,
  Bool-cases, ==_iff, ◌+◌, Option-cases, negsuc, take, Sum-cases, pos, if◌then◌else◌, is_empty,
  Option, ◌||◌, ltb,
}
use dingbap.Uploads.{
  UploadMeta, ActiveUpload, UploadManager, Answers, Text, lookup, remove_dir, new_upload_manager,
  acquire, drop_active, chunks_of, UploadError,
}
use dingbap.Uploads.Tracks.{
  IsGood, HasTracked, acquire-IsGood, reap_expired-IsGood, drop-IsGood, new_upload_manager-IsGood,
  active-acquire,
}

-- A call with the arguments of its function; `starts` takes the manager's place after a restart.
pub data Call : Type 0 where
  inits : Storage → ℕ → Text → Text → ℤ → ℤ → Text → Answers → Call
  writes : Text → ℤ → Text → ℤ → Answers → Call
  completes : Storage → Text → Answers → Call
  aborts : Text → Answers → Call
  asks : Text → Answers → Call
  starts : Answers → Call

unfoldable pub apply : UploadManager → Call → UploadManager
unfolding init write_chunk complete abort status new_upload_manager
apply um (inits st max dest name size chunk by os) = (init st max dest name size chunk by os um).0
apply um (writes id i bytes declared os) = (write_chunk id i bytes declared os um).0
apply um (completes st id os) = (complete st id os um).0
apply um (aborts id os) = (abort id os um).0
apply um (asks id os) = (status id os um).0
apply um (starts os) = elim (new_upload_manager os um) [ none ↦ um | some um' ↦ um' ]

unfoldable pub run : UploadManager → List Call → UploadManager
run um [] = um
run um (c ∷ cs) = run (apply um c) cs

-- A random token names no directory yet.
abbrev pub IsFresh : Answers → UploadManager → Type 0
IsFresh os um = (id : Text) → os.token ≡ some id → lookup id um.disk ≡ none

abbrev pub CallFresh : UploadManager → Call → Type 0
CallFresh um (inits st max dest name size chunk by os) = IsFresh os um
CallFresh um c = Unit

abbrev pub AllFresh : UploadManager → List Call → Type 0
AllFresh um [] = Unit
AllFresh um (c ∷ cs) = CallFresh um c × AllFresh (apply um c) cs

open_session-IsGood :
    (new : Text → UploadMeta) (os : Answers) (um : UploadManager)
    → ((id : Text) → (new id).id ≡ id)
    → IsFresh os um
    → IsGood um
    → IsGood (open_session new os um).0
unfolding open_session
open_session-IsGood new os um h f g = elim (Option-cases os.token) [
  | inl e ↦ ground (arith, e, g)
  | inr (id, e) ↦
      let fresh = f id e in
      ground (
        arith,
        e,
        g,
        reap_expired-IsGood os _ (new_session-IsGood id (new id) os.at um (h id) fresh g),
        failed_session-IsGood id os.at os.removed um fresh g,
      )
]

open_checked-IsGood :
    (e : Option UploadError) (new : Text → UploadMeta) (os : Answers) (um : UploadManager)
    → ((id : Text) → (new id).id ≡ id)
    → IsFresh os um
    → IsGood um
    → IsGood (open_checked e new os um).0
unfolding open_checked
open_checked-IsGood (some e) new os um h f g = g
open_checked-IsGood none new os um h f g = open_session-IsGood new os um h f g

init_at-IsGood :
    (st : Storage) (max : ℕ) (dest sub name : Text) (size chunk : ℕ) (by : Text) (os : Answers)
    (um : UploadManager)
    → IsFresh os um
    → IsGood um
    → IsGood (init_at st max dest sub name size chunk by os um).0
unfolding init_at new_meta
init_at-IsGood st max dest sub name size chunk by os um f g =
    let trimmed = trim_slashes dest in
    let dest_rel = if is_empty sub then trimmed else path_join (trimmed ∷ sub ∷ []) in
    let new = new_meta dest_rel name size chunk os.at by in
    let opened =
      open_checked-IsGood (check_destination st dest_rel name os) new os um (λ id. refl) f g in
    elim (Bool-cases (ltb max size)) [
      | inl e ↦ rw e g
      | inr e ↦
          elim (Bool-cases
            (is_trash_path dest_rel || is_trash_path (path_join (dest_rel ∷ name ∷ [])))) [
              | inl k ↦ rw (e, k) g
              | inr k ↦ rw (e, k) opened
            ]
    ]

pub init-IsGood :
    (st : Storage) (max : ℕ) (dest name : Text) (size chunk : ℤ) (by : Text) (os : Answers)
    (um : UploadManager)
    → IsFresh os um
    → IsGood um
    → IsGood (init st max dest name size chunk by os um).0
unfolding init
init-IsGood st max dest name (negsuc n) chunk by os um f g =
    let rel = replace_byte b'\\' b'/' (trim_slashes name) in
    elim (Bool-cases (is_empty rel || any_bad (split b'/' rel))) [ inl e ↦ rw e g | inr e ↦ rw e g ]
init-IsGood st max dest name (pos n) chunk by os um f g =
    let rel = replace_byte b'\\' b'/' (trim_slashes name) in
    let parts = split b'/' rel in
    let checked =
      init_at-IsGood st max dest (join b'/' (drop_last parts)) (last_of parts) n
        (chosen_chunk_size chunk) by os um f g in
    elim (Bool-cases (is_empty rel || any_bad parts)) [ inl e ↦ rw e g | inr e ↦ rw e checked ]

copy_chunk-IsGood :
    (id : Text) (a : ActiveUpload) (i expected : ℕ) (bytes : Text) (os : Answers)
    (um : UploadManager)
    → HasTracked um.disk id a
    → i < a.meta.total_chunks
    → expected_size a.meta i ≡ some expected
    → IsGood um
    → IsGood (copy_chunk id a i expected bytes os um).0
unfolding copy_chunk
copy_chunk-IsGood id a i expected bytes os um t l e g =
    let copied = take (expected + 1) bytes in
    ground (arith, g, ==_iff (length copied) expected, store_chunk-IsGood id a i copied um t l)

write_locked-IsGood :
    (id : Text) (a : ActiveUpload) (index : ℤ) (bytes : Text) (declared : ℤ) (os : Answers)
    (um : UploadManager)
    → HasTracked um.disk id a
    → IsGood um
    → IsGood (write_locked id a index bytes declared os um).0
unfolding write_locked
write_locked-IsGood id a (negsuc n) bytes declared os um t g = g
write_locked-IsGood id a (pos i) bytes declared os um t g =
    elim (Option-cases (expected_size a.meta i)) [
      | inl e ↦ ground (arith, e, g)
      | inr (expected, e) ↦ ground (arith, e, g, copy_chunk-IsGood id a i expected bytes os um t)
    ]

pub write_chunk-IsGood :
    (id : Text) (index : ℤ) (bytes : Text) (declared : ℤ) (os : Answers) (um : UploadManager)
    → IsGood um
    → IsGood (write_chunk id index bytes declared os um).0
unfolding write_chunk
write_chunk-IsGood id index bytes declared os um g =
    let um' = (acquire id os um).0 in
    let good = acquire-IsGood id os um g in
    elim (Sum-cases (acquire id os um).1) [
      | inl (a, e) ↦
          let t = good.tracked id a (active-acquire id os um a e) in
          ground (arith, e, write_locked-IsGood id a index bytes declared os um' t good)
      | inr (x, e) ↦ ground (arith, e, good)
    ]

end_session-IsGood :
    (id : Text) (os : Answers) (um : UploadManager) (c : Completed)
    → IsGood um
    → IsGood (end_session id os um c).0
unfolding end_session
end_session-IsGood id os um (failed e) g = g
end_session-IsGood id os um (made path bytes) g = drop-IsGood id os.removed um g

complete-IsGood :
    (st : Storage) (id : Text) (os : Answers) (um : UploadManager)
    → IsGood um
    → IsGood (complete st id os um).0
unfolding complete complete_locked
complete-IsGood st id os um g =
    let um' = (acquire id os um).0 in
    let good = acquire-IsGood id os um g in
    elim (Sum-cases (acquire id os um).1) [
      | inl (a, e) ↦
          let c = complete_at st a.meta (chunks_of (lookup id um'.disk)) os in
          ground (arith, e, good, end_session-IsGood id os um' c good)
      | inr (x, e) ↦ ground (arith, e, good)
    ]

abort-IsGood :
    (id : Text) (os : Answers) (um : UploadManager) → IsGood um → IsGood (abort id os um).0
unfolding abort
abort-IsGood id os um g =
    let same : remove_dir false id (drop_active id um) ≡ drop_active id um = refl in
    let dropped = subst IsGood same (drop-IsGood id false um g) in
    ground (arith, g, dropped, drop-IsGood id os.removed um g)

status-IsGood :
    (id : Text) (os : Answers) (um : UploadManager) → IsGood um → IsGood (status id os um).0
unfolding status
status-IsGood id os um g = ground (arith, acquire-IsGood id os um g)

apply-IsGood : (um : UploadManager) (c : Call) → CallFresh um c → IsGood um → IsGood (apply um c)
unfolding apply
apply-IsGood um (inits st max dest name size chunk by os) f g =
    init-IsGood st max dest name size chunk by os um f g
apply-IsGood um (writes id i bytes declared os) f g = write_chunk-IsGood id i bytes declared os um g
apply-IsGood um (completes st id os) f g = complete-IsGood st id os um g
apply-IsGood um (aborts id os) f g = abort-IsGood id os um g
apply-IsGood um (asks id os) f g = status-IsGood id os um g
apply-IsGood um (starts os) f g = elim (Option-cases (new_upload_manager os um)) [
  | inl e ↦ ground (arith, e, g)
  | inr (um', e) ↦ ground (arith, e, new_upload_manager-IsGood os um um' g e)
]

-- Where the random tokens of new sessions name no directory yet, every sequence of requests and
-- restarts keeps this: each session in memory has its directory with the same description, the set
-- of indices in memory is that of the chunks on the disk, each once and below the number of chunks,
-- and every chunk on the disk has the size that belongs at its index.
pub run-IsGood :
    (um : UploadManager) (cs : List Call) → AllFresh um cs → IsGood um → IsGood (run um cs)
unfolding run
run-IsGood um [] f g = g
run-IsGood um (c ∷ cs) f g = run-IsGood (apply um c) cs f.1 (apply-IsGood um c f.0 g)
