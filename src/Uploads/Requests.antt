-- ===== src/Uploads/Requests.antt =====
-- The handlers of upload requests (upload.go), on the decoded body, with the cache of listings.
use dingbap.Uploads
use dingbap.Web.{Request, has_method}
use dingbap.Table.{lookup}
use dingbap.Paths.{FilePath, Storage, failed}
use dingbap.Cache.{invalidate, ListingCache}
use dingbap.Text.{Text, codes}
use dingbap.Uploads.Chunks.{status, write_chunk, complete, abort, Completed, failed, made}
use dingbap.Uploads.Start.{init}
use dingbap.Sessions.{Session}
use dingbap.Base.{
  [], ◌||◌, ◌⊎◌, if◌then◌else◌, inl, inr, none, some, List, Option, ℕ, not, ℤ, negsuc, length,
  is_empty,
}
use dingbap.Uploads.{
  UploadMeta, UploadManager, UploadError, Answers, Text, received_list, acquire, FilePath, lookup,
}

pub data UploadReply : Type 0 where
  method_not_allowed bad_body bad_index session_gone bad_form no_part : UploadReply
  refused : ℕ → UploadError → UploadReply
  opened : UploadMeta → List ℕ → UploadReply
  written : ℤ → ℕ → ℕ → UploadReply
  uploaded : FilePath → Text → UploadReply
  upload_aborted : UploadReply

-- The name in the session of the request's context.
abbrev pub session_name : Option Session → Text
session_name none = []
session_name (some s) = s.username

-- The status codes of `handleUploadInit` and `handleUploadComplete`.
abbrev pub init_status : UploadError → ℕ
init_status Uploads.already_exists = 409
init_status Uploads.too_large = 413
init_status e = 400

abbrev pub complete_status : UploadError → ℕ
complete_status Uploads.already_exists = 409
complete_status e = 400

abbrev pub init_reply : UploadMeta ⊎ UploadError → UploadReply
init_reply (inl m) = opened m []
init_reply (inr e) = refused (init_status e) e

unfoldable pub handle_upload_init :
    Storage
    → ℕ
    → Request
    → Option Session
    → Option (Text × Text × ℤ × ℤ)
    → Answers
    → UploadManager
    → UploadManager × UploadReply
unfolding init
handle_upload_init st max_bytes r own body os um =
    if not (has_method (codes "POST") r) then (um, method_not_allowed) else elim body [
      | none ↦ (um, bad_body)
      | some b ↦
          let (um', reply) = init st max_bytes b.0 b.1 b.2 b.3 (session_name own) os um in
          (um', init_reply reply)
    ]

abbrev pub status_reply : (UploadMeta × List ℕ) ⊎ UploadError → UploadReply
status_reply (inl (m, received)) = opened m received
status_reply (inr e) = session_gone

unfoldable pub handle_upload_status : Text → Answers → UploadManager → UploadManager × UploadReply
unfolding status
handle_upload_status id os um = let (um', found) = status id os um in (um', status_reply found)

-- What a request for a chunk carries: the body with the length that its header declares, if one can
-- be read, or a form.
pub data ChunkBody : Type 0 where
  raw : Text → Option ℤ → ChunkBody
  broken_form form_without_part : ChunkBody
  part : Text → ChunkBody

abbrev pub undeclared : ℤ
undeclared = negsuc 0

abbrev pub declared_or : Option ℤ → ℤ
declared_or none = undeclared
declared_or (some n) = n

abbrev pub received_count : Text → UploadManager → ℕ
received_count id um = elim (lookup id um.active) [ none ↦ 0 | some a ↦ length (received_list a) ]

unfoldable pub chunk_reply :
    Text → ℤ → ℕ → UploadManager × Option UploadError → UploadManager × UploadReply
unfolding received_list lookup
chunk_reply id index total (um, none) = (um, written index (received_count id um) total)
chunk_reply id index total (um, some e) = (um, refused 400 e)

unfoldable pub write_body :
    Text → ℤ → UploadMeta → ChunkBody → Answers → UploadManager → UploadManager × UploadReply
unfolding write_chunk chunk_reply
write_body id index m broken_form os um = (um, bad_form)
write_body id index m form_without_part os um = (um, no_part)
write_body id index m (part bytes) os um =
    chunk_reply id index m.total_chunks (write_chunk id index bytes undeclared os um)
write_body id index m (raw bytes length_header) os um =
    chunk_reply id index m.total_chunks
      (write_chunk id index bytes (declared_or length_header) os um)

-- The token and the index come from the query, or from a header where the query has none.
unfoldable pub handle_upload_chunk :
    Request
    → Text
    → Text
    → Option ℤ
    → ChunkBody
    → Answers
    → UploadManager
    → UploadManager × UploadReply
unfolding acquire write_body
handle_upload_chunk r query_id header_id index body os um =
    let id = if is_empty query_id then header_id else query_id in
    let (um', found) = acquire id os um in
    if not (has_method (codes "PUT") r || has_method (codes "POST") r)
    then (um, method_not_allowed)
    else elim index [
      | none ↦ (um, bad_index)
      | some i ↦ elim found [
        | inr e ↦ (um', session_gone)
        | inl a ↦ write_body id i a.meta body os um'
      ]
    ]

-- The cache of listings is emptied after a file is made.
module _ {ℓ} {A : Type ℓ} where
  unfoldable pub complete_reply :
      UploadManager × Completed → ListingCache A → UploadManager × ListingCache A × UploadReply
  unfolding invalidate
  complete_reply (um, failed e) c = (um, c, refused (complete_status e) e)
  complete_reply (um, made path bytes) c = (um, invalidate c, uploaded path bytes)

  unfoldable pub handle_upload_complete :
      Storage
      → Request
      → Option Text
      → Answers
      → UploadManager
      → ListingCache A
      → UploadManager × ListingCache A × UploadReply
  unfolding complete complete_reply
  handle_upload_complete st r body os um c =
      if not (has_method (codes "POST") r) then (um, c, method_not_allowed) else elim body [
        | none ↦ (um, c, bad_body)
        | some id ↦ complete_reply (complete st id os um) c
      ]

abbrev pub abort_reply : UploadManager × Option UploadError → UploadManager × UploadReply
abort_reply (um, none) = (um, upload_aborted)
abort_reply (um, some e) = (um, refused 404 e)

unfoldable pub handle_upload_abort :
    Request → Option Text → Answers → UploadManager → UploadManager × UploadReply
unfolding abort
handle_upload_abort r body os um =
    if not (has_method (codes "POST") r)
    then (um, method_not_allowed)
    else elim body [ none ↦ (um, bad_body) | some id ↦ abort_reply (abort id os um) ]
