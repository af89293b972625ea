-- ===== src/Uploads.antt =====
-- Resumable uploads (upload.go): the sessions in memory, and the directory of each session on the
-- disk. The answers of the operating system are arguments.
pub mod Start
pub mod Chunks
pub mod Requests
pub mod Indices
pub mod Slices
pub mod Tracks
pub mod Stored
pub mod Kept
pub mod Whole
pub mod Opened
pub mod Sent
pub mod Resumed
pub mod Made
pub mod Refused
mod Examples
use dingbap.Shares.{valid_share_token}
use dingbap.Paths.{FilePath, FileSystem}
use dingbap.Table.{Table, delete, lookup, insert}
use dingbap.Text.{Text, text_eq}
use dingbap.Base.{
  Bool, ℕ, Option, ◌∷◌, [], ◌+◌, ◌*◌, ◌^◌, ◌==◌, ◌||◌, ◌⊎◌, if◌then◌else◌, inl, inr, none, some,
  true, false, List, zero, suc, not, ltb, is_some,
}

abbrev pub default_chunk_size : ℕ
default_chunk_size = 2 * 2 ^ 20

abbrev pub max_chunk_size : ℕ
max_chunk_size = 8 * 2 ^ 20

-- 24 hours; the clock counts seconds.
abbrev pub upload_session_ttl : ℕ
upload_session_ttl = 24 * 3600

pub record UploadMeta : Type 0 where
  pub id : Text
  pub path : Text
  pub name : Text
  pub size : ℕ
  pub chunk_size : ℕ
  pub total_chunks : ℕ
  pub created_at : ℕ
  pub created_by : Text

-- `received` is a set: an index stands in it at most once.
pub record ActiveUpload : Type 0 where
  pub meta : UploadMeta
  pub received : List ℕ
  pub aborted : Bool

-- What `meta.json` holds.
pub data MetaFile : Type 0 where
  no_file not_json : MetaFile
  holds : UploadMeta → MetaFile

-- The directory of a session; `chunks` reads the files `chunk_000000`, `chunk_000001` and so on.
pub record SessionDir : Type 0 where
  pub meta_file : MetaFile
  pub chunks : ℕ → Option Text
  pub mod_time : ℕ

pub record UploadManager : Type 0 where
  pub active : Table ActiveUpload
  pub disk : Table SessionDir
  pub reaped : ℕ

pub data UploadError : Type 0 where
  invalid_id not_found unreadable expired invalid_filename too_large in_trash : UploadError
  invalid_path mkdir_failed not_directory invalid_destination already_exists : UploadError
  check_failed token_failed save_failed invalid_index invalid_size unexpected_size : UploadError
  open_failed copy_failed close_failed incomplete rename_failed missing_chunks : UploadError
  create_failed no_chunk size_mismatch remove_failed : UploadError

-- What the operating system answers during a call: `at` is the clock, `token` the random name,
-- `mkdir_all` the file system after `os.MkdirAll`, and the rest say which calls succeed.
pub record Answers : Type 0 where
  pub at : ℕ
  pub token : Option Text
  pub mkdir_all : FilePath → Option FileSystem
  pub made_dir : Bool
  pub saved : Bool
  pub opened : Bool
  pub copied : Bool
  pub closed : Bool
  pub renamed : Bool
  pub removed : Bool
  pub listed : Bool

-- `time.Since(CreatedAt) > uploadSessionTTL`
abbrev pub is_over : ℕ → UploadMeta → Bool
is_over now m = ltb (m.created_at + upload_session_ttl) now

-- `delete(um.active, id)`
abbrev pub drop_active : Text → UploadManager → UploadManager
drop_active id um = record um { active = delete id um.active }

-- `os.RemoveAll` of the directory of a session.
abbrev pub remove_dir : Bool → Text → UploadManager → UploadManager
remove_dir removed id um = record um { disk = if removed then delete id um.disk else um.disk }

abbrev pub meta_found : Text → ℕ → MetaFile → UploadMeta ⊎ UploadError
meta_found id now no_file = inr unreadable
meta_found id now not_json = inr unreadable
meta_found id now (holds m) =
    if not (text_eq m.id id) then inr invalid_id else if is_over now m then inr expired else inl m

unfoldable pub read_meta_disk : Text → ℕ → UploadManager → UploadMeta ⊎ UploadError
unfolding valid_share_token lookup text_eq
read_meta_disk id now um =
    if not (valid_share_token id) then inr invalid_id else elim (lookup id um.disk) [
      | none ↦ inr unreadable
      | some dir ↦ meta_found id now dir.meta_file
    ]

-- The loop over the indices from `i` on that pass a test; the fuel is the number of indices left.
unfoldable pub collect : ℕ → ℕ → (ℕ → Bool) → List ℕ
collect zero i found = []
collect (suc left) i found =
    if found i then i ∷ collect left (suc i) found else collect left (suc i) found

abbrev pub chunks_of : Option SessionDir → ℕ → Option Text
chunks_of none i = none
chunks_of (some dir) i = dir.chunks i

unfoldable pub scan_received_disk : Text → ℕ → UploadManager → List ℕ
unfolding collect lookup
scan_received_disk id total um = collect total 0 (λ i. is_some (chunks_of (lookup id um.disk) i))

abbrev pub is_expired : UploadError → Bool
is_expired expired = true
is_expired e = false

-- The session read from the disk becomes active.
unfoldable pub hydrate :
    Text
    → Answers
    → UploadManager
    → UploadMeta ⊎ UploadError
    → UploadManager × (ActiveUpload ⊎ UploadError)
unfolding insert delete scan_received_disk
hydrate id os um (inl m) =
    let a : ActiveUpload = record {
      meta = m;
      received = scan_received_disk id m.total_chunks um;
      aborted = false;
    } in
    (record um { active = insert id a um.active }, inl a)
hydrate id os um (inr e) = ((if is_expired e then remove_dir os.removed id um else um), inr e)

unfoldable pub acquire :
    Text → Answers → UploadManager → UploadManager × (ActiveUpload ⊎ UploadError)
unfolding valid_share_token lookup delete read_meta_disk hydrate
acquire id os um =
    if not (valid_share_token id) then (um, inr invalid_id) else elim (lookup id um.active) [
      | none ↦ hydrate id os um (read_meta_disk id os.at um)
      | some a ↦
          if is_over os.at a.meta
          then (remove_dir os.removed id (drop_active id um), inr expired)
          else (um, inl a)
    ]

abbrev pub member : ℕ → List ℕ → Bool
member i [] = false
member i (j ∷ js) = i == j || member i js

unfoldable pub received_list : ActiveUpload → List ℕ
unfolding collect
received_list a = collect a.meta.total_chunks 0 (λ i. member i a.received)

-- `now.Sub(ModTime) > uploadSessionTTL` where `meta.json` cannot be read, and the same of the time
-- of creation where it can.
abbrev pub to_reap : ℕ → SessionDir → Bool
to_reap now dir = elim dir.meta_file [
  | no_file ↦ ltb (dir.mod_time + upload_session_ttl) now
  | not_json ↦ false
  | holds m ↦ is_over now m
]

-- The loop over the entries of the directory.
unfoldable pub reap_each : Answers → Table SessionDir → UploadManager → UploadManager
unfolding delete
reap_each os [] um = um
reap_each os ((id, dir) ∷ entries) um =
    let on = reap_each os entries um in
    let swept = reap_each os entries (remove_dir os.removed id (drop_active id um)) in
    if to_reap os.at dir then swept else on

unfoldable pub reap_expired : Answers → UploadManager → UploadManager
unfolding reap_each
reap_expired os um =
    if ltb os.at (um.reaped + 3600)
    then um
    else let um' = record um { reaped = os.at } in
      if os.listed then reap_each os um.disk um' else um'

-- After a start nothing is active. `um` is the manager before.
unfoldable pub new_upload_manager : Answers → UploadManager → Option UploadManager
unfolding reap_expired
new_upload_manager os um =
    if os.made_dir
    then some (reap_expired os (record { active = []; disk = um.disk; reaped = 0 }))
    else none
