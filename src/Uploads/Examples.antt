-- ===== src/Uploads/Examples.antt =====
-- Uploads of a short text in chunks of five bytes, into a storage folder without links.
use dingbap.Uploads.Requests.{
  handle_upload_chunk, write_body, chunk_reply, handle_upload_abort, raw, written, part, refused,
  method_not_allowed,
}
use dingbap.Web.{Request}
use dingbap.Paths.Confinement.{ResolvesClean, IsInside, IsClean}
use dingbap.Shares.{valid_share_token}
use dingbap.Paths.Names.{sanitize_name, path_join}
use dingbap.Uploads.Start.{
  init, init_at, open_checked, open_session, new_meta, chunk_count, chosen_chunk_size,
  check_destination, check_final, made_dir_of, bad_part,
}
use dingbap.Uploads.Tracks.{IsGood}
use dingbap.Uploads.Chunks.{
  complete, made, write_chunk, write_locked, expected_size, copy_chunk, store_chunk,
  complete_locked, complete_at, complete_into, write_final, assemble, end_session, abort, status,
  failed,
}
use dingbap.Uploads.Whole.{any_fine, write_each}
use dingbap.Table.{lookup, insert, delete}
use dingbap.Text.{codes, Text, trim, split, join, text_eq, has_prefix}
use dingbap.Paths.{FileSystem, Storage, path_eq, safe_path, failed}
use dingbap.Base.{
  ◌∷◌, [], ◌<◌, ◌≡◌, ◌⊎◌, if◌then◌else◌, inl, none, some, true, false, List, ℕ, refl, zero, suc,
  arith, pos, find?, keep, subst, take, negsuc, All, length,
}
use dingbap.Uploads.{
  UploadMeta, ActiveUpload, UploadManager, Answers, Text, lookup, UploadError, reap_expired,
  reap_each, acquire, hydrate, read_meta_disk, scan_received_disk, collect, received_list,
  valid_share_token, incomplete,
}
use dingbap.Uploads.Sent.{complete-write_each}
use dingbap.Uploads.Kept.{
  run-IsGood, Call, run, completes, apply, IsFresh, inits, writes, asks, starts, aborts,
}
use dingbap.Uploads.Resumed.{status-restart}
use dingbap.Uploads.Made.{complete-IsInside}
use dingbap.Uploads.Refused.{refused_lem}
use dingbap.Text.{has_prefix, contains_byte, trim, split, join, text_eq}
use dingbap.Paths.Names.{sanitize_name, base, path_join, is_trash_path}
use dingbap.Paths

-- Names what the runs below compute with.
program : Unit {0}
unfolding run apply init init_at open_checked open_session new_meta chunk_count chosen_chunk_size
    check_destination check_final made_dir_of reap_expired reap_each write_chunk write_locked
    expected_size copy_chunk store_chunk complete complete_locked complete_at complete_into
    write_final assemble end_session abort status acquire hydrate read_meta_disk scan_received_disk
    collect received_list write_each insert lookup delete bad_part sanitize_name path_join trim
    split join valid_share_token find? keep text_eq has_prefix contains_byte is_trash_path safe_path
    base
program = tt

abbrev root : Paths.FilePath
root = codes "data" ∷ []

-- The root is a folder, and nothing else is there.
abbrev only_root : FileSystem
only_root = record {
  abs = λ dir. some root;
  eval_symlinks = λ path. if path_eq path root then some root else none;
  lstat = λ path. Paths.missing;
  stat = λ path. if path_eq path root then Paths.folder else Paths.absent;
}

abbrev storage : Storage
storage = record { fs = only_root; path_root = none; root_dir = codes "." }

abbrev zeros : ℕ → Text
zeros zero = []
zeros (suc n) = b'0' ∷ zeros n

abbrev token : Text
token = zeros 64

abbrev at : ℕ → Answers
at now = record {
  at = now;
  token = some token;
  mkdir_all = λ path. some only_root;
  made_dir = true;
  saved = true;
  opened = true;
  copied = true;
  closed = true;
  renamed = true;
  removed = true;
  listed = true;
}

-- A write during which the disk is full.
abbrev full : ℕ → Answers
full now = record (at now) { copied = false }

abbrev nothing : UploadManager
nothing = record { active = []; disk = []; reaped = 0 }

abbrev words : Text
words = codes "hello, world"

nothing-IsGood : IsGood nothing
unfolding lookup
nothing-IsGood = record { fits = λ id dir m e k. cc; tracked = λ id a e. cc }

abbrev asked : UploadManager × (UploadMeta ⊎ UploadError)
asked = init storage 1000 (codes "") (codes "a.txt") (pos 12) (pos 5) (codes "ada") (at 100) nothing

abbrev meta : UploadMeta
meta = record {
  id = token;
  path = codes "";
  name = codes "a.txt";
  size = 12;
  chunk_size = 5;
  total_chunks = 3;
  created_at = 100;
  created_by = codes "ada";
}

asked_lem : asked.1 ≡ inl meta
unfolding program
asked_lem = refl

-- The last chunk first, one write that fails, and one chunk twice.
abbrev writes_of : List (ℕ × Answers)
writes_of = (2, at 101) ∷ (0, full 102) ∷ (0, at 103) ∷ (1, at 104) ∷ (1, at 105) ∷ []

covered : (j : ℕ) → j < 3 → any_fine j writes_of ≡ true
covered j l = ground arith

fresh : IsFresh (at 100) nothing
unfolding lookup
fresh id e = refl

complete-write_each_example :
    (complete storage token (at 110) (write_each meta words writes_of asked.0)).1
    ≡ made (codes "data" ∷ codes "a.txt" ∷ []) words
unfolding program
complete-write_each_example =
    complete-write_each storage storage 1000 (codes "") (codes "a.txt") words (pos 5) (codes "ada")
      (at 100) (at 110) nothing meta writes_of root (codes "data" ∷ codes "a.txt" ∷ [])
      nothing-IsGood fresh refl refl (refl, (refl, (refl, (refl, (refl, tt))))) covered refl refl
      refl refl refl refl

-- The manager after the chunks are sent, and the session in it.
abbrev sent : UploadManager
sent = write_each meta words writes_of asked.0

abbrev calls : List Call
calls =
    inits storage 1000 (codes "") (codes "a.txt") (pos 12) (pos 5) (codes "ada") (at 100)
    ∷ writes token (pos 2) (codes "ld") (pos 2) (at 101)
    ∷ writes token (pos 1) (codes ", wor") (negsuc 0) (at 102)
    ∷ asks token (at 103)
    ∷ starts (at 104)
    ∷ writes token (pos 0) (codes "hello") (pos 5) (at 105)
    ∷ completes storage token (at 106)
    ∷ aborts token (at 107)
    ∷ []

run-IsGood_example : IsGood (run nothing calls)
unfolding program
run-IsGood_example =
    run-IsGood nothing calls (fresh, (tt, (tt, (tt, (tt, (tt, (tt, (tt, tt)))))))) nothing-IsGood

abbrev half : UploadManager
half = run nothing (take 3 calls)

half-IsGood : IsGood half
unfolding program
half-IsGood = run-IsGood nothing (take 3 calls) (fresh, (tt, (tt, tt))) nothing-IsGood

abbrev half_session : ActiveUpload
half_session = record { meta = meta; received = 1 ∷ 2 ∷ []; aborted = false }

status-restart_example :
    (status token (at 6000) (record half { active = []; reaped = 5000 })).1
    ≡ (status token (at 6000) half).1
unfolding program
status-restart_example =
    status-restart token (at 5000) (at 6000) half (record half { active = []; reaped = 5000 })
      half_session half-IsGood (refl, tt) refl refl refl refl refl

refused_lem_example :
    ((write_chunk token (pos 0) (codes "hell") (negsuc 0) (at 103) half).1 ≡ some incomplete
      → (write_chunk token (pos 0) (codes "hell") (negsuc 0) (at 103) half).0 ≡ half)
    × ((complete storage token (at 103) half).1 ≡ failed incomplete
        → (complete storage token (at 103) half).0 ≡ half)
unfolding program
refused_lem_example =
    refused_lem storage token (pos 0) (codes "hell") (negsuc 0) (at 103) half half_session
      incomplete refl refl refl

only_root-ResolvesClean : ResolvesClean only_root
unfolding program
only_root-ResolvesClean path target e =
    let same : root ≡ target = ground arith in subst (All IsClean) same ((refl, refl), tt)

complete-IsInside_example :
    (Paths.FileSystem.stat only_root (codes "data" ∷ codes "a.txt" ∷ []) ≡ Paths.absent)
    × IsInside root (codes "data" ∷ codes "a.txt" ∷ [])
    × (a : ActiveUpload) × ((acquire token (at 110) sent).1 ≡ inl a)
    × (length words ≡ a.meta.size)
unfolding program
complete-IsInside_example =
    complete-IsInside storage token (at 110) sent root (codes "data" ∷ codes "a.txt" ∷ []) words
      only_root-ResolvesClean ((refl, refl), tt) refl refl

abbrev request : Request
request = record {
  method = codes "PUT";
  path = codes "/api/upload/chunk";
  host = [];
  tls = false;
  forwarded_proto = [];
  origin = [];
  referer = [];
  accept = [];
}

-- What the handlers answer.
replies :
    ((handle_upload_chunk request token []
        (some (pos 0))
        (raw (codes "hello") (some (pos 5)))
        (at 103)
        half).1
      ≡ written (pos 0) 3 3)
    × ((handle_upload_chunk request [] token (some (pos 0)) (part (codes "hello!")) (at 103) half).1
        ≡ refused 400 incomplete)
    × ((handle_upload_abort request (some token) (at 103) half).1 ≡ method_not_allowed)
unfolding program handle_upload_chunk write_body chunk_reply handle_upload_abort
replies = (refl, refl, refl)
