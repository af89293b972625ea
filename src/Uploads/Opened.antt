-- ===== src/Uploads/Opened.antt =====
-- The session that `init` opens.
use dingbap.Paths.Names.{path_join, is_trash_path}
use dingbap.Text.Laws.{text_eq_refl}
use dingbap.Paths.{Storage, drop_last}
use dingbap.Table.Laws.{lookup-delete, lookup-insert}
use dingbap.Uploads.Kept.{IsFresh}
use dingbap.Uploads.Start.{
  open_session, made_dir_of, new_meta, chosen_chunk_size, open_checked, init_at, init,
  check_destination, last_of, any_bad,
}
use dingbap.Uploads.Slices.{IsSized, chunk_count_lem}
use dingbap.Table.{insert, Table, lookup}
use dingbap.Text.{Text, text_eq, trim_slashes, replace_byte, split, join}
use dingbap.Base.{
  ◌∷◌, [], ◌≡◌, inl, inr, none, some, true, false, ℕ, refl, arith, All, Option-cases, ◌<◌, ◌||◌,
  ◌⊎◌, ◌∙◌, if◌then◌else◌, Option, zero, suc, sym, ap, subst, ℤ, negsuc, is_empty, pos, Bool-cases,
  ltb,
}
use dingbap.Uploads.{
  UploadMeta, ActiveUpload, UploadManager, Answers, Text, reap_each, insert, reap_expired,
  SessionDir, chunks_of, to_reap, remove_dir, holds, drop_active, UploadError, too_large, in_trash,
  invalid_filename,
}

abbrev SameAt : Text → UploadManager → UploadManager → Type 0
SameAt id um um' =
    (lookup id um'.active ≡ lookup id um.active) × (lookup id um'.disk ≡ lookup id um.disk)

reap_each-SameAt :
    (id : Text) (os : Answers) (entries : Table SessionDir) (um : UploadManager)
    → All (λ e. text_eq e.0 id ≡ true → to_reap os.at e.1 ≡ false) entries
    → SameAt id um (reap_each os entries um)
unfolding reap_each
reap_each-SameAt id os [] um h = (refl, refl)
reap_each-SameAt id os ((j, dir) ∷ entries) um h =
    let um' = remove_dir os.removed j (drop_active j um) in
    ground (
      arith,
      h.0,
      lookup-delete j id um.active,
      lookup-delete j id um.disk,
      reap_each-SameAt id os entries um h.1,
      reap_each-SameAt id os entries um' h.1,
    )

-- Only the new entry has the key.
insert-only :
    (id : Text) (now : ℕ) (dir : SessionDir) (disk : Table SessionDir)
    → lookup id disk ≡ none
    → to_reap now dir ≡ false
    → All (λ e. text_eq e.0 id ≡ true → to_reap now e.1 ≡ false) (insert id dir disk)
unfolding insert lookup
insert-only id now dir [] n k = ((λ e. k), tt)
insert-only id now dir ((j, d) ∷ disk) n k = ground (arith, insert-only id now dir disk)

reap_expired-SameAt :
    (id : Text) (os : Answers) (um : UploadManager)
    → All (λ e. text_eq e.0 id ≡ true → to_reap os.at e.1 ≡ false) um.disk
    → SameAt id um (reap_expired os um)
unfolding reap_expired
reap_expired-SameAt id os um h =
    ground (arith, reap_each-SameAt id os um.disk (record um { reaped = os.at }) h)

-- Where `init` gives a session, it stands in memory with an empty directory, for a file of the
-- size asked for.
pub record IsOpened (m : UploadMeta) (size : ℕ) (um : UploadManager) : Type 0 where
  pub sized : IsSized m
  pub same_size : m.size ≡ size
  pub active : lookup m.id um.active ≡ some (record { meta = m; received = []; aborted = false })
  pub empty : (i : ℕ) → chunks_of (lookup m.id um.disk) i ≡ none

open_session-IsOpened :
    (new : Text → UploadMeta) (os : Answers) (um : UploadManager) (m : UploadMeta) (size : ℕ)
    → ((id : Text)
        → ((new id).id ≡ id)
          × ((new id).created_at ≡ os.at)
          × ((new id).size ≡ size)
          × IsSized (new id))
    → IsFresh os um
    → (open_session new os um).1 ≡ inl m
    → IsOpened m size (open_session new os um).0
unfolding open_session made_dir_of
open_session-IsOpened new os um m size h f e = elim (Option-cases os.token) [
  | inl t ↦ ground (arith, t)
  | inr (id, t) ↦
      let n = f id t in
      let (same_id, now, s, z) = h id in
      let a : ActiveUpload = record { meta = new id; received = []; aborted = false } in
      let dir = made_dir_of id os.at (holds (new id)) um in
      let um' : UploadManager = record um {
        active = insert id a um.active;
        disk = insert id dir um.disk;
      } in
      let same : new id ≡ m = ground (arith, t) in
      let kept : SameAt id um' (reap_expired os um') =
        reap_expired-SameAt id os um' (insert-only id os.at dir um.disk n (ground (arith, now))) in
      let opened : IsOpened (new id) size (reap_expired os um') = record {
        sized = z;
        same_size = s;
        active =
            ap (λ q. lookup q (reap_expired os um').active) same_id
            ∙ kept.0
            ∙ ground (arith, lookup-insert id id a um.active, text_eq_refl id);
        empty = λ i.
            ap (λ q. chunks_of (lookup q (reap_expired os um').disk) i) same_id
            ∙ ap (λ o. chunks_of o i) kept.1
            ∙ ground (arith, n, lookup-insert id id dir um.disk, text_eq_refl id);
      } in
      let ends : reap_expired os um' ≡ (open_session new os um).0 = ground (arith, t) in
      subst (IsOpened m size) ends (subst (λ k. IsOpened k size (reap_expired os um')) same opened)
]

new_meta-IsSized :
    (path name : Text) (size c now : ℕ) (by id : Text)
    → 0 < c
    → IsSized (new_meta path name size c now by id)
unfolding new_meta
new_meta-IsSized path name size c now by id h =
    let (some_chunk, holds_all, full) = chunk_count_lem size c h in
    record { some_bytes = h; some_chunk = some_chunk; holds_all = holds_all; full = full }

chosen_chunk_size_pos : (c : ℤ) → 0 < chosen_chunk_size c
unfolding chosen_chunk_size
chosen_chunk_size_pos (negsuc n) = ground arith
chosen_chunk_size_pos (pos zero) = ground arith
chosen_chunk_size_pos (pos (suc n)) = ground arith

-- `init` is refused and leaves the manager as it was, or it opens a session.
abbrev Outcome : Answers → ℕ → UploadManager → UploadManager × (UploadMeta ⊎ UploadError) → Type 0
Outcome os size um r =
    ((x : UploadError) × (r ≡ (um, inr x)))
    ⊎ ((path : Text) × (name : Text) × (c : ℕ) × (by : Text) × (0 < c)
        × (r ≡ open_session (new_meta path name size c os.at by) os um))

open_checked-Outcome :
    (e : Option UploadError) (path name : Text) (size c : ℕ) (by : Text) (os : Answers)
    (um : UploadManager)
    → 0 < c
    → Outcome os size um (open_checked e (new_meta path name size c os.at by) os um)
unfolding open_checked
open_checked-Outcome (some e) path name size c by os um h = inl (e, refl)
open_checked-Outcome none path name size c by os um h = inr (path, name, c, by, h, refl)

init_at-Outcome :
    (st : Storage) (max : ℕ) (dest sub name : Text) (size c : ℕ) (by : Text) (os : Answers)
    (um : UploadManager)
    → 0 < c
    → Outcome os size um (init_at st max dest sub name size c by os um)
unfolding init_at
init_at-Outcome st max dest sub name size c by os um h =
    let trimmed = trim_slashes dest in
    let dest_rel = if is_empty sub then trimmed else path_join (trimmed ∷ sub ∷ []) in
    let opened =
      open_checked-Outcome (check_destination st dest_rel name os) dest_rel name size c by os um
        h in
    elim (Bool-cases (ltb max size)) [
      | inl e ↦ inl (too_large, rw e refl)
      | inr e ↦
          elim (Bool-cases
            (is_trash_path dest_rel || is_trash_path (path_join (dest_rel ∷ name ∷ [])))) [
              | inl k ↦ inl (in_trash, rw (e, k) refl)
              | inr k ↦ rw (e, k) opened
            ]
    ]

init-Outcome :
    (st : Storage) (max : ℕ) (dest name : Text) (n : ℕ) (chunk : ℤ) (by : Text) (os : Answers)
    (um : UploadManager)
    → Outcome os n um (init st max dest name (pos n) chunk by os um)
unfolding init
init-Outcome st max dest name n chunk by os um =
    let rel = replace_byte b'\\' b'/' (trim_slashes name) in
    let parts = split b'/' rel in
    let checked =
      init_at-Outcome st max dest (join b'/' (drop_last parts)) (last_of parts) n
        (chosen_chunk_size chunk) by os um (chosen_chunk_size_pos chunk) in
    elim (Bool-cases (is_empty rel || any_bad parts)) [
      | inl e ↦ inl (invalid_filename, rw e refl)
      | inr e ↦ rw e checked
    ]

refused-IsOpened :
    (r : UploadManager × (UploadMeta ⊎ UploadError)) (um : UploadManager) (x : UploadError)
    (m : UploadMeta) (n : ℕ)
    → r ≡ (um, inr x)
    → r.1 ≡ inl m
    → IsOpened m n r.0
refused-IsOpened r um x m n k e = ground (arith, k, e)

pub init-IsOpened :
    (st : Storage) (max : ℕ) (dest name : Text) (n : ℕ) (chunk : ℤ) (by : Text) (os : Answers)
    (um : UploadManager) (m : UploadMeta)
    → IsFresh os um
    → (init st max dest name (pos n) chunk by os um).1 ≡ inl m
    → IsOpened m n (init st max dest name (pos n) chunk by os um).0
unfolding new_meta
init-IsOpened st max dest name n chunk by os um m f e =
    let r = init st max dest name (pos n) chunk by os um in
    elim (init-Outcome st max dest name n chunk by os um) [
      | inl (x, k) ↦ refused-IsOpened r um x m n k e
      | inr (path, base, c, who, h, k) ↦
          let new = new_meta path base n c os.at who in
          let done = ap (λ (q : UploadManager × (UploadMeta ⊎ UploadError)). q.1) (sym k) ∙ e in
          let first = ap (λ (q : UploadManager × (UploadMeta ⊎ UploadError)). q.0) (sym k) in
          subst (IsOpened m n) first (
            open_session-IsOpened new os um m n
              (λ id. (refl, refl, refl, new_meta-IsSized path base n c os.at who id h)) f done)
    ]
