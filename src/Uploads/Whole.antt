-- ===== src/Uploads/Whole.antt =====
-- A file sent in chunks, in any order and with failures on the way, comes out whole.
use dingbap.Uploads.Kept.{write_chunk-IsGood}
use dingbap.Text.Laws.{text_eq_refl}
use dingbap.Table.Laws.{lookup-insert}
use dingbap.Uploads.Slices.{slice, IsSized, take_all, expected_size-slice}
use dingbap.Shares.{valid_share_token}
use dingbap.Table.{lookup, insert}
use dingbap.Text.{Text}
use dingbap.Uploads.Chunks.{
  write_chunk, copy_chunk, write_locked, store_chunk, expected_size, put_chunk, add_index,
}
use dingbap.Base.{
  ◌∷◌, [], ◌+◌, ◌≡◌, ◌==◌, ◌&&◌, ◌||◌, ◌∙◌, if◌then◌else◌, inl, inr, some, true, false, Bool, List,
  ℕ, refl, arith, ap, All, is_some, pos, length, negsuc, take, ltb, Bool-cases, ltb→lt, ℤ, Option,
  sym, subst, ◌<◌, ==_iff, lt→ltb,
}
use dingbap.Uploads.{
  UploadMeta, ActiveUpload, UploadManager, Answers, Text, acquire, is_over, chunks_of, lookup,
  valid_share_token, SessionDir, UploadError,
}
use dingbap.Uploads.Tracks.{IsGood}

-- Every call of the operating system succeeds.
abbrev pub is_fine : Answers → Bool
is_fine os = os.opened && (os.copied && (os.closed && os.renamed))

-- The client's chunks, one after the other: their indices, with what the system answers.
unfoldable pub write_each : UploadMeta → Text → List (ℕ × Answers) → UploadManager → UploadManager
unfolding write_chunk
write_each m bytes [] um = um
write_each m bytes ((i, os) ∷ ws) um =
    write_each m bytes ws (write_chunk m.id (pos i) (slice m.chunk_size i bytes) (negsuc 0) os um).0

-- Some chunk of the index is written without a failure.
abbrev pub any_fine : ℕ → List (ℕ × Answers) → Bool
any_fine j [] = false
any_fine j ((i, os) ∷ ws) = (j == i && is_fine os) || any_fine j ws

abbrev pub InTime : UploadMeta → List (ℕ × Answers) → Type 0
InTime m = All (λ w. is_over w.1.at m ≡ false)

abbrev pub on_disk : ℕ → UploadMeta → UploadManager → Bool
on_disk j m um = is_some (chunks_of (lookup m.id um.disk) j)

-- The session is in memory, and the chunks on the disk are those of the text.
pub record IsPartOf (m : UploadMeta) (bytes : Text) (um : UploadManager) : Type 0 where
  pub in_memory : (a : ActiveUpload) × (lookup m.id um.active ≡ some a) × (a.meta ≡ m)
  pub slices :
      (i : ℕ) (chunk : Text)
      → chunks_of (lookup m.id um.disk) i ≡ some chunk
      → chunk ≡ slice m.chunk_size i bytes

pub acquire_active :
    (id : Text) (os : Answers) (um : UploadManager) (a : ActiveUpload)
    → valid_share_token id ≡ true
    → lookup id um.active ≡ some a
    → is_over os.at a.meta ≡ false
    → acquire id os um ≡ (um, inl a)
unfolding acquire
acquire_active id os um a v e o = ground (arith, v, e, o)

copy_cases :
    (id : Text) (a : ActiveUpload) (dir : SessionDir) (i expected : ℕ) (chunk : Text) (os : Answers)
    (um : UploadManager)
    → lookup id um.disk ≡ some dir
    → length chunk ≡ expected
    → ((copy_chunk id a i expected chunk os um).0
        ≡ (if is_fine os then store_chunk id a i chunk um else um))
unfolding copy_chunk
copy_cases id a dir i expected chunk os um d l =
    let whole : take (expected + 1) chunk ≡ chunk =
      take_all (expected + 1) chunk (omega (arith, l)) in
    let right : (length chunk == expected) ≡ true = ground (arith, l) in
    rw (whole, d, right) (ground arith)

pub acquired_write :
    (id : Text) (index : ℤ) (chunk : Text) (declared : ℤ) (os : Answers) (um : UploadManager)
    (a : ActiveUpload)
    → acquire id os um ≡ (um, inl a)
    → write_chunk id index chunk declared os um ≡ write_locked id a index chunk declared os um
unfolding write_chunk
acquired_write id index chunk declared os um a e = ground (arith, e)

locked_write :
    (id : Text) (a : ActiveUpload) (i expected : ℕ) (chunk : Text) (os : Answers)
    (um : UploadManager)
    → a.aborted ≡ false
    → ltb i a.meta.total_chunks ≡ true
    → expected_size a.meta i ≡ some expected
    → write_locked id a (pos i) chunk (negsuc 0) os um ≡ copy_chunk id a i expected chunk os um
unfolding write_locked
locked_write id a i expected chunk os um u l e = ground (arith, u, l, e)

refused_write :
    (id : Text) (a : ActiveUpload) (i : ℕ) (chunk : Text) (os : Answers) (um : UploadManager)
    → ltb i a.meta.total_chunks ≡ false
    → (write_locked id a (pos i) chunk (negsuc 0) os um).0 ≡ um
unfolding write_locked
refused_write id a i chunk os um l = ground (arith, l)

write_cases :
    (m : UploadMeta) (bytes : Text) (i : ℕ) (os : Answers) (um : UploadManager) (a : ActiveUpload)
    → IsGood um
    → IsSized m
    → length bytes ≡ m.size
    → valid_share_token m.id ≡ true
    → lookup m.id um.active ≡ some a
    → a.meta ≡ m
    → is_over os.at m ≡ false
    → (write_chunk m.id (pos i) (slice m.chunk_size i bytes) (negsuc 0) os um).0 ≡ (
        if ltb i m.total_chunks && is_fine os
        then store_chunk m.id a i (slice m.chunk_size i bytes) um
        else um)
write_cases m bytes i os um a g z l v e s o =
    let (dir, d, t) = g.tracked m.id a e in
    let chunk = slice m.chunk_size i bytes in
    let here =
      acquired_write m.id (pos i) chunk (negsuc 0) os um a
        (acquire_active m.id os um a v e (ap (is_over os.at) s ∙ o)) in
    let total : a.meta.total_chunks ≡ m.total_chunks = ap (λ (n : UploadMeta). n.total_chunks) s in
    let first = ap (λ (r : UploadManager × Option UploadError). r.0) here in
    elim (Bool-cases (ltb i m.total_chunks)) [
      | inl k ↦
          let fits : expected_size a.meta i ≡ some (length chunk) =
            ap (λ n. expected_size n i) s
            ∙ expected_size-slice m bytes i z l (ltb→lt i m.total_chunks k) in
          let locked =
            locked_write m.id a i (length chunk) chunk os um t.usable (ap (ltb i) total ∙ k) fits in
          rw k (
            first
            ∙ ap (λ (r : UploadManager × Option UploadError). r.0) locked
            ∙ copy_cases m.id a dir i (length chunk) chunk os um d refl)
      | inr k ↦ rw k (first ∙ refused_write m.id a i chunk os um (ap (ltb i) total ∙ k))
    ]

-- What a stored chunk changes.
stored_lem :
    (m : UploadMeta) (bytes : Text) (i : ℕ) (um : UploadManager) (a : ActiveUpload)
    → IsGood um
    → lookup m.id um.active ≡ some a
    → a.meta ≡ m
    → IsPartOf m bytes um
    → IsPartOf m bytes (store_chunk m.id a i (slice m.chunk_size i bytes) um)
      × ((j : ℕ)
          → on_disk j m (store_chunk m.id a i (slice m.chunk_size i bytes) um)
            ≡ (j == i || on_disk j m um))
unfolding store_chunk
stored_lem m bytes i um a g e s p =
    let (dir, d, t) = g.tracked m.id a e in
    let chunk = slice m.chunk_size i bytes in
    let dir' = put_chunk i chunk dir in
    let a' : ActiveUpload = record a { received = add_index i a.received } in
    let on = lookup-insert m.id m.id dir' um.disk in
    let here = lookup-insert m.id m.id a' um.active in
    let same_text = text_eq_refl m.id in
    let um' : UploadManager = record um {
      active = insert m.id a' um.active;
      disk = insert m.id dir' um.disk;
    } in
    let stored : store_chunk m.id a i chunk um ≡ um' = ground (arith, d) in
    let found : (j : ℕ)
        → chunks_of (lookup m.id um'.disk) j
          ≡ (if j == i then some chunk else chunks_of (lookup m.id um.disk) j) =
      λ j. ground (arith, d, on, same_text) in
    let part : IsPartOf m bytes um' = record {
      in_memory = (a', ground (arith, here, same_text), s);
      slices = λ j b c. elim (Bool-cases (j == i)) [
        | inl f ↦
            let same : i ≡ j = sym ((==_iff j i).0 f) in
            let same_chunk : b ≡ chunk = ground (arith, f, found j) in
            same_chunk ∙ ap (λ k. slice m.chunk_size k bytes) same
        | inr f ↦ p.slices j b (ground (arith, f, found j))
      ];
    } in
    let disks : (j : ℕ) → on_disk j m um' ≡ (j == i || on_disk j m um) =
      λ j. ground (arith, d, on, same_text) in
    (subst (IsPartOf m bytes) (sym stored) part, λ j. ap (on_disk j m) stored ∙ disks j)

-- After the chunks are sent, those on the disk are still the text's, and each one that was there
-- or was written without a failure is there.
pub write_each_lem :
    (m : UploadMeta) (bytes : Text) (ws : List (ℕ × Answers)) (um : UploadManager)
    → IsSized m
    → length bytes ≡ m.size
    → valid_share_token m.id ≡ true
    → InTime m ws
    → IsGood um
    → IsPartOf m bytes um
    → IsGood (write_each m bytes ws um)
      × IsPartOf m bytes (write_each m bytes ws um)
      × ((j : ℕ)
          → j < m.total_chunks
          → (on_disk j m um || any_fine j ws) ≡ true
          → on_disk j m (write_each m bytes ws um) ≡ true)
unfolding write_each
write_each_lem m bytes [] um z l v t g p = (g, p, λ j k c. ground arith)
write_each_lem m bytes ((i, os) ∷ ws) um z l v t g p =
    let chunk = slice m.chunk_size i bytes in
    let um' = (write_chunk m.id (pos i) chunk (negsuc 0) os um).0 in
    let (a, e, s) = p.in_memory in
    let written = write_cases m bytes i os um a g z l v e s t.0 in
    let good : IsGood um' = write_chunk-IsGood m.id (pos i) chunk (negsuc 0) os um g in
    elim (Bool-cases (ltb i m.total_chunks && is_fine os)) [
      | inl k ↦
          let (part, disks) = stored_lem m bytes i um a g e s p in
          let stored : um' ≡ store_chunk m.id a i chunk um = ground arith in
          let (g', p', all) =
            write_each_lem m bytes ws um' z l v t.1 good
              (subst (IsPartOf m bytes) (sym stored) part) in
          (g', p', λ j b c. all j b (ground (arith, ap (on_disk j m) stored, disks j)))
      | inr k ↦
          let kept : um' ≡ um = ground arith in
          let (g', p', all) =
            write_each_lem m bytes ws um' z l v t.1 good (subst (IsPartOf m bytes) (sym kept) p) in
          (
            g',
            p',
            λ j b c.
                all j b
                  (ground (arith, ap (on_disk j m) kept, ==_iff j i, lt→ltb j m.total_chunks b)),
          )
    ]
